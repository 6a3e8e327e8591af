-- ===== src/Classifier/Services.antt =====
-- classifier.py: the name of a service, the JSON of a line and the severity that it states.
use loboguara.Common.{
  String, not, Option, none, some, List, [], ◌∷◌, map, keep, lookup, str_eq, if◌then◌else◌,
}
use loboguara.Common.Text.{◌⧺◌, lower, contains, starts_with, strip}
use loboguara.Models.{Value, Fields, object}
use loboguara.World.{Env}
use loboguara.Providers.{truthy_entry}
use loboguara.Classifier.Words.{has_any, search_text}

-- `_JSON_LEVEL_SEVERITY`
abbrev pub json_level_severity : List (String × String)
json_level_severity =
    ("trace", "INFO")
    ∷ ("debug", "INFO")
    ∷ ("info", "INFO")
    ∷ ("information", "INFO")
    ∷ ("warn", "WARN")
    ∷ ("warning", "WARN")
    ∷ ("error", "ERROR")
    ∷ ("err", "ERROR")
    ∷ ("critical", "CRITICAL")
    ∷ ("crit", "CRITICAL")
    ∷ ("fatal", "FATAL")
    ∷ ("panic", "FATAL")
    ∷ ("emergency", "FATAL")
    ∷ ("alert", "CRITICAL")
    ∷ []

-- `str(labels.get(key, "") or "")`
abbrev pub label_text : Env → Fields → String → String
label_text env labels key = elim (truthy_entry key labels) [ none ↦ "" | some v ↦ env.value_text v ]

-- `" ".join(...)`
unfoldable pub join_words : List String → String
join_words [] = ""
join_words (w ∷ []) = w
join_words (w ∷ words) = w ⧺ " " ⧺ join_words words

-- `joined`
unfoldable pub joined_names : Env → String → Fields → String
unfolding join_words
joined_names env service labels = join_words (
    map lower (
      keep (λ part. not (str_eq part ""))
        (service
          ∷ map (label_text env labels)
              ("compose_service" ∷ "service" ∷ "app" ∷ "job" ∷ "container" ∷ []))))

seriema_service : String → String
seriema_service joined =
    if contains "beat" joined
    then "seriema-beat"
    else if contains "worker" joined
    then "seriema-worker"
    else if contains "api" joined
    then "seriema-api"
    else "seriema"

celery_service : String → String
celery_service joined =
    if contains "ingest" joined
    then "celery-ingest"
    else if contains "download" joined
    then "celery-download"
    else if contains "parser" joined
    then "celery-parser"
    else if contains "compendio" joined
    then "celery-compendio"
    else if contains "compêndio" joined
    then "celery-compendio"
    else "celery"

-- `(service or "oasis-radar").strip().lower() or "oasis-radar"`
own_name : String → String
own_name service =
    let name = lower (strip (if str_eq service "" then "oasis-radar" else service)) in
    if str_eq name "" then "oasis-radar" else name

service_of_names : String → String → String
service_of_names service joined =
    if has_any ("postgres" ∷ "postgre" ∷ "monstro-postgres" ∷ []) joined
    then "postgres"
    else if has_any ("redis" ∷ "monstro-redis" ∷ []) joined
    then "redis"
    else if has_any ("seaweed" ∷ "weed" ∷ "sargaco" ∷ "sargaço" ∷ "monstro-sargaco" ∷ []) joined
    then "sargaco"
    else if contains "seriema" joined
    then seriema_service joined
    else if contains "loki" joined
    then "loki"
    else if has_any ("celery" ∷ "ingest" ∷ "download" ∷ "parser" ∷ "compendio" ∷ "compêndio" ∷ [])
        joined
    then celery_service joined
    else if contains "veredas" joined
    then "veredas"
    else if contains "ariranha" joined
    then "ariranha"
    else if contains "candeia" joined
    then "candeia"
    else own_name service

-- `_normalize_service`
unfoldable pub normalize_service : Env → String → Fields → String
unfolding service_of_names seriema_service celery_service own_name
normalize_service env service labels = service_of_names service (joined_names env service labels)

object_of : Option Value → Option Fields
object_of (some (object fs)) = some fs
object_of _ = none

-- `_parsed_json`
unfoldable pub parsed_json : Env → String → Option Fields
unfolding object_of
parsed_json env line = if starts_with line "{" then object_of (env.json_loads line) else none

-- the text from the first brace on
from_brace : String → Option String
from_brace line = search_text (λ s. if starts_with s "{" then some s else none) line

-- `_extract_embedded_json`
unfoldable pub extract_embedded_json : Env → String → Option Fields
unfolding object_of from_brace
extract_embedded_json env line = elim (from_brace line) [
  | none ↦ none
  | some s ↦ object_of (env.json_loads s)
]

-- the loop of `_severity_from_json`
unfoldable pub severity_under : Env → Fields → List String → Option String
severity_under env parsed [] = none
severity_under env parsed (key ∷ keys) =
    let rest = severity_under env parsed keys in
    elim (truthy_entry key parsed) [
      | none ↦ rest
      | some v ↦ elim (lookup (lower (strip (env.value_text v))) json_level_severity) [
        | none ↦ rest
        | some severity ↦ some severity
      ]
    ]

-- `_severity_from_json`
unfoldable pub severity_from_json : Env → Fields → Option String
unfolding severity_under
severity_from_json env parsed =
    severity_under env parsed ("severity" ∷ "level" ∷ "log_level" ∷ "status" ∷ [])

-- `parsed.get(k1) or parsed.get(k2) or ...`
unfoldable pub first_entry : List String → Fields → Option Value
first_entry [] fs = none
first_entry (key ∷ keys) fs =
    let rest = first_entry keys fs in elim (truthy_entry key fs) [ none ↦ rest | some v ↦ some v ]

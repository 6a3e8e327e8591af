-- ===== src/Classifier/Lines.antt =====
-- classifier.py: `classify_log_line`.
use loboguara.Common.{String, Option, none, some, List, [], ◌∷◌, str_eq, if◌then◌else◌}
use loboguara.Common.Text.{◌⧺◌, starts_with, strip}
use loboguara.Models.{Fields, field, end}
use loboguara.World.{Env}
use loboguara.Classifier.Words.{title_from_text}
use loboguara.Classifier.Services.{normalize_service, parsed_json, severity_from_json, first_entry}
use loboguara.Classifier.Rules.{
  SeverityTitle, default_text_classification, classify_postgres, classify_redis, classify_celery,
  classify_sargaco, classify_loki,
}
use loboguara.Classifier.Seriema.{classify_seriema}
use loboguara.Classifier.Veredas.{classify_veredas}

-- `{**labels, **parsed}`: the first entry of a key counts
unfoldable pub merge_fields : Fields → Fields → Fields
merge_fields end labels = labels
merge_fields (field k v parsed) labels = field k v (merge_fields parsed labels)

-- the rules of the service
unfoldable pub classify_by_service : Env → String → String → Fields → SeverityTitle
classify_by_service env service line labels =
    if str_eq service "postgres"
    then classify_postgres line
    else if str_eq service "redis"
    then classify_redis line
    else if str_eq service "loki"
    then classify_loki line
    else if str_eq service "sargaco"
    then classify_sargaco line
    else if str_eq service "veredas"
    then classify_veredas env line
    else if starts_with service "celery"
    then classify_celery service line
    else if starts_with service "seriema"
    then classify_seriema env service line labels
    else default_text_classification (service ⧺ " log") line

-- `text or default`
abbrev pub or_text : String → String → String
or_text s default = if str_eq s "" then default else s

-- the text of the first entry that counts as true
abbrev pub entry_text : Env → List String → Fields → String → String
entry_text env keys parsed default = elim (first_entry keys parsed) [
  | none ↦ default
  | some v ↦ env.value_text v
]

-- the branch of a line that states its severity, and the one behind it
unfoldable pub classify_stated :
    Env → Option String → String → String → String → Fields → SeverityTitle
classify_stated env none service message title labels =
    classify_by_service env service message labels
classify_stated env (some severity) service message title labels =
    (severity, or_text title (title_from_text (service ⧺ " log") message))

-- a line that is a JSON object
unfoldable pub classify_parsed : Env → String → String → Fields → Fields → SeverityTitle
unfolding classify_stated
classify_parsed env service line labels parsed =
    let message = entry_text env ("message" ∷ "msg" ∷ "event" ∷ "detail" ∷ []) parsed line in
    let title = strip (entry_text env ("title" ∷ "event" ∷ []) parsed message) in
    if starts_with service "seriema"
    then (let derived = classify_seriema env service message (merge_fields parsed labels) in
        (derived.0, or_text title derived.1))
    else classify_stated env (severity_from_json env parsed) service message title labels

-- what follows the reading of a line as JSON
unfoldable pub classify_line : Env → String → String → Fields → Option Fields → SeverityTitle
classify_line env service line labels none = classify_by_service env service line labels
classify_line env service line labels (some parsed) = classify_parsed env service line labels parsed

-- `classify_log_line`
unfoldable pub classify_log_line : Env → String → String → Fields → SeverityTitle
unfolding classify_line
classify_log_line env service log_line labels =
    let line = strip log_line in
    classify_line env (normalize_service env service labels) line labels (parsed_json env line)

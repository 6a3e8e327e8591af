-- ===== src/Classifier/Veredas.antt =====
-- classifier.py: the rules for the lines of Veredas.
use Prim.Native.Char.{code}
use loboguara.Common.{
  String, Bool, false, ◌&&◌, ◌||◌, Option, none, some, List, [], ◌∷◌, ◌==◌, str_eq, if◌then◌else◌,
}
use loboguara.Common.Text.{◌⧺◌, lower, contains, lstrip}
use loboguara.Models.{Fields}
use loboguara.World.{Env}
use loboguara.Classifier.Words.{title_from_text, behind}
use loboguara.Classifier.Services.{extract_embedded_json, severity_from_json, first_entry}
use loboguara.Classifier.Rules.{SeverityTitle, default_text_classification}

-- `(.*)$`: the text, but for a newline at its end; `none` where a newline stands inside
rest_of_line : String → Option String
rest_of_line String.[] = some ""
rest_of_line (String.◌∷◌ c s) =
    let rest = rest_of_line s in
    if code c == 10
    then (if str_eq s "" then some "" else none)
    else elim rest [ none ↦ none | some r ↦ some (String.◌∷◌ c r) ]

split_by : List String → String → Option String × String
split_by [] line = (none, line)
split_by (literal ∷ literals) line =
    let rest = split_by literals line in
    elim (behind (literal ⧺ ":") line) [
      | none ↦ rest
      | some s ↦ elim (rest_of_line (lstrip s)) [
        | none ↦ (none, line)
        | some body ↦ (some literal, body)
      ]
    ]

-- `_split_prefixed_log_line`
unfoldable pub split_prefixed_log_line : String → Option String × String
unfolding split_by rest_of_line
split_prefixed_log_line line =
    split_by ("INFO" ∷ "WARNING" ∷ "WARN" ∷ "ERROR" ∷ "CRITICAL" ∷ "DEBUG" ∷ []) line

-- `prefix == name`
abbrev pub has_prefix : Option String → String → Bool
has_prefix none name = false
has_prefix (some s) name = str_eq s name

-- the severity that the JSON of the line states, if there is one
abbrev pub stated : Env → Option Fields → Option String
stated env none = none
stated env (some parsed) = severity_from_json env parsed

-- `message`
unfoldable pub veredas_message : Env → Option Fields → String → String → String
veredas_message env none remainder line = remainder
veredas_message env (some parsed) remainder line =
    elim (first_entry ("message" ∷ "msg" ∷ "event" ∷ "detail" ∷ []) parsed) [
      | none ↦ if str_eq remainder "" then line else remainder
      | some v ↦ env.value_text v
    ]

-- `json_severity` and what follows the tests of words
unfoldable pub veredas_stated : Option String → String → String → SeverityTitle
veredas_stated none message remainder = default_text_classification "Veredas log" remainder
veredas_stated (some severity) message remainder = (severity, title_from_text "Veredas log" message)

-- the tests of words, and what follows them
unfoldable pub veredas_by_words :
    Env → Option String → String → String → Option Fields → String → SeverityTitle
unfolding veredas_stated
veredas_by_words env prefix remainder line parsed message =
    let low = lower message in
    let whole = if str_eq remainder "" then line else remainder in
    if contains "database" low
      && (contains "does not exist" low || contains "connection refused" low)
    then ("CRITICAL", "Veredas: banco indisponível")
    else if contains "celery" low && contains "connection refused" low
    then ("CRITICAL", "Veredas: Redis/broker indisponível")
    else if contains "pncp" low && (contains "timeout" low || contains "failed" low)
    then ("ERROR", "Veredas: falha ingest PNCP")
    else if contains "parser" low && contains "failed" low
    then ("ERROR", "Veredas: falha no parser de documentos")
    else if contains "worker" low && (contains "unregistered" low || contains "not found" low)
    then ("ERROR", "Veredas: Celery task não registrada")
    else if has_prefix prefix "CRITICAL"
    then ("CRITICAL", title_from_text "Veredas log" whole)
    else if has_prefix prefix "ERROR"
    then ("ERROR", title_from_text "Veredas log" whole)
    else veredas_stated (stated env parsed) message remainder

-- what follows the test of the prefix
unfoldable pub veredas_body : Env → Option String → String → String → Option Fields → SeverityTitle
unfolding veredas_message veredas_by_words
veredas_body env prefix remainder line parsed =
    if has_prefix (stated env parsed) "INFO"
    then ("INFO", "Veredas info log")
    else if has_prefix (stated env parsed) "WARN"
    then ("WARN", "Veredas warning log")
    else veredas_by_words env prefix remainder line parsed
        (veredas_message env parsed remainder line)

-- `_classify_veredas`; without a prefix the remainder is the line
unfoldable pub classify_veredas : Env → String → SeverityTitle
unfolding veredas_body
classify_veredas env line =
    let split = split_prefixed_log_line line in
    if has_prefix split.0 "INFO"
    then ("INFO", "Veredas info log")
    else if has_prefix split.0 "WARNING" || has_prefix split.0 "WARN"
    then ("WARN", "Veredas warning log")
    else veredas_body env split.0 split.1 line (extract_embedded_json env split.1)

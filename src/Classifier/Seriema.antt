-- ===== src/Classifier/Seriema.antt =====
-- classifier.py: the rules for the lines of Seriema.
use loboguara.Common.{
  String, Bool, false, ◌&&◌, ◌||◌, all, any, none, some, [], ◌∷◌, ltb, leb, get_or, if◌then◌else◌,
}
use loboguara.Common.Text.{◌⧺◌, lower, contains}
use loboguara.Models.{Fields, null, entry}
use loboguara.World.{Env}
use loboguara.Classifier.Words.{has_any, pull_failures, heartbeat_age}
use loboguara.Classifier.Rules.{SeverityTitle, default_text_classification}

-- the loop over `age_candidates`: a label that is a number over 300
unfoldable pub old_heartbeat : Env → Fields → Bool
old_heartbeat env labels =
    any
      (λ key. elim (entry key labels) [
        | none ↦ false
        | some null ↦ false
        | some v ↦ get_or (env.float_over v 300) false
      ])
      ("heartbeat_age_seconds" ∷ "seconds_since_heartbeat" ∷ "heartbeat_age" ∷ [])

-- the test of `heartbeat_match`
unfoldable pub late_heartbeat : String → Bool
late_heartbeat low = elim (heartbeat_age low) [
  | none ↦ false
  | some amount ↦
      (contains "min" low && leb 5 amount)
      || (has_any ("second" ∷ "sec" ∷ "secs" ∷ "s" ∷ []) low && ltb 300 amount)
]

-- the three tests under `"heartbeat" in lower`
unfoldable pub missing_heartbeat : Env → String → Fields → Bool
missing_heartbeat env low labels =
    contains "heartbeat" low
    && (old_heartbeat env labels
        || late_heartbeat low
        || has_any ("missing heartbeat" ∷ "heartbeat overdue" ∷ "heartbeat stale" ∷ []) low)

abbrev pub label_role : String → String
label_role service =
    if contains "worker" service
    then "worker"
    else if contains "api" service
    then "api"
    else if contains "beat" service
    then "beat"
    else "service"

-- `_classify_seriema`
unfoldable pub classify_seriema : Env → String → String → Fields → SeverityTitle
classify_seriema env service line labels =
    let low = lower line in
    if contains "telegram.error" low || (contains "httperror 429" low && contains "retry" low)
    then ("ERROR", "Seriema notification retry")
    else if contains "dlq_replay_partial_failure" low
    then ("ERROR", "Seriema DLQ replay partial failure")
    else if contains "oasis_radar:pull_failures" low
    then (if leb 3 (get_or (pull_failures low) 0)
        then ("CRITICAL", "Seriema Oasis Radar pull failing repeatedly")
        else ("ERROR", "Seriema Oasis Radar pull failure"))
    else if contains "cannot connect to redis://" low
    then ("CRITICAL", "Seriema worker lost broker connectivity")
    else if missing_heartbeat env low labels
    then ("CRITICAL", "Seriema worker heartbeat missing")
    else if all (λ t. contains t low) ("api" ∷ "worker" ∷ "beat" ∷ [])
        && has_any ("dead" ∷ "down" ∷ "exit" ∷ "stopped" ∷ []) low
    then ("FATAL", "Seriema fully unavailable")
    else default_text_classification ("Seriema " ⧺ label_role service ⧺ " log") line

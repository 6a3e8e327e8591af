-- ===== src/Pull/Radar.antt =====
-- main.py: `_fetch_oasis_radar_entries`, which asks Loki, and what is read from a line's labels. The clock
-- is in seconds here and in nanoseconds there.
use loboguara.Common.{
  ℕ, zero, suc, ◌+◌, ◌-◌, ◌*◌, max, String, Bool, true, false, not, Option, none, some, List, [],
  ◌∷◌, ◌++◌, ltb, str_eq, get_or, Result, ok, err, json_error, type_error, http_error, url_error,
  any, if◌then◌else◌,
}
use loboguara.Common.Text.{◌⧺◌, lower, contains}
use loboguara.Models.{Value, Items, Fields, text, array, object, nil, cons, end, entry}
use loboguara.World.{World, Env, HttpRequest, HttpReply, reply, failed}
use loboguara.Action.{Action, pure, gets, lift, ◌>>=◌}
use loboguara.Metrics.{count_value}
use loboguara.Providers.{http_call, strip_slashes, truthy_entry}
use loboguara.Classifier.Services.{parsed_json, first_entry}

-- an entry of `_fetch_oasis_radar_entries`
pub record RadarEntry : Type 0 where
  pub timestamp_ns : Value
  pub line : Value
  pub labels : Value

-- the text of a number
abbrev pub number_text : Env → ℕ → String
number_text env n = env.value_text (count_value n)

-- `start_ns`
unfoldable pub radar_start : (now lookback_seconds : ℕ) → (cursor : Option ℕ) → ℕ
radar_start now lookback_seconds cursor =
    max (now * 1000000000 - max 1 lookback_seconds * 1000000000) (get_or cursor 0 + 1)

-- the request for the entries
unfoldable pub radar_request : Env → String → (lookback_seconds limit : ℕ) → World → HttpRequest
radar_request env query lookback_seconds limit w = record {
  url =
      strip_slashes env.config.oasis_radar_loki_url
      ⧺ "/loki/api/v1/query_range?"
      ⧺ env.urlencode (
          ("query", query)
          ∷ ("start", number_text env (radar_start w.now lookback_seconds w.radar_cursor))
          ∷ ("end", number_text env (w.now * 1000000000))
          ∷ ("limit", number_text env (max 1 limit))
          ∷ ("direction", "forward")
          ∷ []);
  authorization = "";
  body = [];
}

-- what one attempt reads
unfoldable pub read_reply : HttpReply → Result String
read_reply (reply status body parsed) = ok body
read_reply (failed e) = err e

-- `break`, or the next attempt
unfoldable pub after_attempt : HttpReply → Action String → Action String
after_attempt (reply status body parsed) again = pure body
after_attempt (failed e) again = again

-- the loop over the attempts, with those that are left after this one
unfoldable pub attempts : Env → HttpRequest → ℕ → Action String
attempts env request zero = do answer ← http_call env request; lift (read_reply answer)
attempts env request (suc n) = do
  answer ← http_call env request
  after_attempt answer (attempts env request n)

-- the values of a stream; what is no list of two or more is passed over
entries_of_values : Value → Items → List RadarEntry
entries_of_values labels nil = []
entries_of_values labels (cons v values) =
    let rest = entries_of_values labels values in
    elim v [
      | array (cons ts (cons line more)) ↦
          record { timestamp_ns = ts; line = line; labels = labels } ∷ rest
      | _ ↦ rest
    ]

get_value : String → Value → Fields → Value
get_value key default fs = get_or (entry key fs) default

-- `for value in stream.get("values", [])`; what is iterated over and is no list gives texts, which are
-- passed over
stream_entries : Fields → Result (List RadarEntry)
stream_entries stream = elim (get_value "values" (array nil) stream) [
  | array values ↦ ok (entries_of_values (get_value "stream" (object end) stream) values)
  | text s ↦ ok []
  | object fs ↦ ok []
  | _ ↦ err (type_error "values")
]

append_entries : Result (List RadarEntry) → Result (List RadarEntry) → Result (List RadarEntry)
append_entries (ok xs) (ok ys) = ok (xs ++ ys)
append_entries (ok xs) (err e) = err e
append_entries (err e) _ = err e

entries_of_streams : Items → Result (List RadarEntry)
entries_of_streams nil = ok []
entries_of_streams (cons v streams) =
    let rest = entries_of_streams streams in
    elim v [
      | object stream ↦ append_entries (stream_entries stream) rest
      | _ ↦ err (type_error "get")
    ]

-- `parsed.get("data", {}).get("result", [])` and the loops over it
entries_of_data : Value → Result (List RadarEntry)
entries_of_data (object content) = elim (get_value "result" (array nil) content) [
  | array streams ↦ entries_of_streams streams
  | _ ↦ err (type_error "result")
]
entries_of_data _ = err (type_error "get")

unfoldable pub entries_of_answer : Env → String → Result (List RadarEntry)
unfolding entries_of_data entries_of_streams append_entries stream_entries entries_of_values
    get_value
entries_of_answer env raw = elim (env.json_loads raw) [
  | none ↦ err json_error
  | some (object parsed) ↦ entries_of_data (get_value "data" (object end) parsed)
  | some _ ↦ err (type_error "get")
]

-- `_fetch_oasis_radar_entries`
unfoldable pub fetch_oasis_radar_entries :
    Env → String → (lookback_seconds limit : ℕ) → Action (List RadarEntry)
fetch_oasis_radar_entries env query lookback_seconds limit =
    if not env.config.oasis_radar_enabled then pure [] else do
      request ← gets (radar_request env query lookback_seconds limit)
      raw ← attempts env request 2
      lift (entries_of_answer env raw)

-- `_oasis_radar_service`
unfoldable pub oasis_radar_service : Env → Fields → String
oasis_radar_service env labels =
    elim (first_entry ("compose_service" ∷ "service" ∷ "app" ∷ "job" ∷ "container" ∷ []) labels) [
      | none ↦ "oasis-radar"
      | some v ↦ env.value_text v
    ]

-- the level of a label, in `_oasis_radar_severity`
level_severity : String → Option String
level_severity level =
    if any (str_eq level) ("fatal" ∷ "critical" ∷ "crit" ∷ "panic" ∷ "emergency" ∷ "alert" ∷ [])
    then some "CRITICAL"
    else if any (str_eq level) ("error" ∷ "err" ∷ [])
    then some "ERROR"
    else if any (str_eq level) ("warning" ∷ "warn" ∷ [])
    then some "WARN"
    else if any (str_eq level) ("info" ∷ "information" ∷ [])
    then some "INFO"
    else none

label_severity : Env → Fields → List String → Option String
label_severity env labels [] = none
label_severity env labels (key ∷ keys) =
    let rest = label_severity env labels keys in
    elim (truthy_entry key labels) [
      | none ↦ rest
      | some v ↦ elim (level_severity (lower (env.value_text v))) [ none ↦ rest | some s ↦ some s ]
    ]

has_part : List String → String → Bool
has_part parts s = any (λ p. contains p s) parts

-- the searches in the text; "fail" is part of the longer words
text_severity : String → String
text_severity s =
    if has_part ("fatal" ∷ "critical" ∷ "panic" ∷ "emergency" ∷ "alert" ∷ []) s
    then "CRITICAL"
    else if has_part ("error" ∷ "exception" ∷ "fail" ∷ []) s
    then "ERROR"
    else if contains "warn" s
    then "WARN"
    else "INFO"

-- `candidate`
candidate : Env → String → String
candidate env line = elim (parsed_json env line) [
  | none ↦ line
  | some parsed ↦ elim (first_entry ("level" ∷ "severity" ∷ "log_level" ∷ "status" ∷ []) parsed) [
    | none ↦ line
    | some v ↦ env.value_text v
  ]
]

-- `_oasis_radar_severity`
unfoldable pub oasis_radar_severity : Env → String → Fields → String
unfolding label_severity level_severity text_severity has_part candidate
oasis_radar_severity env line labels =
    elim (label_severity env labels ("level" ∷ "severity" ∷ "log_level" ∷ [])) [
      | none ↦ text_severity (lower (candidate env line))
      | some s ↦ s
    ]

-- `_check_oasis_radar_connectivity`: whether it is there, and the detail
unfoldable pub check_oasis_radar_connectivity : Env → Action (Bool × String)
check_oasis_radar_connectivity env =
    if not env.config.oasis_radar_enabled then pure (false, "disabled") else do
      answer ← http_call env (record {
        url = strip_slashes env.config.oasis_radar_loki_url ⧺ "/ready";
        authorization = "";
        body = [];
      })
      elim answer [
        | reply status body parsed ↦
            if ltb 399 status
            then pure (false, "http_" ⧺ number_text env status)
            else pure (true, "ok")
        | failed (http_error code body) ↦ pure (false, "http_" ⧺ number_text env code)
        | failed (url_error reason) ↦ pure (false, "network:" ⧺ reason)
        | failed _ ↦ pure (false, "error")
      ]

-- ===== src/Ingest.antt =====
-- main.py: `ingest_event`, which turns an event into an incident, a repeat of one or nothing;
-- redis_client.py: the marks of events seen.
pub mod Once
use loboguara.Common.{
  ℕ, ◌+◌, ◌-◌, ◌/◌, String, Bool, true, false, not, Option, none, some, List, [], ◌∷◌, ◌++◌, ◌&&◌,
  ◌||◌, ◌==◌, find?, keep, ltb, leb, max, is_some, or_else, get_or, str_eq, Result, ok, err,
  if◌then◌else◌,
}
use Prim.Native.String
use loboguara.Common.Int.{ℤ, pos, negsuc, pos_part, leb_ℤ, ltb_ℤ}
use loboguara.Common.Text.{◌⧺◌, upper}
use loboguara.Models.{
  Uuid, Time, Value, Fields, Mapping, null, boolean, integer, text, uuid, array, object, entry,
  field, end, optional_text, Rule, Incident, opened, is_open, event_received, duplicated_event,
  rule_matched,
}
use loboguara.Redis.{live, Slot}
use loboguara.World.{World, Env, Task, dispatch}
use loboguara.Action.{Action, pure, raise, gets, lift, modify, when, on_option, ◌>>=◌, ◌>>◌}
use loboguara.Database.{update_incident, set_incidents, uuid4, add_audit}
use loboguara.Metrics.{set_redis, count_value}
use loboguara.Template.{nonempty}
use loboguara.Engine.{evaluate_rules}

-- schemas.py: `EventIncoming`
pub record Event : Type 0 where
  pub source : String
  pub external_event_id : String
  pub severity : String
  pub service : Option String
  pub title : String
  pub message : Option String
  pub payload_json : Value
  pub schedule_at : Option String
  pub dedupe_key : Option String

-- `event.model_dump()`
abbrev pub model_dump : Event → Fields
model_dump e = field "source" (text e.source) (
    field "external_event_id" (text e.external_event_id) (
      field "severity" (text e.severity) (
        field "service" (optional_text e.service) (
          field "title" (text e.title) (
            field "message" (optional_text e.message) (
              field "payload_json" e.payload_json (
                field "schedule_at" (optional_text e.schedule_at)
                  (field "dedupe_key" (optional_text e.dedupe_key) end))))))))

-- `EventIngestResponse`
pub record IngestResponse : Type 0 where
  pub status : String
  pub reason : Option String
  pub incident_id : Option Uuid
  pub matched_rule : Bool
  pub trace_id : Uuid

-- the segments of a path between its dots, the empty ones left out
segments_from : String → String → List String
segments_from word String.[] = if str_eq word "" then [] else word ∷ []
segments_from word (String.◌∷◌ c s) =
    let cut = segments_from "" s in
    let go_on = segments_from (word ⧺ String.◌∷◌ c String.[]) s in
    if str_eq (String.◌∷◌ c String.[]) "."
    then (if str_eq word "" then cut else word ∷ cut)
    else go_on

abbrev segments : String → List String
segments path = segments_from "" path

-- the walk of `_extract_dedupe_value` down the segments
walk : Value → List String → Value
walk v [] = v
walk (object fs) (name ∷ names) = elim (entry name fs) [ none ↦ null | some v ↦ walk v names ]
walk v (name ∷ names) = null

-- `_extract_dedupe_value`
unfoldable pub extract_dedupe_value : Env → Fields → String → String
unfolding walk segments_from
extract_dedupe_value env event path = elim (walk (object event) (segments path)) [
  | null ↦ ""
  | array xs ↦ env.json_dumps (array xs)
  | object fs ↦ env.json_dumps (object fs)
  | v ↦ env.value_text v
]

-- `"|".join(...)` of the fields with their values
dedupe_basis : Env → Fields → List String → String
dedupe_basis env event [] = ""
dedupe_basis env event (name ∷ []) = name ⧺ "=" ⧺ extract_dedupe_value env event name
dedupe_basis env event (name ∷ names) =
    name ⧺ "=" ⧺ extract_dedupe_value env event name ⧺ "|" ⧺ dedupe_basis env event names

-- `max(1, int(matched_rule.dedupe_window_seconds or 300))`
unfoldable pub dedupe_window : Option ℤ → ℕ
dedupe_window none = 300
dedupe_window (some (pos n)) = if n == 0 then 300 else n
dedupe_window (some (negsuc n)) = 1

-- `_build_rule_dedupe_key`
unfoldable pub build_rule_dedupe_key : Env → Time → Fields → Option Rule → Option String
unfolding dedupe_basis
build_rule_dedupe_key env now event none = none
build_rule_dedupe_key env now event (some rule) = elim rule.dedupe_fields_json [
  | [] ↦ none
  | name ∷ names ↦
      let bucket = env.value_text (count_value (now / dedupe_window rule.dedupe_window_seconds)) in
      let digest =
        env.sha256_hex
          (env.uuid_text rule.id ⧺ "|" ⧺ bucket ⧺ "|" ⧺ dedupe_basis env event (name ∷ names)) in
      some ("rule:" ⧺ env.uuid_text rule.id ⧺ ":" ⧺ digest)
]

-- the order of the query for the active rules
rule_before : Env → Rule → Rule → Bool
rule_before env a b =
    ltb_ℤ a.priority b.priority
    || (leb_ℤ a.priority b.priority && env.text_before a.rule_name b.rule_name)

insert_rule : Env → Rule → List Rule → List Rule
insert_rule env r [] = r ∷ []
insert_rule env r (s ∷ rules) =
    let rest = insert_rule env r rules in if rule_before env s r then s ∷ rest else r ∷ s ∷ rules

sort_rules : Env → List Rule → List Rule
sort_rules env [] = []
sort_rules env (r ∷ rules) = insert_rule env r (sort_rules env rules)

-- `active_rules`
unfoldable pub active_rules : Env → World → List Rule
unfolding sort_rules insert_rule rule_before
active_rules env w = sort_rules env (keep (λ (r : Rule). r.active) w.rules)

-- the newest row, the first of those of one time
newest : List Incident → Option Incident
newest [] = none
newest (r ∷ rows) = elim (newest rows) [
  | none ↦ some r
  | some s ↦ if ltb r.created_at s.created_at then some s else some r
]

abbrev is_open_with_key : String → Incident → Bool
is_open_with_key key r =
    is_open r.status && elim r.dedupe_key [ none ↦ false | some k ↦ str_eq k key ]

-- `existing_open_incident`
unfoldable pub existing_open_incident : Option String → World → Option Incident
unfolding newest
existing_open_incident none w = none
existing_open_incident (some key) w = newest (keep (is_open_with_key key) w.incidents)

-- `_incident_last_seen_at`
abbrev pub incident_last_seen_at : Incident → Time
incident_last_seen_at r = get_or r.updated_at r.created_at

-- `_should_retrigger_incident`, of a row with its new count; the clock does not go back
unfoldable pub should_retrigger_incident : Time → ℕ → (previous_last_seen_at : Time) → Bool
should_retrigger_incident now n previous =
    n == 1 || n == 10 || n == 50 || n == 100 || n == 500 || ltb 3600 (now - previous)

-- `int(occurrences or 1) + 1`
abbrev pub next_occurrences : ℕ → ℕ
next_occurrences n = if n == 0 then 2 else n + 1

-- `_refresh_existing_incident`, on the row
abbrev pub refreshed_row : Event → Option Rule → Incident → Incident
refreshed_row event rule r = record r {
  occurrences = next_occurrences r.occurrences;
  severity = event.severity;
  service = event.service;
  title = event.title;
  message = event.message;
  payload_json = event.payload_json;
  matched_rule_id = or_else r.matched_rule_id (elim rule [ none ↦ none | some m ↦ some m.id ]);
}

-- `dispatch_incident.apply_async`
unfoldable pub queue_dispatch : Uuid → Uuid → Action (Unit {0})
queue_dispatch i trace = modify (λ w. record w { tasks = w.tasks ++ dispatch i trace ∷ [] })

-- the branch of an incident that is open under the same key
unfoldable pub refresh_incident :
    Event → Uuid → Option Rule → Incident → Time → Action IngestResponse
refresh_incident event trace rule r now = do
  let n : ℕ = next_occurrences r.occurrences
  let retrigger : Bool = should_retrigger_incident now n (incident_last_seen_at r)
  update_incident r.id (refreshed_row event rule)
  add_audit trace (some r.id) event_received (
      ("payload", object (model_dump event))
      ∷ ("deduplicated_into_existing_incident", boolean true)
      ∷ ("occurrences", count_value n)
      ∷ ("previous_last_seen_at", count_value (incident_last_seen_at r))
      ∷ ("retriggered", boolean retrigger)
      ∷ [])
  when (is_some rule && retrigger) (queue_dispatch r.id trace)
  pure (record {
    status = "accepted";
    reason = some "deduplicated_into_existing_incident";
    incident_id = some r.id;
    matched_rule = is_some rule;
    trace_id = trace;
  })

-- redis_client.py: `is_duplicate` of a key that is not empty
unfoldable pub is_duplicate : String → (ttl_seconds : ℕ) → Action Bool
is_duplicate key ttl w = elim (live w.now (w.event_dedupe key)) [
  | none ↦ (
    ok false,
    set_redis w (record w.redis {
      event_dedupe = λ k.
          if str_eq k key
          then some (record { value = 1; expires = some (w.now + ttl) })
          else w.event_dedupe k;
    }),
  )
  | some c ↦ (ok true, w)
]

abbrev ignored_response : String → Option Uuid → Uuid → IngestResponse
ignored_response reason i trace = record {
  status = "ignored";
  reason = some reason;
  incident_id = i;
  matched_rule = false;
  trace_id = trace;
}

-- the unique constraint of the table
abbrev pub is_from : String → String → Incident → Bool
is_from source external_event_id r =
    str_eq r.source source && str_eq r.external_event_id external_event_id

-- `models.Incident(...)` with the defaults of its columns
abbrev pub new_incident : Event → Uuid → Option Rule → Option String → Time → Incident
new_incident event i rule key now = record {
  id = i;
  external_event_id = event.external_event_id;
  source = event.source;
  severity = event.severity;
  service = event.service;
  title = event.title;
  message = event.message;
  payload_json = event.payload_json;
  status = opened;
  matched_rule_id = elim rule [ none ↦ none | some m ↦ some m.id ];
  dedupe_key = key;
  occurrences = 1;
  created_at = now;
  updated_at = none;
  acknowledged_at = none;
  acknowledged_by = none;
}

-- INSERT of an incident that breaks no constraint
unfoldable pub insert_incident : Incident → Action (Unit {0})
insert_incident row = modify (λ w. set_incidents w (w.incidents ++ row ∷ []))

-- the end of `ingest_event`, for a new incident
unfoldable pub announce_incident : Event → Uuid → Option Rule → Uuid → Action IngestResponse
announce_incident event trace rule i = do
  add_audit trace (some i) event_received (("payload", object (model_dump event)) ∷ [])
  on_option rule (pure tt) (λ m. do
    add_audit trace (some i) rule_matched (("matched_rule_id", uuid m.id) ∷ [])
    queue_dispatch i trace)
  pure (record {
    status = "accepted";
    reason = none;
    incident_id = some i;
    matched_rule = is_some rule;
    trace_id = trace;
  })

-- INSERT, with `except IntegrityError`
unfoldable pub create_incident : Event → Uuid → Option Rule → Option String → Action IngestResponse
create_incident event trace rule key = do
  i ← uuid4
  now ← gets (λ w. w.now)
  existing ← gets (λ w. find? (is_from event.source event.external_event_id) w.incidents)
  on_option existing
      (do insert_incident (new_incident event i rule key now); announce_incident event trace rule i)
      (λ r. pure (ignored_response "duplicate_source_external_event_id" (some r.id) trace))

-- the branch of an event whose key was seen
unfoldable pub log_duplicate : Event → Uuid → String → Action IngestResponse
log_duplicate event trace key = do
  add_audit trace none duplicated_event (
      ("source", text event.source)
      ∷ ("external_event_id", text event.external_event_id)
      ∷ ("dedupe_key", text key)
      ∷ [])
  pure (ignored_response "duplicate" none trace)

-- behind the search for an open incident
unfoldable pub ingest_new : Event → Uuid → Option Rule → Option String → Action IngestResponse
ingest_new event trace rule key = on_option key (create_incident event trace rule none) λ k. do
  seen ← is_duplicate ("dedupe:" ⧺ k) 300
  if seen then log_duplicate event trace k else create_incident event trace rule (some k)

-- behind the rules
unfoldable pub ingest_with_rule : Env → Event → Uuid → Option Rule → Action IngestResponse
ingest_with_rule env event trace rule = do
  now ← gets (λ w. w.now)
  let built : Option String = build_rule_dedupe_key env now (model_dump event) rule
  let key : Option String = or_else (nonempty event.dedupe_key) built
  existing ← gets (existing_open_incident key)
  on_option existing (ingest_new event trace rule key)
      (λ r. refresh_incident event trace rule r now)

-- `ingest_event`
unfoldable pub ingest_event : Env → Event → Action IngestResponse
ingest_event env event = do
  trace ← uuid4
  if str_eq (upper event.severity) "INFO"
      then pure (ignored_response "info_severity" none trace)
      else do
        rules ← gets (active_rules env)
        rule ← lift (evaluate_rules env (model_dump event) rules)
        ingest_with_rule env event trace rule

-- ===== src/Pull/Langfuse.antt =====
-- worker.py: `_pull_langfuse_impl`.
use loboguara.Common.{
  ℕ, ◌+◌, ◌-◌, String, Bool, true, false, not, ◌&&◌, ◌||◌, none, some, [], ◌∷◌, str_eq, get_or,
  is_some, if◌then◌else◌,
}
use loboguara.Common.Text.{◌⧺◌, upper, strip, prefix}
use loboguara.Models.{Time, Value, Items, Fields, null, array, object, nil, cons, entry}
use loboguara.World.{World, Env}
use loboguara.Action.{Action, pure, gets, modify, ◌>>=◌, ◌>>◌}
use loboguara.Metrics.{set_redis}
use loboguara.Providers.{truthy_entry, strip_slashes}
use loboguara.Ingest.{Event, ingest_event}
use loboguara.Pull.Sentry.{get_json, entry_or}

-- `_severity_from_langfuse_observation`
unfoldable pub severity_from_langfuse_observation : Env → Fields → String
severity_from_langfuse_observation env obs =
    let level = upper (strip (entry_or env "level" obs "")) in
    if not (str_eq level "")
    then level
    else if is_some (truthy_entry "statusMessage" obs)
    then "ERROR"
    else "INFO"

-- `obs.get("statusMessage") is None`
has_no_message : Fields → Bool
has_no_message obs = elim (entry "statusMessage" obs) [
  | none ↦ true
  | some null ↦ true
  | some _ ↦ false
]

-- the two tests that pass an observation over
unfoldable pub is_passed_by : Env → Fields → Bool
unfolding has_no_message
is_passed_by env obs =
    (not (str_eq (upper (entry_or env "level" obs "")) "ERROR") && has_no_message obs)
    || str_eq (strip (entry_or env "id" obs "")) ""

-- the event of an observation
unfoldable pub observation_event : Env → Fields → Event
observation_event env obs =
    let id = strip (entry_or env "id" obs "") in
    record {
      source = "langfuse";
      external_event_id = "langfuse-" ⧺ id;
      severity = severity_from_langfuse_observation env obs;
      service = some "langfuse";
      title =
          "Langfuse: "
          ⧺ elim (entry "name" obs) [ none ↦ "generation error" | some v ↦ env.value_text v ];
      message = some (prefix 5000 (entry_or env "statusMessage" obs (entry_or env "input" obs "")));
      payload_json = object obs;
      schedule_at = none;
      dedupe_key = some ("langfuse:" ⧺ id);
    }

-- the loop over the observations: how many were ingested
unfoldable pub ingest_observations : Env → Items → ℕ → Action ℕ
ingest_observations env nil ingested = pure ingested
ingest_observations env (cons (object obs) items) ingested =
    if is_passed_by env obs then ingest_observations env items ingested else do
      ingest_event env (observation_event env obs)
      ingest_observations env items (ingested + 1)
ingest_observations env (cons v items) ingested = ingest_observations env items ingested

items_of : Value → Items
items_of (array items) = items
items_of _ = nil

-- `observations`
observations_of : Value → Items
unfolding items_of
observations_of (object payload) = items_of (get_or (entry "data" payload) (object payload))
observations_of v = items_of v

length_items : Items → ℕ
length_items nil = 0
length_items (cons _ items) = length_items items + 1

-- the end of a pull: fetched, ingested and the time of this check
pub data LangfusePull : Type 0 where
  langfuse_disabled missing_credentials : LangfusePull
  langfuse_pulled : (fetched ingested : ℕ) → Time → LangfusePull

unfoldable pub set_langfuse_cursor : Time → Action (Unit {0})
set_langfuse_cursor now = modify λ w. set_redis w (record w.redis { langfuse_cursor = some now })

-- `last_check`
abbrev pub last_check : Env → World → Time
last_check env w = get_or w.langfuse_cursor (w.now - env.config.langfuse_pull_interval_seconds)

-- behind the settings; the authorization is the pair that Basic encodes
unfoldable pub pull_langfuse_since : Env → Time → Action LangfusePull
unfolding observations_of length_items
pull_langfuse_since env since = do
  now ← gets (λ w. w.now)
  payload ←
      get_json env
        (strip_slashes env.config.langfuse_host
          ⧺ "/api/public/observations?"
          ⧺ env.urlencode
              (("type", "GENERATION") ∷ ("limit", "50") ∷ ("startTime", env.time_text since) ∷ []))
        (env.config.langfuse_public_key ⧺ ":" ⧺ env.config.langfuse_secret_key)
  let items = observations_of payload
  ingested ← ingest_observations env items 0
  set_langfuse_cursor now
  pure (langfuse_pulled (length_items items) ingested now)

-- the test of the credentials
abbrev pub has_credentials : Env → Bool
has_credentials env =
    not (str_eq (strip env.config.langfuse_public_key) "")
    && not (str_eq (strip env.config.langfuse_secret_key) "")
    && not (str_eq (strip env.config.langfuse_host) "")

-- `_pull_langfuse_impl`
unfoldable pub pull_langfuse : Env → Action LangfusePull
pull_langfuse env =
    if not env.config.langfuse_pull_enabled
    then pure langfuse_disabled
    else if not (has_credentials env)
    then pure missing_credentials
    else do since ← gets (last_check env); pull_langfuse_since env since

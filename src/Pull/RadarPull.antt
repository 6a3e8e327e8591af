-- ===== src/Pull/RadarPull.antt =====
-- main.py: `pull_oasis_radar`; worker.py: `_pull_oasis_radar_impl`, which calls it over HTTP.
use loboguara.Common.{
  ℕ, ◌+◌, ◌*◌, max, String, not, Option, none, some, List, [], ◌∷◌, length, ltb, str_eq, get_or,
  Exception, http_error, url_error, http_exception, json_error, insert, lookup, ◌==◌, if◌then◌else◌,
}
use loboguara.Common.Int.{ℤ, pos}
use loboguara.Common.Text.{◌⧺◌}
use loboguara.Models.{Value, Mapping, text, integer}
use loboguara.Redis.{live, incr, expire}
use loboguara.World.{Env}
use loboguara.Action.{Action, pure, raise, lift, modify, when, or_raise, try_except, ◌>>=◌, ◌>>◌}
use loboguara.Metrics.{set_redis, set_fields, count_value}
use loboguara.Providers.{http_call}
use loboguara.Directory.Paging.{validate_ops_limit}
use loboguara.Ops.Guards.{require_admin_token}
use loboguara.Pull.Radar.{RadarEntry, fetch_oasis_radar_entries, read_reply, number_text}
use loboguara.Pull.Entries.{Counts, ingest_entries}

-- HSET and HINCRBY on the hash of metrics, which leave its expiry as it is
unfoldable pub edit_metrics : (Mapping → Mapping) → Action (Unit {0})
edit_metrics f = modify λ w. set_redis w (record w.redis {
  metrics = elim (live w.now w.metrics) [
    | none ↦ some (record { value = f []; expires = none })
    | some c ↦ some (record { value = f c.value; expires = c.expires })
  ];
})

-- HINCRBY by a number
unfoldable pub add_amount : String → ℕ → Mapping → Mapping
add_amount k n hash = elim (lookup k hash) [
  | some (integer (pos m)) ↦ insert k (integer (pos (m + n))) hash
  | _ ↦ insert k (integer (pos n)) hash
]

-- the metrics of a pull that failed
unfoldable pub note_failure : String → Action (Unit {0})
note_failure status = do
  edit_metrics (add_amount "oasis_radar_pull_failed_total" 1)
  edit_metrics (insert "oasis_radar_pull_last_status" (text status))

-- the handlers of the exceptions of the fetch
unfoldable pub fail_pull : Exception → Action (List RadarEntry)
fail_pull (http_error code body) =
    note_failure "http_error" >> raise (http_exception 502 "Oasis Radar HTTP error")
fail_pull (url_error reason) =
    note_failure "connectivity_error" >> raise (http_exception 502 "Oasis Radar connectivity error")
fail_pull e =
    note_failure "unexpected_error"
    >> raise (http_exception 500 "Unexpected Oasis Radar pull error")

-- the answer of a pull
pub record PullResult : Type 0 where
  pub fetched : ℕ
  pub accepted : ℕ
  pub duplicates : ℕ

-- the cursor behind the last entry
unfoldable pub set_radar_cursor : ℕ → Action (Unit {0})
set_radar_cursor stamp = modify λ w. set_redis w (record w.redis { radar_cursor = some stamp })

-- the metrics of a pull with entries
unfoldable pub note_success : (fetched : ℕ) → Counts → Action (Unit {0})
note_success fetched counts = do
  edit_metrics (add_amount "oasis_radar_pull_success_total" 1)
  edit_metrics (add_amount "oasis_radar_entries_fetched_total" fetched)
  edit_metrics (add_amount "oasis_radar_entries_ingested_total" counts.accepted)
  edit_metrics (λ hash. set_fields hash (
      ("oasis_radar_pull_last_status", text "ok")
      ∷ ("oasis_radar_pull_last_fetched", count_value fetched)
      ∷ ("oasis_radar_pull_last_accepted", count_value counts.accepted)
      ∷ ("oasis_radar_pull_last_duplicates", count_value counts.duplicates)
      ∷ []))

-- the counts before the loop
abbrev pub no_counts : Counts
no_counts = record { accepted = 0; duplicates = 0; max_timestamp_ns = 0 }

-- what follows the fetch
unfoldable pub pull_entries : Env → List RadarEntry → Action PullResult
pull_entries env [] = do
  edit_metrics (add_amount "oasis_radar_pull_success_total" 1)
  edit_metrics (insert "oasis_radar_pull_last_status" (text "ok"))
  pure (record { fetched = 0; accepted = 0; duplicates = 0 })
pull_entries env (e ∷ entries) = do
  counts ← ingest_entries env (e ∷ entries) no_counts
  when (ltb 0 counts.max_timestamp_ns) (set_radar_cursor counts.max_timestamp_ns)
  note_success (length (e ∷ entries)) counts
  pure (record {
    fetched = length (e ∷ entries);
    accepted = counts.accepted;
    duplicates = counts.duplicates;
  })

-- `pull_oasis_radar`
unfoldable pub pull_oasis_radar :
    Env → (lookback_seconds limit : ℕ) → (header : Option String) → Action PullResult
pull_oasis_radar env lookback_seconds limit header = do
  require_admin_token env header
  validate_ops_limit env limit
  entries ←
      try_except
        (fetch_oasis_radar_entries env env.config.oasis_radar_logql_query lookback_seconds limit)
        fail_pull
  pull_entries env entries

-- the end of a worker's pull
pub data WorkerPull : Type 0 where
  pull_disabled missing_admin_token : WorkerPull
  pulled : Value → WorkerPull

unfoldable pub reset_failures : Action (Unit {0})
reset_failures = modify λ w. set_redis w (record w.redis { radar_failures = none })

-- the count of failures in a row, with the expiry that its first one sets
unfoldable pub count_pull_failure : Env → Action (Unit {0})
count_pull_failure env = modify λ w.
    let counted = incr w.now w.radar_failures in
    set_redis w (record w.redis {
      radar_failures =
          if counted.0 == 1
          then expire w.now (max 300 (env.config.oasis_radar_pull_interval_seconds * 10)) counted.1
          else counted.1;
    })

-- the request of a worker's pull
unfoldable pub call_pull : Env → String → ℤ → Action WorkerPull
call_pull env token limit = do
  answer ← http_call env (record {
    url =
        env.config.app_base_url
        ⧺ "/integrations/oasis-radar/pull?lookback_seconds="
        ⧺ number_text env env.config.oasis_radar_lookback_seconds
        ⧺ "&limit="
        ⧺ env.value_text (integer limit);
    authorization = token;
    body = [];
  })
  raw ← lift (read_reply answer)
  parsed ← or_raise (env.json_loads raw) json_error
  reset_failures
  pure (pulled parsed)

-- `_pull_oasis_radar_impl`
unfoldable pub pull_oasis_radar_impl : Env → Option ℤ → Action WorkerPull
pull_oasis_radar_impl env limit =
    if not env.config.oasis_radar_pull_enabled
    then pure pull_disabled
    else if str_eq (get_or env.config.admin_token "") ""
    then pure missing_admin_token
    else try_except
        (call_pull env (get_or env.config.admin_token "")
          (get_or limit env.config.oasis_radar_pull_limit))
        (λ e. count_pull_failure env >> raise e)

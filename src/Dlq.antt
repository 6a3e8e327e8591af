-- ===== src/Dlq.antt =====
-- worker.py: the dead-letter queue. The handler of failed tasks writes it, a periodic task prunes it
-- and another replays it. An entry is told from the others by its `failed_at`, a UUID of its own.
pub mod Queue
pub mod Replay
pub mod Batches
pub mod Failures
use loboguara.Common.{
  ℕ, ◌+◌, ◌-◌, String, Bool, true, false, not, Option, none, some, List, [], ◌∷◌, ◌++◌, ◌&&◌, ◌||◌,
  ◌==◌, leb, max, length, take, lookup, get_or, is_some, str_eq, lookup_error, Exception, Result,
  ok, err, if◌then◌else◌,
}
use loboguara.Common.Int.{ℤ, pos, pos_part, min_ℤ, leb_ℤ}
use loboguara.Common.Text.{◌⧺◌, lower, contains}
use loboguara.Models.{
  Uuid, Value, Mapping, null, boolean, integer, text, uuid, NotificationChannel, voice, telegram,
  email, whatsapp, calendar, channel_value, failed, failure, Notification, py_int,
}
use loboguara.Redis.{keep_last, set_ex, read, Slot}
use loboguara.World.{World, Env, DlqEntry, RawEntry, encoded, garbage}
use loboguara.Action.{
  Action, pure, raise, gets, lift, modify, when, on_option, or_raise, try_except, ◌>>=◌, ◌>>◌,
}
use loboguara.Database.{notification_by_id, update_notification, uuid4, add_audit}
use loboguara.Metrics.{
  set_redis, touch_metrics, refresh_dlq_metric, increment_metric_counter, count_value,
}
use loboguara.Channel.{record_channel_failure}
use loboguara.Delivery.{
  notification_is_terminal, send_notification_channel, SendStatus, sent_now, already_terminal,
}
use loboguara.Tasks.{get_channel_retry_policy, RetryPolicy}
use loboguara.Escalation.{handle_escalation, record_periodic_task_heartbeat}

-- `_bound_dlq_max_items`
unfoldable pub bound_dlq_max_items : Env → Option ℤ → ℕ
bound_dlq_max_items env max_items = max 1 (pos_part (get_or max_items env.config.dlq_max_items))

abbrev pub set_dlq : World → List RawEntry → World
set_dlq w entries = set_redis w (record w.redis { dlq = entries })

-- LTRIM of the queue
unfoldable pub trim_queue : (limit : ℕ) → Action (Unit {0})
trim_queue limit = modify (λ w. set_dlq w (keep_last limit w.dlq))

-- `_trim_dlq_to_limit`
unfoldable pub trim_dlq_to_limit : Env → Option ℤ → Action ℕ
trim_dlq_to_limit env max_items = do
  size ← gets (λ w. length w.dlq)
  let limit : ℕ = bound_dlq_max_items env max_items
  if leb size limit
      then pure 0
      else do trim_queue limit; refresh_dlq_metric env; pure (size - limit)

abbrev first_arg : List Uuid → Value
first_arg [] = null
first_arg (a ∷ args) = uuid a

abbrev second_arg : List Uuid → Value
second_arg [] = null
second_arg (a ∷ []) = null
second_arg (a ∷ b ∷ args) = uuid b

-- `_dlq_payload`, with its `uuid.uuid4()`
unfoldable pub dlq_payload :
    (task_name : String)
    → (args : List Uuid) → (kwargs : Mapping) → (error : String) → Uuid
    → DlqEntry
dlq_payload task_name args kwargs error failed_at =
    let escalating = str_eq task_name "escalation_worker" in
    record {
      task_name = task_name;
      args = args;
      kwargs = kwargs;
      trace_id = get_or (lookup "trace_id" kwargs) (second_arg args);
      notification_id =
          get_or (lookup "notification_id" kwargs) (if escalating then null else first_arg args);
      incident_id =
          get_or (lookup "incident_id" kwargs) (if escalating then first_arg args else null);
      error = error;
      failed_at = failed_at;
    }

-- RPUSH
unfoldable pub append_entry : DlqEntry → Action (Unit {0})
append_entry payload = modify (λ w. set_dlq w (w.dlq ++ encoded payload ∷ []))

-- `_push_dlq_entry`
unfoldable pub push_dlq_entry :
    Env
    → (task_name : String) → (args : List Uuid) → (kwargs : Mapping) → (error : String)
    → Action DlqEntry
push_dlq_entry env task_name args kwargs error = do
  failed_at ← uuid4
  let payload : DlqEntry = dlq_payload task_name args kwargs error failed_at
  append_entry payload
  trim_dlq_to_limit env none
  refresh_dlq_metric env
  pure payload

-- `prune_dlq`: its result
pub record Pruned : Type 0 where
  pub removed : ℕ
  pub remaining : ℕ
  pub max_items : ℕ

unfoldable pub prune_queue : Env → (limit size : ℕ) → Action Pruned
prune_queue env limit size =
    if leb size limit
    then (do
      refresh_dlq_metric env
      pure (record { removed = 0; remaining = size; max_items = limit }))
    else do
      trim_queue limit
      remaining ← gets (λ w. length w.dlq)
      refresh_dlq_metric env
      pure (record { removed = size - limit; remaining = remaining; max_items = limit })

-- `prune_dlq`
unfoldable pub prune_dlq : Env → Option ℤ → Action Pruned
prune_dlq env max_items = do
  size ← gets (λ w. length w.dlq)
  result ← prune_queue env (bound_dlq_max_items env max_items) size
  record_periodic_task_heartbeat env "prune_dlq" "ok"
  pure result

-- `_bound_replay_limit`
unfoldable pub bound_replay_limit : Env → Option ℤ → ℕ
bound_replay_limit env limit = max 1 (
    pos_part
      (min_ℤ (get_or limit env.config.dlq_replay_batch_size) env.config.ops_endpoint_max_limit))

-- SET and DEL of the lock's key
unfoldable pub store_lock : (World → Slot Uuid) → Action (Unit {0})
store_lock f = modify (λ w. set_redis w (record w.redis { replay_lock = f w }))

-- `_acquire_dlq_replay_lock`
unfoldable pub acquire_dlq_replay_lock : Env → Action (Option Uuid)
acquire_dlq_replay_lock env = do
  token ← uuid4
  held ← gets (λ w. read w.now w.replay_lock)
  on_option held
      (do
        store_lock (λ w. set_ex w.now env.config.dlq_replay_lock_ttl_seconds token)
        pure (some token))
      (λ other. pure none)

-- `_release_dlq_replay_lock`
unfoldable pub release_dlq_replay_lock : Uuid → Action (Unit {0})
release_dlq_replay_lock token = do
  held ← gets (λ w. read w.now w.replay_lock)
  on_option held (pure tt) λ other. when (other == token) (store_lock (λ w. none))

-- `int(bool(b))`
abbrev flag : Bool → Value
flag b = count_value (if b then 1 else 0)

-- `_write_dlq_replay_report`; no call of it in the model has an error to report
unfoldable pub write_dlq_replay_report :
    Env
    → (status : String) → (requested_limit : ℤ) → (effective_limit replayed remaining : ℕ)
    → (locked : Bool) → (candidates_count : ℕ) → Action (Unit {0})
write_dlq_replay_report env status requested limit replayed remaining locked candidates_count =
    modify (λ w. set_redis w (record w.redis {
      replay_report = set_ex w.now env.config.metrics_ttl_seconds (
          ("status", text status)
          ∷ ("started_at", count_value w.now)
          ∷ ("finished_at", count_value w.now)
          ∷ ("requested_limit", integer requested)
          ∷ ("effective_limit", count_value limit)
          ∷ ("replayed", count_value replayed)
          ∷ ("remaining", count_value remaining)
          ∷ ("dry_run", flag env.config.dlq_replay_dry_run)
          ∷ ("locked", flag locked)
          ∷ ("candidates_count", count_value candidates_count)
          ∷ ("error_message", text "")
          ∷ []);
    }))

-- the results that count as delivered
unfoldable pub is_delivered : SendStatus → Bool
is_delivered sent_now = true
is_delivered already_terminal = true
is_delivered _ = false

-- the channel of a task's name, in `_replay_entry` and the handler of failures
unfoldable pub channel_of_task : String → Option NotificationChannel
channel_of_task name =
    if str_eq name "voice_worker"
    then some voice
    else if str_eq name "telegram_worker"
    then some telegram
    else if str_eq name "email_worker"
    then some email
    else none

index_error : Exception
index_error = lookup_error "list index out of range"

-- `args[0], args[1]`
two_args : List Uuid → Option (Uuid × Uuid)
two_args (a ∷ b ∷ args) = some (a, b)
two_args _ = none

-- `_replay_entry`
unfoldable pub replay_entry : Env → (parse_uuid : String → Option Uuid) → DlqEntry → Action Bool
unfolding two_args index_error
replay_entry env parse_uuid e =
    on_option (channel_of_task e.task_name)
      (if str_eq e.task_name "escalation_worker"
        then (do
          args ← or_raise (two_args e.args) index_error
          handle_escalation env parse_uuid args.0 args.1)
        else pure false)
      (λ channel. do
        args ← or_raise (two_args e.args) index_error
        result ← send_notification_channel env args.0 args.1 channel
        pure (is_delivered result))

-- the errors that no replay mends
unfoldable pub is_permanent : String → Bool
is_permanent error =
    let e = lower error in
    contains "validationerror" e || contains "bad request" e || contains "400" e

same_raw : RawEntry → RawEntry → Bool
same_raw (encoded a) (encoded b) = a.failed_at == b.failed_at
same_raw (garbage s) (garbage t) = str_eq s t
same_raw (encoded a) (garbage t) = false
same_raw (garbage s) (encoded b) = false

-- LREM key 1 entry
unfoldable pub remove_first : RawEntry → List RawEntry → List RawEntry
unfolding same_raw
remove_first raw [] = []
remove_first raw (r ∷ entries) =
    let rest = remove_first raw entries in if same_raw r raw then entries else r ∷ rest

unfoldable pub remove_entry : RawEntry → Action (Unit {0})
remove_entry raw = modify (λ w. set_dlq w (remove_first raw w.dlq))

-- the body of the loop behind the test for a dry run: how many it replayed
unfoldable pub replay_decoded :
    Env → (parse_uuid : String → Option Uuid) → RawEntry → DlqEntry → Action ℕ
replay_decoded env parse_uuid raw e =
    if is_permanent e.error then (do remove_entry raw; refresh_dlq_metric env; pure 0) else do
      done ← replay_entry env parse_uuid e
      if not done then pure 0 else do remove_entry raw; refresh_dlq_metric env; pure 1

-- the body of the loop: the candidate that the entry is, and how many it replayed
unfoldable pub replay_raw :
    Env → (parse_uuid : String → Option Uuid) → RawEntry → Action (List DlqEntry × ℕ)
replay_raw env parse_uuid (garbage s) = pure ([], 0)
replay_raw env parse_uuid (encoded e) =
    if env.config.dlq_replay_dry_run then pure (e ∷ [], 0) else do
      n ← try_except (replay_decoded env parse_uuid (encoded e) e) (λ exc. pure 0)
      pure (e ∷ [], n)

-- the loop: the candidates and the replayed
unfoldable pub replay_all :
    Env → (parse_uuid : String → Option Uuid) → List RawEntry → Action (List DlqEntry × ℕ)
replay_all env parse_uuid [] = pure ([], 0)
replay_all env parse_uuid (raw ∷ entries) = do
  one ← replay_raw env parse_uuid raw
  more ← replay_all env parse_uuid entries
  pure (one.0 ++ more.0, one.1 + more.1)

-- the result of `replay_dlq`
pub record Replayed : Type 0 where
  pub status : String
  pub replayed : ℕ
  pub remaining : ℕ
  pub dry_run : Bool
  pub limit : ℕ
  pub candidates : Option (List DlqEntry)

-- the branch of a lock that another holds
unfoldable pub replay_locked : Env → (requested : ℤ) → (limit : ℕ) → Action Replayed
replay_locked env requested limit = do
  remaining ← gets (λ w. length w.dlq)
  write_dlq_replay_report env "locked" requested limit 0 remaining true 0
  pure (record {
    status = "locked";
    replayed = 0;
    remaining = remaining;
    dry_run = env.config.dlq_replay_dry_run;
    limit = limit;
    candidates = none;
  })

-- the branch of one's own lock
unfoldable pub replay_batch :
    Env → (parse_uuid : String → Option Uuid) → (requested : ℤ) → (limit : ℕ) → Action Replayed
replay_batch env parse_uuid requested limit = do
  entries ← gets (λ w. take limit w.dlq)
  counts ← replay_all env parse_uuid entries
  refresh_dlq_metric env
  remaining ← gets (λ w. length w.dlq)
  when env.config.dlq_replay_dry_run (
      touch_metrics env (
        ("dlq_dry_run_candidates", count_value (length counts.0))
        ∷ ("dlq_dry_run_limit", count_value limit)
        ∷ []))
  write_dlq_replay_report env "completed" requested limit counts.1 remaining false (length counts.0)
  pure (record {
    status = "completed";
    replayed = counts.1;
    remaining = remaining;
    dry_run = env.config.dlq_replay_dry_run;
    limit = limit;
    candidates = if env.config.dlq_replay_dry_run then some counts.0 else none;
  })

-- `replay_dlq`
unfoldable pub replay_dlq : Env → (parse_uuid : String → Option Uuid) → Option ℤ → Action Replayed
replay_dlq env parse_uuid limit = do
  token ← acquire_dlq_replay_lock env
  let batch_limit : ℕ = bound_replay_limit env limit
  let requested : ℤ = get_or limit env.config.dlq_replay_batch_size
  on_option token (replay_locked env requested batch_limit) λ t. do
    result ← replay_batch env parse_uuid requested batch_limit
    release_dlq_replay_lock t
    pure result

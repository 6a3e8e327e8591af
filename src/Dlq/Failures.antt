-- ===== src/Dlq/Failures.antt =====
-- worker.py: what happens to a task that has failed for good.
pub mod Records
use loboguara.Common.{
  ℕ, String, Bool, true, false, not, Option, none, some, List, [], ◌∷◌, ◌&&◌, Exception, Result, ok,
  err, str_eq, is_some, or_else, ◌||◌, if◌then◌else◌,
}
use loboguara.Common.Int.{ℤ, pos, leb_ℤ}
use loboguara.Models.{
  Uuid, Value, Mapping, null, text, uuid, Notification, NotificationChannel, voice, telegram, email,
  whatsapp, calendar, channel_value, failed, failure, optional_uuid, py_int,
}
use loboguara.World.{World, Env, DlqEntry}
use loboguara.Action.{Action, pure, gets, when, on_option, ◌>>=◌, ◌>>◌}
use loboguara.Database.{notification_by_id, update_notification, uuid4, add_audit}
use loboguara.Metrics.{increment_metric_counter}
use loboguara.Channel.{record_channel_failure}
use loboguara.Delivery.{notification_is_terminal}
use loboguara.Dlq.{push_dlq_entry, channel_of_task}
use loboguara.Tasks.{get_channel_retry_policy}

-- an id of the payload, which a task carries as a UUID
abbrev pub id_of : Value → Option Uuid
id_of (uuid u) = some u
id_of _ = none

-- the channels that `_record_final_failure` counts a failure of
abbrev pub is_counted : NotificationChannel → Bool
is_counted voice = true
is_counted telegram = true
is_counted email = true
is_counted whatsapp = false
is_counted calendar = false

-- the new status, with the count of the channel
unfoldable pub set_failed : Env → DlqEntry → Notification → Action (Unit {0})
set_failed env payload n = do
  update_notification n.id (λ r. record r { status = failed; error_message = some payload.error })
  when (is_counted n.channel) (do
    increment_metric_counter env "tasks_failed_by_channel" (channel_value n.channel)
    record_channel_failure env n.channel
    pure tt)

-- the change of a notification that has not ended
unfoldable pub fail_notification : Env → DlqEntry → Notification → Action (Unit {0})
fail_notification env payload n = when (not (notification_is_terminal n)) (set_failed env payload n)

-- the audit at the end of `_record_final_failure`
unfoldable pub log_final_failure :
    (task_name : String) → DlqEntry → Uuid → (incident_id : Option Uuid) → Action (Unit {0})
log_final_failure task_name payload trace incident_id = add_audit trace incident_id failure (
    ("task_name", text task_name)
    ∷ ("notification_id", payload.notification_id)
    ∷ ("error", text payload.error)
    ∷ [])

-- the row of the payload's notification
unfoldable pub failed_notification : DlqEntry → World → Option Notification
failed_notification payload w = elim (id_of payload.notification_id) [
  | none ↦ none
  | some i ↦ notification_by_id i w
]

abbrev pub incident_of : Option Notification → Option Uuid
incident_of none = none
incident_of (some n) = some n.incident_id

-- the part of `_record_final_failure` that depends on the row: the incident that it names
unfoldable pub settle_notification : Env → (task_name : String) → DlqEntry → Action (Option Uuid)
settle_notification env task_name payload = do
  found ← gets (failed_notification payload)
  on_option found
      (when (not (is_some (id_of payload.notification_id)) && str_eq task_name "escalation_worker")
        (increment_metric_counter env "tasks_failed_by_channel" "ESCALATION"))
      (fail_notification env payload)
  pure (incident_of found)

-- `_record_final_failure`
unfoldable pub record_final_failure : Env → (task_name : String) → DlqEntry → Action (Unit {0})
record_final_failure env task_name payload = do
  trace ← on_option (id_of payload.trace_id) uuid4 (λ t. pure t)
  incident ← settle_notification env task_name payload
  log_final_failure task_name payload trace (or_else (id_of payload.incident_id) incident)

-- `_handle_task_final_failure`
unfoldable pub handle_task_final_failure :
    Env
    → (task_name : String) → (args : List Uuid) → (kwargs : Mapping) → (error : String)
    → Action (Unit {0})
handle_task_final_failure env task_name args kwargs error = do
  payload ← push_dlq_entry env task_name args kwargs error
  record_final_failure env task_name payload

-- `max_retries` of a channel's policy, or the setting where it cannot be read
number_or : ℤ → Result ℤ → ℤ
number_or default (ok z) = z
number_or default (err e) = default

-- the tasks that `_on_task_failure` looks at
abbrev pub is_watched : String → Bool
is_watched task_name = is_some (channel_of_task task_name) || str_eq task_name "escalation_worker"

-- `max_retries` in `_on_task_failure`
max_retries_of : Env → (task_name : String) → (args : List Uuid) → World → ℤ
unfolding number_or
max_retries_of env task_name [] w = env.config.celery_task_max_retries
max_retries_of env task_name (i ∷ args) w = elim (channel_of_task task_name) [
  | none ↦ env.config.celery_task_max_retries
  | some channel ↦
      number_or env.config.celery_task_max_retries
        (py_int ((get_channel_retry_policy env i channel w).max_retries))
]

-- `_on_task_failure`, for an exception that is no `Retry`
unfoldable pub on_task_failure :
    Env
    → (task_name : String) → (retries : ℕ) → (args : List Uuid) → (kwargs : Mapping)
    → (error : String) → Action (Unit {0})
unfolding max_retries_of
on_task_failure env task_name retries args kwargs error = when (is_watched task_name) (do
  max_retries ← gets (max_retries_of env task_name args)
  when (leb_ℤ max_retries (pos retries))
      (handle_task_final_failure env task_name args kwargs error))

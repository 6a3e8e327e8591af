-- ===== src/Delivery/Records.antt =====
-- worker.py: `_notification_is_terminal` and the three ways to record the end of a delivery.
use loboguara.Common.{
  ℕ, String, Bool, true, false, Option, some, [], ◌∷◌, lookup_error, Exception, if◌then◌else◌,
}
use loboguara.Common.Text.{◌⧺◌}
use loboguara.Models.{
  Uuid, Notification, NotificationStatus, NotificationChannel, pending, sent, failed, delivered,
  read, answered_voice, channel_value, notification_sent, failure, text, uuid, boolean,
  optional_text,
}
use loboguara.World.{Env}
use loboguara.Action.{Action, pure, gets, or_raise, ◌>>=◌, ◌>>◌}
use loboguara.Database.{notification_by_id, update_notification, add_audit}
use loboguara.Metrics.{increment_metric_counter, count_value}
use loboguara.Channel.{record_channel_failure, reset_channel_circuit_state}

-- `_notification_is_terminal`
abbrev pub status_is_terminal : NotificationStatus → Bool
status_is_terminal sent = true
status_is_terminal delivered = true
status_is_terminal answered_voice = true
status_is_terminal pending = false
status_is_terminal failed = false
status_is_terminal read = false

abbrev pub notification_is_terminal : Notification → Bool
notification_is_terminal n = status_is_terminal n.status

abbrev pub not_found : Env → Uuid → Exception
not_found env notification_id =
    lookup_error ("notification not found: " ⧺ env.uuid_text notification_id)

-- The start that the three share: the row under a lock, which must be there; one that has ended is
-- left as it is, with the answer False.
unfoldable pub unless_terminal : Env → Uuid → (Notification → Action Bool) → Action Bool
unless_terminal env i record_end = do
  found ← gets (notification_by_id i)
  notification ← or_raise found (not_found env i)
  if notification_is_terminal notification then pure false else record_end notification

-- `_mark_notification_suppressed`
unfoldable pub mark_notification_suppressed :
    Env
    → Uuid
    → Uuid
    → NotificationChannel
    → (reason dedupe_key : String) → (dedupe_window_seconds : ℕ)
    → (message_preview runbook_url : Option String) → Action Bool
mark_notification_suppressed env i trace channel reason dedupe_key window message_preview
      runbook_url =
    unless_terminal env i λ notification. do
      update_notification i (λ n. record n {
        status = delivered;
        external_provider_id = some ("suppressed:" ⧺ reason);
      })
      add_audit trace (some notification.incident_id) notification_sent (
          ("channel", text (channel_value channel))
          ∷ ("notification_id", uuid i)
          ∷ ("trace_id", uuid trace)
          ∷ ("suppressed", boolean true)
          ∷ ("suppression_reason", text reason)
          ∷ ("dedupe_key", text dedupe_key)
          ∷ ("dedupe_window_seconds", count_value window)
          ∷ ("message_preview", optional_text message_preview)
          ∷ ("runbook_url", optional_text runbook_url)
          ∷ [])
      pure true

-- `_mark_notification_sent`
unfoldable pub mark_notification_sent :
    Env
    → Uuid
    → Uuid
    → NotificationChannel
    → (provider_id message_preview runbook_url : Option String) → Action Bool
mark_notification_sent env i trace channel provider_id message_preview runbook_url =
    unless_terminal env i λ notification. do
      update_notification i (λ n. record n { status = sent; external_provider_id = provider_id })
      increment_metric_counter env "tasks_sent_by_channel" (channel_value channel)
      add_audit trace (some notification.incident_id) notification_sent (
          ("channel", text (channel_value channel))
          ∷ ("notification_id", uuid i)
          ∷ ("provider_id", optional_text provider_id)
          ∷ ("trace_id", uuid trace)
          ∷ ("message_preview", optional_text message_preview)
          ∷ ("runbook_url", optional_text runbook_url)
          ∷ [])
      reset_channel_circuit_state channel
      pure true

-- `_mark_notification_failed`
unfoldable pub mark_notification_failed :
    Env
    → Uuid
    → Uuid
    → NotificationChannel
    → (error_message : String) → (message_preview runbook_url : Option String) → Action Bool
mark_notification_failed env i trace channel error_message message_preview runbook_url =
    unless_terminal env i λ notification. do
      update_notification i (λ n. record n { status = failed; error_message = some error_message })
      increment_metric_counter env "tasks_failed_by_channel" (channel_value channel)
      record_channel_failure env channel
      add_audit trace (some notification.incident_id) failure (
          ("channel", text (channel_value channel))
          ∷ ("notification_id", uuid i)
          ∷ ("trace_id", uuid trace)
          ∷ ("error", text error_message)
          ∷ ("message_preview", optional_text message_preview)
          ∷ ("runbook_url", optional_text runbook_url)
          ∷ [])
      pure true

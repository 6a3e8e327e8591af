-- ===== src/Delivery.antt =====
-- worker.py: the delivery of one notification on its channel, `_send_notification_channel_impl`, with
-- what it records. The reports to the observability services (`notify_event`, `notify_exception`)
-- change nothing that the program reads, and are left out.
mod Records
pub mod Terminal
pub mod Ended
pub mod Retry
pub mod Redelivery
pub mod Repeat
unfoldable pub use Records.{
  notification_is_terminal, status_is_terminal, not_found, unless_terminal,
  mark_notification_suppressed, mark_notification_sent, mark_notification_failed,
}
pub mod Telegram
use loboguara.Common.{
  ℕ, String, Bool, true, false, not, Option, none, some, List, [], ◌∷◌, ◌&&◌, ◌||◌, runtime_error,
  Exception, Result, ok, err, get_or, if◌then◌else◌,
}
use loboguara.Common.Text.{◌⧺◌, strip}
use loboguara.Common.{str_eq}
use loboguara.Models.{
  Uuid, Rule, Incident, Notification, Contact, NotificationChannel, voice, email, telegram,
  whatsapp, calendar, channel_value, failure, text, uuid,
}
use loboguara.World.{World, Env}
use loboguara.Action.{Action, pure, raise, gets, or_raise, on_option, ◌>>=◌, ◌>>◌}
use loboguara.Database.{notification_by_id, incident_by_id, rule_by_id, contact_by_id, add_audit}
use loboguara.Metrics.{increment_metric_counter, count_value}
use loboguara.Channel.{channel_is_circuit_open, channel_rate_limit_exceeded, Rate}
use loboguara.Template.{render_notification_template, nonempty}
use loboguara.Providers.{
  dispatch_voice_provider, send_telegram_via_bot_api, send_email_via_resend, resend_is_configured,
}
use loboguara.Delivery.Telegram.{
  telegram_target_chat_id, telegram_notification_dedupe_window, telegram_notification_dedupe_key,
  claim_dedupe_key, telegram_service_rate_limit_key, telegram_service_rate_limit_state,
  telegram_service_rate_limit_window_seconds, buffer_telegram_digest, ServiceLimit,
}

-- the "status" of the result, with what comes beside it
pub data SendStatus : Type 0 where
  already_terminal skipped_circuit sent_now : SendStatus
  skipped_rate_limit : Rate → SendStatus
  send_failed : String → SendStatus
  suppressed_duplicate : String → ℕ → SendStatus
  suppressed_rate_limit : ServiceLimit → SendStatus

-- What the delivery works on: the row, with its incident and the incident's rule, and the message.
pub record Job : Type 0 where
  pub notification : Notification
  pub trace_id : Uuid
  pub incident : Option Incident
  pub rule : Option Rule
  pub message_preview : Option String

-- the rule of an incident, if it has one
unfoldable pub matched_rule : Option Incident → World → Option Rule
matched_rule none w = none
matched_rule (some incident) w = elim incident.matched_rule_id [
  | none ↦ none
  | some i ↦ rule_by_id i w
]

unfoldable pub preview_of :
    Env → Option Rule → Option Incident → NotificationChannel → Option String
preview_of env rule none channel = none
preview_of env rule (some incident) channel =
    some (render_notification_template env rule incident (channel_value channel))

abbrev runbook_of : Option Rule → Option String
runbook_of none = none
runbook_of (some rule) = rule.runbook_url

-- the channels that the circuit breaker and the rate limit watch
abbrev pub is_limited : NotificationChannel → Bool
is_limited voice = true
is_limited telegram = true
is_limited email = true
is_limited whatsapp = false
is_limited calendar = false

-- the end of the function: `_mark_notification_sent` and its two results
unfoldable pub finish_send :
    Env → NotificationChannel → Job → (provider_id runbook_url : Option String) → Action SendStatus
finish_send env channel job provider_id runbook_url = do
  done ←
      mark_notification_sent env job.notification.id job.trace_id channel provider_id
        job.message_preview runbook_url
  pure (if done then sent_now else already_terminal)

-- a failure that is recorded and returned
unfoldable pub fail_send :
    Env
    → NotificationChannel
    → Job
    → (error : String) → (runbook_url : Option String) → Action SendStatus
fail_send env channel job error runbook_url = do
  mark_notification_failed env job.notification.id job.trace_id channel error job.message_preview
      runbook_url
  pure (send_failed error)

-- the branch of VOICE
unfoldable pub send_voice : Env → Job → Action SendStatus
send_voice env job = do
  provider_id ← dispatch_voice_provider env job.notification (some job.trace_id)
  finish_send env voice job provider_id (runbook_of job.rule)

abbrev service_name : Option Incident → String
service_name none = "unknown"
service_name (some incident) = get_or (nonempty incident.service) "unknown"

-- the branch of TELEGRAM behind the test of the service's rate limit
unfoldable pub send_telegram_unless_limited :
    Env → Job → (chat_id : String) → (limit : ServiceLimit) → Action SendStatus
send_telegram_unless_limited env job chat_id limit =
    if limit.exceeded
    then (do
      buffer_telegram_digest job.incident job.message_preview
      mark_notification_suppressed env job.notification.id job.trace_id telegram
          "service_rate_limit" (telegram_service_rate_limit_key (service_name job.incident))
          telegram_service_rate_limit_window_seconds job.message_preview (runbook_of job.rule)
      pure (suppressed_rate_limit limit))
    else (do
      provider_id ←
          send_telegram_via_bot_api env chat_id
            (get_or (nonempty job.message_preview) "Alerta sem conteúdo.")
      finish_send env telegram job (some provider_id) (runbook_of job.rule))

-- the branch of TELEGRAM behind its dedupe key
unfoldable pub send_telegram_once : Env → Job → (chat_id : String) → Action SendStatus
send_telegram_once env job chat_id = do
  limit ← telegram_service_rate_limit_state (service_name job.incident)
  send_telegram_unless_limited env job chat_id limit

-- the branch of TELEGRAM
unfoldable pub send_telegram : Env → Job → (contact : Option Contact) → Action SendStatus
send_telegram env job contact =
    let chat_id = telegram_target_chat_id env contact in
    let window = telegram_notification_dedupe_window env job.rule in
    let key = telegram_notification_dedupe_key job.incident chat_id job.message_preview in
    if str_eq (strip env.config.telegram_bot_token) ""
    then fail_send env telegram job "Telegram bot token is not configured" (runbook_of job.rule)
    else do
      claimed ← claim_dedupe_key key job.notification.id window
      if claimed then send_telegram_once env job chat_id else do
        mark_notification_suppressed env job.notification.id job.trace_id telegram "dedupe_window"
            key window job.message_preview (runbook_of job.rule)
        pure (suppressed_duplicate key window)

abbrev email_of : Option Contact → Option String
email_of none = none
email_of (some contact) = nonempty contact.email

abbrev subject_of : Option Incident → String
subject_of none = "Incident alert"
subject_of (some incident) = incident.title

-- `except RuntimeError`: other exceptions go on
unfoldable pub recover_email :
    Env → Job → (runbook_url : String) → Result String → Action SendStatus
recover_email env job runbook_url (ok provider_id) =
    finish_send env email job (some provider_id) (some runbook_url)
recover_email env job runbook_url (err (runtime_error message)) =
    fail_send env email job message (some runbook_url)
recover_email env job runbook_url (err e) = raise e

-- the attempt, with the exception as a value
unfoldable pub attempt {ℓ} : {A : Type ℓ} → Action A → Action (Result A)
attempt m w = let (r, w') = m w in (ok r, w')

-- the branch of EMAIL
unfoldable pub send_email : Env → Job → (contact : Option Contact) → Action SendStatus
unfolding recover_email
send_email env job contact =
    let runbook_url =
      get_or (nonempty (runbook_of job.rule))
        (env.config.app_base_url ⧺ "/incidents/" ⧺ env.uuid_text job.notification.incident_id) in
    let html =
      "<p>"
      ⧺ get_or (nonempty job.message_preview) "Alerta sem conteúdo."
      ⧺ "</p><p><a href=\""
      ⧺ runbook_url
      ⧺ "\">Abrir incidente</a></p>" in
    on_option (email_of contact)
      (fail_send env email job "Contact email is not available for email dispatch"
        (runbook_of job.rule))
      (λ address.
        if not (resend_is_configured env)
        then fail_send env email job "Resend is not configured (missing RESEND_API_KEY)"
            (runbook_of job.rule)
        else do
          r ← attempt (send_email_via_resend env address (subject_of job.incident) html)
          recover_email env job runbook_url r)

unfoldable pub send_branch : Env → NotificationChannel → Job → Option Contact → Action SendStatus
send_branch env voice job contact = send_voice env job
send_branch env telegram job contact = send_telegram env job contact
send_branch env email job contact = send_email env job contact
send_branch env whatsapp job contact = finish_send env whatsapp job none (runbook_of job.rule)
send_branch env calendar job contact = finish_send env calendar job none (runbook_of job.rule)

-- the branches on the channel
unfoldable pub send_on_channel : Env → NotificationChannel → Job → Action SendStatus
unfolding send_branch
send_on_channel env channel job = do
  contact ← gets (contact_by_id job.notification.contact_id)
  send_branch env channel job contact

-- the rate limit before the branches
unfoldable pub send_within_limit : Env → NotificationChannel → Job → Action SendStatus
send_within_limit env channel job = do
  rate ← channel_rate_limit_exceeded env channel none none
  if rate.exceeded
      then (do
        add_audit job.trace_id (some job.notification.incident_id) failure (
            ("channel", text (channel_value channel))
            ∷ ("notification_id", uuid job.notification.id)
            ∷ ("reason", text "rate_limited")
            ∷ ("limit", count_value rate.limit)
            ∷ ("count", count_value rate.count)
            ∷ ("window_seconds", count_value rate.window_seconds)
            ∷ [])
        increment_metric_counter env "tasks_failed_by_channel" (channel_value channel)
        pure (skipped_rate_limit rate))
      else send_on_channel env channel job

-- `_send_notification_channel_impl`
unfoldable pub send_notification_channel :
    Env → Uuid → Uuid → NotificationChannel → Action SendStatus
unfolding preview_of
send_notification_channel env notification_id trace_id channel = do
  found ← gets (notification_by_id notification_id)
  notification ← or_raise found (not_found env notification_id)
  if notification_is_terminal notification then pure already_terminal else do
    incident ← gets (incident_by_id notification.incident_id)
    rule ← gets (matched_rule incident)
    circuit_open ← gets (channel_is_circuit_open channel)
    let job : Job = record {
      notification = notification;
      trace_id = trace_id;
      incident = incident;
      rule = rule;
      message_preview = preview_of env rule incident channel;
    }
    if is_limited channel && circuit_open
        then pure skipped_circuit
        else if is_limited channel
        then send_within_limit env channel job
        else send_on_channel env channel job

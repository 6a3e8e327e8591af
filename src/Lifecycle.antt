-- ===== src/Lifecycle.antt =====
-- main.py: how an incident is acknowledged, resolved and answered by a voice call, with the two
-- documents of the call. A path parameter comes as `uuid.UUID` reads it: `none` is its ValueError.
pub mod Ranks
pub mod Signed
use loboguara.Common.{
  String, Bool, true, false, not, Option, none, some, is_some, List, [], ◌∷◌, ◌&&◌, find?, ◌==◌,
  str_eq, http_exception, if◌then◌else◌,
}
use loboguara.Common.Text.{◌⧺◌}
use loboguara.Models.{
  Uuid, Time, Incident, IncidentStatus, opened, acknowledged, resolved, escalated, Notification,
  answered_voice, AuditLog, ack_received, callback_received, twiml_generated, text, uuid, boolean,
  null, optional_text, is_open,
}
use loboguara.World.{World, Env}
use loboguara.Action.{Action, pure, raise, gets, or_raise, when, on_option, ◌>>=◌, ◌>>◌}
use loboguara.Database.{
  incident_by_id, notification_by_id, update_incident, touch_incident, update_notification, uuid4,
  add_audit,
}

abbrev pub is_log_of : Uuid → AuditLog → Bool
is_log_of i log = elim log.incident_id [ none ↦ false | some j ↦ j == i ]

-- `_get_or_create_trace_id`; the log is in the order of `created_at`
unfoldable pub get_or_create_trace_id : Uuid → Action Uuid
get_or_create_trace_id i = do
  first_log ← gets (λ w. find? (is_log_of i) w.audits)
  on_option first_log uuid4 (λ log. pure log.trace_id)

-- `IncidentLifecycleResponse`
pub record LifecycleResponse : Type 0 where
  pub action : String
  pub incident : Incident

abbrev pub acknowledged_at_by : Time → Option String → Incident → Incident
acknowledged_at_by now by r = record r {
  status = acknowledged;
  acknowledged_at = some now;
  acknowledged_by = elim by [ none ↦ r.acknowledged_by | some name ↦ some name ];
}

abbrev pub resolved_row : Incident → Incident
resolved_row r = record r { status = resolved }

-- the audit of an acknowledged row, and the response
unfoldable pub log_acknowledged : Incident → Action LifecycleResponse
log_acknowledged row = do
  trace ← get_or_create_trace_id row.id
  add_audit trace (some row.id) ack_received (
      ("acknowledged_by", optional_text row.acknowledged_by)
      ∷ ("source", text "api")
      ∷ ("incident_status", text "ACKNOWLEDGED")
      ∷ [])
  pure (record { action = "ack"; incident = row })

-- what follows the guards of `acknowledge_incident`
unfoldable pub acknowledge_open : Incident → Option String → Time → Action LifecycleResponse
acknowledge_open incident acknowledged_by now = do
  update_incident incident.id (acknowledged_at_by now acknowledged_by)
  log_acknowledged (touch_incident now (acknowledged_at_by now acknowledged_by) incident)

-- `acknowledge_incident`
unfoldable pub acknowledge_incident :
    (incident_id : Option Uuid) → (acknowledged_by : Option String) → Action LifecycleResponse
acknowledge_incident incident_id acknowledged_by = do
  i ← or_raise incident_id (http_exception 400 "Invalid incident id")
  found ← gets (incident_by_id i)
  incident ← or_raise found (http_exception 404 "Incident not found")
  now ← gets (λ w. w.now)
  if not (is_open incident.status)
      then raise (http_exception 409 "Incident is not open")
      else acknowledge_open incident acknowledged_by now

abbrev pub can_be_resolved : IncidentStatus → Bool
can_be_resolved acknowledged = true
can_be_resolved escalated = true
can_be_resolved opened = false
can_be_resolved resolved = false

-- the audit of a resolved row, and the response
unfoldable pub log_resolved :
    (resolved_by note : Option String) → Incident → Action LifecycleResponse
log_resolved resolved_by note row = do
  trace ← get_or_create_trace_id row.id
  add_audit trace (some row.id) callback_received (
      ("resolved_by", optional_text resolved_by)
      ∷ ("note", optional_text note)
      ∷ ("source", text "api")
      ∷ ("incident_status", text "RESOLVED")
      ∷ [])
  pure (record { action = "resolve"; incident = row })

-- what follows the guards of `resolve_incident`
unfoldable pub resolve_ended :
    Incident → (resolved_by note : Option String) → Time → Action LifecycleResponse
resolve_ended incident resolved_by note now = do
  update_incident incident.id resolved_row
  log_resolved resolved_by note (touch_incident now resolved_row incident)

-- `resolve_incident`
unfoldable pub resolve_incident :
    (incident_id : Option Uuid) → (resolved_by note : Option String) → Action LifecycleResponse
resolve_incident incident_id resolved_by note = do
  i ← or_raise incident_id (http_exception 400 "Invalid incident id")
  found ← gets (incident_by_id i)
  incident ← or_raise found (http_exception 404 "Incident not found")
  now ← gets (λ w. w.now)
  if not (can_be_resolved incident.status)
      then raise (http_exception 409 "Incident cannot be resolved from current status")
      else resolve_ended incident resolved_by note now

-- the response of `handle_voice_callback`: its JSON or its document
pub data CallbackReply : Type 0 where
  ignored : CallbackReply
  twiml : String → CallbackReply

abbrev pub callback_reply : CallbackReply
callback_reply =
    twiml
      "<?xml version=\"1.0\" encoding=\"UTF-8\"?><Response><Say language=\"pt-BR\">Incidente reconhecido com sucesso. Obrigado.</Say></Response>"

-- the notification and the audit of an answered call
unfoldable pub log_answer : (digits : String) → Uuid → Notification → Uuid → Action (Unit {0})
log_answer digits incident notification trace = do
  update_notification notification.id (λ n. record n { status = answered_voice })
  add_audit trace (some incident) ack_received (
      ("channel", text "VOICE")
      ∷ ("digits", text digits)
      ∷ ("contact_id", uuid notification.contact_id)
      ∷ [])

-- the branch of `handle_voice_callback` that takes the incident over
unfoldable pub answer_call :
    Env → (digits : String) → Incident → Notification → Uuid → Time → Action (Unit {0})
answer_call env digits incident notification trace now = do
  update_incident incident.id
      (acknowledged_at_by now (some (env.uuid_text notification.contact_id)))
  log_answer digits incident.id notification trace

-- the test of the digits, and the document that answers
unfoldable pub answer_if_asked :
    Env → (digits : String) → Incident → Notification → Uuid → Time → Action CallbackReply
answer_if_asked env digits incident notification trace now = do
  when (str_eq digits "1" && is_open incident.status)
      (answer_call env digits incident notification trace now)
  pure callback_reply

-- what follows the audit of the callback
unfoldable pub conclude_callback :
    Env
    → (digits : String) → Notification
    → Incident
    → Uuid
    → (rejected : Option String) → Action CallbackReply
conclude_callback env digits notification incident trace rejected = do
  now ← gets (λ w. w.now)
  on_option rejected (answer_if_asked env digits incident notification trace now)
      (λ reason. raise (http_exception 401 "Invalid voice webhook signature"))

-- the audit of the callback
unfoldable pub audit_callback :
    (digits : String) → (rejected : Option String) → Notification → Incident → Action Uuid
audit_callback digits rejected notification incident = do
  trace ← get_or_create_trace_id incident.id
  add_audit trace (some incident.id) callback_received (
      ("channel", text "VOICE")
      ∷ ("digits", text digits)
      ∷ ("notification_id", uuid notification.id)
      ∷ ("rejected", boolean (is_some rejected))
      ∷ ("reason", optional_text rejected)
      ∷ [])
  pure trace

-- `handle_voice_callback` behind the two rows
unfoldable pub record_callback :
    Env
    → (digits : String) → (rejected : Option String) → Notification
    → Incident
    → Action CallbackReply
record_callback env digits rejected notification incident = do
  trace ← audit_callback digits rejected notification incident
  conclude_callback env digits notification incident trace rejected

-- `handle_voice_callback`; `rejected` is the reason for which `_verify_voice_webhook_signature`
-- refuses the request, if it does
unfoldable pub handle_voice_callback :
    Env
    → (notification_id : Option Uuid) → (digits : String) → (rejected : Option String)
    → Action CallbackReply
handle_voice_callback env notification_id digits rejected =
    on_option notification_id (pure ignored) λ i. do
      found ← gets (notification_by_id i)
      on_option found (pure ignored) λ notification. do
        of_incident ← gets (incident_by_id notification.incident_id)
        on_option of_incident (pure ignored) (record_callback env digits rejected notification)

-- the two rows that the documents of a call start from
call_rows : Option Uuid → Action (Notification × Incident)
call_rows notification_id = do
  i ← or_raise notification_id (http_exception 400 "Invalid notification id")
  found ← gets (notification_by_id i)
  notification ← or_raise found (http_exception 404 "Not found")
  of_incident ← gets (incident_by_id notification.incident_id)
  incident ← or_raise of_incident (http_exception 404 "Incident not found")
  pure (notification, incident)

abbrev gather : Env → Uuid → String
gather env i =
    "    <Gather numDigits=\"1\" action=\""
    ⧺ env.config.app_base_url
    ⧺ "/dispatch/voice/callback/"
    ⧺ env.uuid_text i
    ⧺ "\" method=\"POST\" />\n"

-- `generate_twiml`
unfoldable pub generate_twiml : Env → (notification_id : Option Uuid) → Action String
unfolding call_rows
generate_twiml env notification_id = do
  rows ← call_rows notification_id
  trace ← get_or_create_trace_id rows.1.id
  add_audit trace (some rows.1.id) twiml_generated (("notification_id", uuid rows.0.id) ∷ [])
  pure (
      "<?xml version=\"1.0\" encoding=\"UTF-8\"?>\n<Response>\n"
      ⧺ "    <Say language=\"pt-BR\" voice=\"Polly.Camila-Neural\">\n"
      ⧺ "        Atenção. Você tem um incidente crítico da fonte "
      ⧺ rows.1.source
      ⧺ ". "
      ⧺ rows.1.title
      ⧺ ".\n        Pressione 1 para reconhecer o erro e assumir o incidente.\n    </Say>\n"
      ⧺ gather env rows.0.id
      ⧺ "</Response>")

-- `generate_prerecorded_twiml`
unfoldable pub generate_prerecorded_twiml : Env → (notification_id : Option Uuid) → Action String
unfolding call_rows
generate_prerecorded_twiml env notification_id =
    if str_eq env.config.voice_prerecorded_audio_url ""
    then raise (http_exception 503 "Pre-recorded audio URL is not configured")
    else do
      rows ← call_rows notification_id
      trace ← get_or_create_trace_id rows.1.id
      add_audit trace (some rows.1.id) twiml_generated (
          ("notification_id", uuid rows.0.id)
          ∷ ("mode", text "pre_recorded")
          ∷ ("audio_url", text env.config.voice_prerecorded_audio_url)
          ∷ [])
      pure (
          "<?xml version=\"1.0\" encoding=\"UTF-8\"?>\n<Response>\n    <Play>"
          ⧺ env.config.voice_prerecorded_audio_url
          ⧺ "</Play>\n"
          ⧺ gather env rows.0.id
          ⧺ "    <Say language=\"pt-BR\">Se necessário, repita a ligação com a equipe de plantão.</Say>\n"
          ⧺ "</Response>")

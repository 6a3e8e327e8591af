-- ===== src/Ops/Incidents.antt =====
-- main.py: the endpoints that read incidents and their logs. The log is in the order of `created_at`.
use loboguara.Common.{
  ℕ, String, Bool, true, Option, none, some, List, ◌&&◌, ◌||◌, keep, ltb, str_eq, ◌==◌,
  http_exception, if◌then◌else◌,
}
use loboguara.Common.Int.{ltb_ℤ, pos}
use loboguara.Models.{Uuid, Incident, IncidentStatus, AuditLog, AuditAction}
use loboguara.World.{World, Env}
use loboguara.Action.{Action, pure, gets, raise, or_raise, ◌>>=◌, ◌>>◌}
use loboguara.Database.{incident_by_id}
use loboguara.Lifecycle.{is_log_of}
use loboguara.Directory.Paging.{validate_ops_limit, sort_by, Page, page_of}
use loboguara.Ops.Sla.{has_status}
use loboguara.Ops.Integration.{has_action}

-- the incident of a path parameter
unfoldable pub load_incident : Option Uuid → Action Incident
load_incident incident_id = do
  i ← or_raise incident_id (http_exception 400 "Invalid incident id")
  found ← gets (incident_by_id i)
  or_raise found (http_exception 404 "Incident not found")

abbrev pub logs_of : Uuid → World → List AuditLog
logs_of i w = keep (is_log_of i) w.audits

-- `get_incident`
unfoldable pub get_incident : Option Uuid → Action (Incident × List AuditLog)
get_incident incident_id = do
  incident ← load_incident incident_id
  logs ← gets (logs_of incident.id)
  pure (incident, logs)

-- `ORDER BY created_at ASC, id ASC`
abbrev pub log_before : AuditLog → AuditLog → Bool
log_before a b = ltb a.created_at b.created_at || (a.created_at == b.created_at && ltb a.id b.id)

abbrev pub of_action : Option AuditAction → AuditLog → Bool
of_action none log = true
of_action (some a) log = has_action a log

-- `get_incident_timeline`
unfoldable pub get_incident_timeline :
    Env → Option Uuid → Option AuditAction → (limit offset : ℕ) → Action (Page AuditLog)
get_incident_timeline env incident_id action limit offset = do
  incident ← load_incident incident_id
  validate_ops_limit env limit
  logs ← gets (logs_of incident.id)
  pure (page_of limit offset (sort_by log_before (keep (of_action action) logs)))

-- `ORDER BY created_at DESC, id DESC`
abbrev pub newer : Incident → Incident → Bool
newer a b = ltb b.created_at a.created_at || (a.created_at == b.created_at && ltb b.id a.id)

-- the filters of `list_incidents`; an empty text is no filter
abbrev pub text_filter : Option String → String → Bool
text_filter none s = true
text_filter (some wanted) s = str_eq wanted "" || str_eq s wanted

abbrev pub status_filter : Option IncidentStatus → Incident → Bool
status_filter none r = true
status_filter (some s) r = has_status s r

abbrev pub is_wanted : Option IncidentStatus → (source severity : Option String) → Incident → Bool
is_wanted status source severity r =
    status_filter status r && text_filter source r.source && text_filter severity r.severity

-- `list_incidents`; pydantic refuses a limit over the operations limit
unfoldable pub list_incidents :
    Env
    → Option IncidentStatus
    → (source severity : Option String) → (limit offset : ℕ) → Action (Page Incident)
list_incidents env status source severity limit offset =
    if ltb_ℤ env.config.ops_endpoint_max_limit (pos limit)
    then raise (http_exception 422 "limit")
    else do
      rows ← gets (λ w. w.incidents)
      pure (page_of limit offset (sort_by newer (keep (is_wanted status source severity) rows)))

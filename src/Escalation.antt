-- ===== src/Escalation.antt =====
-- worker.py: the escalation of an incident to the group of its rule's fallback policy, and the sweep
-- of incidents that nobody takes up. A UUID in a policy's text is one that `uuid.UUID` reads.
pub mod Policies
pub mod Progress
pub mod Accepted
pub use Policies.{FallbackPolicy, usable, invalid}
unfoldable pub use Policies.{read_policy}
use loboguara.Common.{
  ℕ, ◌+◌, ◌-◌, ◌*◌, String, Bool, true, false, not, Option, none, some, List, [], ◌∷◌, ◌&&◌, keep,
  ltb, lookup_error, if◌then◌else◌,
}
use loboguara.Common.Text.{◌⧺◌, upper}
use loboguara.Models.{
  Uuid, Time, Incident, escalated, GroupMember, channel_value, channel_of_name, Value, text, uuid,
  fallback_task_queued, failure, escalation, is_open, NotificationChannel, Mapping,
}
use loboguara.World.{World, Env}
use loboguara.Action.{Action, pure, raise, gets, or_raise, when, on_option, for_each, ◌>>=◌, ◌>>◌}
use loboguara.Database.{
  incident_by_id, rule_by_id, update_incident, members_of_group, uuid4, add_audit,
}
use loboguara.Metrics.{touch_metrics, count_value}
use loboguara.Template.{channel_enabled_for_incident}
use loboguara.Delivery.{notification_is_terminal, matched_rule}
use loboguara.Dispatch.{get_or_create_notification, queue_channel_send}
use loboguara.Providers.{truthy}

abbrev pub escalated_row : Incident → Incident
escalated_row r = record r { status = escalated }

-- the body of the inner loop, once the channel has a name of the enumeration
unfoldable pub escalate_on : Incident → Uuid → Uuid → NotificationChannel → Action (Unit {0})
escalate_on incident trace contact channel =
    when (channel_enabled_for_incident incident channel) (do
      made ← get_or_create_notification incident.id contact channel
      when (not (notification_is_terminal made.0)) (do
        add_audit trace (some incident.id) fallback_task_queued
            (("channel", text (channel_value channel)) ∷ ("notification_id", uuid made.0.id) ∷ [])
        queue_channel_send made.0.id trace channel))

-- the loops over the members and the channels
unfoldable pub escalate_to : Incident → Uuid → List GroupMember → List String → Action (Unit {0})
escalate_to incident trace members names = for_each members λ member. for_each names λ name.
    on_option (channel_of_name (upper name)) (pure tt)
      (escalate_on incident trace member.contact_id)

-- what follows the check of the policy
unfoldable pub follow_policy : Incident → Uuid → FallbackPolicy → Action (Unit {0})
follow_policy incident trace (invalid bad diagnostic) =
    add_audit trace (some incident.id) failure
      (("reason", text "invalid_fallback_policy") ∷ ("invalid_field", text bad) ∷ diagnostic)
follow_policy incident trace (usable group names) = do
  members ← gets (members_of_group group)
  escalate_to incident trace members names

-- what follows the new status
unfoldable pub log_escalation : (parse_uuid : String → Option Uuid) → Incident → Uuid → Action Bool
log_escalation parse_uuid incident trace = do
  add_audit trace (some incident.id) escalation
      (("reason", text "ACK deadline expired without acknowledgment.") ∷ [])
  rule ← gets (matched_rule (some incident))
  on_option rule (pure true) λ r. on_option r.fallback_policy_json (pure true) λ policy.
      if not (truthy policy)
      then pure true
      else do follow_policy incident trace (read_policy parse_uuid policy); pure true

-- the escalation of an open incident
unfoldable pub escalate_open : (parse_uuid : String → Option Uuid) → Incident → Uuid → Action Bool
escalate_open parse_uuid incident trace = do
  update_incident incident.id escalated_row
  log_escalation parse_uuid incident trace

-- `_handle_escalation_impl`; `parse_uuid` is `uuid.UUID(text)`, with `none` for ValueError
unfoldable pub handle_escalation :
    Env → (parse_uuid : String → Option Uuid) → Uuid → Uuid → Action Bool
handle_escalation env parse_uuid i trace = do
  found ← gets (incident_by_id i)
  incident ← or_raise found (lookup_error ("incident not found: " ⧺ env.uuid_text i))
  if not (is_open incident.status) then pure true else escalate_open parse_uuid incident trace

-- `_record_periodic_task_heartbeat`, with the seconds of the clock as its time stamp and the 0
-- milliseconds that the clock moves within one call
unfoldable pub record_periodic_task_heartbeat : Env → (task status : String) → Action (Unit {0})
record_periodic_task_heartbeat env task status = do
  now ← gets (λ w. w.now)
  touch_metrics env (
      ("last_run_at:" ⧺ task, count_value now)
      ∷ ("last_status:" ⧺ task, text status)
      ∷ ("duration_ms:" ⧺ task, count_value 0)
      ∷ [])

-- the query of `stale_incident_sweeper`, with `_stale_cutoff`
abbrev pub is_stale : Env → Time → Incident → Bool
is_stale env now incident =
    is_open incident.status
    && ltb (incident.created_at + env.config.incident_stale_minutes * 60) now

-- what follows the new status of a stale row
unfoldable pub log_sweep : Uuid → Action ℕ
log_sweep i = do
  trace ← uuid4
  add_audit trace (some i) escalation (("reason", text "stale_sweeper") ∷ [])
  pure 1

-- the escalation of one stale row
unfoldable pub sweep_row : Incident → Action ℕ
sweep_row incident =
    if not (is_open incident.status)
    then pure 0
    else do update_incident incident.id escalated_row; log_sweep incident.id

-- the body of the loop: the session's row, as it stands now
unfoldable pub sweep_incident : Uuid → Action ℕ
sweep_incident i = do found ← gets (incident_by_id i); on_option found (pure 0) sweep_row

-- the loop: how many were swept
unfoldable pub sweep_all : List Incident → Action ℕ
sweep_all [] = pure 0
sweep_all (incident ∷ incidents) = do
  one ← sweep_incident incident.id
  more ← sweep_all incidents
  pure (one + more)

-- `stale_incident_sweeper`
unfoldable pub stale_incident_sweeper : Env → Action ℕ
stale_incident_sweeper env = do
  stale ← gets (λ w. keep (is_stale env w.now) w.incidents)
  swept ← sweep_all stale
  record_periodic_task_heartbeat env "stale_incident_sweeper" "ok"
  pure swept

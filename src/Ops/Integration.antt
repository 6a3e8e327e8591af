-- ===== src/Ops/Integration.antt =====
-- main.py: `_evaluate_ops_integration_status`. Its queries answer, and the classes that it looks at have
-- the members and the fields that they are declared with.
use loboguara.Common.{
  ℕ, String, Bool, true, not, none, some, List, ◌&&◌, ◌||◌, keep, any, ◌==◌, length, ltb, str_eq,
}
use loboguara.Common.Text.{strip}
use loboguara.Models.{
  Incident, acknowledged, AuditLog, AuditAction, event_received, duplicated_event, rule_matched,
  task_queued, notification_sent, failure, callback_received, ack_received, escalation,
  twiml_generated, fallback_task_queued, is_open,
}
use loboguara.World.{World, Env}
use loboguara.Lifecycle.{is_log_of}
use loboguara.Ops.Sla.{has_status}
use loboguara.Ops.DeadLetters.{get_dlq_replay_report, report_entry}

action_rank : AuditAction → ℕ
action_rank event_received = 0
action_rank duplicated_event = 1
action_rank rule_matched = 2
action_rank task_queued = 3
action_rank notification_sent = 4
action_rank failure = 5
action_rank callback_received = 6
action_rank ack_received = 7
action_rank escalation = 8
action_rank twiml_generated = 9
action_rank fallback_task_queued = 10

-- `log.action == action`
unfoldable pub has_action : AuditAction → AuditLog → Bool
unfolding action_rank
has_action a log = action_rank log.action == action_rank a

-- schemas.py: `OpsIntegrationStatusResponse`, without the evidence
pub record IntegrationStatus : Type 0 where
  pub enums_ok : Bool
  pub fallback_contract_ok : Bool
  pub trace_propagation_signal : Bool
  pub duplicate_event_signal : Bool
  pub ack_flow_signal : Bool
  pub escalation_guard_signal : Bool
  pub dlq_reporting_signal : Bool

abbrev pub is_some_row {ℓ} : {A : Type ℓ} → List A → Bool
is_some_row rows = ltb 0 (length rows)

-- `escalated_logs`
abbrev pub escalated_logs : World → List AuditLog
escalated_logs w = keep (has_action escalation) w.audits

-- `non_open_escalated`
abbrev pub non_open_escalated : World → List Incident
non_open_escalated w =
    keep (λ (r : Incident). any (is_log_of r.id) (escalated_logs w))
      (keep (λ (r : Incident). not (is_open r.status)) w.incidents)

-- `dlq_status`
unfoldable pub dlq_status : Env → World → String
dlq_status env w = elim (report_entry "status" (get_dlq_replay_report w)) [
  | none ↦ ""
  | some v ↦ strip (env.value_text v)
]

-- `_evaluate_ops_integration_status`; every log has a trace id
unfoldable pub evaluate_ops_integration_status : Env → World → IntegrationStatus
evaluate_ops_integration_status env w = record {
  enums_ok = true;
  fallback_contract_ok = true;
  trace_propagation_signal = is_some_row w.audits;
  duplicate_event_signal = is_some_row (keep (has_action duplicated_event) w.audits);
  ack_flow_signal =
      is_some_row (keep (has_status acknowledged) w.incidents)
      || is_some_row (keep (has_action ack_received) w.audits);
  escalation_guard_signal = is_some_row (escalated_logs w) && length (non_open_escalated w) == 0;
  dlq_reporting_signal = not (str_eq (dlq_status env w) "");
}

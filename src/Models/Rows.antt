-- ===== src/Models/Rows.antt =====
-- models.py: the rows. A UUID is its 128-bit number, a time the seconds since the epoch; trace ids
-- are UUIDs, as everywhere in the program.
use loboguara.Common.{ℕ, String, Bool, Option, List}
use loboguara.Common.Int.{ℤ}
use loboguara.Models.Enums.{IncidentStatus, NotificationChannel, NotificationStatus, AuditAction}
use loboguara.Models.Values.{Value, Fields, Mapping}

abbrev pub Uuid : Type 0
Uuid = ℕ

abbrev pub Time : Type 0
Time = ℕ

pub record Contact : Type 0 where
  pub id : Uuid
  pub name : String
  pub email : Option String
  pub phone : Option String
  pub whatsapp : Option String
  pub telegram_id : Option String

pub record Group : Type 0 where
  pub id : Uuid
  pub name : String
  pub description : Option String

pub record GroupMember : Type 0 where
  pub group_id : Uuid
  pub contact_id : Uuid

pub record Rule : Type 0 where
  pub id : Uuid
  pub rule_name : String
  pub condition_json : Mapping
  pub recipient_group_id : Uuid
  pub channels : List String
  pub active : Bool
  pub priority : ℤ
  pub requires_ack : Bool
  pub ack_deadline : Option ℤ
  pub fallback_policy_json : Option Value
  pub dedupe_window_seconds : Option ℤ
  pub dedupe_fields_json : List String
  pub notification_templates_json : List (String × String)
  pub runbook_url : Option String
  pub channel_retry_policy_json : Option Fields

pub record Incident : Type 0 where
  pub id : Uuid
  pub external_event_id : String
  pub source : String
  pub severity : String
  pub service : Option String
  pub title : String
  pub message : Option String
  pub payload_json : Value
  pub status : IncidentStatus
  pub matched_rule_id : Option Uuid
  pub dedupe_key : Option String
  pub occurrences : ℕ
  pub created_at : Time
  pub updated_at : Option Time
  pub acknowledged_at : Option Time
  pub acknowledged_by : Option String

pub record Notification : Type 0 where
  pub id : Uuid
  pub incident_id : Uuid
  pub contact_id : Uuid
  pub channel : NotificationChannel
  pub status : NotificationStatus
  pub external_provider_id : Option String
  pub error_message : Option String
  pub created_at : Time
  pub updated_at : Option Time

pub record AuditLog : Type 0 where
  pub id : Uuid
  pub trace_id : Uuid
  pub incident_id : Option Uuid
  pub action : AuditAction
  pub details_json : Mapping
  pub created_at : Time

-- ===== src/Database.antt =====
-- The tables through the ORM's session: rows by primary key, changed rows, and the audit log. A
-- change of a row stamps `updated_at` (`onupdate=func.now()` in models.py).
pub mod Tables
use Tables.{by_key, update_key}
use loboguara.Common.{
  ℕ, ◌+◌, String, Bool, Option, none, some, List, [], ◌∷◌, ◌++◌, ◌&&◌, find?, keep, ◌==◌,
}
use loboguara.Models.{
  Uuid, Contact, Group, GroupMember, Rule, Incident, Notification, AuditLog, AuditAction, Mapping,
  NotificationChannel, channel_eq,
}
use loboguara.World.{World, Db}
use loboguara.Action.{Action, gets, modify}
use loboguara.Common.{ok}

abbrev pub contact_by_id : Uuid → World → Option Contact
contact_by_id i w = by_key (λ (r : Contact). r.id) i w.contacts

abbrev pub group_by_id : Uuid → World → Option Group
group_by_id i w = by_key (λ (r : Group). r.id) i w.groups

abbrev pub rule_by_id : Uuid → World → Option Rule
rule_by_id i w = by_key (λ (r : Rule). r.id) i w.rules

abbrev pub incident_by_id : Uuid → World → Option Incident
incident_by_id i w = by_key (λ (r : Incident). r.id) i w.incidents

abbrev pub notification_by_id : Uuid → World → Option Notification
notification_by_id i w = by_key (λ (r : Notification). r.id) i w.notifications

abbrev pub touch_incident : ℕ → (Incident → Incident) → Incident → Incident
touch_incident now f r = record (f r) { updated_at = some now }

abbrev pub touch_notification : ℕ → (Notification → Notification) → Notification → Notification
touch_notification now f r = record (f r) { updated_at = some now }

abbrev pub set_incidents : World → List Incident → World
set_incidents w rows = record w { db = record w.db { incidents = rows } }

abbrev pub set_notifications : World → List Notification → World
set_notifications w rows = record w { db = record w.db { notifications = rows } }

unfoldable pub update_incident : Uuid → (Incident → Incident) → Action (Unit {0})
unfolding modify
update_incident i f = modify λ w.
    set_incidents w (update_key (λ (r : Incident). r.id) i (touch_incident w.now f) w.incidents)

unfoldable pub update_notification : Uuid → (Notification → Notification) → Action (Unit {0})
unfolding modify
update_notification i f = modify λ w.
    set_notifications w
      (update_key (λ (r : Notification). r.id) i (touch_notification w.now f) w.notifications)

-- `uuid.uuid4()`: a draw that no earlier draw gave
unfoldable pub uuid4 : Action Uuid
uuid4 w = (ok w.next_uuid, record w { next_uuid = w.next_uuid + 1 })

-- `db.add(AuditLog(...))`; the log is in the order of `created_at`
unfoldable pub add_audit : Uuid → Option Uuid → AuditAction → Mapping → Action (Unit {0})
add_audit trace incident action details w = (
  ok tt,
  record w {
    db = record w.db {
      audits =
          w.audits
          ++ record {
            id = w.next_uuid;
            trace_id = trace;
            incident_id = incident;
            action = action;
            details_json = details;
            created_at = w.now;
          }
            ∷ [];
    };
    next_uuid = w.next_uuid + 1;
  },
)

-- `db.query(GroupMember).filter(group_id == i).all()`
abbrev pub members_of_group : Uuid → World → List GroupMember
members_of_group i w = keep (λ (m : GroupMember). m.group_id == i) w.members

-- the filter of `_get_or_create_notification`
abbrev pub addressed_to : Uuid → Uuid → NotificationChannel → Notification → Bool
addressed_to incident contact channel n =
    n.incident_id == incident && n.contact_id == contact && channel_eq n.channel channel

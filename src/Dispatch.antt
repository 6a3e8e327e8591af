-- ===== src/Dispatch.antt =====
-- worker.py: `dispatch_incident`, which makes the notifications of an incident and queues their
-- delivery, and the two ways an incident escalates.
pub mod Uniqueness
use loboguara.Common.{
  ℕ, ◌+◌, ◌-◌, ◌*◌, String, Bool, true, false, not, Option, none, some, List, [], ◌∷◌, ◌++◌, ◌&&◌,
  ◌||◌, find?, keep, ltb, is_some, lookup_error, if◌then◌else◌,
}
use loboguara.Common.Text.{◌⧺◌, upper}
use loboguara.Models.{
  Uuid, Rule, Incident, escalated, opened, Notification, GroupMember, NotificationChannel, voice,
  email, telegram, whatsapp, calendar, pending, channel_value, channel_of_name, Value, Items,
  Fields, null, text, uuid, array, object, nil, cons, boolean, integer, entry, optional_text,
  task_queued, fallback_task_queued, failure, escalation, is_open, Mapping,
}
use loboguara.World.{World, Env, Task, channel_send}
use loboguara.Action.{
  Action, pure, raise, gets, or_raise, modify, when, on_option, for_each, ◌>>=◌, ◌>>◌,
}
use loboguara.Database.{
  incident_by_id, rule_by_id, update_incident, set_notifications, addressed_to, members_of_group,
  uuid4, add_audit,
}
use loboguara.Metrics.{touch_metrics, count_value}
use loboguara.Template.{channel_enabled_for_incident, render_notification_template}
use loboguara.Delivery.{notification_is_terminal, matched_rule}
use loboguara.Providers.{truthy, truthy_entry}

-- `Notification(...)` with the defaults of its columns
abbrev pub new_notification : Uuid → Uuid → Uuid → NotificationChannel → ℕ → Notification
new_notification i incident contact channel now = record {
  id = i;
  incident_id = incident;
  contact_id = contact;
  channel = channel;
  status = pending;
  external_provider_id = none;
  error_message = none;
  created_at = now;
  updated_at = none;
}

-- INSERT of a notification
unfoldable pub insert_notification : Notification → Action (Unit {0})
insert_notification row = modify (λ w. set_notifications w (w.notifications ++ row ∷ []))

-- `db.add` of a new notification, and its refreshed row
unfoldable pub add_notification : Uuid → Uuid → NotificationChannel → Action Notification
add_notification incident contact channel = do
  i ← uuid4
  now ← gets (λ w. w.now)
  let row : Notification = new_notification i incident contact channel now
  insert_notification row
  pure row

-- `_get_or_create_notification`
unfoldable pub get_or_create_notification :
    Uuid → Uuid → NotificationChannel → Action (Notification × Bool)
get_or_create_notification incident contact channel = do
  found ← gets (λ w. find? (addressed_to incident contact channel) w.notifications)
  on_option found (do row ← add_notification incident contact channel; pure (row, true))
      (λ row. pure (row, false))

-- the channels of `task_map`
has_task : NotificationChannel → Bool
has_task voice = true
has_task telegram = true
has_task email = true
has_task whatsapp = false
has_task calendar = false

-- `_queue_channel_send`
unfoldable pub queue_channel_send : Uuid → Uuid → NotificationChannel → Action (Unit {0})
unfolding has_task
queue_channel_send i trace channel =
    when (has_task channel)
      (modify (λ w. record w { tasks = w.tasks ++ channel_send channel i trace ∷ [] }))

-- the notifications that one member's channels give, those of `channels` from left to right
unfoldable pub notifications_of_member : Incident → Uuid → List String → Action (List Notification)
notifications_of_member incident contact [] = pure []
notifications_of_member incident contact (name ∷ names) =
    let rest = notifications_of_member incident contact names in
    on_option (channel_of_name (upper name)) rest λ channel.
      if not (channel_enabled_for_incident incident channel) then rest else do
        made ← get_or_create_notification incident.id contact channel
        others ← rest
        pure (if made.1 || not (notification_is_terminal made.0) then made.0 ∷ others else others)

-- the first loop of `dispatch_incident`: `created_notifications`
unfoldable pub notifications_of_members :
    Incident → List GroupMember → List String → Action (List Notification)
notifications_of_members incident [] names = pure []
notifications_of_members incident (member ∷ members) names = do
  made ← notifications_of_member incident member.contact_id names
  others ← notifications_of_members incident members names
  pure (made ++ others)

-- the second loop: the audit of a notification and its task
unfoldable pub queue_notification : Env → Rule → Incident → Uuid → Notification → Action (Unit {0})
queue_notification env rule incident trace notification = do
  add_audit trace (some incident.id) task_queued (
      ("channel", text (channel_value notification.channel))
      ∷ ("notification_id", uuid notification.id)
      ∷ ("trace_id", uuid trace)
      ∷ (
        "message_preview",
        text (
            render_notification_template env (some rule) incident
              (channel_value notification.channel)),
      )
      ∷ ("runbook_url", optional_text rule.runbook_url)
      ∷ [])
  queue_channel_send notification.id trace notification.channel

-- `dispatch_incident` behind its guards
unfoldable pub dispatch_with_rule : Env → Incident → Uuid → Rule → Action (Unit {0})
dispatch_with_rule env incident trace rule = do
  members ← gets (members_of_group rule.recipient_group_id)
  made ← notifications_of_members incident members rule.channels
  for_each made (queue_notification env rule incident trace)

-- `dispatch_incident`
unfoldable pub dispatch_incident : Env → Uuid → Uuid → Action (Unit {0})
dispatch_incident env i trace = do
  found ← gets (incident_by_id i)
  rule ← gets (matched_rule found)
  on_option found (pure tt)
      λ incident. on_option rule (pure tt) (dispatch_with_rule env incident trace)

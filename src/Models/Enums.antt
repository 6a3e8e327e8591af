-- ===== src/Models/Enums.antt =====
-- models.py: `IncidentStatus`, `NotificationChannel`, `NotificationStatus`, `AuditAction`.
use loboguara.Common.{
  ℕ, String, ◌≡◌, refl, Bool, false, true, Option, none, some, ◌↔◌, arith, str_eq, ◌==◌,
  if◌then◌else◌,
}

pub data IncidentStatus : Type 0 where
  opened acknowledged resolved escalated : IncidentStatus

pub data NotificationChannel : Type 0 where
  voice email whatsapp telegram calendar : NotificationChannel

pub data NotificationStatus : Type 0 where
  pending sent failed delivered read answered_voice : NotificationStatus

pub data AuditAction : Type 0 where
  event_received duplicated_event rule_matched task_queued notification_sent : AuditAction
  failure callback_received ack_received escalation twiml_generated : AuditAction
  fallback_task_queued : AuditAction

-- `channel.value`
abbrev pub channel_value : NotificationChannel → String
channel_value voice = "VOICE"
channel_value email = "EMAIL"
channel_value whatsapp = "WHATSAPP"
channel_value telegram = "TELEGRAM"
channel_value calendar = "CALENDAR"

-- `NotificationChannel[name]`; `none` is KeyError
unfoldable pub channel_of_name : String → Option NotificationChannel
channel_of_name name =
    if str_eq name "VOICE"
    then some voice
    else if str_eq name "EMAIL"
    then some email
    else if str_eq name "WHATSAPP"
    then some whatsapp
    else if str_eq name "TELEGRAM"
    then some telegram
    else if str_eq name "CALENDAR"
    then some calendar
    else none

channel_rank : NotificationChannel → ℕ
channel_rank voice = 0
channel_rank email = 1
channel_rank whatsapp = 2
channel_rank telegram = 3
channel_rank calendar = 4

unfoldable pub channel_eq : NotificationChannel → NotificationChannel → Bool
unfolding channel_rank
channel_eq a b = channel_rank a == channel_rank b

pub channel_eq_refl : (a : NotificationChannel) → channel_eq a a ≡ true
unfolding channel_eq
channel_eq_refl a = ground arith

pub channel_eq_iff : (a b : NotificationChannel) → (channel_eq a b ≡ true) ↔ (a ≡ b)
unfolding channel_eq
channel_eq_iff a b = ground arith

-- The name of a channel's value leads back to the channel.
pub channel_of_name-channel_value :
    (c : NotificationChannel) → channel_of_name (channel_value c) ≡ some c
unfolding channel_of_name
channel_of_name-channel_value voice = refl
channel_of_name-channel_value email = refl
channel_of_name-channel_value whatsapp = refl
channel_of_name-channel_value telegram = refl
channel_of_name-channel_value calendar = refl

unfoldable pub is_open : IncidentStatus → Bool
is_open opened = true
is_open _ = false

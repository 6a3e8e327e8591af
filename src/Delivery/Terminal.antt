-- ===== src/Delivery/Terminal.antt =====
-- A delivery that has ended is never taken up again.
use loboguara.Common.{
  ◌≡◌, ◌⊎◌, inl, inr, Bool, some, arith, ok, true, false, Bool-cases, Option-cases,
}
use loboguara.Models.{Uuid, Notification, NotificationChannel}
use loboguara.World.{World, Env}
use loboguara.Action.{Action, combinators}
use loboguara.Database.{notification_by_id}
use loboguara.Delivery.{
  send_notification_channel, notification_is_terminal, already_terminal, unless_terminal,
}

-- A delivery of a notification that has been sent, delivered or answered reports that, and changes
-- nothing: no request, no record, no count.
pub send_of_terminal :
    (env : Env) (i trace : Uuid) (channel : NotificationChannel) (w : World) (n : Notification)
    → notification_by_id i w ≡ some n
    → notification_is_terminal n ≡ true
    → send_notification_channel env i trace channel w ≡ (ok already_terminal, w)
unfolding send_notification_channel combinators
send_of_terminal env i trace channel w n found ended = ground arith

-- A record of an end changes nothing, or it works on a row that has not ended.
pub unless_terminal_cases :
    (env : Env) (i : Uuid) (body : Notification → Action Bool) (w : World)
    → ((unless_terminal env i body w).1 ≡ w)
      ⊎ ((n : Notification) × (notification_by_id i w ≡ some n)
          × (notification_is_terminal n ≡ false)
          × (unless_terminal env i body w ≡ body n w))
unfolding unless_terminal combinators
unless_terminal_cases env i body w = elim (Option-cases (notification_by_id i w)) [
  | inl missing ↦ inl (ground arith)
  | inr (n, found) ↦ elim (Bool-cases (notification_is_terminal n)) [
    | inl ended ↦ inl (ground arith)
    | inr live ↦ inr (n, found, live, ground arith)
  ]
]

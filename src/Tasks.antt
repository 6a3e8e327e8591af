-- ===== src/Tasks.antt =====
-- worker.py: the Celery tasks of the channels, with the retry policy of a rule; schemas.py: what a
-- policy must look like to be stored.
mod Policy
pub use Policy.{RetryPolicy}
unfoldable pub use Policy.{valid_retry_policy, default_policy, merge_policy}
pub mod Countdown
use loboguara.Common.{
  ℕ, ◌+◌, ◌*◌, ◌/◌, ◌%◌, ◌^◌, max, String, Bool, true, false, Option, none, some, List, [], ◌∷◌, ok,
  err, Result, Exception, if◌then◌else◌,
}
use loboguara.Common.Int.{ℤ, pos, pos_part, leb_ℤ, min_ℤ, max_ℤ, scale, add_nat}
use loboguara.Models.{
  Uuid, Value, Fields, Rule, Incident, Notification, NotificationChannel, voice, email, telegram,
  channel_value, py_int, object,
}
use loboguara.World.{World, Env}
use loboguara.Action.{Action, pure, raise, gets, lift, on_option, ◌>>=◌, ◌>>◌}
use loboguara.Database.{notification_by_id, incident_by_id, rule_by_id}
use loboguara.Delivery.{SendStatus, send_notification_channel, attempt}
use loboguara.Providers.{truthy}

-- the rule behind a notification, on the way of `_get_channel_retry_policy`
rule_of_notification : Uuid → World → Option Rule
rule_of_notification i w = elim (notification_by_id i w) [
  | none ↦ none
  | some n ↦ elim (incident_by_id n.incident_id w) [
    | none ↦ none
    | some incident ↦ elim incident.matched_rule_id [ none ↦ none | some r ↦ rule_by_id r w ]
  ]
]

-- `_get_channel_retry_policy`
unfoldable pub get_channel_retry_policy : Env → Uuid → NotificationChannel → World → RetryPolicy
unfolding rule_of_notification
get_channel_retry_policy env i channel w = elim (rule_of_notification i w) [
  | none ↦ default_policy env
  | some rule ↦ elim rule.channel_retry_policy_json [
    | none ↦ default_policy env
    | some policy ↦ merge_policy env channel policy
  ]
]

-- the end of a task's run: a result, or a new run after some seconds
pub data TaskEnd : Type 0 where
  done : SendStatus → TaskEnd
  retry_in : ℤ → TaskEnd

-- `countdown` in the handlers; `random.randint(0, n)` is a draw that `% (n + 1)` brings into its range
unfoldable pub retry_countdown :
    (backoff backoff_max : ℤ) → (jitter : Bool) → (retries draw : ℕ) → ℤ
retry_countdown backoff backoff_max jitter retries draw =
    let countdown = min_ℤ (scale backoff (2 ^ retries)) backoff_max in
    let spread = max 1 (pos_part countdown / 3) in
    max_ℤ (pos 1) (if jitter then add_nat countdown (draw % (spread + 1)) else countdown)

-- `except Exception as exc` of the three tasks
unfoldable pub retry_or_raise :
    Env → NotificationChannel → Uuid → (retries draw : ℕ) → Exception → Action TaskEnd
retry_or_raise env channel i retries draw exc = do
  policy ← gets (get_channel_retry_policy env i channel)
  max_retries ← lift (py_int policy.max_retries)
  if leb_ℤ max_retries (pos retries) then raise exc else do
    backoff ← lift (py_int policy.backoff_seconds)
    backoff_max ← lift (py_int policy.backoff_max_seconds)
    pure (retry_in (retry_countdown backoff backoff_max (truthy policy.jitter) retries draw))

-- a result as it is, an exception to the handler
finish_task :
    Env → NotificationChannel → Uuid → (retries draw : ℕ) → Result SendStatus → Action TaskEnd
finish_task env channel i retries draw (ok s) = pure (done s)
finish_task env channel i retries draw (err e) = retry_or_raise env channel i retries draw e

unfoldable pub channel_task :
    Env → NotificationChannel → (retries draw : ℕ) → Uuid → Uuid → Action TaskEnd
unfolding finish_task
channel_task env channel retries draw i trace = do
  r ← attempt (send_notification_channel env i trace channel)
  finish_task env channel i retries draw r

-- `send_voice_call`
unfoldable pub send_voice_call : Env → (retries draw : ℕ) → Uuid → Uuid → Action TaskEnd
send_voice_call env = channel_task env voice

-- `send_telegram_message`
unfoldable pub send_telegram_message : Env → (retries draw : ℕ) → Uuid → Uuid → Action TaskEnd
send_telegram_message env = channel_task env telegram

-- `send_email_message`
unfoldable pub send_email_message : Env → (retries draw : ℕ) → Uuid → Uuid → Action TaskEnd
send_email_message env = channel_task env email

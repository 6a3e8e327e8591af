-- ===== src/Delivery/Retry.antt =====
-- worker.py: the branch of TELEGRAM in `_send_notification_channel_impl`, where it raises and where its
-- dedupe key is held.
use mathlib.Core.Option
use loboguara.Common.{
  ◌⊎◌, ℕ, String, ◌≡◌, refl, true, false, Option, some, arith, ok, err, Result, Exception, str_eq,
  str_eq_refl, inl, inr, Bool-cases, get_or,
}
use loboguara.Common.Text.{◌⧺◌, strip}
use loboguara.Models.{Uuid, Contact, Notification, delivered, telegram}
use loboguara.Database.Tables.{by_key-update_key_self}
use loboguara.Database.{notification_by_id, update_notification, add_audit, touch_notification}
use loboguara.World.{World, Env}
use loboguara.Action.{combinators}
use loboguara.Redis.{set_ex, exists}
use loboguara.Metrics.{set_redis, touch_metrics, increment_metric_counter}
use loboguara.Channel.{
  record_channel_failure, count_failure, open_channel_circuit, reset_channel_circuit_state,
}
use loboguara.Providers.{send_telegram_via_bot_api}
use loboguara.Providers.Effects.{send_telegram_world}
use loboguara.Delivery.{
  Job, send_telegram, send_telegram_once, finish_send, fail_send, mark_notification_sent,
  mark_notification_failed, mark_notification_suppressed, unless_terminal, notification_is_terminal,
  send_failed, suppressed_duplicate, runbook_of, service_name, send_telegram_unless_limited,
  SendStatus, already_terminal, sent_now,
}
use loboguara.Template.{nonempty}
use loboguara.Delivery.Telegram.{
  at_text, telegram_service_rate_limit_key, ServiceLimit,
  telegram_service_rate_limit_window_seconds, claim_dedupe_key, telegram_service_rate_limit_state,
  buffer_telegram_digest, telegram_target_chat_id, telegram_notification_dedupe_window,
  telegram_notification_dedupe_key,
}

-- A record of an end raises only if the row is missing.
finish_send_ok :
    (env : Env) (job : Job) (p r : Option String) (w : World) (n : Notification)
    → notification_by_id job.notification.id w ≡ some n
    → (s : SendStatus) × ((finish_send env telegram job p r w).0 ≡ ok s)
unfolding finish_send mark_notification_sent unless_terminal update_notification
    increment_metric_counter add_audit reset_channel_circuit_state combinators
finish_send_ok env job p r w n found = elim (Bool-cases (notification_is_terminal n)) [
  | inl ended ↦ (already_terminal, ground arith)
  | inr live ↦ (sent_now, ground arith)
]

-- The suppression of a row that has not ended marks it DELIVERED and asks no service.
suppress_live :
    (env : Env) (i t : Uuid) (k d : String) (l : ℕ) (m r : Option String) (w : World)
    (n : Notification)
    → notification_by_id i w ≡ some n
    → notification_is_terminal n ≡ false
    → ((mark_notification_suppressed env i t telegram k d l m r w).0 ≡ ok true)
      × ((mark_notification_suppressed env i t telegram k d l m r w).1.requests ≡ w.requests)
      × (Option.map
            (λ (x : Notification). x.status)
            (notification_by_id i (mark_notification_suppressed env i t telegram k d l m r w).1)
          ≡ some delivered)
unfolding mark_notification_suppressed unless_terminal update_notification add_audit combinators
suppress_live env i t k d l m r w n found live = (
  ground arith,
  ground arith,
  ground (
    arith,
    by_key-update_key_self (λ (x : Notification). x.id) i
        (touch_notification w.now
          (λ x. record x { status = delivered; external_provider_id = some ("suppressed:" ⧺ k) }))
        w.notifications n (λ _. refl) found,
  ),
)

Result-cases :
    {A : Type 0} (r : Result A) → ((a : A) × (r ≡ ok a)) ⊎ ((e : Exception) × (r ≡ err e))
Result-cases (ok a) = inl (a, refl)
Result-cases (err e) = inr (e, refl)

-- The dedupe keys and the tables are those of another world.
abbrev SameRows : World → World → Type 0
SameRows w v = (w.telegram_dedupe ≡ v.telegram_dedupe) × (w.db ≡ v.db) × (w.now ≡ v.now)

module _ (env : Env) (job : Job) (chat : String) (n : Notification) where
  -- Behind the dedupe key a delivery raises only by the Bot API's call, with the key still held.
  unless_limited_raises :
      (limit : ServiceLimit) (w : World) (e : Exception)
      → notification_by_id job.notification.id w ≡ some n
      → notification_is_terminal n ≡ false
      → (send_telegram_unless_limited env job chat limit w).0 ≡ err e
      → SameRows (send_telegram_unless_limited env job chat limit w).1 w
  unfolding send_telegram_unless_limited buffer_telegram_digest combinators
  unless_limited_raises limit w e found live raised = elim (Bool-cases limit.exceeded) [
    | inl over ↦ ground (
      arith,
      suppress_live env job.notification.id job.trace_id "service_rate_limit"
          (telegram_service_rate_limit_key (service_name job.incident))
          telegram_service_rate_limit_window_seconds job.message_preview (runbook_of job.rule)
          (buffer_telegram_digest job.incident job.message_preview w).1 n found live,
    )
    | inr under ↦
        let message = get_or (nonempty job.message_preview) "Alerta sem conteúdo." in
        let (redis, db, now) = send_telegram_world env chat message w in
        let u = (send_telegram_via_bot_api env chat message w).1 in
        let found' : notification_by_id job.notification.id u ≡ some n = rw db found in
        elim (Result-cases (send_telegram_via_bot_api env chat message w).0) [
          | inl (p, sent) ↦
              ground (arith, finish_send_ok env job (some p) (runbook_of job.rule) u n found')
          | inr (x, fail) ↦ ground arith
        ]
  ]

  -- The same of the branch behind the dedupe key.
  once_raises :
      (w : World) (e : Exception)
      → notification_by_id job.notification.id w ≡ some n
      → notification_is_terminal n ≡ false
      → (send_telegram_once env job chat w).0 ≡ err e
      → SameRows (send_telegram_once env job chat w).1 w
  unfolding send_telegram_once telegram_service_rate_limit_state combinators
  once_raises w e found live raised = unless_limited_raises _ _ e found live raised

-- A failure that is recorded raises only if the row is missing.
fail_send_ok :
    (env : Env) (job : Job) (x : String) (r : Option String) (w : World) (n : Notification)
    → notification_by_id job.notification.id w ≡ some n
    → (s : SendStatus) × ((fail_send env telegram job x r w).0 ≡ ok s)
unfolding fail_send mark_notification_failed unless_terminal update_notification
    increment_metric_counter record_channel_failure count_failure open_channel_circuit touch_metrics
    add_audit combinators
fail_send_ok env job x r w n found = (send_failed x, ground arith)

module _ (env : Env) (job : Job) (contact : Option Contact) where
  abbrev pub dedupe_key : String
  dedupe_key =
      telegram_notification_dedupe_key job.incident (telegram_target_chat_id env contact)
        job.message_preview

  abbrev pub dedupe_window : ℕ
  dedupe_window = telegram_notification_dedupe_window env job.rule

  -- After a raise the key is held for the window, and the rows are as they were.
  pub held_after_raise :
      (w : World) (n : Notification) (e : Exception)
      → notification_by_id job.notification.id w ≡ some n
      → notification_is_terminal n ≡ false
      → (send_telegram env job contact w).0 ≡ err e
      → (str_eq (strip env.config.telegram_bot_token) "" ≡ false)
        × ((send_telegram env job contact w).1.telegram_dedupe dedupe_key
            ≡ set_ex w.now dedupe_window job.notification.id)
        × ((send_telegram env job contact w).1.db ≡ w.db)
  unfolding send_telegram claim_dedupe_key combinators
  held_after_raise w n e found live raised = ground (
    arith,
    fail_send_ok env job "Telegram bot token is not configured" (runbook_of job.rule) w n found,
    suppress_live env job.notification.id job.trace_id "dedupe_window" dedupe_key dedupe_window
        job.message_preview (runbook_of job.rule) w n found live,
    str_eq_refl dedupe_key,
    once_raises env job (telegram_target_chat_id env contact) n
        (set_redis w (record w.redis {
          telegram_dedupe =
              at_text dedupe_key (set_ex w.now dedupe_window job.notification.id) w.telegram_dedupe;
        }))
        e found live,
  )

  -- While the key is held, a delivery is suppressed.
  pub suppressed_while_held :
      (w : World) (n : Notification)
      → str_eq (strip env.config.telegram_bot_token) "" ≡ false
      → exists w.now (w.telegram_dedupe dedupe_key) ≡ true
      → notification_by_id job.notification.id w ≡ some n
      → notification_is_terminal n ≡ false
      → ((send_telegram env job contact w).0 ≡ ok (suppressed_duplicate dedupe_key dedupe_window))
        × ((send_telegram env job contact w).1.requests ≡ w.requests)
        × (Option.map
              (λ (x : Notification). x.status)
              (notification_by_id job.notification.id (send_telegram env job contact w).1)
            ≡ some delivered)
  unfolding send_telegram claim_dedupe_key combinators
  suppressed_while_held w n token held found live = ground (
    arith,
    suppress_live env job.notification.id job.trace_id "dedupe_window" dedupe_key dedupe_window
        job.message_preview (runbook_of job.rule) w n found live,
  )

-- ===== src/Delivery/Ended.antt =====
-- No delivery changes the status of a notification that has ended, its own or another.
use loboguara.Common.{
  ℕ, String, ◌≡◌, refl, ◌≢◌, ◌∙◌, Bool, true, false, Option, some, arith, ok, err, runtime_error,
  Result, inl, inr,
}
use loboguara.Models.{
  Uuid, Incident, Notification, NotificationStatus, NotificationChannel, Contact, AuditAction,
  Mapping, voice, email, telegram, whatsapp, calendar,
}
use loboguara.World.{World, Env, Db}
use loboguara.Action.{Action}
use loboguara.Action.Keeps.{Keeps, keeps_rules}
use loboguara.Database.{notification_by_id, update_notification, add_audit, touch_notification}
use loboguara.Database.Tables.{by_key, by_key-update_key_ne}
use loboguara.Frame.{
  InDb, increment_metric_counter-InDb, reset_channel_circuit_state-InDb,
  record_channel_failure-InDb, channel_rate_limit_exceeded-InDb,
}
use loboguara.Providers.Effects.{
  dispatch_voice_provider-InDb, send_telegram_via_bot_api-InDb, send_email_via_resend-InDb,
}
use loboguara.Delivery.{
  Job, attempt, mark_notification_sent, mark_notification_failed, mark_notification_suppressed,
  finish_send, fail_send, send_voice, send_telegram_unless_limited, send_telegram_once,
  send_telegram, recover_email, send_email, send_branch, send_on_channel, send_within_limit,
  send_notification_channel, notification_is_terminal, status_is_terminal, unless_terminal,
}
use loboguara.Delivery.Terminal.{unless_terminal_cases}
use loboguara.Delivery.Telegram.{
  ServiceLimit, claim_dedupe_key, telegram_service_rate_limit_state, buffer_telegram_digest,
}

-- The notification `i` stands in the table with the status `s`.
abbrev pub HasStatus : Uuid → NotificationStatus → Db → Type 0
HasStatus i s db =
    (n : Notification) × (by_key (λ (r : Notification). r.id) i db.notifications ≡ some n)
    × (n.status ≡ s)

module _ {P : World → Type 0} where
  attempt-Keeps {ℓ} : {A : Type ℓ} (m : Action A) → Keeps P m → Keeps P (attempt m)
  unfolding attempt
  attempt-Keeps m km = record { after = km.after }

module _ {Q : Db → Type 0} where
  claim_dedupe_key-InDb : (k : String) (v : Uuid) (d : ℕ) → Keeps (InDb Q) (claim_dedupe_key k v d)
  unfolding claim_dedupe_key
  claim_dedupe_key-InDb k v d = record { after = λ w h. record { holds = ground (arith, h.holds) } }

  service_limit-InDb : (k : String) → Keeps (InDb Q) (telegram_service_rate_limit_state k)
  unfolding telegram_service_rate_limit_state
  service_limit-InDb k = record { after = λ w h. record { holds = h.holds } }

  buffer_telegram_digest-InDb :
      (o : Option Incident) (m : Option String) → Keeps (InDb Q) (buffer_telegram_digest o m)
  unfolding buffer_telegram_digest
  buffer_telegram_digest-InDb o m = record { after = λ w h. record { holds = h.holds } }

module _ (i : Uuid) (s : NotificationStatus) where
  pub add_audit-HasStatus :
      (t : Uuid) (o : Option Uuid) (a : AuditAction) (d : Mapping)
      → Keeps (InDb (HasStatus i s)) (add_audit t o a d)
  unfolding add_audit
  add_audit-HasStatus t o a d = record { after = λ w h. record { holds = h.holds } }

  pub update_notification-HasStatus :
      (j : Uuid) (f : Notification → Notification)
      → j ≢ i
      → ((n : Notification) → (f n).id ≡ n.id)
      → Keeps (InDb (HasStatus i s)) (update_notification j f)
  unfolding update_notification
  update_notification-HasStatus j f other same = record {
    after = λ w h. record {
      holds = (
        h.holds.0,
        by_key-update_key_ne (λ (r : Notification). r.id) j i (touch_notification w.now f)
              w.notifications same other
            ∙ h.holds.1,
        h.holds.2,
      );
    };
  }

  module _ (ended : status_is_terminal s ≡ true) (env : Env) where
    -- The row that is recorded has not ended, so it is another one.
    unless_terminal-HasStatus :
        (j : Uuid) (body : Notification → Action Bool)
        → ((n : Notification) → j ≢ i → Keeps (InDb (HasStatus i s)) (body n))
        → Keeps (InDb (HasStatus i s)) (unless_terminal env j body)
    unless_terminal-HasStatus j body kb = record {
      after = λ w h. elim (unless_terminal_cases env j body w) [
        | inl same ↦ rw same h
        | inr (n, found, live, run) ↦ rw run ((kb n (other w n h found live)).after w h)
      ];
    }
      where
        other :
            (w : World) (n : Notification)
            → InDb (HasStatus i s) w
            → notification_by_id j w ≡ some n
            → notification_is_terminal n ≡ false
            → j ≢ i
        other w n h found live q = let found' = rw q at found in ground arith

    sent-HasStatus :
        (j t : Uuid) (c : NotificationChannel) (p m r : Option String)
        → Keeps (InDb (HasStatus i s)) (mark_notification_sent env j t c p m r)
    unfolding mark_notification_sent
    sent-HasStatus j t c p m r = unless_terminal-HasStatus j _ (λ n other.
        search
          (
            keeps_rules, update_notification-HasStatus, add_audit-HasStatus,
            increment_metric_counter-InDb, reset_channel_circuit_state-InDb,
          )
          depth 9)

    failed-HasStatus :
        (j t : Uuid) (c : NotificationChannel) (e : String) (m r : Option String)
        → Keeps (InDb (HasStatus i s)) (mark_notification_failed env j t c e m r)
    unfolding mark_notification_failed
    failed-HasStatus j t c e m r = unless_terminal-HasStatus j _ (λ n other.
        search
          (
            keeps_rules, update_notification-HasStatus, add_audit-HasStatus,
            increment_metric_counter-InDb, record_channel_failure-InDb,
          )
          depth 9)

    suppressed-HasStatus :
        (j t : Uuid) (c : NotificationChannel) (k l : String) (d : ℕ) (m r : Option String)
        → Keeps (InDb (HasStatus i s)) (mark_notification_suppressed env j t c k l d m r)
    unfolding mark_notification_suppressed
    suppressed-HasStatus j t c k l d m r = unless_terminal-HasStatus j _ (λ n other.
        search (keeps_rules, update_notification-HasStatus, add_audit-HasStatus) depth 9)

    finish_send-HasStatus :
        (c : NotificationChannel) (job : Job) (p r : Option String)
        → Keeps (InDb (HasStatus i s)) (finish_send env c job p r)
    unfolding finish_send
    finish_send-HasStatus c job p r = search (keeps_rules, sent-HasStatus) depth 7

    fail_send-HasStatus :
        (c : NotificationChannel) (job : Job) (e : String) (r : Option String)
        → Keeps (InDb (HasStatus i s)) (fail_send env c job e r)
    unfolding fail_send
    fail_send-HasStatus c job e r = search (keeps_rules, failed-HasStatus) depth 7

    send_voice-HasStatus : (job : Job) → Keeps (InDb (HasStatus i s)) (send_voice env job)
    unfolding send_voice
    send_voice-HasStatus job =
        search (keeps_rules, dispatch_voice_provider-InDb, finish_send-HasStatus) depth 7

    send_telegram_unless_limited-HasStatus :
        (job : Job) (chat : String) (limit : ServiceLimit)
        → Keeps (InDb (HasStatus i s)) (send_telegram_unless_limited env job chat limit)
    unfolding send_telegram_unless_limited
    send_telegram_unless_limited-HasStatus job chat limit =
        search
          (
            keeps_rules, buffer_telegram_digest-InDb, suppressed-HasStatus,
            send_telegram_via_bot_api-InDb, finish_send-HasStatus,
          )
          depth 9

    send_telegram_once-HasStatus :
        (job : Job) (chat : String) → Keeps (InDb (HasStatus i s)) (send_telegram_once env job chat)
    unfolding send_telegram_once
    send_telegram_once-HasStatus job chat =
        search (keeps_rules, service_limit-InDb, send_telegram_unless_limited-HasStatus) depth 7

    send_telegram-HasStatus :
        (job : Job) (contact : Option Contact)
        → Keeps (InDb (HasStatus i s)) (send_telegram env job contact)
    unfolding send_telegram
    send_telegram-HasStatus job contact =
        search
          (
            keeps_rules, claim_dedupe_key-InDb, fail_send-HasStatus, suppressed-HasStatus,
            send_telegram_once-HasStatus,
          )
          depth 9

    recover_email-HasStatus :
        (job : Job) (url : String) (r : Result String)
        → Keeps (InDb (HasStatus i s)) (recover_email env job url r)
    unfolding recover_email
    recover_email-HasStatus job url (ok p) = search finish_send-HasStatus
    recover_email-HasStatus job url (err (runtime_error e)) = search fail_send-HasStatus
    recover_email-HasStatus job url (err _) = search keeps_rules

    send_email-HasStatus :
        (job : Job) (contact : Option Contact)
        → Keeps (InDb (HasStatus i s)) (send_email env job contact)
    unfolding send_email
    send_email-HasStatus job contact =
        search
          (
            keeps_rules, fail_send-HasStatus, recover_email-HasStatus, attempt-Keeps,
            send_email_via_resend-InDb,
          )
          depth 9

    send_branch-HasStatus :
        (c : NotificationChannel) (job : Job) (contact : Option Contact)
        → Keeps (InDb (HasStatus i s)) (send_branch env c job contact)
    unfolding send_branch
    send_branch-HasStatus voice job contact = send_voice-HasStatus job
    send_branch-HasStatus telegram job contact = send_telegram-HasStatus job contact
    send_branch-HasStatus email job contact = send_email-HasStatus job contact
    send_branch-HasStatus whatsapp job contact = search finish_send-HasStatus
    send_branch-HasStatus calendar job contact = search finish_send-HasStatus

    send_on_channel-HasStatus :
        (c : NotificationChannel) (job : Job)
        → Keeps (InDb (HasStatus i s)) (send_on_channel env c job)
    unfolding send_on_channel
    send_on_channel-HasStatus c job = search (keeps_rules, send_branch-HasStatus) depth 7

    send_within_limit-HasStatus :
        (c : NotificationChannel) (job : Job)
        → Keeps (InDb (HasStatus i s)) (send_within_limit env c job)
    unfolding send_within_limit
    send_within_limit-HasStatus c job =
        search
          (
            keeps_rules, channel_rate_limit_exceeded-InDb, add_audit-HasStatus,
            increment_metric_counter-InDb, send_on_channel-HasStatus,
          )
          depth 9

    pub send-HasStatus :
        (j t : Uuid) (c : NotificationChannel)
        → Keeps (InDb (HasStatus i s)) (send_notification_channel env j t c)
    unfolding send_notification_channel
    send-HasStatus j t c =
        search (keeps_rules, send_within_limit-HasStatus, send_on_channel-HasStatus) depth 12

-- Whatever delivery runs, and however it ends, a notification that had been sent, delivered or
-- answered before has the same status after it.
pub send_keeps_ended :
    (env : Env) (i j trace : Uuid) (channel : NotificationChannel) (w : World) (n : Notification)
    → notification_by_id i w ≡ some n
    → notification_is_terminal n ≡ true
    → HasStatus i n.status (send_notification_channel env j trace channel w).1.db
send_keeps_ended env i j trace channel w n found ended =
    ((send-HasStatus i n.status ended env j trace channel).after w
      (record { holds = (n, found, refl) })).holds

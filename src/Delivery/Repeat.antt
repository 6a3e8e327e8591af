-- ===== src/Delivery/Repeat.antt =====
-- worker.py: a delivery that has sent its notification, run again.
use mathlib.Core.Path.{subst}
use loboguara.Common.{
  ℕ, ◌≡◌, ◌≢◌, refl, true, false, Bool, Option, some, none, arith, ok, err, Result, Exception, inl,
  inr, Bool-cases, Option-cases, ◌&&◌, String, if◌then◌else◌, runtime_error,
}
use loboguara.Models.{
  Uuid, Contact, Notification, NotificationChannel, sent, voice, telegram, email, whatsapp,
  calendar,
}
use loboguara.Database.Tables.{key_of_found, by_key-update_key_self}
use loboguara.Database.{
  notification_by_id, incident_by_id, update_notification, add_audit, touch_notification,
}
use loboguara.World.{World, Env}
use loboguara.Action.{Action, combinators, resume, pure, raise, on_option, ◌>>=◌, ◌>>◌}
use loboguara.Metrics.{increment_metric_counter}
use loboguara.Channel.{channel_is_circuit_open, reset_channel_circuit_state}
use loboguara.Delivery.{
  Job, matched_rule, preview_of, is_limited, send_voice, send_telegram, send_telegram_once,
  send_telegram_unless_limited, send_email, recover_email, send_branch, send_on_channel,
  send_within_limit, send_notification_channel, finish_send, fail_send, mark_notification_sent,
  unless_terminal, notification_is_terminal, SendStatus, sent_now, already_terminal,
}
use loboguara.Delivery.Terminal.{send_of_terminal}

-- The row stands in the table, sent, delivered or answered.
abbrev pub HasEnded : Uuid → World → Type 0
HasEnded i w =
    (n : Notification) × (notification_by_id i w ≡ some n) × (notification_is_terminal n ≡ true)

-- where the delivery says that it has sent, the row has ended
unfoldable Told : Uuid → Result SendStatus × World → Type 0
Told i (ok s, w) = s ≡ sent_now → HasEnded i w
Told i (err e, w) = Unit

record Ends (i : Uuid) (m : Action SendStatus) : Type 0 where
  pub of : (w : World) → Told i (m w)

module _ (i : Uuid) where
  Ends-pure : (s : SendStatus) → (s ≡ sent_now → ⊥) → Ends i (pure s)
  unfolding Told pure
  Ends-pure s other = record { of = λ w h. elim (other h) [ ] }

  Ends-raise : (e : Exception) → Ends i (raise e)
  unfolding Told raise
  Ends-raise e = record { of = λ w. tt }

  Ends-resume {ℓ} :
      {B : Type ℓ} (next : B → Action SendStatus) (r : Result B × World)
      → ((b : B) → Ends i (next b))
      → Told i (resume next r)
  unfolding Told resume
  Ends-resume next (ok b, w) later = (later b).of w
  Ends-resume next (err e, w) later = tt

  Ends-bind {ℓ} :
      {B : Type ℓ} (m : Action B) (next : B → Action SendStatus)
      → ((b : B) → Ends i (next b))
      → Ends i (m >>= next)
  unfolding ◌>>=◌
  Ends-bind m next later = record { of = λ w. Ends-resume next (m w) later }

  Ends-then {ℓ} :
      {B : Type ℓ} (m : Action B) (next : Action SendStatus) → Ends i next → Ends i (m >> next)
  unfolding ◌>>◌
  Ends-then m next later = record { of = λ w. Ends-resume (λ _. next) (m w) (λ _. later) }

  Ends-if : (b : Bool) (m n : Action SendStatus) → Ends i m → Ends i n → Ends i (if b then m else n)
  Ends-if true m n hm hn = hm
  Ends-if false m n hm hn = hn

  Ends-on_option {ℓ} :
      {B : Type ℓ} (o : Option B) (m : Action SendStatus) (k : B → Action SendStatus)
      → Ends i m
      → ((b : B) → Ends i (k b))
      → Ends i (on_option o m k)
  unfolding on_option
  Ends-on_option none m k missing there = missing
  Ends-on_option (some b) m k missing there = there b

finish_send-Told :
    (env : Env) (c : NotificationChannel) (job : Job) (p r : Option String) (w : World)
    → Told job.notification.id (finish_send env c job p r w)
unfolding Told finish_send mark_notification_sent unless_terminal update_notification
    increment_metric_counter add_audit reset_channel_circuit_state combinators
finish_send-Told env c job p r w = elim (Option-cases (notification_by_id job.notification.id w)) [
  | inl missing ↦ rw missing tt
  | inr (n, found) ↦ elim (Bool-cases (notification_is_terminal n)) [
    | inl ended ↦ rw (found, ended) (λ h. ground arith)
    | inr live ↦
        rw (found, live)
          (λ h.
            let ended_row =
              touch_notification w.now
                (λ x. record x { status = sent; external_provider_id = p }) in
            (
              ended_row n,
              by_key-update_key_self (λ (x : Notification). x.id) job.notification.id ended_row
                  w.notifications n (λ _. refl) found,
              refl,
            ))
  ]
]

finish_send-Ends :
    (env : Env) (c : NotificationChannel) (job : Job) (p r : Option String)
    → Ends job.notification.id (finish_send env c job p r)
finish_send-Ends env c job p r = record { of = finish_send-Told env c job p r }

fail_send-Ends :
    (env : Env) (c : NotificationChannel) (job : Job) (x : String) (r : Option String)
    → Ends job.notification.id (fail_send env c job x r)
unfolding fail_send
fail_send-Ends env c job x r = Ends-then _ _ _ (Ends-pure _ _ (λ h. ground arith))

module _ (env : Env) (job : Job) where
  send_telegram-Ends :
      (contact : Option Contact) → Ends job.notification.id (send_telegram env job contact)
  unfolding send_telegram send_telegram_once send_telegram_unless_limited
  send_telegram-Ends contact = Ends-if _ _ _ _ (fail_send-Ends _ _ _ _ _) (
      Ends-bind _ _ _ (λ claimed.
        Ends-if _ claimed _ _
          (Ends-bind _ _ _ (λ limit.
            Ends-if _ limit.exceeded _ _
              (Ends-then _ _ _ (Ends-then _ _ _ (Ends-pure _ _ (λ h. ground arith))))
              (Ends-bind _ _ _ (λ p. finish_send-Ends _ _ _ _ _))))
          (Ends-then _ _ _ (Ends-pure _ _ (λ h. ground arith)))))

  recover_email-Ends :
      (url : String) (r : Result String) → Ends job.notification.id (recover_email env job url r)
  unfolding recover_email
  recover_email-Ends url (ok p) = finish_send-Ends _ _ _ _ _
  recover_email-Ends url (err (runtime_error message)) = fail_send-Ends _ _ _ _ _
  recover_email-Ends url (err _) = Ends-raise _ _

  send_email-Ends :
      (contact : Option Contact) → Ends job.notification.id (send_email env job contact)
  unfolding send_email
  send_email-Ends contact = Ends-on_option _ _ _ _ (fail_send-Ends _ _ _ _ _) (λ address.
      Ends-if _ _ _ _ (fail_send-Ends _ _ _ _ _) (Ends-bind _ _ _ (λ r. recover_email-Ends _ r)))

  branch-Ends :
      (c : NotificationChannel) (contact : Option Contact)
      → Ends job.notification.id (send_branch env c job contact)
  unfolding send_branch send_voice
  branch-Ends voice contact = Ends-bind _ _ _ (λ p. finish_send-Ends _ _ _ _ _)
  branch-Ends telegram contact = send_telegram-Ends contact
  branch-Ends email contact = send_email-Ends contact
  branch-Ends whatsapp contact = finish_send-Ends _ _ _ _ _
  branch-Ends calendar contact = finish_send-Ends _ _ _ _ _

  on_channel-Ends : (c : NotificationChannel) → Ends job.notification.id (send_on_channel env c job)
  unfolding send_on_channel
  on_channel-Ends c = Ends-bind _ _ _ (λ contact. branch-Ends c contact)

  within-Ends : (c : NotificationChannel) → Ends job.notification.id (send_within_limit env c job)
  unfolding send_within_limit
  within-Ends c = Ends-bind _ _ _ (λ rate.
      Ends-if _ rate.exceeded _ _
        (Ends-then _ _ _ (Ends-then _ _ _ (Ends-pure _ _ (λ h. ground arith)))) (on_channel-Ends c))

-- what a delivery tells, on the row with its id
delivery-Told :
    (env : Env) (i trace : Uuid) (c : NotificationChannel) (w : World) (n : Notification)
    → notification_by_id i w ≡ some n
    → Told n.id (send_notification_channel env i trace c w)
unfolding send_notification_channel Told combinators
delivery-Told env i trace c w n found =
    let incident = incident_by_id n.incident_id w in
    let rule = matched_rule incident w in
    let job : Job = record {
      notification = n;
      trace_id = trace;
      incident = incident;
      rule = rule;
      message_preview = preview_of env rule incident c;
    } in
    elim (Bool-cases (notification_is_terminal n)) [
      | inl ended ↦ rw (found, ended) (λ h. ground arith)
      | inr live ↦ elim (Bool-cases (is_limited c && channel_is_circuit_open c w)) [
        | inl held ↦ rw (found, live, held) (λ h. ground arith)
        | inr closed ↦ elim (Bool-cases (is_limited c)) [
          | inl limited ↦ rw (found, live, closed, limited) ((within-Ends env job c).of w)
          | inr free ↦ rw (found, live, closed, free) ((on_channel-Ends env job c).of w)
        ]
      ]
    ]

Told-HasEnded :
    (i : Uuid) (r : Result SendStatus × World) → Told i r → r.0 ≡ ok sent_now → HasEnded i r.1
unfolding Told
Told-HasEnded i (ok s, w) told sent_it = told (ground arith)
Told-HasEnded i (err e, w) told sent_it = ground arith

not_there :
    (env : Env) (i trace : Uuid) (c : NotificationChannel) (w : World)
    → notification_by_id i w ≡ none
    → (send_notification_channel env i trace c w).0 ≢ ok sent_now
unfolding send_notification_channel combinators
not_there env i trace c w missing = rw missing (λ h. ground arith)

-- A delivery that reports that it has sent is the last one: run again, at any time, with any trace and
-- on any channel, it reports so and changes nothing, and no request is made again.
pub sent_at_most_once :
    (env : Env) (i trace again : Uuid) (c d : NotificationChannel) (w : World) (t : ℕ)
    → (send_notification_channel env i trace c w).0 ≡ ok sent_now
    → let later = record (send_notification_channel env i trace c w).1 { now = t } in
      send_notification_channel env i again d later ≡ (ok already_terminal, later)
sent_at_most_once env i trace again c d w t told = elim (Option-cases (notification_by_id i w)) [
  | inl missing ↦ elim (not_there env i trace c w missing told) [ ]
  | inr (n, found) ↦
      let same = key_of_found (λ (x : Notification). x.id) i w.notifications n found in
      let (m, there, ended) =
        Told-HasEnded n.id (send_notification_channel env i trace c w)
          (delivery-Told env i trace c w n found) told in
      let later = record (send_notification_channel env i trace c w).1 { now = t } in
      send_of_terminal env i again d later m
        (subst (λ j. notification_by_id j later ≡ some m) same there) ended
]

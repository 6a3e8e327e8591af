-- ===== src/Delivery/Redelivery.antt =====
-- worker.py: `_send_notification_channel_impl` as the task's retry runs it again.
use mathlib.Core.Option
use loboguara.Common.{
  ◌⊎◌, ℕ, ◌≢◌, ◌+◌, ◌<◌, String, ◌≡◌, refl, sym, ap, ◌∙◌, false, Option, some, none, arith, ok, err,
  Result, Exception, inl, inr, Bool-cases,
}
use loboguara.Common.{str_eq}
use loboguara.Common.Text.{strip}
use loboguara.Models.{Uuid, Contact, Incident, Rule, Notification, delivered, telegram}
use loboguara.Database.Tables.{by_key, key_of_found}
use loboguara.Database.{notification_by_id, incident_by_id, contact_by_id, add_audit}
use loboguara.World.{World, Env, Db}
use loboguara.Action.{combinators}
use loboguara.Metrics.{touch_metrics, increment_metric_counter}
use loboguara.Channel.{Rate, channel_is_circuit_open, channel_rate_limit_exceeded, count_send}
use loboguara.Delivery.{
  Job, matched_rule, preview_of, send_telegram, send_branch, send_on_channel, send_within_limit,
  send_notification_channel, notification_is_terminal, SendStatus, skipped_circuit,
  skipped_rate_limit, suppressed_duplicate,
}
use loboguara.Delivery.Telegram.{telegram_notification_dedupe_window}
use loboguara.Delivery.Retry.{dedupe_key, held_after_raise, suppressed_while_held}
use loboguara.Redis.{set_ex}

-- what a Telegram delivery of a row works on
abbrev pub job_of : Env → Uuid → Notification → World → Job
job_of env trace n w =
    let incident = incident_by_id n.incident_id w in
    let rule = matched_rule incident w in
    record {
      notification = n;
      trace_id = trace;
      incident = incident;
      rule = rule;
      message_preview = preview_of env rule incident telegram;
    }

abbrev pub contact_of : Notification → World → Option Contact
contact_of n w = contact_by_id n.contact_id w

-- the circuit breaker or the rate limit held a delivery back
unfoldable pub IsHeldBack : Result SendStatus → Type 0
IsHeldBack r = (r ≡ ok skipped_circuit) ⊎ ((rate : Rate) × (r ≡ ok (skipped_rate_limit rate)))

-- Where both let a delivery pass, it goes on to the branch of TELEGRAM, with the rate limit counted.
pub record PassesTo (w v : World) : Type 0 where
  pub same_db : v.db ≡ w.db
  pub same_keys : v.telegram_dedupe ≡ w.telegram_dedupe
  pub same_now : v.now ≡ w.now
  pub same_requests : v.requests ≡ w.requests

abbrev pub Outcome : Env → Uuid → Notification → World → Result SendStatus × World → Type 0
Outcome env trace n w end =
    (IsHeldBack end.0 × (end.1.requests ≡ w.requests))
    ⊎ ((v : World) × PassesTo w v
        × (end ≡ send_telegram env (job_of env trace n w) (contact_of n v) v))

limit_counted :
    (env : Env) (w : World)
    → (rate : Rate) × (v : World) × (channel_rate_limit_exceeded env telegram none none w
        ≡ (ok rate, v))
      × PassesTo w v
unfolding channel_rate_limit_exceeded count_send touch_metrics combinators
limit_counted env w =
    (_, _, refl, record { same_db = refl; same_keys = refl; same_now = refl; same_requests = refl })

within-Outcome :
    (env : Env) (trace : Uuid) (n : Notification) (w : World)
    → Outcome env trace n w (send_within_limit env telegram (job_of env trace n w) w)
unfolding send_within_limit send_on_channel send_branch add_audit increment_metric_counter
    IsHeldBack combinators
within-Outcome env trace n w =
    let (rate, v, counted, passes) = limit_counted env w in
    elim (Bool-cases rate.exceeded) [
      | inl over ↦ rw (counted, over) (inl (inr (rate, refl), passes.same_requests))
      | inr under ↦ rw (counted, under) (inr (v, passes, refl))
    ]

delivery-Outcome :
    (env : Env) (i trace : Uuid) (n : Notification) (w : World)
    → notification_by_id i w ≡ some n
    → notification_is_terminal n ≡ false
    → Outcome env trace n w (send_notification_channel env i trace telegram w)
unfolding send_notification_channel combinators IsHeldBack
delivery-Outcome env i trace n w found live =
    let there = within-Outcome env trace n w in
    elim (Bool-cases (channel_is_circuit_open telegram w)) [
      | inl opened ↦ rw (found, live, opened) (inl (inl refl, refl))
      | inr closed ↦ rw (found, live, closed) there
    ]

ok_ne_err : {A : Type 0} {a : A} {e : Exception} → (ok a ≢ err e)
ok_ne_err h = ground arith

own_id :
    (i : Uuid) (n : Notification) (w : World)
    → notification_by_id i w ≡ some n
    → notification_by_id n.id w ≡ some n
own_id i n w found =
    ap (λ j. notification_by_id j w)
      (key_of_found (λ (x : Notification). x.id) i w.notifications n found)
    ∙ found

matched_rule-db :
    (o : Option Incident) (v w : World) → v.db ≡ w.db → matched_rule o v ≡ matched_rule o w
unfolding matched_rule
matched_rule-db none v w same = refl
matched_rule-db (some incident) v w same =
    ap
      (λ (db : Db). elim incident.matched_rule_id [
        | none ↦ none
        | some i ↦ by_key (λ (r : Rule). r.id) i db.rules
      ])
      same

contact_of-db : (n : Notification) (v w : World) → v.db ≡ w.db → contact_of n v ≡ contact_of n w
contact_of-db n v w same = rw same refl

job_of-db :
    (env : Env) (trace : Uuid) (n : Notification) (v w : World)
    → v.db ≡ w.db
    → job_of env trace n v ≡ job_of env trace n w
job_of-db env trace n v w same =
    let rule = matched_rule-db (incident_by_id n.incident_id v) v w same in rw rule (rw same refl)

-- the window of a row's dedupe key
abbrev pub retry_window : Env → Notification → World → ℕ
retry_window env n w =
    telegram_notification_dedupe_window env (matched_rule (incident_by_id n.incident_id w) w)

module _ (env : Env) (i trace : Uuid) (n : Notification) (w : World)
    (found : notification_by_id i w ≡ some n) (live : notification_is_terminal n ≡ false) where
  abbrev key : String
  key = dedupe_key env (job_of env trace n w) (contact_of n w)

  abbrev IsHeld : World → Type 0
  IsHeld v =
      (str_eq (strip env.config.telegram_bot_token) "" ≡ false)
      × (v.telegram_dedupe key ≡ set_ex w.now (retry_window env n w) n.id)
      × (v.db ≡ w.db)

  raised-IsHeld :
      (r : Result SendStatus × World) (e : Exception)
      → Outcome env trace n w r
      → r.0 ≡ err e
      → IsHeld r.1
  unfolding IsHeldBack
  raised-IsHeld r e (inl (inl skipped, _)) raised = elim (ok_ne_err (sym skipped ∙ raised)) [ ]
  raised-IsHeld r e (inl (inr (rate, skipped), _)) raised =
      elim (ok_ne_err (sym skipped ∙ raised)) [ ]
  raised-IsHeld r e (inr (v, passes, end)) raised =
      let contact = contact_of-db n v w passes.same_db in
      let there : notification_by_id n.id v ≡ some n = rw passes.same_db (own_id i n w found) in
      let (token, held, same) =
        held_after_raise env (job_of env trace n w) (contact_of n v) v n e there live
          (sym (ap (λ p. p.0) end) ∙ raised) in
      let end_in = send_telegram env (job_of env trace n w) (contact_of n v) v in
      (
        token,
        ap (λ (p : Result SendStatus × World). p.1.telegram_dedupe key) end
            ∙ sym (
                ap (λ c. end_in.1.telegram_dedupe (dedupe_key env (job_of env trace n w) c))
                  contact)
            ∙ held
            ∙ ap (λ now. set_ex now (retry_window env n w) n.id) passes.same_now,
        ap (λ (p : Result SendStatus × World). p.1.db) end ∙ same ∙ passes.same_db,
      )

  -- no request, and held back or marked
  abbrev pub IsSuppressed : World → Result SendStatus × World → Type 0
  IsSuppressed u retry =
      (retry.1.requests ≡ u.requests)
      × (IsHeldBack retry.0
          ⊎ ((Option.map (λ (x : Notification). x.status) (notification_by_id i retry.1)
                ≡ some delivered)
              × ((key : String) × (retry.0
                    ≡ ok (suppressed_duplicate key (retry_window env n w))))))

  retry_of_held :
      (u : World) (r : Result SendStatus × World)
      → IsHeld u
      → u.now < w.now + retry_window env n w
      → Outcome env trace n u r
      → IsSuppressed u r
  retry_of_held u r held soon (inl (back, none_asked)) = (none_asked, inl back)
  retry_of_held u r (token, held, same) soon (inr (v, passes, end)) =
      let job = job_of env trace n w in
      let contact = contact_of n w in
      let db = passes.same_db ∙ same in
      let slot : v.telegram_dedupe key ≡ set_ex w.now (retry_window env n w) n.id =
        ap (λ keys. keys key) passes.same_keys ∙ held in
      let now = passes.same_now in
      let there : notification_by_id n.id v ≡ some n = rw db (own_id i n w found) in
      let (status, none_asked, marked) =
        suppressed_while_held env job contact v n token (rw slot (ground arith)) there live in
      let same_end : r ≡ send_telegram env job contact v =
        end
        ∙ ap (λ j. send_telegram env j (contact_of n v) v) (job_of-db env trace n u w same)
        ∙ ap (λ c. send_telegram env job c v) (contact_of-db n v w db) in
      let id = key_of_found (λ (x : Notification). x.id) i w.notifications n found in
      (
        ap (λ (p : Result SendStatus × World). p.1.requests) same_end
            ∙ none_asked
            ∙ passes.same_requests,
        inr (
          ap
                (λ (p : Result SendStatus × World).
                  Option.map (λ (x : Notification). x.status) (notification_by_id i p.1))
                same_end
              ∙ ap
                  (λ j.
                    Option.map (λ (x : Notification). x.status)
                      (notification_by_id j (send_telegram env job contact v).1))
                  (sym id)
              ∙ marked,
          (key, ap (λ (p : Result SendStatus × World). p.0) same_end ∙ status),
        ),
      )

-- Where a Telegram delivery has raised on a row that has not ended, its retry within the dedupe window sends
-- no request: the circuit breaker or the rate limit holds it back, or else the row is marked DELIVERED as a
-- duplicate of the message that raised, and the task ends.
pub telegram_retry_suppressed :
    (env : Env) (i trace : Uuid) (n : Notification) (w : World) (e : Exception) (t : ℕ)
    → notification_by_id i w ≡ some n
    → notification_is_terminal n ≡ false
    → (send_notification_channel env i trace telegram w).0 ≡ err e
    → t < w.now + retry_window env n w
    → let retried = record (send_notification_channel env i trace telegram w).1 { now = t } in
      let retry = send_notification_channel env i trace telegram retried in
      (retry.1.requests ≡ retried.requests)
      × (IsHeldBack retry.0
          ⊎ ((Option.map (λ (x : Notification). x.status) (notification_by_id i retry.1)
                ≡ some delivered)
              × ((key : String) × (retry.0
                    ≡ ok (suppressed_duplicate key (retry_window env n w))))))
telegram_retry_suppressed env i trace n w e t found live raised soon =
    let held =
      raised-IsHeld env i trace n w found live (send_notification_channel env i trace telegram w) e
        (delivery-Outcome env i trace n w found live) raised in
    let retried = record (send_notification_channel env i trace telegram w).1 { now = t } in
    let there : notification_by_id i retried ≡ some n = rw held.2 found in
    retry_of_held env i trace n w found live retried
      (send_notification_channel env i trace telegram retried) held soon
      (delivery-Outcome env i trace n retried there live)

-- ===== src/Lifecycle/Ranks.antt =====
-- The order of an incident's statuses: open, taken over, resolved. No operation goes back.
use loboguara.Common.{
  ℕ, ◌≤◌, ◌≡◌, refl, ◌≢◌, ◌∙◌, true, false, ◌&&◌, str_eq, Option, none, some, arith, inl, inr,
  Option-cases, Bool-cases, String, ◌==◌, ==_iff, ==_refl, ◌⊎◌, sym, ok, err, Result, List, ◌∷◌, [],
}
use loboguara.Models.{
  Uuid, Time, Incident, IncidentStatus, opened, acknowledged, resolved, escalated, Notification,
  AuditAction, Mapping, is_open,
}
use loboguara.World.{World, Env, Db}
use loboguara.Action.{Action, combinators, resume, when, pure, ◌>>=◌, ◌>>◌}
use loboguara.Action.Keeps.{Keeps, Keeps-pure, keeps_rules}
use loboguara.Database.{
  incident_by_id, notification_by_id, update_incident, update_notification, add_audit, uuid4,
  touch_incident,
}
use loboguara.Database.Tables.{by_key, by_key-update_key_self, by_key-update_key_ne}
use loboguara.Frame.{InDb}
use loboguara.Lifecycle.{
  callback_reply, get_or_create_trace_id, acknowledge_open, acknowledge_incident,
  acknowledged_at_by, resolve_ended, resolve_incident, can_be_resolved, resolved_row,
  log_acknowledged, log_resolved, log_answer, answer_if_asked, answer_call, conclude_callback,
  audit_callback, record_callback, handle_voice_callback,
}

-- how far an incident has come
unfoldable pub rank : IncidentStatus → ℕ
rank opened = 0
rank acknowledged = 1
rank escalated = 1
rank resolved = 2

-- The incident `i` stands in the table, at least that far.
abbrev pub HasCome : Uuid → ℕ → Db → Type 0
HasCome i k db =
    (r : Incident) × (by_key (λ (r : Incident). r.id) i db.incidents ≡ some r) × (k ≤ rank r.status)

module _ {Q : Db → Type 0} where
  pub uuid4-InDb : Keeps (InDb Q) uuid4
  unfolding uuid4
  uuid4-InDb = record { after = λ w h. record { holds = h.holds } }

module _ (i : Uuid) (k : ℕ) where
  pub add_audit-HasCome :
      (t : Uuid) (o : Option Uuid) (a : AuditAction) (d : Mapping)
      → Keeps (InDb (HasCome i k)) (add_audit t o a d)
  unfolding add_audit
  add_audit-HasCome t o a d = record { after = λ w h. record { holds = h.holds } }

  pub update_notification-HasCome :
      (j : Uuid) (f : Notification → Notification)
      → Keeps (InDb (HasCome i k)) (update_notification j f)
  unfolding update_notification
  update_notification-HasCome j f = record { after = λ w h. record { holds = h.holds } }

  pub trace-HasCome : (j : Uuid) → Keeps (InDb (HasCome i k)) (get_or_create_trace_id j)
  unfolding get_or_create_trace_id
  trace-HasCome j = search (keeps_rules, uuid4-InDb) depth 9

  at_same :
      (w : World) (r : Incident)
      → InDb (HasCome i k) w
      → incident_by_id i w ≡ some r
      → k ≤ rank r.status
  at_same w r h found =
      let same : some h.holds.0 ≡ some r = sym h.holds.1 ∙ found in
      let up = h.holds.2 in ground arith

  -- A change of a row that does not go back.
  pub update_incident-HasCome :
      (j : Uuid) (r : Incident) (f : Incident → Incident) (w : World)
      → incident_by_id j w ≡ some r
      → ((r : Incident) → (f r).id ≡ r.id)
      → rank r.status ≤ rank (f r).status
      → InDb (HasCome i k) w
      → InDb (HasCome i k) (update_incident j f w).1
  unfolding update_incident
  update_incident-HasCome j r f w found same up h = elim (Bool-cases (j == i)) [
    | inl q ↦
        let at : j ≡ i = (==_iff j i).0 q in
        let found' : incident_by_id i w ≡ some r = rw at at found in
        let here =
          by_key-update_key_self (λ (r : Incident). r.id) i (touch_incident w.now f) w.incidents r
            same found' in
        record {
          holds = (touch_incident w.now f r, rw at here, omega (arith, at_same w r h found', up));
        }
    | inr q ↦
        let other : j ≢ i = λ e. ground (arith, ==_refl i) in
        record {
          holds = (
            h.holds.0,
            by_key-update_key_ne (λ (r : Incident). r.id) j i (touch_incident w.now f) w.incidents
                  same other
                ∙ h.holds.1,
            h.holds.2,
          );
        }
  ]

found_id : (w : World) (j : Uuid) (r : Incident) → incident_by_id j w ≡ some r → r.id ≡ j
found_id w j r found = go w.incidents found
  where
    go : (rows : List Incident) → by_key (λ (r : Incident). r.id) j rows ≡ some r → r.id ≡ j
    go [] h = ground arith
    go (s ∷ rows) h = ground (arith, go rows)

pub by_own_id :
    (w : World) (j : Uuid) (r : Incident)
    → incident_by_id j w ≡ some r
    → incident_by_id r.id w ≡ some r
by_own_id w j r found = go r.id (found_id w j r found)
  where
    go : (l : Uuid) → l ≡ j → incident_by_id l w ≡ some r
    go l e = rw e found

pub up : (s : IncidentStatus) → is_open s ≡ true → rank s ≤ rank acknowledged
unfolding rank is_open
up s live = ground arith

pub up_escalated : (s : IncidentStatus) → is_open s ≡ true → rank s ≤ rank escalated
unfolding rank is_open
up_escalated s live = ground arith

below : (s : IncidentStatus) → rank s ≤ rank resolved
unfolding rank
below s = ground arith

-- What follows a call that has kept a property.
pub after_then {ℓ κ} :
    {A : Type ℓ} {B : Type κ} {P : World → Type 0} (m : Action A) (k : Action B) (w : World)
    → P (m w).1
    → Keeps P k
    → P ((m >> k) w).1
unfolding ◌>>◌ resume
after_then {A = A} {P = P} m k w h kk = go (m w) h
  where
    go : (r : Result A × World) → P r.1 → P (resume (λ _. k) r).1
    go (ok a, v) h = kk.after v h
    go (err e, v) h = h

module _ (i : Uuid) (k : ℕ) where
  log_acknowledged-HasCome : (row : Incident) → Keeps (InDb (HasCome i k)) (log_acknowledged row)
  unfolding log_acknowledged
  log_acknowledged-HasCome row = search (keeps_rules, trace-HasCome, add_audit-HasCome) depth 9

  log_resolved-HasCome :
      (by remark : Option String) (row : Incident)
      → Keeps (InDb (HasCome i k)) (log_resolved by remark row)
  unfolding log_resolved
  log_resolved-HasCome by remark row =
      search (keeps_rules, trace-HasCome, add_audit-HasCome) depth 9

  log_answer-HasCome :
      (d : String) (j : Uuid) (n : Notification) (t : Uuid)
      → Keeps (InDb (HasCome i k)) (log_answer d j n t)
  unfolding log_answer
  log_answer-HasCome d j n t =
      search (keeps_rules, update_notification-HasCome, add_audit-HasCome) depth 9

  acknowledge_open-HasCome :
      (incident : Incident) (by : Option String) (now : Time) (w : World)
      → incident_by_id incident.id w ≡ some incident
      → is_open incident.status ≡ true
      → InDb (HasCome i k) w
      → InDb (HasCome i k) (acknowledge_open incident by now w).1
  unfolding acknowledge_open
  acknowledge_open-HasCome incident by now w found live h =
      after_then (update_incident incident.id (acknowledged_at_by now by))
        (log_acknowledged (touch_incident now (acknowledged_at_by now by) incident)) w
        (update_incident-HasCome i k incident.id incident (acknowledged_at_by now by) w found
          (λ r. refl) (up incident.status live) h)
        (log_acknowledged-HasCome _)

  resolve_ended-HasCome :
      (incident : Incident) (by remark : Option String) (now : Time) (w : World)
      → incident_by_id incident.id w ≡ some incident
      → InDb (HasCome i k) w
      → InDb (HasCome i k) (resolve_ended incident by remark now w).1
  unfolding resolve_ended
  resolve_ended-HasCome incident by remark now w found h =
      after_then (update_incident incident.id resolved_row)
        (log_resolved by remark (touch_incident now resolved_row incident)) w
        (update_incident-HasCome i k incident.id incident resolved_row w found (λ r. refl)
          (below incident.status) h)
        (log_resolved-HasCome by remark _)

  answer_call-HasCome :
      (env : Env) (d : String) (incident : Incident) (n : Notification) (t : Uuid) (now : Time)
      (w : World)
      → incident_by_id incident.id w ≡ some incident
      → is_open incident.status ≡ true
      → InDb (HasCome i k) w
      → InDb (HasCome i k) (answer_call env d incident n t now w).1
  unfolding answer_call
  answer_call-HasCome env d incident n t now w found live h =
      let by = some (env.uuid_text n.contact_id) in
      after_then (update_incident incident.id (acknowledged_at_by now by))
        (log_answer d incident.id n t) w
        (update_incident-HasCome i k incident.id incident (acknowledged_at_by now by) w found
          (λ r. refl) (up incident.status live) h)
        (log_answer-HasCome d incident.id n t)

  -- An acknowledgment takes no incident back.
  pub acknowledge_incident-HasCome :
      (j : Option Uuid) (by : Option String)
      → Keeps (InDb (HasCome i k)) (acknowledge_incident j by)
  unfolding acknowledge_incident combinators
  acknowledge_incident-HasCome none by = record { after = λ w h. h }
  acknowledge_incident-HasCome (some j) by = record {
    after = λ w h. elim (Option-cases (incident_by_id j w)) [
      | inl missing ↦ rw missing h
      | inr (r, found) ↦ elim (Bool-cases (is_open r.status)) [
        | inl live ↦
            let here = acknowledge_open-HasCome r by w.now w (by_own_id w j r found) live h in
            rw (found, live) here
        | inr over ↦ rw (found, over) h
      ]
    ];
  }

  -- Neither does a resolution.
  pub resolve_incident-HasCome :
      (j : Option Uuid) (by remark : Option String)
      → Keeps (InDb (HasCome i k)) (resolve_incident j by remark)
  unfolding resolve_incident combinators
  resolve_incident-HasCome none by remark = record { after = λ w h. h }
  resolve_incident-HasCome (some j) by remark = record {
    after = λ w h. elim (Option-cases (incident_by_id j w)) [
      | inl missing ↦ rw missing h
      | inr (r, found) ↦ elim (Bool-cases (can_be_resolved r.status)) [
        | inl ended ↦
            let here = resolve_ended-HasCome r by remark w.now w (by_own_id w j r found) h in
            rw (found, ended) here
        | inr over ↦ rw (found, over) h
      ]
    ];
  }

  answer_if_asked-HasCome :
      (env : Env) (d : String) (incident : Incident) (n : Notification) (t : Uuid) (now : Time)
      (w : World)
      → incident_by_id incident.id w ≡ some incident
      → InDb (HasCome i k) w
      → InDb (HasCome i k) (answer_if_asked env d incident n t now w).1
  unfolding answer_if_asked when
  answer_if_asked-HasCome env d incident n t now w found h =
      after_then {P = InDb (HasCome i k)}
        (when (str_eq d "1" && is_open incident.status) (answer_call env d incident n t now))
        (pure callback_reply) w (asked (Bool-cases (str_eq d "1" && is_open incident.status)))
        (Keeps-pure callback_reply)
    where
      asked :
          ((str_eq d "1" && is_open incident.status) ≡ true)
            ⊎ ((str_eq d "1" && is_open incident.status) ≡ false)
          → InDb
              (HasCome i k)
              (when
                (str_eq d "1" && is_open incident.status)
                (answer_call env d incident n t now)
                w).1
      asked (inl one) =
          let here = answer_call-HasCome env d incident n t now w found (ground arith) h in
          rw one here
      asked (inr none_asked) = rw none_asked h

  conclude_callback-HasCome :
      (env : Env) (d : String) (n : Notification) (incident : Incident) (t : Uuid)
      (rejected : Option String) (w : World)
      → incident_by_id incident.id w ≡ some incident
      → InDb (HasCome i k) w
      → InDb (HasCome i k) (conclude_callback env d n incident t rejected w).1
  unfolding conclude_callback combinators
  conclude_callback-HasCome env d n incident t none w found h =
      answer_if_asked-HasCome env d incident n t w.now w found h
  conclude_callback-HasCome env d n incident t (some reason) w found h = h

module _ {Q : Db → Type 0}
    (keeps_audit : (t : Uuid) (o : Option Uuid) (a : AuditAction) (d : Mapping)
      → Keeps (InDb Q) (add_audit t o a d)) where
  -- The audit of a callback changes the log alone.
  pub audit_callback-InDb :
      (d : String) (rejected : Option String) (n : Notification) (incident : Incident)
      → Keeps (InDb Q) (audit_callback d rejected n incident)
  unfolding audit_callback get_or_create_trace_id
  audit_callback-InDb d rejected n incident = search (keeps_rules, uuid4-InDb, keeps_audit) depth 11

module _ (i : Uuid) (k : ℕ) (incident : Incident) where
  -- both the progress of one incident and the row of another
  abbrev WithRow : Db → Type 0
  WithRow db =
      HasCome i k db × (by_key (λ (r : Incident). r.id) incident.id db.incidents ≡ some incident)

  add_audit-WithRow :
      (t : Uuid) (o : Option Uuid) (a : AuditAction) (d : Mapping)
      → Keeps (InDb WithRow) (add_audit t o a d)
  unfolding add_audit
  add_audit-WithRow t o a d = record { after = λ w h. record { holds = h.holds } }

  record_callback-HasCome :
      (env : Env) (d : String) (rejected : Option String) (n : Notification) (w : World)
      → incident_by_id incident.id w ≡ some incident
      → InDb (HasCome i k) w
      → InDb (HasCome i k) (record_callback env d rejected n incident w).1
  unfolding record_callback ◌>>=◌ resume
  record_callback-HasCome env d rejected n w found h = go (audit_callback d rejected n incident w) (
      (audit_callback-InDb add_audit-WithRow d rejected n incident).after w
        (record { holds = (h.holds, found) }))
    where
      go :
          (r : Result Uuid × World)
          → InDb WithRow r.1
          → InDb (HasCome i k) (resume (λ t. conclude_callback env d n incident t rejected) r).1
      go (ok t, v) both =
          conclude_callback-HasCome i k env d n incident t rejected v both.holds.1
            (record { holds = both.holds.0 })
      go (err e, v) both = record { holds = both.holds.0 }

module _ (i : Uuid) (k : ℕ) where
  -- Neither does the answer of a call.
  pub handle_voice_callback-HasCome :
      (env : Env) (j : Option Uuid) (d : String) (rejected : Option String)
      → Keeps (InDb (HasCome i k)) (handle_voice_callback env j d rejected)
  unfolding handle_voice_callback combinators
  handle_voice_callback-HasCome env none d rejected = record { after = λ w h. h }
  handle_voice_callback-HasCome env (some j) d rejected = record {
    after = λ w h. elim (Option-cases (notification_by_id j w)) [
      | inl missing ↦ rw missing h
      | inr (n, there) ↦ elim (Option-cases (incident_by_id n.incident_id w)) [
        | inl missing ↦ rw (there, missing) h
        | inr (r, found) ↦
            let here =
              record_callback-HasCome i k r env d rejected n w (by_own_id w n.incident_id r found)
                h in
            rw (there, found) here
      ]
    ];
  }

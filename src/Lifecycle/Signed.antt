-- ===== src/Lifecycle/Signed.antt =====
-- main.py: `handle_voice_callback` with the check of its request's signature.
use loboguara.Common.{
  ◌≡◌, refl, ok, err, some, none, inl, inr, Option, Option-cases, String, List, Result,
}
use loboguara.Models.{Uuid, Incident, Notification, AuditAction, Mapping}
use loboguara.World.{World, Env, Db}
use loboguara.Action.{Action, combinators, resume, gets, lift, pure, on_option, ◌>>=◌}
use loboguara.Action.Keeps.{Keeps}
use loboguara.Database.{incident_by_id, notification_by_id, add_audit}
use loboguara.Frame.{InDb}
use loboguara.Lifecycle.{
  CallbackReply, ignored, audit_callback, conclude_callback, record_callback, handle_voice_callback,
}
use loboguara.Lifecycle.Ranks.{audit_callback-InDb}
use loboguara.Ops.Signatures.{verify_voice_webhook_signature}

-- the endpoint: the signature of the body is checked before the rows are read
unfoldable pub voice_callback :
    Env
    → (notification_id : Option Uuid) → (digits body : String)
    → (timestamp_header signature_header : Option String) → Action CallbackReply
voice_callback env notification_id digits body timestamp_header signature_header =
    on_option notification_id (pure ignored) λ i. do
      now ← gets (λ w. w.now)
      rejected ←
          lift (verify_voice_webhook_signature env now body timestamp_header signature_header)
      handle_voice_callback env (some i) digits rejected

-- the incidents and the notifications are these
abbrev pub RowsAre : List Incident → List Notification → Db → Type 0
RowsAre incidents notifications db = (db.incidents ≡ incidents) × (db.notifications ≡ notifications)

module _ (xs : List Incident) (ys : List Notification) where
  add_audit-RowsAre :
      (t : Uuid) (o : Option Uuid) (a : AuditAction) (d : Mapping)
      → Keeps (InDb (RowsAre xs ys)) (add_audit t o a d)
  unfolding add_audit
  add_audit-RowsAre t o a d = record { after = λ w h. record { holds = h.holds } }

  refused-resume :
      (env : Env) (d reason : String) (n : Notification) (incident : Incident)
      (r : Result Uuid × World)
      → InDb (RowsAre xs ys) r.1
      → InDb (RowsAre xs ys) (resume (λ t. conclude_callback env d n incident t (some reason)) r).1
  unfolding conclude_callback combinators
  refused-resume env d reason n incident (ok t, v) h = h
  refused-resume env d reason n incident (err e, v) h = h

  refused-record :
      (env : Env) (d reason : String) (n : Notification) (incident : Incident)
      → Keeps (InDb (RowsAre xs ys)) (record_callback env d (some reason) n incident)
  unfolding record_callback ◌>>=◌
  refused-record env d reason n incident = record {
    after = λ w h.
        refused-resume env d reason n incident (audit_callback d (some reason) n incident w)
          ((audit_callback-InDb add_audit-RowsAre d (some reason) n incident).after w h);
  }

  refused-RowsAre :
      (env : Env) (i : Option Uuid) (d reason : String)
      → Keeps (InDb (RowsAre xs ys)) (handle_voice_callback env i d (some reason))
  unfolding handle_voice_callback combinators
  refused-RowsAre env none d reason = record { after = λ w h. h }
  refused-RowsAre env (some i) d reason = record {
    after = λ w h. elim (Option-cases (notification_by_id i w)) [
      | inl missing ↦ rw missing h
      | inr (n, there) ↦ elim (Option-cases (incident_by_id n.incident_id w)) [
        | inl missing ↦ rw (there, missing) h
        | inr (r, found) ↦
            let kept = (refused-record env d reason n r).after w h in rw (there, found) kept
      ]
    ];
  }

-- A callback whose signature is refused, for whatever reason and with whatever digits, leaves every
-- incident and every notification as it is.
pub refused_callback_keeps :
    (env : Env) (i : Option Uuid) (digits body : String)
    (timestamp_header signature_header : Option String) (reason : String) (w : World)
    → verify_voice_webhook_signature env w.now body timestamp_header signature_header
      ≡ ok (some reason)
    → RowsAre w.incidents w.notifications
        (voice_callback env i digits body timestamp_header signature_header w).1.db
unfolding voice_callback combinators
refused_callback_keeps env none digits body timestamp_header signature_header reason w refused =
    (refl, refl)
refused_callback_keeps env (some i) digits body timestamp_header signature_header reason w refused =
    rw refused
      ((refused-RowsAre w.incidents w.notifications env (some i) digits reason).after w
        (record { holds = (refl, refl) })).holds

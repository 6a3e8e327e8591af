-- ===== src/Pull/Cursors.antt =====
-- worker.py: the cursor of `_pull_sentry_impl`.
use loboguara.Common.{
  ℕ, ◌≤◌, ◌≡◌, refl, ap, arith, List, [], ◌∷◌, Option, get_or, String, str_eq, not, ltb, Bool, true,
  false, Result, ok, err, inl, inr, Bool-cases, if◌then◌else◌,
}
use loboguara.Common.Int.{pos, leb_ℤ}
use loboguara.Common.Text.{strip}
use loboguara.Models.{Uuid, Incident, AuditAction, Mapping, Rule}
use loboguara.World.{World, Env, HttpRequest}
use loboguara.Action.{Action, combinators, resume, pure, ◌>>◌, ◌>>=◌}
use loboguara.Action.Keeps.{Keeps, Keeps-pure, Keeps-modify, keeps_rules}
use loboguara.Action.Gives.{
  Gives, Returned, Gives-pure, Gives-then, Gives-bind, Gives-if, Gives-chain,
}
use loboguara.Database.{uuid4, add_audit, update_incident}
use loboguara.Providers.{http_call}
use loboguara.Ingest.{
  Event, queue_dispatch, insert_incident, is_duplicate, announce_incident, create_incident,
  log_duplicate, refresh_incident, ingest_new, ingest_with_rule, ingest_event,
}
use loboguara.Pull.Sentry.{
  Issue, Progress, get_json, list_sentry_projects, ingest_issues, pull_projects,
  advance_sentry_cursor, pull_sentry_now, pull_sentry_from, pull_sentry, sentry_cursor_of,
  SentryPull, sentry_pulled, sentry_disabled, missing_api_token,
}

-- the cursor is the one of the start
record HasCursor (c : Option ℕ) (w : World) : Type 0 where
  pub is_same : w.sentry_cursor ≡ c

module _ (c : Option ℕ) where
  uuid4-HasCursor : Keeps (HasCursor c) uuid4
  unfolding uuid4
  uuid4-HasCursor = record { after = λ w h. record { is_same = h.is_same } }

  add_audit-HasCursor :
      (t : Uuid) (o : Option Uuid) (a : AuditAction) (d : Mapping)
      → Keeps (HasCursor c) (add_audit t o a d)
  unfolding add_audit
  add_audit-HasCursor t o a d = record { after = λ w h. record { is_same = h.is_same } }

  update-HasCursor :
      (i : Uuid) (f : Incident → Incident) → Keeps (HasCursor c) (update_incident i f)
  unfolding update_incident
  update-HasCursor i f = Keeps-modify _ λ w h. record { is_same = h.is_same }

  insert-HasCursor : (row : Incident) → Keeps (HasCursor c) (insert_incident row)
  unfolding insert_incident
  insert-HasCursor row = Keeps-modify _ λ w h. record { is_same = h.is_same }

  queue-HasCursor : (i t : Uuid) → Keeps (HasCursor c) (queue_dispatch i t)
  unfolding queue_dispatch
  queue-HasCursor i t = Keeps-modify _ λ w h. record { is_same = h.is_same }

  is_duplicate-HasCursor : (k : String) (n : ℕ) → Keeps (HasCursor c) (is_duplicate k n)
  unfolding is_duplicate
  is_duplicate-HasCursor k n = record {
    after = λ w h. record { is_same = ground (arith, h.is_same) };
  }

  announce-HasCursor :
      (event : Event) (t : Uuid) (rule : Option Rule) (i : Uuid)
      → Keeps (HasCursor c) (announce_incident event t rule i)
  unfolding announce_incident
  announce-HasCursor event t rule i =
      search (keeps_rules, add_audit-HasCursor, queue-HasCursor) depth 12

  create-HasCursor :
      (event : Event) (t : Uuid) (rule : Option Rule) (key : Option String)
      → Keeps (HasCursor c) (create_incident event t rule key)
  unfolding create_incident
  create-HasCursor event t rule key =
      search (keeps_rules, uuid4-HasCursor, insert-HasCursor, announce-HasCursor) depth 12

  log_duplicate-HasCursor :
      (event : Event) (t : Uuid) (k : String) → Keeps (HasCursor c) (log_duplicate event t k)
  unfolding log_duplicate
  log_duplicate-HasCursor event t k = search (keeps_rules, add_audit-HasCursor) depth 9

  refresh-HasCursor :
      (event : Event) (t : Uuid) (rule : Option Rule) (r : Incident) (now : ℕ)
      → Keeps (HasCursor c) (refresh_incident event t rule r now)
  unfolding refresh_incident
  refresh-HasCursor event t rule r now =
      search (keeps_rules, update-HasCursor, add_audit-HasCursor, queue-HasCursor) depth 12

  ingest-HasCursor : (env : Env) (event : Event) → Keeps (HasCursor c) (ingest_event env event)
  unfolding ingest_event ingest_with_rule ingest_new
  ingest-HasCursor env event =
      search
        (
          keeps_rules, uuid4-HasCursor, create-HasCursor, is_duplicate-HasCursor,
          log_duplicate-HasCursor, refresh-HasCursor,
        )
        depth 20

  get_json-HasCursor :
      (env : Env) (url authorization : String)
      → Keeps (HasCursor c) (get_json env url authorization)
  unfolding get_json http_call
  get_json-HasCursor env url authorization = search (keeps_rules, http_call-HasCursor) depth 9
    where
      http_call-HasCursor :
          (env : Env) (request : HttpRequest) → Keeps (HasCursor c) (http_call env request)
      http_call-HasCursor env request = record { after = λ w h. record { is_same = h.is_same } }

  projects-HasCursor : (env : Env) → Keeps (HasCursor c) (list_sentry_projects env)
  unfolding list_sentry_projects
  projects-HasCursor env = search (keeps_rules, get_json-HasCursor) depth 9

  ingest_issues-HasCursor :
      (env : Env) (project : String) (last : ℕ) (issues : List Issue) (p : Progress)
      → Keeps (HasCursor c) (ingest_issues env project last issues p)
  unfolding ingest_issues
  ingest_issues-HasCursor env project last [] p = Keeps-pure p
  ingest_issues-HasCursor env project last (x ∷ issues) p =
      let rest = ingest_issues-HasCursor env project last issues in
      search (keeps_rules, ingest-HasCursor) depth 12

  pull_projects-HasCursor :
      (env : Env) (last : ℕ) (projects : List String) (p : Progress)
      → Keeps (HasCursor c) (pull_projects env last projects p)
  unfolding pull_projects
  pull_projects-HasCursor env last [] p = Keeps-pure p
  pull_projects-HasCursor env last (x ∷ projects) p =
      let rest = pull_projects-HasCursor env last projects in
      search (keeps_rules, get_json-HasCursor, ingest_issues-HasCursor) depth 12

-- the latest id does not fall below that of the start
abbrev From : ℕ → Progress → Type 0
From last p = last ≤ p.max_seen

ingest_issues-From :
    (env : Env) (project : String) (last : ℕ) (issues : List Issue) (p : Progress)
    → last ≤ p.max_seen
    → Gives (From last) (ingest_issues env project last issues p)
unfolding ingest_issues
ingest_issues-From env project last [] p h = Gives-pure (From last) p h
ingest_issues-From env project last (x ∷ issues) p h =
    Gives-if (From last) (leb_ℤ x.0 (pos last)) _ _ (ingest_issues-From env project last issues _ h)
      (Gives-then (From last) _ _ (ingest_issues-From env project last issues _ (omega arith)))

pull_projects-From :
    (env : Env) (last : ℕ) (projects : List String) (p : Progress)
    → last ≤ p.max_seen
    → Gives (From last) (pull_projects env last projects p)
unfolding pull_projects
pull_projects-From env last [] p h = Gives-pure (From last) p h
pull_projects-From env last (x ∷ projects) p h = Gives-bind (From last) _ _ λ payload.
    Gives-bind (From last) _ _ λ issues.
      Gives-chain (From last) (From last) _ _ (ingest_issues-From env x last _ p h)
        (λ next k. pull_projects-From env last projects next k)

-- what a pull does to a cursor: it comes to the latest id, or is the one of the start
unfoldable pub Advanced : Option ℕ → Result SentryPull × World → Type 0
Advanced c (ok (sentry_pulled p), w) = (get_or c 0 ≤ p.max_seen) × (sentry_cursor_of w ≡ p.max_seen)
Advanced c (_, w) = w.sentry_cursor ≡ c

close :
    (c : Option ℕ) (r : Result Progress × World)
    → Returned (From (get_or c 0)) r.0
    → HasCursor c r.1
    → Advanced c
        (resume (λ p. advance_sentry_cursor (get_or c 0) p.max_seen >> pure (sentry_pulled p)) r)
unfolding Advanced resume advance_sentry_cursor combinators
close c (err e, w) above h = h.is_same
close c (ok p, w) above h = elim (Bool-cases (ltb (get_or c 0) p.max_seen)) [
  | inl more ↦ rw more (above, refl)
  | inr same ↦
      rw same (above, at_end (get_or c 0) p.max_seen same above (ap (λ o. get_or o 0) h.is_same))
]
  where
    at_end :
        (last latest : ℕ)
        → ltb last latest ≡ false
        → last ≤ latest
        → sentry_cursor_of w ≡ last
        → sentry_cursor_of w ≡ latest
    at_end last latest same above here = ground arith

open_projects :
    (env : Env) (c : Option ℕ) (r : Result (List String) × World)
    → HasCursor c r.1
    → Advanced c (
        resume
          (λ projects.
            pull_projects env
              (get_or c 0)
              projects
              (record { fetched = 0; ingested = 0; max_seen = get_or c 0 })
            >>= (λ p. advance_sentry_cursor (get_or c 0) p.max_seen >> pure (sentry_pulled p)))
          r)
unfolding Advanced resume ◌>>=◌
open_projects env c (err e, w) h = h.is_same
open_projects env c (ok projects, w) h =
    let start : Progress = record { fetched = 0; ingested = 0; max_seen = get_or c 0 } in
    close c (pull_projects env (get_or c 0) projects start w)
      ((pull_projects-From env (get_or c 0) projects start (omega arith)).of w)
      ((pull_projects-HasCursor c env (get_or c 0) projects start).after w h)

either_advances :
    (c : Option ℕ) (b : Bool) (m n : Action SentryPull) (w : World)
    → Advanced c (m w)
    → Advanced c (n w)
    → Advanced c ((if b then m else n) w)
either_advances c true m n w hm hn = hm
either_advances c false m n w hm hn = hn

-- A pull of Sentry that returns leaves the cursor at the latest id that it reports, which is not below the
-- cursor of the start; a pull that is switched off or raises leaves the cursor as it was.
pub sentry_cursor_forward : (env : Env) (w : World) → Advanced w.sentry_cursor (pull_sentry env w)
unfolding Advanced pull_sentry pull_sentry_now pull_sentry_from combinators
sentry_cursor_forward env w =
    let c = w.sentry_cursor in
    let blank = str_eq (strip env.config.sentry_api_token) "" in
    either_advances c (not env.config.sentry_pull_enabled) (pure sentry_disabled)
      (if blank then pure missing_api_token else pull_sentry_now env) w (refl {a = c})
      (either_advances c blank (pure missing_api_token) (pull_sentry_now env) w (refl {a = c}) (
        open_projects env c (list_sentry_projects env w)
          ((projects-HasCursor c env).after w (record { is_same = refl }))))

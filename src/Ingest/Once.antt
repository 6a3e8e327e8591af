-- ===== src/Ingest/Once.antt =====
-- One incident for each event of a source.
use loboguara.Common.{
  ℕ, ◌+◌, ◌≤◌, ◌≡◌, refl, true, Option, none, List, [], ◌∷◌, arith, keep, find?, length, inl, inr,
  Option-cases, Bool-cases, String, str_eq, str_eq_iff, ◌↔◌,
}
use loboguara.Models.{Uuid, Incident, AuditAction, Mapping, Rule}
use loboguara.World.{World, Env, Db}
use loboguara.Action.{combinators, modify}
use loboguara.Action.Keeps.{Keeps, Keeps-modify, keeps_rules}
use loboguara.Database.{update_incident, touch_incident, uuid4, add_audit}
use loboguara.Database.Tables.{update_key}
use loboguara.Dispatch.Uniqueness.{length-keep_snoc, length-keep_miss, keep-none}
use loboguara.Frame.{InDb}
use loboguara.Ingest.{
  Event, is_from, new_incident, refreshed_row, queue_dispatch, refresh_incident, is_duplicate,
  insert_incident, announce_incident, create_incident, log_duplicate, ingest_new, ingest_with_rule,
  ingest_event,
}
use loboguara.Lifecycle.Ranks.{uuid4-InDb, after_then}

-- At most one incident of that event of that source.
abbrev pub AtMostOne : String → String → Db → Type 0
AtMostOne s e db = length (keep (is_from s e) db.incidents) ≤ 1

module _ (s e : String) where
  add_audit-AtMostOne :
      (t : Uuid) (o : Option Uuid) (a : AuditAction) (d : Mapping)
      → Keeps (InDb (AtMostOne s e)) (add_audit t o a d)
  unfolding add_audit
  add_audit-AtMostOne t o a d = record { after = λ w h. record { holds = h.holds } }

  queue-AtMostOne : (i t : Uuid) → Keeps (InDb (AtMostOne s e)) (queue_dispatch i t)
  unfolding queue_dispatch
  queue-AtMostOne i t = Keeps-modify _ (λ w h. record { holds = h.holds })

  is_duplicate-AtMostOne : (k : String) (n : ℕ) → Keeps (InDb (AtMostOne s e)) (is_duplicate k n)
  unfolding is_duplicate
  is_duplicate-AtMostOne k n = record { after = λ w h. record { holds = ground (arith, h.holds) } }

  length-keep_update :
      (i : Uuid) (f : Incident → Incident) (rows : List Incident)
      → ((r : Incident) → is_from s e (f r) ≡ is_from s e r)
      → length (keep (is_from s e) (update_key (λ (r : Incident). r.id) i f rows))
        ≡ length (keep (is_from s e) rows)
  unfolding update_key
  length-keep_update i f [] same = refl
  length-keep_update i f (r ∷ rows) same =
      let ih = length-keep_update i f rows same in let this = same r in ground arith

  update-AtMostOne :
      (i : Uuid) (event : Event) (rule : Option Rule)
      → Keeps (InDb (AtMostOne s e)) (update_incident i (refreshed_row event rule))
  unfolding update_incident
  update-AtMostOne i event rule = Keeps-modify _ (λ w h. record {
    holds =
        let same =
          length-keep_update i (touch_incident w.now (refreshed_row event rule)) w.incidents
            (λ r. refl) in
        let before = h.holds in ground arith;
  })

  refresh-AtMostOne :
      (event : Event) (t : Uuid) (rule : Option Rule) (r : Incident) (now : ℕ)
      → Keeps (InDb (AtMostOne s e)) (refresh_incident event t rule r now)
  unfolding refresh_incident
  refresh-AtMostOne event t rule r now =
      search (keeps_rules, update-AtMostOne, add_audit-AtMostOne, queue-AtMostOne) depth 12

  announce-AtMostOne :
      (event : Event) (t : Uuid) (rule : Option Rule) (i : Uuid)
      → Keeps (InDb (AtMostOne s e)) (announce_incident event t rule i)
  unfolding announce_incident
  announce-AtMostOne event t rule i =
      search (keeps_rules, add_audit-AtMostOne, queue-AtMostOne) depth 12

  -- A row is added only where the source has none of that event.
  insert-AtMostOne :
      (row : Incident) (w : World)
      → find? (is_from row.source row.external_event_id) w.incidents ≡ none
      → InDb (AtMostOne s e) w
      → InDb (AtMostOne s e) (insert_incident row w).1
  unfolding insert_incident modify
  insert-AtMostOne row w missing h =
      let before = h.holds in
      elim (Bool-cases (is_from s e row)) [
        | inl same ↦
            let from : row.source ≡ s = source_of (str_eq_iff row.source s) same in
            let known : row.external_event_id ≡ e =
              event_of (str_eq_iff row.external_event_id e) same in
            let absent =
              keep-none (is_from s e) w.incidents
                (moved row.source row.external_event_id from known missing) in
            let one = length-keep_snoc (is_from s e) w.incidents row in
            record { holds = ground arith }
        | inr other ↦
            let one = length-keep_miss (is_from s e) w.incidents row other in
            record { holds = ground arith }
      ]
    where
      source_of :
          ((str_eq row.source s ≡ true) ↔ (row.source ≡ s))
          → is_from s e row ≡ true
          → row.source ≡ s
      source_of f same = ground arith

      event_of :
          ((str_eq row.external_event_id e ≡ true) ↔ (row.external_event_id ≡ e))
          → is_from s e row ≡ true
          → row.external_event_id ≡ e
      event_of g same = ground arith

      moved :
          (a b : String)
          → a ≡ s
          → b ≡ e
          → find? (is_from a b) w.incidents ≡ none
          → find? (is_from s e) w.incidents ≡ none
      moved a b p q none_there = rw (← p, ← q) none_there

  create-AtMostOne :
      (event : Event) (t : Uuid) (rule : Option Rule) (key : Option String)
      → Keeps (InDb (AtMostOne s e)) (create_incident event t rule key)
  unfolding create_incident uuid4 combinators
  create-AtMostOne event t rule key = record {
    after = λ w h.
        elim (Option-cases (find? (is_from event.source event.external_event_id) w.incidents)) [
          | inl missing ↦
              let w1 : World = record w { next_uuid = w.next_uuid + 1 } in
              let row : Incident = new_incident event w.next_uuid rule key w.now in
              rw missing (
                after_then {P = InDb (AtMostOne s e)} (insert_incident row)
                  (announce_incident event t rule w.next_uuid) w1
                  (insert-AtMostOne row w1 missing (record { holds = h.holds }))
                  (announce-AtMostOne event t rule w.next_uuid))
          | inr (r, found) ↦ rw found (record { holds = h.holds })
        ];
  }

  log_duplicate-AtMostOne :
      (event : Event) (t : Uuid) (k : String)
      → Keeps (InDb (AtMostOne s e)) (log_duplicate event t k)
  unfolding log_duplicate
  log_duplicate-AtMostOne event t k = search (keeps_rules, add_audit-AtMostOne) depth 9

  ingest_new-AtMostOne :
      (event : Event) (t : Uuid) (rule : Option Rule) (key : Option String)
      → Keeps (InDb (AtMostOne s e)) (ingest_new event t rule key)
  unfolding ingest_new
  ingest_new-AtMostOne event t rule key =
      search (keeps_rules, create-AtMostOne, is_duplicate-AtMostOne, log_duplicate-AtMostOne) depth
        12

  ingest_with_rule-AtMostOne :
      (env : Env) (event : Event) (t : Uuid) (rule : Option Rule)
      → Keeps (InDb (AtMostOne s e)) (ingest_with_rule env event t rule)
  unfolding ingest_with_rule
  ingest_with_rule-AtMostOne env event t rule =
      search (keeps_rules, refresh-AtMostOne, ingest_new-AtMostOne) depth 12

  pub ingest-AtMostOne :
      (env : Env) (event : Event) → Keeps (InDb (AtMostOne s e)) (ingest_event env event)
  unfolding ingest_event
  ingest-AtMostOne env event = search (keeps_rules, uuid4-InDb, ingest_with_rule-AtMostOne) depth 12

-- If each event of each source has at most one incident, it has at most one after any event came in.
pub ingest_at_most_one :
    (env : Env) (event : Event) (w : World) (source external_event_id : String)
    → length (keep (is_from source external_event_id) w.incidents) ≤ 1
    → length (keep (is_from source external_event_id) (ingest_event env event w).1.incidents) ≤ 1
ingest_at_most_one env event w source external_event_id h =
    ((ingest-AtMostOne source external_event_id env event).after w (record { holds = h })).holds

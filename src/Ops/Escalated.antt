-- ===== src/Ops/Escalated.antt =====
-- The escalation guard of `_evaluate_ops_integration_status` (main.py) and the calls on incidents.
use loboguara.Common.{
  ◌≤◌, ◌≡◌, refl, arith, Bool, true, false, not, some, List, [], ◌∷◌, ◌&&◌, any, keep, length,
  find?, ◌==◌,
}
use loboguara.Models.{
  Uuid, Incident, IncidentStatus, opened, acknowledged, resolved, escalated, is_open,
}
use loboguara.World.{World, Env}
use loboguara.Database.{incident_by_id}
use loboguara.Database.Tables.{key_of_found}
use loboguara.Lifecycle.{is_log_of}
use loboguara.Lifecycle.Ranks.{rank}
use loboguara.Escalation.Progress.{Steps, never_goes_back}
use loboguara.Ops.Integration.{escalated_logs, evaluate_ops_integration_status}

-- an incident that a table holds passes a test that it passes by itself
kept_by_id :
    (p : Incident → Bool) (i : Uuid) (rows : List Incident) (s : Incident)
    → find? (λ (r : Incident). r.id == i) rows ≡ some s
    → p s ≡ true
    → (length (keep p rows) == 0) ≡ false
kept_by_id p i [] s found here = ground arith
kept_by_id p i (r ∷ rows) s found here = ground (arith, kept_by_id p i rows s)

keep-keep-length :
    (p q : Incident → Bool) (rows : List Incident)
    → length (keep p (keep q rows)) ≡ length (keep (λ r. q r && p r) rows)
keep-keep-length p q [] = refl
keep-keep-length p q (r ∷ rows) = ground (arith, keep-keep-length p q rows)

closed_rank : (s t : IncidentStatus) → is_open s ≡ false → rank s ≤ rank t → is_open t ≡ false
unfolding rank is_open
closed_rank opened t h up = ground arith
closed_rank acknowledged opened h up = ground arith
closed_rank resolved opened h up = ground arith
closed_rank escalated opened h up = ground arith
closed_rank s acknowledged h up = refl
closed_rank s resolved h up = refl
closed_rank s escalated h up = refl

-- From a state in which an incident is no longer open, no calls on incidents lead to one in which the
-- escalation guard gives its signal while the log of an escalation of that incident is there.
pub escalated_blocks_guard :
    (env : Env) (u w : World) (i : Uuid) (r : Incident)
    → incident_by_id i u ≡ some r
    → is_open r.status ≡ false
    → Steps u w
    → any (is_log_of i) (escalated_logs w) ≡ true
    → (evaluate_ops_integration_status env w).escalation_guard_signal ≡ false
unfolding evaluate_ops_integration_status
escalated_blocks_guard env u w i r found closed steps logged =
    let later = never_goes_back u w i r found steps in
    let s = later.0 in
    let over = closed_rank r.status s.status closed later.2 in
    let own : s.id ≡ i = key_of_found (λ (x : Incident). x.id) i w.incidents s later.1 in
    let here : (not (is_open s.status) && any (is_log_of s.id) (escalated_logs w)) ≡ true =
      rw (over, own) logged in
    let there =
      kept_by_id
        (λ (x : Incident). not (is_open x.status) && any (is_log_of x.id) (escalated_logs w)) i
        w.incidents s later.1 here in
    let both =
      keep-keep-length (λ (x : Incident). any (is_log_of x.id) (escalated_logs w))
        (λ (x : Incident). not (is_open x.status)) w.incidents in
    ground (arith, both, there)

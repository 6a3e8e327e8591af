-- ===== src/Ops/Readiness.antt =====
-- main.py: `_evaluate_ops_readiness`.
use loboguara.Common.{
  ℕ, ◌+◌, ◌-◌, ◌≡◌, refl, arith, ◌↔◌, min, String, Bool, true, false, not, Option, none, some,
  is_some, List, [], ◌∷◌, ◌&&◌, any, all, ltb, keep, map, lookup, str_eq, get_or, if◌then◌else◌,
}
use loboguara.Common.Text.{◌⧺◌, strip}
use loboguara.Redis.{read}
use loboguara.World.{World, Env}
use loboguara.Ops.Integration.{evaluate_ops_integration_status}

-- a call of `add_check`
pub record Check : Type 0 where
  pub name : String
  pub passed : Bool
  pub weight : ℕ
  pub blocker : Bool

-- `_coerce_redis_text` of an entry of the hash
unfoldable pub redis_text : Env → World → String → Option String
redis_text env w key = elim (lookup key (get_or (read w.now w.metrics) [])) [
  | none ↦ none
  | some v ↦ let s = strip (env.value_text v) in if str_eq s "" then none else some s
]

abbrev is_ok : Option String → Bool
is_ok none = false
is_ok (some s) = str_eq s "ok"

-- the check of a periodic task's heartbeat
unfoldable pub heartbeat_check : Env → World → String → Check
heartbeat_check env w task = record {
  name = "heartbeat:" ⧺ task;
  passed =
      is_some (redis_text env w ("last_run_at:" ⧺ task))
      && is_ok (redis_text env w ("last_status:" ⧺ task));
  weight = 8;
  blocker = true;
}

abbrev check : String → Bool → ℕ → Bool → Check
check name passed weight blocker = record {
  name = name;
  passed = passed;
  weight = weight;
  blocker = blocker;
}

-- `heartbeat_checks`
abbrev pub periodic_tasks : List String
periodic_tasks = "queue_metrics_snapshot" ∷ "prune_dlq" ∷ "stale_incident_sweeper" ∷ []

-- the checks in the order in which they are added
unfoldable pub readiness_checks : Env → World → List Check
readiness_checks env w =
    let s = evaluate_ops_integration_status env w in
    check "integration_enums" s.enums_ok 20 true
    ∷ check "fallback_contract" s.fallback_contract_ok 15 true
    ∷ check "trace_propagation" s.trace_propagation_signal 10 false
    ∷ check "duplicate_event_signal" s.duplicate_event_signal 10 false
    ∷ check "ack_flow_signal" s.ack_flow_signal 15 true
    ∷ check "escalation_guard_signal" s.escalation_guard_signal 10 false
    ∷ check "dlq_reporting_signal" s.dlq_reporting_signal 15 true
    ∷ map (heartbeat_check env w) periodic_tasks

pub data ReadinessStatus : Type 0 where
  green yellow red : ReadinessStatus

-- schemas.py: `OpsReadinessResponse`, without the evidence
pub record Readiness : Type 0 where
  pub score : ℕ
  pub status : ReadinessStatus
  pub checks : List Check
  pub blockers : List String

-- the weights that the failed checks take off
unfoldable pub lost_weight : List Check → ℕ
lost_weight [] = 0
lost_weight (c ∷ checks) =
    let rest = lost_weight checks in if c.passed then rest else c.weight + rest

abbrev pub is_blocking : Check → Bool
is_blocking c = not c.passed && c.blocker

abbrev pub is_empty {ℓ} : {A : Type ℓ} → List A → Bool
is_empty [] = true
is_empty (_ ∷ _) = false

-- the answer that the checks give; the score does not go below 0
unfoldable pub readiness_of : List Check → Readiness
readiness_of checks =
    let blockers = map (λ (c : Check). c.name) (keep is_blocking checks) in
    record {
      score = min 100 (100 - lost_weight checks);
      status =
          if not (is_empty blockers)
          then red
          else if any (λ (c : Check). not c.passed) checks
          then yellow
          else green;
      checks = checks;
      blockers = blockers;
    }

-- `_evaluate_ops_readiness`
unfoldable pub evaluate_ops_readiness : Env → World → Readiness
evaluate_ops_readiness env w = readiness_of (readiness_checks env w)

-- whether a failed check is a blocker, seen from its name's place
blocked :
    (checks : List Check)
    → is_empty (map (λ (c : Check). c.name) (keep is_blocking checks))
      ≡ not (any is_blocking checks)
blocked [] = refl
blocked (c ∷ checks) = ground (arith, blocked checks)

all_passed :
    (checks : List Check)
    → any (λ (c : Check). not c.passed) checks ≡ false
    → (any is_blocking checks ≡ false) × (lost_weight checks ≡ 0)
unfolding lost_weight
all_passed [] h = (refl, refl)
all_passed (c ∷ checks) h = ground (arith, all_passed checks)

-- every weight takes something off
abbrev AllWeigh : List Check → Type 0
AllWeigh checks = all (λ (c : Check). ltb 0 c.weight) checks ≡ true

lost_weight-none :
    (checks : List Check)
    → AllWeigh checks
    → lost_weight checks ≡ 0
    → any (λ (c : Check). not c.passed) checks ≡ false
unfolding lost_weight
lost_weight-none [] weigh h = refl
lost_weight-none (c ∷ checks) weigh h = ground (arith, lost_weight-none checks)

readiness_of_status :
    (checks : List Check)
    → AllWeigh checks
    → ((readiness_of checks).status ≡ red ↔ any is_blocking checks ≡ true)
      × ((readiness_of checks).status ≡ green ↔ (readiness_of checks).score ≡ 100)
      × ((readiness_of checks).status ≡ green ↔ any (λ (c : Check). not c.passed) checks ≡ false)
unfolding readiness_of
readiness_of_status checks weigh =
    let b = blocked checks in
    let p = all_passed checks in
    let l = lost_weight-none checks weigh in
    (ground (arith, b, p, l), ground (arith, b, p, l), ground (arith, b, p, l))

readiness_checks-AllWeigh : (env : Env) (w : World) → AllWeigh (readiness_checks env w)
unfolding readiness_checks heartbeat_check
readiness_checks-AllWeigh env w = refl

-- The status is red just where a check that is a blocker has failed; it is green just where every check
-- has passed, which is just where the score is 100.
pub readiness_status :
    (env : Env) (w : World)
    → ((evaluate_ops_readiness env w).status ≡ red
        ↔ any is_blocking (readiness_checks env w) ≡ true)
      × ((evaluate_ops_readiness env w).status ≡ green ↔ (evaluate_ops_readiness env w).score ≡ 100)
      × ((evaluate_ops_readiness env w).status ≡ green
          ↔ any (λ (c : Check). not c.passed) (readiness_checks env w) ≡ false)
unfolding evaluate_ops_readiness
readiness_status env w =
    readiness_of_status (readiness_checks env w) (readiness_checks-AllWeigh env w)

-- ===== src/Engine/Matching.antt =====
-- What the rule engine returns, and when the simulation of a rule agrees with it.
use loboguara.Common.{
  String, Bool, true, false, none, some, List, [], ◌∷◌, ◌++◌, Result, ok, err, ◌≡◌, refl, arith,
  All, ◌⊎◌, inl, inr, Exception, ap, sym, ◌∙◌,
}
use loboguara.Models.{Value, Fields, Mapping, Rule}
use loboguara.World.{Env}
use loboguara.Engine.{
  regex_field, key_matches, condition_matches, both, decide_rule, is_empty, evaluate_rules,
  simulation_reasons, simulate_rule,
}

-- a rule that the engine has looked at and passed over
abbrev pub IsPassedOver : Env → Fields → Rule → Type 0
IsPassedOver env payload rule = condition_matches env payload rule.condition_json ≡ ok false

Test-cases : (t : Result Bool) → (t ≡ ok true) ⊎ (t ≡ ok false) ⊎ ((e : Exception) × (t ≡ err e))
Test-cases (ok true) = inl refl
Test-cases (ok false) = inr (inl refl)
Test-cases (err e) = inr (inr (e, refl))

-- The rule stands in the list, meets its whole condition, and every rule before it fails its own.
abbrev pub IsFirstMatch : Env → Fields → List Rule → Rule → Type 0
IsFirstMatch env payload rules rule =
    (before : List Rule) × (behind : List Rule) × (rules ≡ before ++ rule ∷ behind)
    × All (IsPassedOver env payload) before
    × (condition_matches env payload rule.condition_json ≡ ok true)

-- A rule that is returned meets its whole condition, and every rule before it in the list fails its
-- own.
pub evaluate_rules_first :
    (env : Env) (payload : Fields) (rules : List Rule) (rule : Rule)
    → evaluate_rules env payload rules ≡ ok (some rule)
    → IsFirstMatch env payload rules rule
unfolding evaluate_rules decide_rule
evaluate_rules_first env payload [] rule h = ground arith
evaluate_rules_first env payload (r ∷ rules) rule h =
    elim (Test-cases (condition_matches env payload r.condition_json)) [
      | inl hit ↦
          let same : r ≡ rule = ground arith in
          (
            [],
            rules,
            ap (λ x. x ∷ rules) same,
            tt,
            ap (λ (x : Rule). condition_matches env payload x.condition_json) (sym same) ∙ hit,
          )
      | inr (inl miss) ↦
          let found : evaluate_rules env payload rules ≡ ok (some rule) = rw miss at h in
          let (before, behind, split, passed, hit) =
            evaluate_rules_first env payload rules rule found in
          (r ∷ before, behind, ap (λ xs. r ∷ xs) split, (miss, passed), hit)
      | inr (inr (e, raised)) ↦ ground arith
    ]

-- No rule is returned only where every rule fails its condition.
pub evaluate_rules-none :
    (env : Env) (payload : Fields) (rules : List Rule)
    → evaluate_rules env payload rules ≡ ok none
    → All (IsPassedOver env payload) rules
unfolding evaluate_rules decide_rule
evaluate_rules-none env payload [] h = tt
evaluate_rules-none env payload (r ∷ rules) h =
    elim (Test-cases (condition_matches env payload r.condition_json)) [
      | inl hit ↦ ground arith
      | inr (inl miss) ↦
          let found : evaluate_rules env payload rules ≡ ok none = rw miss at h in
          (miss, evaluate_rules-none env payload rules found)
      | inr (inr (e, raised)) ↦ ground arith
    ]

-- a condition without a key that ends in "_regex"
abbrev pub IsExact : Mapping → Type 0
IsExact condition = All (λ (p : String × Value). regex_field p.0 ≡ none) condition

reasons_agree :
    (env : Env) (payload : Fields) (c : Mapping)
    → IsExact c
    → condition_matches env payload c ≡ ok (is_empty (simulation_reasons env payload c))
unfolding condition_matches simulation_reasons key_matches both
reasons_agree env payload [] e = refl
reasons_agree env payload ((key, value) ∷ rest) e =
    let ih = reasons_agree env payload rest e.1 in let plain = e.0 in ground arith

-- On a condition without regular expressions the simulation agrees with the engine.
pub simulate-agrees :
    (env : Env) (rule : Rule) (payload : Fields)
    → IsExact rule.condition_json
    → condition_matches env payload rule.condition_json ≡ ok (simulate_rule env rule payload)
unfolding simulate_rule
simulate-agrees env rule payload exact = reasons_agree env payload rule.condition_json exact

-- ===== src/Engine.antt =====
-- engine.py: the rule that an event matches; main.py: `_simulate_rule`, which tries one rule.
pub mod Matching
use loboguara.Common.{
  String, Bool, true, false, not, Option, none, some, List, [], ◌∷◌, ◌++◌, Result, ok, err, get_or,
  str_eq, if◌then◌else◌,
}
use Prim.Native.String
use loboguara.Models.{Value, Fields, null, text, entry, Mapping, Rule}
use loboguara.World.{Env}

-- `key[: -len("_regex")]`, if the key ends in "_regex"
unfoldable pub regex_field : String → Option String
regex_field String.[] = none
regex_field (String.◌∷◌ c s) =
    let rest = regex_field s in
    if str_eq (String.◌∷◌ c s) "_regex"
    then some ""
    else elim rest [ none ↦ none | some name ↦ some (String.◌∷◌ c name) ]

-- `event_payload.get(key, default)`
abbrev pub get_entry : String → Value → Fields → Value
get_entry key default payload = get_or (entry key payload) default

-- the test of one key of a condition
unfoldable pub key_matches : Env → Fields → String → Value → Result Bool
key_matches env payload key value = elim (regex_field key) [
  | none ↦ ok (env.py_eq (get_entry key null payload) value)
  | some name ↦ env.fullmatch value (env.value_text (get_entry name (text "") payload))
]

-- `if not test: break`
unfoldable pub both : Result Bool → Result Bool → Result Bool
both (ok true) rest = rest
both (ok false) rest = ok false
both (err e) rest = err e

-- the loop over a rule's condition: `is_match`
unfoldable pub condition_matches : Env → Fields → Mapping → Result Bool
unfolding both
condition_matches env payload [] = ok true
condition_matches env payload ((key, value) ∷ rest) =
    both (key_matches env payload key value) (condition_matches env payload rest)

-- `if is_match: return rule`
unfoldable pub decide_rule : Rule → Result Bool → Result (Option Rule) → Result (Option Rule)
decide_rule rule (ok true) rest = ok (some rule)
decide_rule rule (ok false) rest = rest
decide_rule rule (err e) rest = err e

-- `evaluate_rules`
unfoldable pub evaluate_rules : Env → Fields → List Rule → Result (Option Rule)
unfolding decide_rule
evaluate_rules env payload [] = ok none
evaluate_rules env payload (rule ∷ rules) =
    decide_rule rule (condition_matches env payload rule.condition_json)
      (evaluate_rules env payload rules)

-- the keys of the reasons of `_simulate_rule`
unfoldable pub simulation_reasons : Env → Fields → Mapping → List String
simulation_reasons env payload [] = []
simulation_reasons env payload ((key, value) ∷ rest) =
    let reasons = simulation_reasons env payload rest in
    if not (env.py_eq (get_entry key null payload) value) then key ∷ reasons else reasons

abbrev pub is_empty {ℓ} : {A : Type ℓ} → List A → Bool
is_empty [] = true
is_empty (x ∷ xs) = false

-- `_simulate_rule`: `matched`
unfoldable pub simulate_rule : Env → Rule → Fields → Bool
simulate_rule env rule payload = is_empty (simulation_reasons env payload rule.condition_json)

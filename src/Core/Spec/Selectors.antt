-- ===== src/Core/Spec/Selectors.antt =====
-- An accepted experiment aims at most one rule at an invocation (rift_core/domain.py).
use rift_reliability_injecti.Prelude.{
  ℕ, ◌≤◌, String, ◌≡◌, inl, inr, refl, true, false, List, [], ◌∷◌, map, any, select, length,
  contains, is_unique, eq_iff, string_eq, nat_eq, pair_eq, arith, Bool-cases,
}
use rift_reliability_injecti.Prelude.Result.{ok}
use rift_reliability_injecti.Core.Fault.{FaultRule, RunMode, matches}
use rift_reliability_injecti.Core.Spec.{
  ExperimentSpec, selector, rule_id, is_undeclared, validate_fault_rules,
}

-- The rules whose selectors are among the rest's do not match what the others match.
none_match :
    (r : FaultRule) (rs : List FaultRule) (tool : String) (n : ℕ) (mode : RunMode)
    → contains (selector r) (map selector rs) ≡ false
    → matches r tool n mode ≡ true
    → select (λ q. matches q tool n mode) rs ≡ []
unfolding matches
none_match r [] tool n mode h m = refl
none_match r (q ∷ rs) tool n mode h m = ground (
  arith,
  none_match r rs tool n mode,
  eq_iff r.tool_name tool,
  eq_iff q.tool_name tool,
  eq_iff r.tool_name q.tool_name,
)

-- With unique selectors at most one rule matches an invocation, whatever the order of the rules.
pub matching_unique :
    (rs : List FaultRule) (tool : String) (n : ℕ) (mode : RunMode)
    → is_unique (map selector rs) ≡ true
    → length (select (λ q. matches q tool n mode) rs) ≤ 1
matching_unique [] tool n mode h = omega arith
matching_unique (r ∷ rs) tool n mode h = elim (Bool-cases (matches r tool n mode)) [
  | inl m ↦ ground (arith, none_match r rs tool n mode, m)
  | inr m ↦ ground (arith, matching_unique rs tool n mode, m)
]

-- An experiment that `validate_fault_rules` accepts is returned as it was given, has unique rule
-- identifiers, aims no rule at an undeclared tool, and has at most one rule that matches any given
-- invocation.
pub validate_fault_rules_sound :
    (s : ExperimentSpec) {s' : ExperimentSpec} (tool : String) (n : ℕ) (mode : RunMode)
    → validate_fault_rules s ≡ ok s'
    → (s' ≡ s)
      × (is_unique (map rule_id s.fault_rules) ≡ true)
      × (any (is_undeclared s.scenario.tool_names) s.fault_rules ≡ false)
      × (length (select (λ q. matches q tool n mode) s.fault_rules) ≤ 1)
unfolding validate_fault_rules
validate_fault_rules_sound s tool n mode h =
    ground (arith, matching_unique s.fault_rules tool n mode)

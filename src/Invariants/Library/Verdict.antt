-- ===== src/Invariants/Library/Verdict.antt =====
-- When the reusable invariants pass, fail and raise (invariants.py).
use rift_reliability_injecti.Prelude.{
  ℕ, String, ◌≡◌, ◌↔◌, refl, ap, ◌∙◌, subst, Bool, true, Option, none, eqb, arith,
}
use rift_reliability_injecti.Prelude.Result.{ok, >>=-inv, >>-inv}
use rift_reliability_injecti.Core.Json.{JsonObject}
use rift_reliability_injecti.Core.Outcome.{InvariantStatus, InvariantResult}
use rift_reliability_injecti.Commerce.Money.{Decimal}
use rift_reliability_injecti.Invariants.Evaluator.{EvaluationContext}
use rift_reliability_injecti.Invariants.Evaluator.Summary.{IsNamed}
use rift_reliability_injecti.Invariants.Values.{
  Value, Entries, to_json_value, require_exact_number, eq_number, bool_value,
}
use rift_reliability_injecti.Invariants.Library.{
  Selector, status_of, verdict_result, comparison_result, select_evidence, field_equals,
  count_equals, numeric_equals, predicate, require_bool,
}

-- A result of the invariant `name` that says whether a condition held.
pub record Judges (name : String) (passed : Bool) (r : InvariantResult) : Type 0 where
  pub named : r.invariant_id ≡ name
  pub decided : r.status ≡ status_of passed
  pub sure : r.error ≡ none

pub status_of-pass_iff : (b : Bool) → (status_of b ≡ InvariantStatus.pass) ↔ (b ≡ true)
status_of-pass_iff b = ground arith

bool_inside : (v : Value) (b : Bool) → require_bool v ≡ ok b → v ≡ bool_value b
unfolding require_bool
bool_inside v b h = ground arith

module _ (decimal_text : Decimal → String) where
  pub comparison_result_sound :
      (name description : String) (passed : Bool) (expected observed : Value)
      (evidence : JsonObject) {r : InvariantResult}
      → comparison_result decimal_text name description passed expected observed evidence ≡ ok r
      → Judges name passed r
  unfolding comparison_result
  comparison_result_sound name description passed expected observed evidence {r} h =
      let (a, _, h') = >>=-inv (to_json_value decimal_text expected) _ h in
      let (o, _, made) = >>=-inv (to_json_value decimal_text observed) _ h' in
      let judged = verdict_result name description passed evidence a o in
      let same : judged ≡ r = cc in
      subst (Judges name passed) same (record { named = refl; decided = refl; sure = refl })

module _ {S : Type 0} (decimal_text : Decimal → String) (name description : String)
    (evidence : Option (Selector S Entries)) (c : EvaluationContext S) where
  -- An evaluated `FieldEqualsInvariant` bears its name, and passes exactly when the value that it
  -- selected equals the expected one.
  pub field_equals_sound :
      {V : Type 0} (same : V → V → Bool) (value_of : V → Value) (selector : Selector S V)
      (expected : V) {r : InvariantResult}
      → (field_equals decimal_text name description same value_of selector expected
            evidence).evaluate
          c
        ≡ ok r
      → (v : V) × (selector c ≡ ok v) × Judges name (same v expected) r
  unfolding field_equals
  field_equals_sound same value_of selector expected h =
      let (v, found, h₁) = >>=-inv (selector c) _ h in
      let (ev, _, h₂) = >>=-inv (select_evidence decimal_text evidence c) _ h₁ in
      (v, found, comparison_result_sound decimal_text name description (same v expected) _ _ ev h₂)

  -- An evaluated `CountEqualsInvariant` bears its name, and passes exactly when the size that it
  -- selected is the expected count.
  pub count_equals_sound :
      (selector : Selector S ℕ) (expected : ℕ) {r : InvariantResult}
      → (count_equals decimal_text name description selector expected evidence).evaluate c ≡ ok r
      → (n : ℕ) × (selector c ≡ ok n) × Judges name (eqb n expected) r
  unfolding count_equals
  count_equals_sound selector expected h =
      let (n, found, h₁) = >>=-inv (selector c) _ h in
      let (ev, _, h₂) = >>=-inv (select_evidence decimal_text evidence c) _ h₁ in
      (n, found, comparison_result_sound decimal_text name description (eqb n expected) _ _ ev h₂)

  -- An evaluated `NumericEqualsInvariant` bears its name, selected an exact number, and passes
  -- exactly when that number is the expected one.
  pub numeric_equals_sound :
      (selector : Selector S Value) (expected : Value) {r : InvariantResult}
      → (numeric_equals decimal_text name description selector expected evidence).evaluate c ≡ ok r
      → (v : Value) × (selector c ≡ ok v)
        × (require_exact_number v ≡ ok tt)
        × Judges name (eq_number v expected) r
  unfolding numeric_equals
  numeric_equals_sound selector expected h =
      let (v, found, h₁) = >>=-inv (selector c) _ h in
      let (exact, h₂) = >>-inv (require_exact_number v) _ h₁ in
      let (ev, _, h₃) = >>=-inv (select_evidence decimal_text evidence c) _ h₂ in
      (
        v,
        found,
        exact,
        comparison_result_sound decimal_text name description (eq_number v expected) expected v ev
            h₃,
      )

  -- An evaluated `PredicateInvariant` bears its name, and passes exactly when its predicate gave
  -- the truth value true; its predicate gave a truth value.
  pub predicate_sound :
      (test : Selector S Value) {r : InvariantResult}
      → (predicate decimal_text name description test evidence).evaluate c ≡ ok r
      → (b : Bool) × (test c ≡ ok (bool_value b)) × Judges name b r
  unfolding predicate require_bool
  predicate_sound test h =
      let (v, found, h₁) = >>=-inv (test c) _ h in
      let (b, truth, h₂) = >>=-inv (require_bool v) _ h₁ in
      let (ev, _, h₃) = >>=-inv (select_evidence decimal_text evidence c) _ h₂ in
      (
        b,
        found ∙ ap ok (bool_inside v b truth),
        comparison_result_sound decimal_text name description b (bool_value true) (bool_value b) ev
            h₃,
      )

  -- Each of them names its results as itself.
  pub field_equals-IsNamed :
      {V : Type 0} (same : V → V → Bool) (value_of : V → Value) (selector : Selector S V)
      (expected : V)
      → IsNamed c
          (field_equals decimal_text name description same value_of selector expected evidence)
  unfolding field_equals
  field_equals-IsNamed same value_of selector expected r h =
      (field_equals_sound same value_of selector expected h).2.named

  pub count_equals-IsNamed :
      (selector : Selector S ℕ) (expected : ℕ)
      → IsNamed c (count_equals decimal_text name description selector expected evidence)
  unfolding count_equals
  count_equals-IsNamed selector expected r h = (count_equals_sound selector expected h).2.named

  pub numeric_equals-IsNamed :
      (selector : Selector S Value) (expected : Value)
      → IsNamed c (numeric_equals decimal_text name description selector expected evidence)
  unfolding numeric_equals
  numeric_equals-IsNamed selector expected r h = (numeric_equals_sound selector expected h).3.named

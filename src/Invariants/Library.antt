-- ===== src/Invariants/Library.antt =====
-- packages/rift_invariant_engine/src/rift_invariant_engine/invariants.py: the four reusable invariants.
-- A selector returns a value or raises. `same` stands for the `==` of the selected values and
-- `value_of` for what they are to `_to_json_value`.
pub mod Verdict
use rift_reliability_injecti.Prelude.{
  ℕ, String, Bool, true, false, Option, none, some, List, [], ◌∷◌, eqb, if◌then◌else◌,
}
use rift_reliability_injecti.Prelude.Int.{ℤ, pos, negsuc}
use rift_reliability_injecti.Prelude.Result.{Result, ok, err, ◌>>=◌, ◌>>◌}
use rift_reliability_injecti.Core.Json.{JsonValue, JsonObject, end}
use rift_reliability_injecti.Core.Outcome.{InvariantStatus, InvariantResult}
use rift_reliability_injecti.Commerce.Money.{Decimal}
use rift_reliability_injecti.Engine.Exceptions.{Exception, raised}
use rift_reliability_injecti.Invariants.Evaluator.{Invariant, EvaluationContext}
use rift_reliability_injecti.Invariants.Values.{
  Value, Entries, bool_value, int_value, to_json_value, to_json_entries, require_exact_number,
  eq_number,
}

-- A function of the context that may raise.
abbrev pub Selector : Type 0 → Type 0 → Type 0
Selector S V = EvaluationContext S → Result Exception V

abbrev pub status_of : Bool → InvariantStatus
status_of true = InvariantStatus.pass
status_of false = InvariantStatus.fail

abbrev pub verdict_message : Bool → String
verdict_message true = "Invariant satisfied."
verdict_message false = "Invariant not satisfied."

-- The `InvariantResult(...)` of `_comparison_result`.
abbrev pub verdict_result :
    String → String → Bool → JsonObject → JsonValue → JsonValue → InvariantResult
verdict_result name description passed evidence expected observed = record {
  invariant_id = name;
  description = description;
  status = status_of passed;
  message = verdict_message passed;
  expected = expected;
  observed = observed;
  evidence = evidence;
  error = none;
}

module _ (decimal_text : Decimal → String) where
  -- `_comparison_result`
  unfoldable pub comparison_result :
      String → String → Bool → Value → Value → JsonObject → Result Exception InvariantResult
  comparison_result name description passed expected observed evidence = do
    expected' ← to_json_value decimal_text expected
    observed' ← to_json_value decimal_text observed
    ok (verdict_result name description passed evidence expected' observed')

  -- `_select_evidence`
  unfoldable pub select_evidence :
      {S : Type 0} → Option (Selector S Entries) → EvaluationContext S → Result Exception JsonObject
  select_evidence none c = ok end
  select_evidence (some selector) c = selector c >>= to_json_entries decimal_text

-- `isinstance(observed, bool)`
unfoldable pub require_bool : Value → Result Exception Bool
require_bool (bool_value b) = ok b
require_bool v = err (raised "TypeError" "predicate must return bool")

module _ {S : Type 0} (decimal_text : Decimal → String) where
  -- `FieldEqualsInvariant`
  unfoldable pub field_equals :
      {V : Type 0}
      → String
      → String
      → (V → V → Bool)
      → (V → Value)
      → Selector S V
      → V
      → Option (Selector S Entries)
      → Invariant S
  unfolding comparison_result select_evidence
  field_equals name description same value_of selector expected evidence_selector = record {
    name = name;
    description = description;
    evaluate = λ c. do
      observed ← selector c
      evidence ← select_evidence decimal_text evidence_selector c
      comparison_result decimal_text name description (same observed expected) (value_of expected)
          (value_of observed) evidence;
  }

  -- `CountEqualsInvariant`, whose selector gives the collection's size
  unfoldable pub count_equals :
      String → String → Selector S ℕ → ℕ → Option (Selector S Entries) → Invariant S
  unfolding comparison_result select_evidence
  count_equals name description selector expected evidence_selector = record {
    name = name;
    description = description;
    evaluate = λ c. do
      observed ← selector c
      evidence ← select_evidence decimal_text evidence_selector c
      comparison_result decimal_text name description (eqb observed expected)
          (int_value (pos expected)) (int_value (pos observed)) evidence;
  }

  -- `NumericEqualsInvariant`
  unfoldable pub numeric_equals :
      String → String → Selector S Value → Value → Option (Selector S Entries) → Invariant S
  unfolding comparison_result select_evidence
  numeric_equals name description selector expected evidence_selector = record {
    name = name;
    description = description;
    evaluate = λ c. do
      observed ← selector c
      require_exact_number observed
      evidence ← select_evidence decimal_text evidence_selector c
      comparison_result decimal_text name description (eq_number observed expected) expected
          observed evidence;
  }

  -- `PredicateInvariant`
  unfoldable pub predicate :
      String → String → Selector S Value → Option (Selector S Entries) → Invariant S
  unfolding comparison_result select_evidence require_bool
  predicate name description test evidence_selector = record {
    name = name;
    description = description;
    evaluate = λ c. do
      observed ← test c
      passed ← require_bool observed
      evidence ← select_evidence decimal_text evidence_selector c
      comparison_result decimal_text name description passed (bool_value true) (bool_value passed)
          evidence;
  }

-- `CountEqualsInvariant.__post_init__`
unfoldable pub require_count : Value → Result Exception Unit
require_count (int_value (pos n)) = ok tt
require_count v = err (raised "ValueError" "expected count must be a non-negative integer")

-- ===== src/Commerce/Ordering.antt =====
-- examples/commerce_demo/src/commerce_demo/ordering.py: the invariant that reads the trace. `parse_int`
-- stands for `int` of a text, where `none` is its `ValueError`, and `str_of` for `str` of a document.
pub mod Reading
pub mod Entries
pub mod Trace
use rift_reliability_injecti.Prelude.{
  ℕ, String, Bool, true, false, not, ◌&&◌, Option, none, some, List, [], ◌∷◌, ◌++◌, length, eqb,
  leb, ◌==◌, string_eq, if◌then◌else◌, map,
}
use rift_reliability_injecti.Prelude.Int.{ℤ, pos, negsuc, is_less, eq_ℤ}
use rift_reliability_injecti.Prelude.Result.{Result, ok, err, ◌>>=◌}
use rift_reliability_injecti.Prelude.Text.{◌&◌, is_empty}
use rift_reliability_injecti.Core.Json.{
  JsonValue, JsonItems, JsonObject, null, boolean, integer, text, array, object, nil, cons, end,
  item, items,
}
use rift_reliability_injecti.Core.Json.Equality.{get_key, int_of}
use rift_reliability_injecti.Core.Outcome.{InvariantResult}
use rift_reliability_injecti.Commerce.Money.{Decimal}
use rift_reliability_injecti.Commerce.Models.{CommerceSnapshot}
use rift_reliability_injecti.Commerce.Invariants.{commerce_cancellation_invariants}
use rift_reliability_injecti.Engine.Exceptions.{Exception, raised, key_error}
use rift_reliability_injecti.Invariants.Evaluator.{Invariant, EvaluationContext}
use rift_reliability_injecti.Invariants.Library.{status_of}

-- `MissingTraceEvidenceError`
abbrev pub missing_trace : String → Exception
missing_trace message = raised "MissingTraceEvidenceError" message

-- `[item for item in values if isinstance(item, dict)]`
abbrev pub dicts : JsonItems → List JsonObject
dicts nil = []
dicts (cons (object o) vs) = o ∷ dicts vs
dicts (cons v vs) = dicts vs

abbrev pub invocations_in : Option JsonValue → Result Exception (List JsonObject)
invocations_in (some (array vs)) = ok (dicts vs)
invocations_in v = err (missing_trace "ordering invariants require invocation trace evidence")

-- `_invocations`
unfoldable pub invocations_of : JsonObject → Result Exception (List JsonObject)
unfolding get_key
invocations_of evidence = invocations_in (get_key "invocations" evidence)

abbrev pub required : String → Option JsonValue → Result Exception JsonValue
required key none = err (key_error ("'" & key & "'"))
required key (some v) = ok v

-- `document[key]`
unfoldable pub get_item : String → JsonObject → Result Exception JsonValue
unfolding get_key
get_item key o = required key (get_key key o)

-- `bool(value)`
abbrev pub is_truthy : JsonValue → Bool
is_truthy null = false
is_truthy (boolean b) = b
is_truthy (integer n) = not (eq_ℤ n (pos 0))
is_truthy (text s) = not (is_empty s)
is_truthy (array nil) = false
is_truthy (array (cons v vs)) = true
is_truthy (object end) = false
is_truthy (object (item k v o)) = true

-- `value == text`
abbrev pub is_text : String → JsonValue → Bool
is_text s (text t) = t == s
is_text s v = false

-- `i["tool"] == tool and i["succeeded"]`, where the second is read only if the first holds
abbrev pub succeeded_if : Bool → JsonObject → Result Exception Bool
succeeded_if false o = ok false
succeeded_if true o = get_item "succeeded" o >>= λ v. ok (is_truthy v)

unfoldable pub is_success_of : String → JsonObject → Result Exception Bool
unfolding get_item
is_success_of tool o = get_item "tool" o >>= λ v. succeeded_if (is_text tool v) o

-- A comprehension whose condition may raise.
abbrev pub keep_if : Bool → JsonObject → List JsonObject → List JsonObject
keep_if true o os = o ∷ os
keep_if false o os = os

unfoldable pub select_by :
    (JsonObject → Result Exception Bool) → List JsonObject → Result Exception (List JsonObject)
select_by p [] = ok []
select_by p (o ∷ os) = p o >>= λ b. select_by p os >>= λ kept. ok (keep_if b o kept)

-- `any(...)`, which stops at the first that holds
abbrev pub or_next : Bool → Result Exception Bool → Result Exception Bool
or_next true rest = ok true
or_next false rest = rest

unfoldable pub any_by :
    (JsonObject → Result Exception Bool) → List JsonObject → Result Exception Bool
any_by p [] = ok false
any_by p (o ∷ os) = let rest = any_by p os in p o >>= λ b. or_next b rest

-- `[item[key] for item in os]`
unfoldable pub column : String → List JsonObject → Result Exception JsonItems
unfolding get_item
column key [] = ok nil
column key (o ∷ os) = get_item key o >>= λ v. column key os >>= λ vs. ok (cons v vs)

abbrev pub order_message : Bool → String
order_message true = "Every executed refund followed a successful cancellation."
order_message false = "A refund was requested before the order's cancellation had completed."

module _ (parse_int : String → Option ℤ) where
  abbrev pub parsed : Option ℤ → Result Exception ℤ
  parsed none = err (raised "ValueError" "invalid literal for int()")
  parsed (some n) = ok n

  -- `int(value)`
  abbrev pub to_int : JsonValue → Result Exception ℤ
  to_int (integer n) = ok n
  to_int (boolean b) = ok (int_of b)
  to_int (text s) = parsed (parse_int s)
  to_int v = err (raised "TypeError" "int() argument must be a string or a number")

  -- `happened_before` once `completed_before_start` was looked up
  abbrev pub compare_positions : JsonObject → Option JsonValue → Result Exception Bool
  compare_positions first none = err (missing_trace "trace evidence lacks completed_before_start")
  compare_positions first (some null) =
      err (missing_trace "trace evidence lacks completed_before_start")
  compare_positions first (some v) = get_item "completion_position" first >>= λ p.
      to_int p >>= λ m. to_int v >>= λ n. ok (not (is_less n m))

  -- `happened_before`
  unfoldable pub happened_before : JsonObject → JsonObject → Result Exception Bool
  unfolding get_key get_item
  happened_before first second = compare_positions first (get_key "completed_before_start" second)

  -- The refunds before which no cancellation had happened.
  unfoldable pub early_refunds :
      List JsonObject → List JsonObject → Result Exception (List JsonObject)
  unfolding select_by any_by happened_before
  early_refunds cancels refunds =
      select_by
        (λ refund. any_by (λ cancel. happened_before cancel refund) cancels >>= λ b. ok (not b))
        refunds

module _ (str_of : JsonValue → String) where
  -- `_ref`
  unfoldable pub ref : JsonObject → Result Exception JsonValue
  unfolding get_item
  ref o = get_item "tool" o >>= λ tool.
      get_item "invocation_number" o >>= λ number. ok (text (str_of tool & "#" & str_of number))

  unfoldable pub refs : List JsonObject → Result Exception JsonItems
  unfolding ref
  refs [] = ok nil
  refs (o ∷ os) = ref o >>= λ v. refs os >>= λ vs. ok (cons v vs)

abbrev pub has_none : List JsonObject → Bool
has_none [] = true
has_none (o ∷ os) = false

-- The `InvariantResult(...)` of `RefundAfterCancellationInvariant.evaluate`.
abbrev pub ordering_verdict :
    Bool → ℕ → JsonItems → JsonItems → JsonItems → JsonItems → JsonItems → InvariantResult
ordering_verdict passed count refund_refs cancel_refs early_refs completed started = record {
  invariant_id = "refund_after_cancellation";
  description = "Refunds for PAY-1001 must only execute after ORD-1001 was cancelled.";
  status = status_of passed;
  message = order_message passed;
  expected = integer (pos 0);
  observed = integer (pos count);
  evidence = item "refund_invocations" (array refund_refs) (
      item "cancel_invocations" (array cancel_refs) (
        item "refunds_before_cancellation" (array early_refs) (
          item "cancel_completed_at" (array completed)
            (item "refund_started_after_completions" (array started) end))));
  error = none;
}

module _ (str_of : JsonValue → String) where
  -- The result of `RefundAfterCancellationInvariant.evaluate`, from what it found.
  unfoldable pub order_result :
      List JsonObject → List JsonObject → List JsonObject → Result Exception InvariantResult
  unfolding refs column
  order_result refunds cancels early = do
    refund_refs ← refs str_of refunds
    cancel_refs ← refs str_of cancels
    early_refs ← refs str_of early
    completed ← column "completion_position" cancels
    started ← column "completed_before_start" early
    ok (
        ordering_verdict (has_none early) (length early) refund_refs cancel_refs early_refs
          completed started)

module _ (parse_int : String → Option ℤ) (str_of : JsonValue → String) where
  -- `RefundAfterCancellationInvariant`
  unfoldable pub refund_after_cancellation : Invariant CommerceSnapshot
  unfolding invocations_of select_by is_success_of early_refunds order_result
  refund_after_cancellation = record {
    name = "refund_after_cancellation";
    description = "Refunds for PAY-1001 must only execute after ORD-1001 was cancelled.";
    evaluate = λ c. do
      trace ← invocations_of c.evidence
      refunds ← select_by (is_success_of "refund_payment") trace
      cancels ← select_by (is_success_of "cancel_order") trace
      early ← early_refunds parse_int cancels refunds
      order_result str_of refunds cancels early;
  }

  -- `commerce_scenario_invariants`
  unfoldable pub commerce_scenario_invariants :
      (Decimal → String) → List (Invariant CommerceSnapshot)
  unfolding commerce_cancellation_invariants refund_after_cancellation
  commerce_scenario_invariants decimal_text =
      commerce_cancellation_invariants decimal_text ++ refund_after_cancellation ∷ []

-- ===== src/Commerce/Invariants/Named.antt =====
-- The commerce scenario's invariants give their results their own names (commerce_demo's invariants.py
-- and ordering.py).
use rift_reliability_injecti.Prelude.{String, ◌≡◌, Option, none, some, List, All}
use rift_reliability_injecti.Prelude.Int.{ℤ}
use rift_reliability_injecti.Prelude.Result.{ok, >>=-inv}
use rift_reliability_injecti.Core.Json.{JsonValue, JsonObject}
use rift_reliability_injecti.Core.Outcome.{InvariantResult}
use rift_reliability_injecti.Commerce.Money.{Decimal}
use rift_reliability_injecti.Commerce.Models.{CommerceSnapshot, Refund}
use rift_reliability_injecti.Invariants.Evaluator.{EvaluationContext}
use rift_reliability_injecti.Invariants.Evaluator.Summary.{IsNamed}
use rift_reliability_injecti.Invariants.Library.Verdict.{
  field_equals-IsNamed, count_equals-IsNamed, numeric_equals-IsNamed,
}
use rift_reliability_injecti.Commerce.Invariants.{
  amount_result, order_cancelled, exactly_one_refund, refund_amount_correct, inventory_restored,
  single_confirmation, commerce_cancellation_invariants,
}
use rift_reliability_injecti.Commerce.Ordering.{
  order_result, refs, column, refund_after_cancellation, commerce_scenario_invariants,
  invocations_of, select_by, is_success_of, early_refunds,
}

amount_result-id :
    (t : Decimal → String) (name description : String) (rs : List Refund) (o : Option Decimal)
    (r : InvariantResult)
    → amount_result t name description rs o ≡ ok r
    → r.invariant_id ≡ name
unfolding amount_result
amount_result-id t name description rs none r h = cc
amount_result-id t name description rs (some d) r h = cc

order_result-id :
    (str_of : JsonValue → String) (refunds cancels early : List JsonObject) (r : InvariantResult)
    → order_result str_of refunds cancels early ≡ ok r
    → r.invariant_id ≡ "refund_after_cancellation"
unfolding order_result
order_result-id str_of refunds cancels early r h =
    let (a, _, h₁) = >>=-inv (refs str_of refunds) _ h in
    let (b, _, h₂) = >>=-inv (refs str_of cancels) _ h₁ in
    let (d, _, h₃) = >>=-inv (refs str_of early) _ h₂ in
    let (u, _, h₄) = >>=-inv (column "completion_position" cancels) _ h₃ in
    let (v, _, h₅) = >>=-inv (column "completed_before_start" early) _ h₄ in cc

-- Every invariant of the commerce scenario names its result as itself, whatever it evaluates.
pub commerce_scenario_invariants-IsNamed :
    (parse_int : String → Option ℤ) (str_of : JsonValue → String) (t : Decimal → String)
    (c : EvaluationContext CommerceSnapshot)
    → All (IsNamed c) (commerce_scenario_invariants parse_int str_of t)
unfolding commerce_scenario_invariants commerce_cancellation_invariants order_cancelled
    exactly_one_refund refund_amount_correct inventory_restored single_confirmation
    refund_after_cancellation
commerce_scenario_invariants-IsNamed parse_int str_of t c = (
  field_equals-IsNamed t _ _ _ c _ _ _ _,
  (
    count_equals-IsNamed t _ _ _ c _ _,
    (
      λ r h. amount_result-id t _ _ _ _ r h,
      (
        numeric_equals-IsNamed t _ _ _ c _ _,
        (
          count_equals-IsNamed t _ _ _ c _ _,
          (
            λ r h.
                let (trace, _, h₁) = >>=-inv (invocations_of c.evidence) _ h in
                let (refunds, _, h₂) =
                  >>=-inv (select_by (is_success_of "refund_payment") trace) _ h₁ in
                let (cancels, _, h₃) =
                  >>=-inv (select_by (is_success_of "cancel_order") trace) _ h₂ in
                let (early, _, h₄) = >>=-inv (early_refunds parse_int cancels refunds) _ h₃ in
                order_result-id str_of refunds cancels early r h₄,
            tt,
          ),
        ),
      ),
    ),
  ),
)

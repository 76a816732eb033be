-- ===== src/Commerce/Invariants/Passing.antt =====
-- When each invariant of commerce_demo's invariants.py passes.
use rift_reliability_injecti.Prelude.{
  ◌+◌, String, ◌≡◌, ◌↔◌, refl, sym, ap, ◌∙◌, true, false, some, length, arith, string_eq, ◌==◌,
}
use rift_reliability_injecti.Prelude.Int.{negsuc}
use rift_reliability_injecti.Prelude.Result.{>>=-inv}
use rift_reliability_injecti.Core.Outcome.Derived.{Passes}
use rift_reliability_injecti.Commerce.Money.{Decimal, finite, eq_decimal}
use rift_reliability_injecti.Commerce.Models.{CommerceSnapshot, Order, InventoryItem, cancelled}
use rift_reliability_injecti.Invariants.Evaluator.{Invariant, EvaluationContext, settle}
use rift_reliability_injecti.Invariants.Values.{require_exact_number, to_json_value}
use rift_reliability_injecti.Invariants.Library.{
  comparison_result, select_evidence, field_equals, count_equals, numeric_equals,
}
use rift_reliability_injecti.Invariants.Library.Verdict.{
  field_equals_sound, count_equals_sound, numeric_equals_sound,
}
use rift_reliability_injecti.Commerce.Invariants.{
  order_1001, payment_1001, headphones, expected_refund_amount, find_order, refunds_for_payment,
  find_item, inventory_quantity, confirmations_for_order, sum_amounts, amount_result,
  order_cancelled, exactly_one_refund, refund_amount_correct, inventory_restored,
  single_confirmation,
}
use rift_reliability_injecti.Commerce.Invariants.Reading.{
  judged_pass, order_status_inv, inventory_quantity_inv, cancelled_name, refund_ids_json,
  notification_ids_json, order_status_of, inventory_quantity_of, amount_inv, one_more, stock_equal,
  Passes-inv,
}

module _ (t : Decimal → String) (c : EvaluationContext CommerceSnapshot) where
  abbrev pub Holds : Invariant CommerceSnapshot → Type 0
  Holds i = Passes (settle i (i.evaluate c))

  pub order-passes :
      Holds (order_cancelled t)
      ↔ ((o : Order) × (find_order c.after_state order_1001 ≡ some o) × (o.status ≡ cancelled))
  unfolding order_cancelled
  order-passes = (
    λ p.
        let (r, e, q) = Passes-inv (order_cancelled t) ((order_cancelled t).evaluate c) p in
        let (v, found, j) = field_equals_sound t _ _ _ c ◌==◌ _ _ "CANCELLED" e in
        let equal = judged_pass _ _ r j q in
        let (o, there, name) = order_status_inv c.after_state order_1001 v found in
        (o, there, cancelled_name o.status (rw name equal)),
    λ (o, there, done).
        unfold field_equals select_evidence comparison_result to_json_value in
        rw (order_status_of c.after_state order_1001 o there, done) refl,
  )

  pub refund-passes :
      Holds (exactly_one_refund t) ↔ (length (refunds_for_payment c.after_state payment_1001) ≡ 1)
  unfolding exactly_one_refund
  refund-passes = (
    λ p.
        let (r, e, q) = Passes-inv (exactly_one_refund t) ((exactly_one_refund t).evaluate c) p in
        let (n, found, j) = count_equals_sound t _ _ _ c _ 1 e in
        let equal = judged_pass _ _ r j q in ground (arith, equal, found),
    λ one.
        unfold count_equals select_evidence comparison_result to_json_value in
        rw (refund_ids_json t (refunds_for_payment c.after_state payment_1001), one) refl,
  )

  pub confirmation-passes :
      Holds (single_confirmation t)
      ↔ (length (confirmations_for_order c.after_state order_1001) ≡ 1)
  unfolding single_confirmation
  confirmation-passes = (
    λ p.
        let (r, e, q) = Passes-inv (single_confirmation t) ((single_confirmation t).evaluate c) p in
        let (n, found, j) = count_equals_sound t _ _ _ c _ 1 e in
        let equal = judged_pass _ _ r j q in ground (arith, equal, found),
    λ one.
        unfold count_equals select_evidence comparison_result to_json_value in
        rw (notification_ids_json t (confirmations_for_order c.after_state order_1001), one) refl,
  )

  pub amount-passes : Holds (refund_amount_correct t) ↔ (
      (d : Decimal) × (sum_amounts
          (finite false 0 (negsuc 1))
          (refunds_for_payment c.after_state payment_1001)
        ≡ some d)
      × (length (refunds_for_payment c.after_state payment_1001) ≡ 1)
      × (eq_decimal d expected_refund_amount ≡ true))
  unfolding refund_amount_correct amount_result
  amount-passes =
      let refunds = refunds_for_payment c.after_state payment_1001 in
      (
        λ p. amount_inv t _ _ (refund_amount_correct t) refunds _ p,
        λ (d, there, one, due). rw (there, one, due) refl,
      )

  pub stock-passes : Holds (inventory_restored t) ↔ (
      (i j : InventoryItem) × (find_item c.before_state headphones ≡ some i)
      × (find_item c.after_state headphones ≡ some j)
      × (j.available_quantity ≡ i.available_quantity + 1))
  unfolding inventory_restored require_exact_number
  stock-passes = (
    λ p.
        let (r, e, q) = Passes-inv (inventory_restored t) ((inventory_restored t).evaluate c) p in
        let (v, found, exact, j) = numeric_equals_sound t _ _ _ c _ _ e in
        let equal = judged_pass _ _ r j q in
        let (after, af, h) = >>=-inv (inventory_quantity c.after_state headphones) _ found in
        let (before, bf, h') = >>=-inv (inventory_quantity c.before_state headphones) _ h in
        let (y, yt, yq) = inventory_quantity_inv c.after_state headphones after af in
        let (x, xt, xq) = inventory_quantity_inv c.before_state headphones before bf in
        (x, y, xt, yt, yq ∙ one_more after before v h' equal ∙ ap (λ n. n + 1) (sym xq)),
    λ (x, y, xt, yt, more).
        unfold numeric_equals select_evidence comparison_result to_json_value in
        rw
          (
            inventory_quantity_of c.after_state headphones y yt,
            inventory_quantity_of c.before_state headphones x xt,
            more,
            stock_equal x.available_quantity,
          )
          refl,
  )

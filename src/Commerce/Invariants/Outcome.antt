-- ===== src/Commerce/Invariants/Outcome.antt =====
-- What the outcome invariants of the cancellation scenario establish together (commerce_demo's
-- invariants.py), independently of how each of them is put together.
use rift_reliability_injecti.Prelude.{◌+◌, String, ◌≡◌, ◌↔◌, true, false, some, length, string_eq}
use rift_reliability_injecti.Prelude.Int.{negsuc}
use rift_reliability_injecti.Core.Outcome.{RunOutcome, derive_run_outcome}
use rift_reliability_injecti.Core.Outcome.Derived.{derive_run_outcome-pass_iff}
use rift_reliability_injecti.Commerce.Money.{Decimal, finite, eq_decimal}
use rift_reliability_injecti.Commerce.Models.{CommerceSnapshot, Order, InventoryItem, cancelled}
use rift_reliability_injecti.Invariants.Evaluator.{EvaluationContext, evaluate}
use rift_reliability_injecti.Commerce.Invariants.{
  order_1001, payment_1001, headphones, expected_refund_amount, find_order, refunds_for_payment,
  find_item, confirmations_for_order, sum_amounts, commerce_cancellation_invariants,
}
use rift_reliability_injecti.Commerce.Invariants.Passing.{
  order-passes, refund-passes, confirmation-passes, amount-passes, stock-passes,
}

-- ORD-1001 was cancelled, refunded once and in full, restocked by one and confirmed once.
pub record IsCancelledOnce (before after : CommerceSnapshot) : Type 0 where
  pub order : Order
  pub order_there : find_order after order_1001 ≡ some order
  pub order_status : order.status ≡ cancelled
  pub one_refund : length (refunds_for_payment after payment_1001) ≡ 1
  pub total : Decimal
  pub total_there :
      sum_amounts (finite false 0 (negsuc 1)) (refunds_for_payment after payment_1001) ≡ some total
  pub total_due : eq_decimal total expected_refund_amount ≡ true
  pub item_before : InventoryItem
  pub item_after : InventoryItem
  pub before_there : find_item before headphones ≡ some item_before
  pub after_there : find_item after headphones ≡ some item_after
  pub restocked : item_after.available_quantity ≡ item_before.available_quantity + 1
  pub one_confirmation : length (confirmations_for_order after order_1001) ≡ 1

-- The outcome that the cancellation scenario's invariants imply is a pass exactly when, in the state
-- after the run, ORD-1001 is cancelled, PAY-1001 has one refund and its amount is 79.99, the
-- headphones' quantity is one more than before the run, and ORD-1001 has one confirmation.
pub commerce_cancellation_invariants-pass_iff :
    (t : Decimal → String) (c : EvaluationContext CommerceSnapshot)
    → (derive_run_outcome (evaluate (commerce_cancellation_invariants t) c) ≡ RunOutcome.pass)
      ↔ IsCancelledOnce c.before_state c.after_state
unfolding evaluate commerce_cancellation_invariants
commerce_cancellation_invariants-pass_iff t c =
    let results = evaluate (commerce_cancellation_invariants t) c in
    (
      λ h.
          let (p, (_, (q, (r, (u, _))))) = ((derive_run_outcome-pass_iff results).0 h).1 in
          let (o, ot, od) = (order-passes t c).0 p in
          let (d, dt, one, due) = (amount-passes t c).0 q in
          let (x, y, xt, yt, more) = (stock-passes t c).0 r in
          record {
            order = o;
            order_there = ot;
            order_status = od;
            one_refund = one;
            total = d;
            total_there = dt;
            total_due = due;
            item_before = x;
            item_after = y;
            before_there = xt;
            after_there = yt;
            restocked = more;
            one_confirmation = (confirmation-passes t c).0 u;
          },
      λ s. (derive_run_outcome-pass_iff results).1 (
        λ e. cc,
        (
          (order-passes t c).1 (s.order, s.order_there, s.order_status),
          (
            (refund-passes t c).1 s.one_refund,
            (
              (amount-passes t c).1 (s.total, s.total_there, s.one_refund, s.total_due),
              (
                (stock-passes t c).1
                    (s.item_before, s.item_after, s.before_there, s.after_there, s.restocked),
                ((confirmation-passes t c).1 s.one_confirmation, tt),
              ),
            ),
          ),
        ),
      ),
    )

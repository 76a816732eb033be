-- ===== src/Commerce/Invariants.antt =====
-- examples/commerce_demo/src/commerce_demo/invariants.py: the outcome invariants of the cancellation
-- scenario. `decimal_text` stands for `str` of a `Decimal`.
pub mod Reading
pub mod Passing
pub mod Outcome
pub mod Named
use rift_reliability_injecti.Prelude.{
  ℕ, String, Bool, true, false, ◌&&◌, Option, none, some, List, [], ◌∷◌, select, find, length, eqb,
  ◌==◌, string_eq,
}
use rift_reliability_injecti.Prelude.Int.{ℤ, pos, negsuc, sub_ℕ}
use rift_reliability_injecti.Prelude.Result.{Result, ok, err, ◌>>=◌}
use rift_reliability_injecti.Prelude.Text.{◌&◌}
use rift_reliability_injecti.Core.Json.{JsonItems, integer, text, array, item, end, nil, cons}
use rift_reliability_injecti.Core.Outcome.{InvariantResult}
use rift_reliability_injecti.Commerce.Money.{Decimal, finite, eq_decimal, add_decimal}
use rift_reliability_injecti.Commerce.Models.{
  CommerceSnapshot, Order, OrderStatus, Refund, InventoryItem, Notification, NotificationType,
  confirmed, cancelled, cancellation_confirmation,
}
use rift_reliability_injecti.Engine.Exceptions.{Exception, raised}
use rift_reliability_injecti.Invariants.Evaluator.{Invariant, EvaluationContext}
use rift_reliability_injecti.Invariants.Library.{
  Selector, status_of, field_equals, count_equals, numeric_equals,
}
use rift_reliability_injecti.Invariants.Values.{
  Value, Entries, Elements, text_value, int_value, sequence_value, entry, no_entry, element,
  no_element,
}

-- `ORDER_ID`, `PAYMENT_ID`, `SKU` and `EXPECTED_REFUND_AMOUNT`
abbrev pub order_1001 : String
order_1001 = "ORD-1001"

abbrev pub payment_1001 : String
payment_1001 = "PAY-1001"

abbrev pub headphones : String
headphones = "SKU-HEADPHONES-001"

abbrev pub expected_refund_amount : Decimal
expected_refund_amount = finite false 7999 (negsuc 1)

-- `OrderStatus.name`
abbrev pub status_name : OrderStatus → String
status_name confirmed = "CONFIRMED"
status_name cancelled = "CANCELLED"

abbrev pub is_confirmation : NotificationType → Bool
is_confirmation cancellation_confirmation = true

abbrev pub lookup_failed : String → Exception
lookup_failed message = raised "LookupError" message

abbrev pub find_order : CommerceSnapshot → String → Option Order
find_order s id = find (λ (o : Order). o.order_id == id) s.orders

-- `_order_status`
unfoldable pub order_status : CommerceSnapshot → String → Result Exception String
order_status s id = elim (find_order s id) [
  | none ↦ err (lookup_failed ("order not found in snapshot: " & id))
  | some o ↦ ok (status_name o.status)
]

-- `_refunds_for_payment`
unfoldable pub refunds_for_payment : CommerceSnapshot → String → List Refund
refunds_for_payment s id = select (λ (r : Refund). r.payment_id == id) s.refunds

abbrev pub find_item : CommerceSnapshot → String → Option InventoryItem
find_item s sku = find (λ (i : InventoryItem). i.sku == sku) s.inventory

-- `_inventory_quantity`
unfoldable pub inventory_quantity : CommerceSnapshot → String → Result Exception ℕ
inventory_quantity s sku = elim (find_item s sku) [
  | none ↦ err (lookup_failed ("inventory item not found in snapshot: " & sku))
  | some i ↦ ok i.available_quantity
]

-- `_confirmations_for_order`
unfoldable pub confirmations_for_order : CommerceSnapshot → String → List Notification
confirmations_for_order s id =
    select (λ (n : Notification). (n.order_id == id) && is_confirmation n.notification_type)
      s.notifications

abbrev pub refund_ids : List Refund → Elements
refund_ids [] = no_element
refund_ids (r ∷ rs) = element (text_value r.refund_id) (refund_ids rs)

abbrev pub notification_ids : List Notification → Elements
notification_ids [] = no_element
notification_ids (n ∷ ns) = element (text_value n.notification_id) (notification_ids ns)

-- `sum((refund.amount for refund in refunds), start=...)`
unfoldable pub sum_amounts : Decimal → List Refund → Option Decimal
sum_amounts start [] = some start
sum_amounts start (r ∷ rs) = elim (add_decimal start r.amount) [
  | none ↦ none
  | some d ↦ sum_amounts d rs
]

abbrev pub refund_texts : List Refund → JsonItems
refund_texts [] = nil
refund_texts (r ∷ rs) = cons (text r.refund_id) (refund_texts rs)

abbrev pub amount_message : Bool → String
amount_message true = "Refund count and amount are correct."
amount_message false = "Refund count or total amount is incorrect."

module _ (decimal_text : Decimal → String) where
  -- The result of `RefundAmountCorrectInvariant.evaluate` for a total.
  unfoldable pub amount_result :
      String → String → List Refund → Option Decimal → Result Exception InvariantResult
  amount_result name description refunds none =
      err (raised "InvalidOperation" "[<class 'decimal.InvalidOperation'>]")
  amount_result name description refunds (some total) =
      let passed = eqb (length refunds) 1 && eq_decimal total expected_refund_amount in
      ok (record {
        invariant_id = name;
        description = description;
        status = status_of passed;
        message = amount_message passed;
        expected = text (decimal_text expected_refund_amount);
        observed = text (decimal_text total);
        evidence = item "payment_id" (text payment_1001) (
            item "refund_count" (integer (pos (length refunds)))
              (item "refund_ids" (array (refund_texts refunds)) end));
        error = none;
      })

  -- `RefundAmountCorrectInvariant`
  unfoldable pub refund_amount_correct : Invariant CommerceSnapshot
  unfolding refunds_for_payment sum_amounts amount_result
  refund_amount_correct = record {
    name = "refund_amount_correct";
    description = "PAY-1001 must have exactly one refund totaling the intended amount of 79.99.";
    evaluate = λ c.
        let refunds = refunds_for_payment c.after_state payment_1001 in
        amount_result "refund_amount_correct"
          "PAY-1001 must have exactly one refund totaling the intended amount of 79.99." refunds
          (sum_amounts (finite false 0 (negsuc 1)) refunds);
  }

  unfoldable pub order_cancelled : Invariant CommerceSnapshot
  unfolding order_status
  order_cancelled =
      field_equals decimal_text "order_cancelled" "ORD-1001 must be in the CANCELLED state." ◌==◌
        text_value (λ c. order_status c.after_state order_1001) "CANCELLED"
        (some (λ c. ok (entry "order_id" (text_value order_1001) no_entry)))

  unfoldable pub exactly_one_refund : Invariant CommerceSnapshot
  unfolding refunds_for_payment
  exactly_one_refund =
      count_equals decimal_text "exactly_one_refund" "PAY-1001 must have exactly one refund record."
        (λ c. ok (length (refunds_for_payment c.after_state payment_1001))) 1
        (some (λ c. ok (
          entry "payment_id" (text_value payment_1001) (
            entry "refund_ids"
              (sequence_value (refund_ids (refunds_for_payment c.after_state payment_1001)))
              no_entry))))

  unfoldable pub inventory_restored : Invariant CommerceSnapshot
  unfolding inventory_quantity
  inventory_restored =
      numeric_equals decimal_text "inventory_restored"
        "SKU-HEADPHONES-001 available inventory must increase by exactly one."
        (λ c. inventory_quantity c.after_state headphones >>= λ after.
          inventory_quantity c.before_state headphones >>= λ before.
          ok (int_value (sub_ℕ after before)))
        (int_value (pos 1))
        (some (λ c. inventory_quantity c.before_state headphones >>= λ before.
          inventory_quantity c.after_state headphones >>= λ after. ok (
            entry "sku" (text_value headphones) (
              entry "before_quantity" (int_value (pos before))
                (entry "after_quantity" (int_value (pos after)) no_entry)))))

  unfoldable pub single_confirmation : Invariant CommerceSnapshot
  unfolding confirmations_for_order
  single_confirmation =
      count_equals decimal_text "single_confirmation"
        "ORD-1001 must have exactly one cancellation confirmation."
        (λ c. ok (length (confirmations_for_order c.after_state order_1001))) 1
        (some (λ c. ok (
          entry "order_id" (text_value order_1001) (
            entry "notification_ids"
              (sequence_value (notification_ids (confirmations_for_order c.after_state order_1001)))
              no_entry))))

  -- `commerce_cancellation_invariants`
  unfoldable pub commerce_cancellation_invariants : List (Invariant CommerceSnapshot)
  unfolding order_cancelled exactly_one_refund refund_amount_correct inventory_restored
      single_confirmation
  commerce_cancellation_invariants =
      order_cancelled ∷ exactly_one_refund ∷ refund_amount_correct ∷ inventory_restored
      ∷ single_confirmation ∷ []

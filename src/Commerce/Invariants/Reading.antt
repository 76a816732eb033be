-- ===== src/Commerce/Invariants/Reading.antt =====
-- What the selectors of commerce_demo's invariants.py return, and what follows from a passing result.
use rift_reliability_injecti.Prelude.{
  ℕ, ◌+◌, String, ◌≡◌, inl, inr, refl, sym, ◌∙◌, Bool, true, ◌&&◌, Option, none, some, List, [],
  ◌∷◌, length, eqb, eqb_iff, arith, string_eq, ◌==◌, Option-cases,
}
use rift_reliability_injecti.Prelude.Int.{pos, sub_ℕ}
use rift_reliability_injecti.Prelude.Result.{Result, ok, err}
use rift_reliability_injecti.Core.Json.{JsonItems, text, nil, cons}
use rift_reliability_injecti.Core.Outcome.{InvariantResult}
use rift_reliability_injecti.Core.Outcome.Derived.{Passes}
use rift_reliability_injecti.Commerce.Money.{Decimal, eq_decimal}
use rift_reliability_injecti.Commerce.Models.{
  CommerceSnapshot, Order, OrderStatus, Refund, Notification, InventoryItem, cancelled, confirmed,
}
use rift_reliability_injecti.Engine.Exceptions.{Exception}
use rift_reliability_injecti.Invariants.Evaluator.{Invariant, settle}
use rift_reliability_injecti.Invariants.Values.{
  Value, int_value, eq_number, to_json_elements, to_json_value,
}
use rift_reliability_injecti.Invariants.Library.Verdict.{Judges, status_of-pass_iff}
use rift_reliability_injecti.Commerce.Invariants.{
  expected_refund_amount, status_name, find_order, order_status, find_item, inventory_quantity,
  refund_ids, notification_ids, refund_texts, amount_result,
}

module _ {S : Type 0} (i : Invariant S) where
  pub Passes-inv :
      (o : Result Exception InvariantResult)
      → Passes (settle i o)
      → (r : InvariantResult) × (o ≡ ok r) × Passes r
  Passes-inv (ok r) p = (r, refl, p)
  Passes-inv (err x) p = cc

pub judged_pass :
    (name : String) (b : Bool) (r : InvariantResult) → Judges name b r → Passes r → b ≡ true
judged_pass name b r j p = (status_of-pass_iff b).0 (sym j.decided ∙ p)

pub order_status_inv :
    (s : CommerceSnapshot) (id v : String)
    → order_status s id ≡ ok v
    → (o : Order) × (find_order s id ≡ some o) × (status_name o.status ≡ v)
unfolding order_status
order_status_inv s id v h = elim (Option-cases (find_order s id)) [
  | inl missing ↦ absurd (ground (arith, missing))
  | inr (o, there) ↦ (o, there, ground (arith, there))
]

pub inventory_quantity_inv :
    (s : CommerceSnapshot) (sku : String) (n : ℕ)
    → inventory_quantity s sku ≡ ok n
    → (i : InventoryItem) × (find_item s sku ≡ some i) × (i.available_quantity ≡ n)
unfolding inventory_quantity
inventory_quantity_inv s sku n h = elim (Option-cases (find_item s sku)) [
  | inl missing ↦ absurd (ground (arith, missing))
  | inr (i, there) ↦ (i, there, ground (arith, there))
]

pub cancelled_name : (s : OrderStatus) → (status_name s == "CANCELLED") ≡ true → s ≡ cancelled
cancelled_name cancelled h = refl
cancelled_name confirmed h = cc

pub refund_ids_json :
    (t : Decimal → String) (rs : List Refund)
    → to_json_elements t (refund_ids rs) ≡ ok (refund_texts rs)
unfolding to_json_value
refund_ids_json t [] = refl
refund_ids_json t (r ∷ rs) = rw (refund_ids_json t rs) refl

abbrev pub notification_texts : List Notification → JsonItems
notification_texts [] = nil
notification_texts (n ∷ ns) = cons (text n.notification_id) (notification_texts ns)

pub notification_ids_json :
    (t : Decimal → String) (ns : List Notification)
    → to_json_elements t (notification_ids ns) ≡ ok (notification_texts ns)
unfolding to_json_value
notification_ids_json t [] = refl
notification_ids_json t (n ∷ ns) = rw (notification_ids_json t ns) refl

pub order_status_of :
    (s : CommerceSnapshot) (id : String) (o : Order)
    → find_order s id ≡ some o
    → order_status s id ≡ ok (status_name o.status)
unfolding order_status
order_status_of s id o h = ground (arith, h)

pub inventory_quantity_of :
    (s : CommerceSnapshot) (sku : String) (i : InventoryItem)
    → find_item s sku ≡ some i
    → inventory_quantity s sku ≡ ok i.available_quantity
unfolding inventory_quantity
inventory_quantity_of s sku i h = ground (arith, h)

and_inv : (a b : Bool) → (a && b) ≡ true → (a ≡ true) × (b ≡ true)
and_inv a b h = ground arith

pub amount_inv :
    (t : Decimal → String) (name description : String) (i : Invariant CommerceSnapshot)
    (refunds : List Refund) (o : Option Decimal)
    → Passes (settle i (amount_result t name description refunds o))
    → (d : Decimal) × (o ≡ some d)
      × (length refunds ≡ 1)
      × (eq_decimal d expected_refund_amount ≡ true)
unfolding amount_result
amount_inv t name description i refunds none p = cc
amount_inv t name description i refunds (some d) p =
    let both = (status_of-pass_iff _).0 p in
    let (one, due) = and_inv (eqb (length refunds) 1) _ both in
    (d, refl, (eqb_iff (length refunds) 1).0 one, due)

more_by_one : (a b : ℕ) → eq_number (int_value (sub_ℕ a b)) (int_value (pos 1)) ≡ true → a ≡ b + 1
unfolding eq_number
more_by_one a b h = ground arith

pub one_more :
    (a b : ℕ) (v : Value)
    → ◌≡◌ {A = Result Exception Value} (ok (int_value (sub_ℕ a b))) (ok v)
    → eq_number v (int_value (pos 1)) ≡ true
    → a ≡ b + 1
unfolding eq_number
one_more a b v h e =
    let same : int_value (sub_ℕ a b) ≡ v = cc in more_by_one a b (rw (sym same) at e)

pub stock_equal : (b : ℕ) → eq_number (int_value (sub_ℕ (b + 1) b)) (int_value (pos 1)) ≡ true
unfolding eq_number
stock_equal b = ground arith

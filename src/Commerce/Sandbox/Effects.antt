-- ===== src/Commerce/Sandbox/Effects.antt =====
-- What each method of sandbox.py does to the store, on every branch.
use rift_reliability_injecti.Prelude.{
  ℕ, ◌+◌, String, ◌≡◌, inl, inr, refl, Bool, true, false, Option, none, some, ◌==◌, ==-refl,
  string_eq, arith, Bool-cases, Option-cases, eq_iff,
}
use rift_reliability_injecti.Prelude.Dict
use rift_reliability_injecti.Prelude.Int.{ℤ, pos_part}
use rift_reliability_injecti.Prelude.Result.{ok}
use rift_reliability_injecti.Commerce.Models.{Order, InventoryItem, is_cancelled}
use rift_reliability_injecti.Commerce.Repository.{Repository}
use rift_reliability_injecti.Commerce.Sandbox.{
  cancel_order, cancelled_copy, restore_inventory, restocked, is_not_positive,
}

-- Every order is stored under its own identifier, and every item under its own SKU.
pub record IsKeyed (r : Repository) : Type 0 where
  pub orders_keyed : (id : String) (o : Order) → Dict.get r.orders id ≡ some o → o.order_id ≡ id
  pub items_keyed :
      (sku : String) (i : InventoryItem) → Dict.get r.inventory sku ≡ some i → i.sku ≡ sku

-- The status of an order, after a cancellation of another or the same.
abbrev pub cancelled_if : Bool → Option Order → Option Order
cancelled_if b none = none
cancelled_if false (some o) = some o
cancelled_if true (some o) = some (cancelled_copy o)

cancelled_self : (o : Order) → is_cancelled o.status ≡ true → cancelled_copy o ≡ o
cancelled_self o h = ground arith

-- In a store that keeps every order and item under its own identifier, `cancel_order` leaves every
-- order as it was but the named one, which is cancelled if it is there.
pub cancel_order-get :
    (id j : String) (r : Repository)
    → IsKeyed r
    → Dict.get (cancel_order id r).1.orders j ≡ cancelled_if (id == j) (Dict.get r.orders j)
unfolding cancel_order
cancel_order-get id j r v = elim (Option-cases (Dict.get r.orders id)) [
  | inl missing ↦ ground (arith, eq_iff id j)
  | inr (o, found) ↦ elim (Bool-cases (is_cancelled o.status)) [
    | inl t ↦ ground (arith, eq_iff id j, cancelled_self o t)
    | inr f ↦ ground (
      arith,
      eq_iff id j,
      eq_iff o.order_id j,
      v.orders_keyed id o found,
      Dict.get-put r.orders o.order_id j (cancelled_copy o),
    )
  ]
]

-- In a store that keeps every order and item under its own identifier, a cancellation that has
-- succeeded can be repeated: the second one returns the same order and leaves the store as it is.
pub cancel_order_idem :
    (id : String) (r r' : Repository) (o : Order)
    → IsKeyed r
    → cancel_order id r ≡ (ok o, r')
    → cancel_order id r' ≡ (ok o, r')
unfolding cancel_order
cancel_order_idem id r r' o v h = elim (Option-cases (Dict.get r.orders id)) [
  | inl missing ↦ let q = rw missing at h in cc q
  | inr (x, found) ↦ elim (Bool-cases (is_cancelled x.status)) [
    | inl t ↦ ground (arith, t, found)
    | inr f ↦ ground (
      arith,
      v.orders_keyed id x found,
      ==-refl id,
      Dict.get-put r.orders x.order_id id (cancelled_copy x),
    )
  ]
]

-- The stock of a SKU after a restoration of `n` units of another or the same.
abbrev pub restocked_if : Bool → ℕ → Option InventoryItem → Option InventoryItem
restocked_if b n none = none
restocked_if false n (some i) = some i
restocked_if true n (some i) = some (record i { available_quantity = i.available_quantity + n })

refused_same :
    (q : ℤ)
    → is_not_positive q ≡ true
    → (b : Bool) (o : Option InventoryItem) → o ≡ restocked_if b (pos_part q) o
refused_same q h b none = refl
refused_same q h false (some i) = refl
refused_same q h true (some i) = ground arith

-- In a store that keeps every order and item under its own identifier, restoring a positive
-- quantity adds exactly that many units to the stock of its SKU, if it is there, and none to
-- another; any other quantity adds none.
pub restore_inventory-get :
    (sku j : String) (q : ℤ) (r : Repository)
    → IsKeyed r
    → Dict.get (restore_inventory sku q r).1.inventory j
      ≡ restocked_if (sku == j) (pos_part q) (Dict.get r.inventory j)
unfolding restore_inventory
restore_inventory-get sku j q r v = elim (Bool-cases (is_not_positive q)) [
  | inl refused ↦ rw refused (refused_same q refused (sku == j) (Dict.get r.inventory j))
  | inr f ↦ elim (Option-cases (Dict.get r.inventory sku)) [
    | inl missing ↦ ground (arith, eq_iff sku j)
    | inr (i, found) ↦ ground (
      arith,
      eq_iff sku j,
      eq_iff i.sku j,
      v.items_keyed sku i found,
      Dict.get-put r.inventory i.sku j (restocked i q),
    )
  ]
]

-- ===== src/Examples/Commerce.antt =====
-- The theorems on the commerce sandbox at its initial state.
use rift_reliability_injecti.Prelude.{
  ◌+◌, ◌≡◌, ◌≢◌, refl, String, Bool, true, false, none, some, string_eq, arith, ltb, ==-iff, ap,
  sym, ◌∙◌,
}
use rift_reliability_injecti.Prelude.Dict
use rift_reliability_injecti.Prelude.Int.{pos, negsuc}
use rift_reliability_injecti.Prelude.Result.{ok, err}
use rift_reliability_injecti.Prelude.Text.{strip, show_padded}
use rift_reliability_injecti.Commerce.Money.{Decimal, finite}
use rift_reliability_injecti.Commerce.Models.{
  Order, Refund, InventoryItem, validation_error, runtime_error, order_not_found, succeeded,
}
use rift_reliability_injecti.Commerce.Repository.{
  Repository, reset, price, initial_order, initial_inventory,
}
use rift_reliability_injecti.Commerce.Sandbox.{
  cancel_order, cancelled_copy, restore_inventory, refund_payment, send_confirmation,
}
use rift_reliability_injecti.Commerce.Sandbox.Replay.{refund_payment-replay}
use rift_reliability_injecti.Commerce.Sandbox.Atomic.{
  Spent, refund_payment-Spent, send_confirmation-atomic,
}
use rift_reliability_injecti.Commerce.Sandbox.Reachable.{
  Reachable, start, next, refunds, Reachable-no_missing_state,
}
use rift_reliability_injecti.Commerce.Sandbox.Effects.{
  IsKeyed, cancelled_if, restocked_if, cancel_order-get, cancel_order_idem, restore_inventory-get,
}

-- A coefficient of at most twelve digits.
abbrev fits : Decimal → Bool
fits (finite s c e) = ltb c 1000000000000
fits _ = false

abbrev refund : Refund
refund = record {
  refund_id = "REF-0001";
  payment_id = "PAY-1001";
  status = succeeded;
  amount = price;
  idempotency_key = some "K";
}

-- The store after the first refund.
abbrev refunded_store : Repository
refunded_store = (refund_payment fits "PAY-1001" price (some " K ") reset).1

first_refund : refund_payment fits "PAY-1001" price (some " K ") reset ≡ (ok refund, refunded_store)
unfolding refund_payment reset strip Dict.get Dict.empty Dict.put show_padded
first_refund = refl

refund_payment-replay_example :
    refund_payment fits "PAY-1001" price (some " K ") refunded_store ≡ (ok refund, refunded_store)
refund_payment-replay_example =
    refund_payment-replay fits "PAY-1001" price " K " reset refunded_store refund first_refund

-- An amount of fourteen digits, which the model refuses.
abbrev too_long : Decimal
too_long = finite false 10000000000000 (negsuc 1)

abbrev refused_store : Repository
refused_store = record reset { next_refund_number = reset.next_refund_number + 1 }

refused_refund :
    refund_payment fits "PAY-1001" too_long none reset
    ≡ (err (validation_error "amount"), refused_store)
unfolding refund_payment reset Dict.get Dict.put
refused_refund = refl

refund_payment-Spent_example : Spent (validation_error "amount") reset refused_store
refund_payment-Spent_example =
    refund_payment-Spent fits "PAY-1001" too_long none reset refused_store
      (validation_error "amount") refused_refund

abbrev unconfirmed_store : Repository
unconfirmed_store = (send_confirmation "ORD-9" "Cancelled." none reset).1

unknown_order :
    send_confirmation "ORD-9" "Cancelled." none reset
    ≡ (err (order_not_found "ORD-9"), unconfirmed_store)
unfolding send_confirmation reset strip Dict.get Dict.put Dict.empty
unknown_order = refl

send_confirmation-atomic_example : unconfirmed_store ≡ reset
send_confirmation-atomic_example =
    send_confirmation-atomic "ORD-9" "Cancelled." none reset unconfirmed_store
      (order_not_found "ORD-9") unknown_order

only_entry :
    {V : Type 0} (key id : String) (v o : V)
    → Dict.get (Dict.put Dict.empty key v) id ≡ some o
    → (key ≡ id) × (v ≡ o)
only_entry {V} key id v o h =
    ground (arith, ==-iff key id, Dict.get-put Dict.empty key id v, Dict.get-empty {V = V} id, h)

reset-IsKeyed : IsKeyed reset
unfolding reset
reset-IsKeyed = record {
  orders_keyed = λ id o h.
      let e = only_entry "ORD-1001" id initial_order o h in
      ap (λ (x : Order). x.order_id) (sym e.1) ∙ e.0;
  items_keyed = λ sku i h.
      let e = only_entry "SKU-HEADPHONES-001" sku initial_inventory i h in
      ap (λ (x : InventoryItem). x.sku) (sym e.1) ∙ e.0;
}

cancel_order-get_example :
    Dict.get (cancel_order "ORD-1001" reset).1.orders "ORD-1001"
    ≡ cancelled_if true (Dict.get reset.orders "ORD-1001")
cancel_order-get_example = cancel_order-get "ORD-1001" "ORD-1001" reset reset-IsKeyed

abbrev cancelled_store : Repository
cancelled_store = (cancel_order "ORD-1001" reset).1

first_cancel : cancel_order "ORD-1001" reset ≡ (ok (cancelled_copy initial_order), cancelled_store)
unfolding cancel_order reset Dict.get Dict.put
first_cancel = refl

cancel_order_idem_example :
    cancel_order "ORD-1001" cancelled_store ≡ (ok (cancelled_copy initial_order), cancelled_store)
cancel_order_idem_example =
    cancel_order_idem "ORD-1001" reset cancelled_store (cancelled_copy initial_order) reset-IsKeyed
      first_cancel

restore_inventory-get_example :
    Dict.get (restore_inventory "SKU-HEADPHONES-001" (pos 1) reset).1.inventory "SKU-HEADPHONES-001"
    ≡ restocked_if true 1 (Dict.get reset.inventory "SKU-HEADPHONES-001")
restore_inventory-get_example =
    restore_inventory-get "SKU-HEADPHONES-001" "SKU-HEADPHONES-001" (pos 1) reset reset-IsKeyed

refunded_store-Reachable : Reachable fits refunded_store
refunded_store-Reachable = next start (refunds "PAY-1001" price (some " K ") reset)

Reachable-no_missing_state_example :
    ((refund_payment fits "PAY-1001" price (some "K") refunded_store).0 ≢ err (runtime_error "x"))
    × ((send_confirmation "ORD-1001" "Cancelled." (some "K") refunded_store).0
        ≢ err (runtime_error "x"))
Reachable-no_missing_state_example =
    Reachable-no_missing_state fits refunded_store "PAY-1001" "ORD-1001" "Cancelled." price
      (some "K") "x" refunded_store-Reachable

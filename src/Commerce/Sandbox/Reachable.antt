-- ===== src/Commerce/Sandbox/Reachable.antt =====
-- The stores that the methods of sandbox.py reach from `reset`, whatever the order of the calls and
-- whichever of them raise.
use rift_reliability_injecti.Prelude.{
  String, ◌≡◌, ◌≢◌, inl, inr, refl, Bool, Option, none, some, string_eq, arith, Bool-cases,
  Option-cases,
}
use rift_reliability_injecti.Prelude.Dict
use rift_reliability_injecti.Prelude.Int.{ℤ}
use rift_reliability_injecti.Prelude.Result.{Result, err}
use rift_reliability_injecti.Prelude.Text.{strip, is_empty}
use rift_reliability_injecti.Commerce.Money.{Decimal}
use rift_reliability_injecti.Commerce.Models.{CommerceError, runtime_error, is_cancelled}
use rift_reliability_injecti.Commerce.Repository.{
  Repository, RefundIdempotencyRecord, NotificationIdempotencyRecord, reset,
}
use rift_reliability_injecti.Commerce.Sandbox.{
  cancel_order, refund_payment, restore_inventory, send_confirmation, known_refund,
  known_notification, make_refund, make_notification, replay_or_make, replay_or_notify,
  is_not_positive,
}
use rift_reliability_injecti.Commerce.Sandbox.Atomic.{normalized, validated}
use rift_reliability_injecti.Commerce.Sandbox.Indexed.{
  IsIndexed, reset-IsIndexed, make_refund-IsIndexed, make_notification-IsIndexed,
  replay_refund-held, replay_notification-held,
}

-- The outcome of a method that keeps the indexes sound and does not fail on missing state.
abbrev pub IsSafe : {A : Type 0} → Result CommerceError A × Repository → Type 0
IsSafe out = IsIndexed out.1 × ((m : String) → out.0 ≢ err (runtime_error m))

known_refund-get :
    (key : Option String) (r : Repository) (k : String) (e : RefundIdempotencyRecord)
    → known_refund key r ≡ some (k, e)
    → Dict.get r.refund_idempotency k ≡ some e
known_refund-get none r k e h = cc
known_refund-get (some key) r k e h = ground arith

known_notification-get :
    (key : Option String) (r : Repository) (k : String) (e : NotificationIdempotencyRecord)
    → known_notification key r ≡ some (k, e)
    → Dict.get r.notification_idempotency k ≡ some e
known_notification-get none r k e h = cc
known_notification-get (some key) r k e h = ground arith

make_refund-quiet :
    (accepts : Decimal → Bool) (payment_id : String) (amount : Decimal) (key : Option String)
    (r : Repository) (m : String)
    → (make_refund accepts payment_id amount key r).0 ≢ err (runtime_error m)
unfolding make_refund
make_refund-quiet accepts payment_id amount key r m h = ground arith

make_notification-quiet :
    (order_id message : String) (key : Option String) (r : Repository) (m : String)
    → (make_notification order_id message key r).0 ≢ err (runtime_error m)
unfolding make_notification
make_notification-quiet order_id message key r m h = ground arith

replay_or_make-IsSafe :
    (accepts : Decimal → Bool) (payment_id : String) (amount : Decimal) (key : Option String)
    (known : Option (String × RefundIdempotencyRecord)) (r : Repository)
    → IsIndexed r
    → known_refund key r ≡ known
    → IsSafe (replay_or_make accepts payment_id amount key known r)
unfolding replay_or_make
replay_or_make-IsSafe accepts payment_id amount key none r v h = (
  make_refund-IsIndexed accepts payment_id amount key r v,
  make_refund-quiet accepts payment_id amount key r,
)
replay_or_make-IsSafe accepts payment_id amount key (some (k, e)) r v h =
    let held =
      replay_refund-held payment_id amount k e r
        (v.refunds_held k e (known_refund-get key r k e h)) in
    (rw held.0 v, held.1)

replay_or_notify-IsSafe :
    (order_id message : String) (key : Option String)
    (known : Option (String × NotificationIdempotencyRecord)) (r : Repository)
    → IsIndexed r
    → known_notification key r ≡ known
    → IsSafe (replay_or_notify order_id message key known r)
unfolding replay_or_notify
replay_or_notify-IsSafe order_id message key none r v h = (
  make_notification-IsIndexed order_id message key r v,
  make_notification-quiet order_id message key r,
)
replay_or_notify-IsSafe order_id message key (some (k, e)) r v h =
    let held =
      replay_notification-held order_id message k e r
        (v.notifications_held k e (known_notification-get key r k e h)) in
    (rw held.0 v, held.1)

refund_payment-IsSafe :
    (accepts : Decimal → Bool) (payment_id : String) (amount : Decimal) (key : Option String)
    (r : Repository)
    → IsIndexed r
    → IsSafe (refund_payment accepts payment_id amount key r)
unfolding refund_payment
refund_payment-IsSafe accepts payment_id amount key r v = elim (validated amount r) [
  | inl (m, bad) ↦ rw bad (v, λ m q. cc)
  | inr good ↦ elim (normalized key r) [
    | inl bad ↦ rw (good, bad) (v, λ m q. cc)
    | inr (k, fine) ↦
        rw (good, fine)
          (replay_or_make-IsSafe accepts payment_id amount k (known_refund k r) r v refl)
  ]
]

send_confirmation-IsSafe :
    (order_id message : String) (key : Option String) (r : Repository)
    → IsIndexed r
    → IsSafe (send_confirmation order_id message key r)
unfolding send_confirmation
send_confirmation-IsSafe order_id message key r v = elim (Bool-cases (is_empty (strip message))) [
  | inl t ↦ rw t (v, λ m q. cc)
  | inr f ↦ elim (normalized key r) [
    | inl bad ↦ rw (f, bad) (v, λ m q. cc)
    | inr (k, fine) ↦
        rw (f, fine)
          (replay_or_notify-IsSafe order_id (strip message) k (known_notification k r) r v refl)
  ]
]

cancel_order-IsIndexed :
    (id : String) (r : Repository) → IsIndexed r → IsIndexed (cancel_order id r).1
unfolding cancel_order
cancel_order-IsIndexed id r v = elim (Option-cases (Dict.get r.orders id)) [
  | inl missing ↦ rw missing v
  | inr (o, found) ↦ elim (Bool-cases (is_cancelled o.status)) [
    | inl t ↦ rw (found, t) v
    | inr f ↦
        rw (found, f)
          (record { refunds_held = v.refunds_held; notifications_held = v.notifications_held })
  ]
]

restore_inventory-IsIndexed :
    (sku : String) (q : ℤ) (r : Repository) → IsIndexed r → IsIndexed (restore_inventory sku q r).1
unfolding restore_inventory
restore_inventory-IsIndexed sku q r v = elim (Bool-cases (is_not_positive q)) [
  | inl refused ↦ rw refused v
  | inr f ↦ elim (Option-cases (Dict.get r.inventory sku)) [
    | inl missing ↦ rw (f, missing) v
    | inr (i, found) ↦
        rw (f, found)
          (record { refunds_held = v.refunds_held; notifications_held = v.notifications_held })
  ]
]

-- One call of a method that may write, with the store that it leaves.
pub data Step (accepts : Decimal → Bool) : Repository → Repository → Type 0 where
  cancels : (id : String) (r : Repository) → Step accepts r (cancel_order id r).1
  refunds :
      (payment_id : String) (amount : Decimal) (key : Option String) (r : Repository)
      → Step accepts r (refund_payment accepts payment_id amount key r).1
  restores : (sku : String) (q : ℤ) (r : Repository) → Step accepts r (restore_inventory sku q r).1
  confirms :
      (order_id message : String) (key : Option String) (r : Repository)
      → Step accepts r (send_confirmation order_id message key r).1

pub data Reachable (accepts : Decimal → Bool) : Repository → Type 0 where
  start : Reachable accepts reset
  next : {r s : Repository} → Reachable accepts r → Step accepts r s → Reachable accepts s

Step-IsIndexed :
    (accepts : Decimal → Bool) {r s : Repository} → Step accepts r s → IsIndexed r → IsIndexed s
Step-IsIndexed accepts (cancels id r) v = cancel_order-IsIndexed id r v
Step-IsIndexed accepts (refunds payment_id amount key r) v =
    (refund_payment-IsSafe accepts payment_id amount key r v).0
Step-IsIndexed accepts (restores sku q r) v = restore_inventory-IsIndexed sku q r v
Step-IsIndexed accepts (confirms order_id message key r) v =
    (send_confirmation-IsSafe order_id message key r v).0

-- In every store that calls of the methods can reach from `reset`, what an idempotency record refers
-- to is stored.
pub Reachable-IsIndexed :
    (accepts : Decimal → Bool) (r : Repository) → Reachable accepts r → IsIndexed r
Reachable-IsIndexed accepts _ start = reset-IsIndexed
Reachable-IsIndexed accepts _ (next {r} before s) =
    Step-IsIndexed accepts s (Reachable-IsIndexed accepts r before)

-- In a reachable store neither a refund nor a confirmation ever ends in the `RuntimeError` about an
-- index that references missing state.
pub Reachable-no_missing_state :
    (accepts : Decimal → Bool) (r : Repository) (payment_id order_id message : String)
    (amount : Decimal) (key : Option String) (m : String)
    → Reachable accepts r
    → ((refund_payment accepts payment_id amount key r).0 ≢ err (runtime_error m))
      × ((send_confirmation order_id message key r).0 ≢ err (runtime_error m))
Reachable-no_missing_state accepts r payment_id order_id message amount key m h =
    let v = Reachable-IsIndexed accepts r h in
    (
      (refund_payment-IsSafe accepts payment_id amount key r v).1 m,
      (send_confirmation-IsSafe order_id message key r v).1 m,
    )

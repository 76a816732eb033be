-- ===== src/Commerce/Sandbox/Indexed.antt =====
-- The idempotency indexes of the sandbox in every store that its methods can reach from `reset`
-- (sandbox.py and repository.py).
use rift_reliability_injecti.Prelude.{
  ℕ, ◌+◌, String, ◌≡◌, ◌≢◌, inl, inr, Bool, true, Option, none, some, is_some, ◌==◌, ==-refl,
  string_eq, arith, Bool-cases, Option-cases,
}
use rift_reliability_injecti.Prelude.Dict
use rift_reliability_injecti.Prelude.Result.{err}
use rift_reliability_injecti.Commerce.Money.{Decimal}
use rift_reliability_injecti.Commerce.Models.{Refund, Notification, Payment, runtime_error}
use rift_reliability_injecti.Commerce.Repository.{
  Repository, RefundIdempotencyRecord, NotificationIdempotencyRecord, reset, save_payment,
  add_refund, add_notification, refund_id_of, notification_id_of,
}
use rift_reliability_injecti.Commerce.Sandbox.{
  replay_refund, replay_notification, make_refund, make_notification, remember_refund,
  remember_notification, refund_of, refunded_copy, notification_of,
}

-- Every entry of the index `idx` refers to a value that `d` holds.
abbrev pub Held : {E V : Type 0} → (E → String) → Dict.Dict String E → Dict.Dict String V → Type 0
Held {E} id idx d =
    (key : String) (e : E) → Dict.get idx key ≡ some e → is_some (Dict.get d (id e)) ≡ true

abbrev pub refund_of_record : RefundIdempotencyRecord → String
refund_of_record e = e.refund_id

abbrev pub notification_of_record : NotificationIdempotencyRecord → String
notification_of_record e = e.notification_id

-- What the idempotency records of a store refer to is stored.
pub record IsIndexed (r : Repository) : Type 0 where
  pub refunds_held : Held refund_of_record r.refund_idempotency r.refunds
  pub notifications_held : Held notification_of_record r.notification_idempotency r.notifications

module _ {E V : Type 0} (id : E → String) where
  Held-empty : (d : Dict.Dict String V) → Held id Dict.empty d
  Held-empty d key e h = ground (arith, Dict.get-empty {V = E} key)

  Held-put :
      (idx : Dict.Dict String E) (d : Dict.Dict String V) (k : String) (v : V)
      → Held id idx d
      → Held id idx (Dict.put d k v)
  Held-put idx d k v h key e q = ground (arith, h key e q, Dict.get-put d k (id e) v)

  Held-index :
      (idx : Dict.Dict String E) (d : Dict.Dict String V) (key : String) (e : E) (v : V)
      → Held id idx d
      → Held id (Dict.put idx key e) (Dict.put d (id e) v)
  Held-index idx d key e v h j x q = elim (Bool-cases (key == j)) [
    | inl t ↦
        let same : e ≡ x = ground (arith, Dict.get-put idx key j e) in
        ground (arith, Dict.get-put d (id e) (id x) v, ==-refl (id e), same)
    | inr f ↦
        let old : Dict.get idx j ≡ some x = ground (arith, Dict.get-put idx key j e) in
        Held-put idx d (id e) v h j x old
  ]

pub reset-IsIndexed : IsIndexed reset
unfolding reset
reset-IsIndexed = record {
  refunds_held = Held-empty refund_of_record Dict.empty;
  notifications_held = Held-empty notification_of_record Dict.empty;
}

remember_refund-IsIndexed :
    (key : Option String) (f : Refund) (p : Payment) (r : Repository)
    → IsIndexed r
    → IsIndexed (remember_refund key f (save_payment p (add_refund f r)))
remember_refund-IsIndexed none f p r v = record {
  refunds_held =
      Held-put refund_of_record r.refund_idempotency r.refunds f.refund_id f v.refunds_held;
  notifications_held = v.notifications_held;
}
remember_refund-IsIndexed (some k) f p r v = record {
  refunds_held =
      Held-index refund_of_record r.refund_idempotency r.refunds k
        (record { payment_id = f.payment_id; amount = f.amount; refund_id = f.refund_id }) f
        v.refunds_held;
  notifications_held = v.notifications_held;
}

remember_notification-IsIndexed :
    (key : Option String) (n : Notification) (r : Repository)
    → IsIndexed r
    → IsIndexed (remember_notification key n (add_notification n r))
remember_notification-IsIndexed none n r v = record {
  refunds_held = v.refunds_held;
  notifications_held =
      Held-put notification_of_record r.notification_idempotency r.notifications n.notification_id n
        v.notifications_held;
}
remember_notification-IsIndexed (some k) n r v = record {
  refunds_held = v.refunds_held;
  notifications_held =
      Held-index notification_of_record r.notification_idempotency r.notifications k
        (record { order_id = n.order_id; message = n.message; notification_id = n.notification_id })
        n v.notifications_held;
}

-- A number that was taken changes no index.
IsIndexed-numbered :
    (r : Repository) (m n : ℕ)
    → IsIndexed r
    → IsIndexed (record r { next_refund_number = m; next_notification_number = n })
IsIndexed-numbered r m n v = record {
  refunds_held = v.refunds_held;
  notifications_held = v.notifications_held;
}

pub make_refund-IsIndexed :
    (accepts : Decimal → Bool) (payment_id : String) (amount : Decimal) (key : Option String)
    (r : Repository)
    → IsIndexed r
    → IsIndexed (make_refund accepts payment_id amount key r).1
unfolding make_refund
make_refund-IsIndexed accepts payment_id amount key r v =
    let r' = record r { next_refund_number = r.next_refund_number + 1 } in
    let v' = IsIndexed-numbered r (r.next_refund_number + 1) r.next_notification_number v in
    elim (Option-cases (Dict.get r.payments payment_id)) [
      | inl missing ↦ rw missing v
      | inr (p, found) ↦ elim (Bool-cases (accepts amount)) [
        | inr f ↦ rw (found, f) v'
        | inl t ↦
            rw (found, t)
              (remember_refund-IsIndexed key
                (refund_of (refund_id_of r.next_refund_number) payment_id amount key)
                (refunded_copy p) r' v')
      ]
    ]

pub make_notification-IsIndexed :
    (order_id message : String) (key : Option String) (r : Repository)
    → IsIndexed r
    → IsIndexed (make_notification order_id message key r).1
unfolding make_notification
make_notification-IsIndexed order_id message key r v =
    let r' = record r { next_notification_number = r.next_notification_number + 1 } in
    let v' = IsIndexed-numbered r r.next_refund_number (r.next_notification_number + 1) v in
    elim (Option-cases (Dict.get r.orders order_id)) [
      | inl missing ↦ rw missing v
      | inr (o, found) ↦ rw found (
          remember_notification-IsIndexed key
            (notification_of (notification_id_of r.next_notification_number) order_id message key)
            r' v')
    ]

-- A replay writes nothing and, in a store whose indexes are sound, finds what it looks for.
pub replay_refund-held :
    (payment_id : String) (amount : Decimal) (key : String) (e : RefundIdempotencyRecord)
    (r : Repository)
    → is_some (Dict.get r.refunds e.refund_id) ≡ true
    → ((replay_refund payment_id amount key e r).1 ≡ r)
      × ((m : String) → (replay_refund payment_id amount key e r).0 ≢ err (runtime_error m))
unfolding replay_refund
replay_refund-held payment_id amount key e r h = (ground arith, λ m q. ground arith)

pub replay_notification-held :
    (order_id message key : String) (e : NotificationIdempotencyRecord) (r : Repository)
    → is_some (Dict.get r.notifications e.notification_id) ≡ true
    → ((replay_notification order_id message key e r).1 ≡ r)
      × ((m : String) → (replay_notification order_id message key e r).0 ≢ err (runtime_error m))
unfolding replay_notification
replay_notification-held order_id message key e r h = (ground arith, λ m q. ground arith)

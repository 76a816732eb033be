-- ===== src/Commerce/Sandbox.antt =====
-- examples/commerce_demo/src/commerce_demo/sandbox.py: `CommerceSandbox` over the in-memory
-- repository. `accepts` is pydantic's check of the field type `Money` (at most 12 digits, two of
-- them decimal places), which is not code of the repository. The texts that reach a model are
-- stripped already or are keys of the store, so pydantic's own stripping leaves them alone.
pub mod Replay
pub mod Atomic
pub mod Effects
pub mod Indexed
pub mod Reachable
use rift_reliability_injecti.Prelude.{
  ℕ, ◌+◌, ◌*◌, String, Bool, true, false, not, ◌&&◌, ◌||◌, Option, none, some, List, [], ◌∷◌, ◌==◌,
  string_eq, select, eqb, if◌then◌else◌,
}
use rift_reliability_injecti.Prelude.Dict
use rift_reliability_injecti.Prelude.Int.{ℤ, pos, negsuc, pos_part}
use rift_reliability_injecti.Prelude.Result.{Result, ok, err}
use rift_reliability_injecti.Prelude.Text.{◌&◌, strip, is_empty}
use rift_reliability_injecti.Commerce.Money.{
  Decimal, is_finite, is_nonpositive, is_below_cents, eq_decimal,
}
use rift_reliability_injecti.Commerce.Models.{
  Order, Payment, Refund, InventoryItem, Notification, CommerceError, cancelled, refunded,
  succeeded, cancellation_confirmation, is_cancelled, order_not_found, payment_not_found,
  inventory_item_not_found, invalid_refund_amount, invalid_inventory_quantity,
  invalid_notification_message, invalid_idempotency_key, idempotency_conflict, runtime_error,
  validation_error,
}
use rift_reliability_injecti.Commerce.Method.{
  Method, ◌>>=◌, ◌>>◌, pure, raise, gets, or_raise, modify, raise_if,
}
use rift_reliability_injecti.Commerce.Repository.{
  Repository, RefundIdempotencyRecord, NotificationIdempotencyRecord, snapshot, save_order,
  save_payment, save_inventory_item, add_refund, add_notification, next_refund_id,
  next_notification_id, save_refund_idempotency, save_notification_idempotency,
}

-- `_validate_refund_amount`
unfoldable pub validate_refund_amount : Decimal → Method Unit
validate_refund_amount amount = do
  raise_if (not (is_finite amount) || is_nonpositive amount)
      (invalid_refund_amount "refund amount must be a positive Decimal value")
  raise_if (is_below_cents amount)
      (invalid_refund_amount "refund amount cannot have more than two decimal places")

-- `_normalize_idempotency_key`
unfoldable pub normalize_idempotency_key : Option String → Method (Option String)
normalize_idempotency_key none = pure none
normalize_idempotency_key (some key) =
    let stripped = strip key in
    if is_empty stripped then raise invalid_idempotency_key else pure (some stripped)

-- `get_order`
unfoldable pub get_order : String → Method Order
get_order id = do found ← gets (λ r. Dict.get r.orders id); or_raise found (order_not_found id)

abbrev pub cancelled_copy : Order → Order
cancelled_copy o = record o { status = cancelled }

-- `cancel_order`
unfoldable pub cancel_order : String → Method Order
unfolding get_order
cancel_order id = do
  o ← get_order id
  if is_cancelled o.status
      then pure o
      else (modify (save_order (cancelled_copy o)) >> pure (cancelled_copy o))

-- The refund that an earlier request with the key made, if the request was the same.
unfoldable pub replay_refund : String → Decimal → String → RefundIdempotencyRecord → Method Refund
replay_refund payment_id amount key existing =
    if not (existing.payment_id == payment_id) || not (eq_decimal existing.amount amount)
    then raise
        (idempotency_conflict ("refund idempotency key reused with different request: " & key))
    else do
      found ← gets (λ r. Dict.get r.refunds existing.refund_id)
      or_raise found (runtime_error "refund idempotency index references missing state")

-- `self._repository.get_refund_idempotency(key)`, if there is a key
abbrev pub known_refund : Option String → Repository → Option (String × RefundIdempotencyRecord)
known_refund none r = none
known_refund (some key) r = elim (Dict.get r.refund_idempotency key) [
  | none ↦ none
  | some e ↦ some (key, e)
]

abbrev pub remember_refund : Option String → Refund → Repository → Repository
remember_refund none f r = r
remember_refund (some key) f r =
    save_refund_idempotency key
      (record { payment_id = f.payment_id; amount = f.amount; refund_id = f.refund_id }) r

abbrev pub refunded_copy : Payment → Payment
refunded_copy p = record p { status = refunded }

abbrev pub refund_of : String → String → Decimal → Option String → Refund
refund_of id payment_id amount key = record {
  refund_id = id;
  payment_id = payment_id;
  status = succeeded;
  amount = amount;
  idempotency_key = key;
}

-- A new refund. The number is taken before the model validates the amount, so it is spent even
-- when validation fails.
unfoldable pub make_refund : (Decimal → Bool) → String → Decimal → Option String → Method Refund
make_refund accepts payment_id amount key = do
  found ← gets (λ r. Dict.get r.payments payment_id)
  payment ← or_raise found (payment_not_found payment_id)
  id ← λ r. let (n, r') = next_refund_id r in (ok n, r')
  raise_if (not (accepts amount)) (validation_error "amount")
  let refund = refund_of id payment_id amount key
  modify (add_refund refund)
  modify (save_payment (refunded_copy payment))
  modify (remember_refund key refund)
  pure refund

unfoldable pub replay_or_make :
    (Decimal → Bool)
    → String
    → Decimal
    → Option String
    → Option (String × RefundIdempotencyRecord)
    → Method Refund
unfolding replay_refund make_refund
replay_or_make accepts payment_id amount key (some (k, existing)) =
    replay_refund payment_id amount k existing
replay_or_make accepts payment_id amount key none = make_refund accepts payment_id amount key

-- `refund_payment`
unfoldable pub refund_payment : (Decimal → Bool) → String → Decimal → Option String → Method Refund
unfolding validate_refund_amount normalize_idempotency_key replay_or_make
refund_payment accepts payment_id amount idempotency_key = do
  validate_refund_amount amount
  key ← normalize_idempotency_key idempotency_key
  existing ← gets (known_refund key)
  replay_or_make accepts payment_id amount key existing

-- `get_inventory`
unfoldable pub get_inventory : String → Method InventoryItem
get_inventory sku = do
  found ← gets (λ r. Dict.get r.inventory sku)
  or_raise found (inventory_item_not_found sku)

-- `list_refunds`
unfoldable pub list_refunds : String → Method (List Refund)
unfolding snapshot
list_refunds payment_id = do
  found ← gets (λ r. Dict.get r.payments payment_id)
  or_raise found (payment_not_found payment_id)
  gets (λ r. select (λ (f : Refund). f.payment_id == payment_id) (snapshot r).refunds)

-- `quantity <= 0`
abbrev pub is_not_positive : ℤ → Bool
is_not_positive (pos n) = eqb n 0
is_not_positive (negsuc n) = true

abbrev pub restocked : InventoryItem → ℤ → InventoryItem
restocked i q = record i { available_quantity = i.available_quantity + pos_part q }

-- `restore_inventory`
unfoldable pub restore_inventory : String → ℤ → Method InventoryItem
restore_inventory sku quantity = do
  raise_if (is_not_positive quantity) invalid_inventory_quantity
  found ← gets (λ r. Dict.get r.inventory sku)
  i ← or_raise found (inventory_item_not_found sku)
  modify (save_inventory_item (restocked i quantity))
  pure (restocked i quantity)

unfoldable pub replay_notification :
    String → String → String → NotificationIdempotencyRecord → Method Notification
replay_notification order_id message key existing =
    if not (existing.order_id == order_id) || not (existing.message == message)
    then raise (
        idempotency_conflict ("notification idempotency key reused with different request: " & key))
    else do
      found ← gets (λ r. Dict.get r.notifications existing.notification_id)
      or_raise found (runtime_error "notification idempotency index references missing state")

abbrev pub known_notification :
    Option String → Repository → Option (String × NotificationIdempotencyRecord)
known_notification none r = none
known_notification (some key) r = elim (Dict.get r.notification_idempotency key) [
  | none ↦ none
  | some e ↦ some (key, e)
]

abbrev pub remember_notification : Option String → Notification → Repository → Repository
remember_notification none n r = r
remember_notification (some key) n r =
    save_notification_idempotency key
      (record { order_id = n.order_id; message = n.message; notification_id = n.notification_id }) r

abbrev pub notification_of : String → String → String → Option String → Notification
notification_of id order_id message key = record {
  notification_id = id;
  order_id = order_id;
  notification_type = cancellation_confirmation;
  message = message;
  idempotency_key = key;
}

unfoldable pub make_notification : String → String → Option String → Method Notification
unfolding get_order
make_notification order_id message key = do
  get_order order_id
  id ← λ r. let (n, r') = next_notification_id r in (ok n, r')
  let notification = notification_of id order_id message key
  modify (add_notification notification)
  modify (remember_notification key notification)
  pure notification

unfoldable pub replay_or_notify :
    String
    → String
    → Option String
    → Option (String × NotificationIdempotencyRecord)
    → Method Notification
unfolding replay_notification make_notification
replay_or_notify order_id message key (some (k, existing)) =
    replay_notification order_id message k existing
replay_or_notify order_id message key none = make_notification order_id message key

-- `send_confirmation`
unfoldable pub send_confirmation : String → String → Option String → Method Notification
unfolding normalize_idempotency_key replay_or_notify
send_confirmation order_id message idempotency_key = do
  raise_if (is_empty (strip message)) invalid_notification_message
  key ← normalize_idempotency_key idempotency_key
  existing ← gets (known_notification key)
  replay_or_notify order_id (strip message) key existing

-- ===== src/Commerce/Tools/Dumps.antt =====
-- `model_dump(mode="json")` of the models of commerce_demo's models.py: the fields in order, an enum
-- as its value, and a `Decimal` as its text, for which `decimal_text` stands.
use rift_reliability_injecti.Prelude.{String, List, [], ◌∷◌}
use rift_reliability_injecti.Prelude.Int.{pos}
use rift_reliability_injecti.Core.Json.{
  JsonValue, JsonItems, JsonObject, integer, text, array, object, nil, cons, end, item,
  optional_text,
}
use rift_reliability_injecti.Commerce.Money.{Decimal}
use rift_reliability_injecti.Commerce.Models.{
  OrderStatus, PaymentStatus, RefundStatus, NotificationType, OrderItem, Order, Payment, Refund,
  InventoryItem, Notification, CommerceSnapshot, confirmed, cancelled, captured, refunded,
  succeeded, cancellation_confirmation,
}

-- `OrderStatus.value`, `PaymentStatus.value`, `RefundStatus.value`, `NotificationType.value`
abbrev pub order_value : OrderStatus → String
order_value confirmed = "confirmed"
order_value cancelled = "cancelled"

abbrev pub payment_value : PaymentStatus → String
payment_value captured = "captured"
payment_value refunded = "refunded"

abbrev pub refund_value : RefundStatus → String
refund_value succeeded = "succeeded"

abbrev pub notification_value : NotificationType → String
notification_value cancellation_confirmation = "cancellation_confirmation"

abbrev pub item_json : InventoryItem → JsonValue
item_json i =
    object
      (item "sku" (text i.sku) (item "available_quantity" (integer (pos i.available_quantity)) end))

abbrev pub items_json : List InventoryItem → JsonItems
items_json [] = nil
items_json (i ∷ is) = cons (item_json i) (items_json is)

abbrev pub notification_json : Notification → JsonValue
notification_json n = object (
    item "notification_id" (text n.notification_id) (
      item "order_id" (text n.order_id) (
        item "notification_type" (text (notification_value n.notification_type)) (
          item "message" (text n.message)
            (item "idempotency_key" (optional_text n.idempotency_key) end)))))

abbrev pub notifications_json : List Notification → JsonItems
notifications_json [] = nil
notifications_json (n ∷ ns) = cons (notification_json n) (notifications_json ns)

module _ (decimal_text : Decimal → String) where
  abbrev pub order_items_json : List OrderItem → JsonItems
  order_items_json [] = nil
  order_items_json (i ∷ is) =
      cons
        (object (
          item "sku" (text i.sku) (
            item "quantity" (integer (pos i.quantity))
              (item "unit_price" (text (decimal_text i.unit_price)) end))))
        (order_items_json is)

  abbrev pub order_json : Order → JsonValue
  order_json o = object (
      item "order_id" (text o.order_id) (
        item "status" (text (order_value o.status)) (
          item "items" (array (order_items_json o.items))
            (item "total" (text (decimal_text o.total)) end))))

  abbrev pub orders_json : List Order → JsonItems
  orders_json [] = nil
  orders_json (o ∷ os) = cons (order_json o) (orders_json os)

  abbrev pub payment_json : Payment → JsonValue
  payment_json p = object (
      item "payment_id" (text p.payment_id) (
        item "order_id" (text p.order_id) (
          item "status" (text (payment_value p.status))
            (item "amount" (text (decimal_text p.amount)) end))))

  abbrev pub payments_json : List Payment → JsonItems
  payments_json [] = nil
  payments_json (p ∷ ps) = cons (payment_json p) (payments_json ps)

  abbrev pub refund_json : Refund → JsonValue
  refund_json r = object (
      item "refund_id" (text r.refund_id) (
        item "payment_id" (text r.payment_id) (
          item "status" (text (refund_value r.status)) (
            item "amount" (text (decimal_text r.amount))
              (item "idempotency_key" (optional_text r.idempotency_key) end)))))

  abbrev pub refunds_json : List Refund → JsonItems
  refunds_json [] = nil
  refunds_json (r ∷ rs) = cons (refund_json r) (refunds_json rs)

  -- `CommerceEnvironment.snapshot_json`
  unfoldable pub snapshot_json : CommerceSnapshot → JsonObject
  snapshot_json s = item "orders" (array (orders_json s.orders)) (
      item "payments" (array (payments_json s.payments)) (
        item "refunds" (array (refunds_json s.refunds)) (
          item "inventory" (array (items_json s.inventory))
            (item "notifications" (array (notifications_json s.notifications)) end))))

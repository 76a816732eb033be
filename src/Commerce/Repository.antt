-- ===== src/Commerce/Repository.antt =====
-- examples/commerce_demo/src/commerce_demo/repository.py: `InMemoryCommerceStateRepository`.
use rift_reliability_injecti.Prelude.{ℕ, ◌+◌, String, false, [], ◌∷◌, string_eq}
use rift_reliability_injecti.Prelude.Int.{negsuc}
use rift_reliability_injecti.Prelude.Dict
use rift_reliability_injecti.Prelude.Dict.{Dict}
use rift_reliability_injecti.Prelude.Text.{◌&◌, show_padded}
use rift_reliability_injecti.Commerce.Money.{Decimal, finite}
use rift_reliability_injecti.Commerce.Models.{
  Order, OrderItem, Payment, Refund, InventoryItem, Notification, CommerceSnapshot, confirmed,
  captured,
}

pub record RefundIdempotencyRecord : Type 0 where
  pub payment_id : String
  pub amount : Decimal
  pub refund_id : String

pub record NotificationIdempotencyRecord : Type 0 where
  pub order_id : String
  pub message : String
  pub notification_id : String

pub record Repository : Type 0 where
  pub orders : Dict String Order
  pub payments : Dict String Payment
  pub refunds : Dict String Refund
  pub inventory : Dict String InventoryItem
  pub notifications : Dict String Notification
  pub refund_idempotency : Dict String RefundIdempotencyRecord
  pub notification_idempotency : Dict String NotificationIdempotencyRecord
  pub next_refund_number : ℕ
  pub next_notification_number : ℕ

-- Decimal("79.99")
abbrev pub price : Decimal
price = finite false 7999 (negsuc 1)

abbrev pub initial_item : OrderItem
initial_item = record { sku = "SKU-HEADPHONES-001"; quantity = 1; unit_price = price }

abbrev pub initial_order : Order
initial_order = record {
  order_id = "ORD-1001";
  status = confirmed;
  items = initial_item ∷ [];
  total = price;
}

abbrev pub initial_payment : Payment
initial_payment = record {
  payment_id = "PAY-1001";
  order_id = initial_order.order_id;
  status = captured;
  amount = price;
}

abbrev pub initial_inventory : InventoryItem
initial_inventory = record { sku = initial_item.sku; available_quantity = 9 }

-- `reset`: the state that it leaves, whatever was there before
unfoldable pub reset : Repository
reset = record {
  orders = Dict.put Dict.empty initial_order.order_id initial_order;
  payments = Dict.put Dict.empty initial_payment.payment_id initial_payment;
  refunds = Dict.empty;
  inventory = Dict.put Dict.empty initial_inventory.sku initial_inventory;
  notifications = Dict.empty;
  refund_idempotency = Dict.empty;
  notification_idempotency = Dict.empty;
  next_refund_number = 1;
  next_notification_number = 1;
}

-- `snapshot`: the values of each dict in the order of their keys
unfoldable pub snapshot : Repository → CommerceSnapshot
snapshot r = record {
  orders = Dict.sorted_values r.orders;
  payments = Dict.sorted_values r.payments;
  refunds = Dict.sorted_values r.refunds;
  inventory = Dict.sorted_values r.inventory;
  notifications = Dict.sorted_values r.notifications;
}

abbrev pub save_order : Order → Repository → Repository
save_order o r = record r { orders = Dict.put r.orders o.order_id o }

abbrev pub save_payment : Payment → Repository → Repository
save_payment p r = record r { payments = Dict.put r.payments p.payment_id p }

abbrev pub save_inventory_item : InventoryItem → Repository → Repository
save_inventory_item i r = record r { inventory = Dict.put r.inventory i.sku i }

abbrev pub add_refund : Refund → Repository → Repository
add_refund f r = record r { refunds = Dict.put r.refunds f.refund_id f }

abbrev pub add_notification : Notification → Repository → Repository
add_notification n r = record r { notifications = Dict.put r.notifications n.notification_id n }

-- `next_refund_id`: the identifier, and the state with the number advanced
abbrev pub refund_id_of : ℕ → String
refund_id_of n = "REF-" & show_padded n

abbrev pub next_refund_id : Repository → String × Repository
next_refund_id r =
    (refund_id_of r.next_refund_number, record r { next_refund_number = r.next_refund_number + 1 })

abbrev pub notification_id_of : ℕ → String
notification_id_of n = "NOTIF-" & show_padded n

abbrev pub next_notification_id : Repository → String × Repository
next_notification_id r = (
  notification_id_of r.next_notification_number,
  record r { next_notification_number = r.next_notification_number + 1 },
)

abbrev pub save_refund_idempotency : String → RefundIdempotencyRecord → Repository → Repository
save_refund_idempotency key f r = record r {
  refund_idempotency = Dict.put r.refund_idempotency key f;
}

abbrev pub save_notification_idempotency :
    String → NotificationIdempotencyRecord → Repository → Repository
save_notification_idempotency key n r = record r {
  notification_idempotency = Dict.put r.notification_idempotency key n;
}

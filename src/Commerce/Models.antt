-- ===== src/Commerce/Models.antt =====
-- examples/commerce_demo/src/commerce_demo/models.py and errors.py.
use rift_reliability_injecti.Prelude.{ℕ, String, Option, List, Bool, true, false}
use rift_reliability_injecti.Commerce.Money.{Decimal}

pub data OrderStatus : Type 0 where
  confirmed cancelled : OrderStatus

pub data PaymentStatus : Type 0 where
  captured refunded : PaymentStatus

pub data RefundStatus : Type 0 where
  succeeded : RefundStatus

pub data NotificationType : Type 0 where
  cancellation_confirmation : NotificationType

pub record OrderItem : Type 0 where
  pub sku : String
  pub quantity : ℕ
  pub unit_price : Decimal

pub record Order : Type 0 where
  pub order_id : String
  pub status : OrderStatus
  pub items : List OrderItem
  pub total : Decimal

pub record Payment : Type 0 where
  pub payment_id : String
  pub order_id : String
  pub status : PaymentStatus
  pub amount : Decimal

pub record Refund : Type 0 where
  pub refund_id : String
  pub payment_id : String
  pub status : RefundStatus
  pub amount : Decimal
  pub idempotency_key : Option String

pub record InventoryItem : Type 0 where
  pub sku : String
  pub available_quantity : ℕ

pub record Notification : Type 0 where
  pub notification_id : String
  pub order_id : String
  pub notification_type : NotificationType
  pub message : String
  pub idempotency_key : Option String

pub record CommerceSnapshot : Type 0 where
  pub orders : List Order
  pub payments : List Payment
  pub refunds : List Refund
  pub inventory : List InventoryItem
  pub notifications : List Notification

-- The errors of errors.py, and the two others that the sandbox can raise.
pub data CommerceError : Type 0 where
  order_not_found payment_not_found inventory_item_not_found : String → CommerceError
  invalid_refund_amount : String → CommerceError
  invalid_inventory_quantity invalid_notification_message : CommerceError
  invalid_idempotency_key : CommerceError
  idempotency_conflict : String → CommerceError
  runtime_error validation_error : String → CommerceError

abbrev pub is_cancelled : OrderStatus → Bool
is_cancelled confirmed = false
is_cancelled cancelled = true

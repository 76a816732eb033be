-- ===== src/Commerce/Tools.antt =====
-- examples/commerce_demo/src/commerce_demo/tools.py: the handlers that agents call. `decimal_text` stands
-- for `str` of a `Decimal`, `parse_decimal` for `Decimal` of a text, where `none` is its
-- `InvalidOperation`, `quoted` for `repr` of a text and `accepts` for pydantic's check of `Money`.
pub mod Dumps
pub mod Retried
use rift_reliability_injecti.Prelude.{
  ℕ, String, Bool, true, false, not, Option, none, some, List, [], ◌∷◌, ◌==◌, string_eq,
  if◌then◌else◌,
}
use rift_reliability_injecti.Prelude.Int.{ℤ}
use rift_reliability_injecti.Prelude.Result.{Result, ok, err, ◌>>=◌}
use rift_reliability_injecti.Prelude.Text.{◌&◌, strip, is_empty}
use rift_reliability_injecti.Core.Json.{
  JsonValue, JsonObject, null, boolean, integer, text, array, object,
}
use rift_reliability_injecti.Core.Json.Equality.{get_key}
use rift_reliability_injecti.Commerce.Money.{Decimal}
use rift_reliability_injecti.Commerce.Models.{
  CommerceError, order_not_found, payment_not_found, inventory_item_not_found,
  invalid_refund_amount, invalid_inventory_quantity, invalid_notification_message,
  invalid_idempotency_key, idempotency_conflict, runtime_error,
}
use rift_reliability_injecti.Commerce.Method.{Method}
use rift_reliability_injecti.Commerce.Repository.{Repository}
use rift_reliability_injecti.Commerce.Sandbox.{
  get_order, cancel_order, refund_payment, list_refunds, get_inventory, restore_inventory,
  send_confirmation,
}
use rift_reliability_injecti.Commerce.Tools.Dumps.{
  order_json, refund_json, refunds_json, item_json, notification_json,
}
use rift_reliability_injecti.Engine.Action.{Operation}
use rift_reliability_injecti.Engine.Exceptions.{Exception, raised, validation_error}

-- The classes and messages of errors.py and sandbox.py.
unfoldable pub exception_of : CommerceError → Exception
exception_of (order_not_found id) = raised "OrderNotFoundError" ("order not found: " & id)
exception_of (payment_not_found id) = raised "PaymentNotFoundError" ("payment not found: " & id)
exception_of (inventory_item_not_found sku) =
    raised "InventoryItemNotFoundError" ("inventory item not found: " & sku)
exception_of (invalid_refund_amount m) = raised "InvalidRefundAmountError" m
exception_of invalid_inventory_quantity =
    raised "InvalidInventoryQuantityError"
      "inventory restoration quantity must be a positive integer"
exception_of invalid_notification_message =
    raised "InvalidNotificationMessageError" "confirmation message must not be empty"
exception_of invalid_idempotency_key =
    raised "InvalidIdempotencyKeyError" "idempotency key must not be empty"
exception_of (idempotency_conflict m) = raised "IdempotencyConflictError" m
exception_of (runtime_error m) = raised "RuntimeError" m
exception_of (CommerceError.validation_error m) = validation_error m

-- `InvalidToolArgumentsError`
abbrev pub invalid_arguments : String → Exception
invalid_arguments m = raised "InvalidToolArgumentsError" m

abbrev pub required_text : String → Option JsonValue → Result Exception String
required_text name (some (text s)) =
    if is_empty (strip s)
    then err (invalid_arguments (name & " must be a non-empty string"))
    else ok s
required_text name v = err (invalid_arguments (name & " must be a non-empty string"))

-- `_required_str`
unfoldable pub required_str : JsonObject → String → Result Exception String
unfolding get_key
required_str args name = required_text name (get_key name args)

abbrev pub optional_text_of : String → Option JsonValue → Result Exception (Option String)
optional_text_of name none = ok none
optional_text_of name (some null) = ok none
optional_text_of name (some (text s)) = ok (some s)
optional_text_of name (some v) = err (invalid_arguments (name & " must be a string"))

-- `_optional_str`
unfoldable pub optional_str : JsonObject → String → Result Exception (Option String)
unfolding get_key
optional_str args name = optional_text_of name (get_key name args)

abbrev pub integer_of : Option JsonValue → Result Exception ℤ
integer_of (some (integer n)) = ok n
integer_of v = err (invalid_arguments "quantity must be an integer")

module _ (parse_decimal : String → Option Decimal) (quoted : String → String) where
  abbrev pub parsed_decimal : String → String → Option Decimal → Result Exception Decimal
  parsed_decimal name s none = err (invalid_arguments (name & " is not a decimal: " & quoted s))
  parsed_decimal name s (some d) = ok d

  abbrev pub decimal_in : String → Option JsonValue → Result Exception Decimal
  decimal_in name (some (text s)) = parsed_decimal name s (parse_decimal s)
  decimal_in name v = err (invalid_arguments (name & " must be a decimal string such as '79.99'"))

  -- `_decimal`
  unfoldable pub decimal_arg : JsonObject → String → Result Exception Decimal
  unfolding get_key
  decimal_arg args name = decimal_in name (get_key name args)

-- What a handler makes of the end of a method.
abbrev pub answer :
    {A : Type 0} → (A → JsonValue) → Result CommerceError A → Result Exception JsonValue
answer f (ok a) = ok (f a)
answer f (err e) = err (exception_of e)

unfoldable pub handler_of : {H : Type 0} → String → List (String × H) → Option H
handler_of tool [] = none
handler_of tool ((name, h) ∷ rest) = if name == tool then some h else handler_of tool rest

-- A handler: its arguments are read first, then the method is called.
abbrev pub bind_method :
    {P A : Type 0} → Result Exception P → (P → Method A) → (A → JsonValue) → Operation Repository
bind_method (err e) m f r = (err e, r)
bind_method (ok p) m f r = let (out, r') = m p r in (answer f out, r')

module _ (decimal_text : Decimal → String) (parse_decimal : String → Option Decimal)
    (quoted : String → String) (accepts : Decimal → Bool) where
  abbrev pub get_order_tool : JsonObject → Operation Repository
  get_order_tool args =
      bind_method (required_str args "order_id") get_order (order_json decimal_text)

  abbrev pub cancel_order_tool : JsonObject → Operation Repository
  cancel_order_tool args =
      bind_method (required_str args "order_id") cancel_order (order_json decimal_text)

  abbrev pub refund_arguments : JsonObject → Result Exception (String × Decimal × Option String)
  refund_arguments args = required_str args "payment_id" >>= λ id.
      decimal_arg parse_decimal quoted args "amount" >>= λ amount.
      optional_str args "idempotency_key" >>= λ key. ok (id, amount, key)

  abbrev pub refund_payment_tool : JsonObject → Operation Repository
  refund_payment_tool args =
      bind_method (refund_arguments args)
        (λ (id, amount, key). refund_payment accepts id amount key) (refund_json decimal_text)

  abbrev pub list_refunds_tool : JsonObject → Operation Repository
  list_refunds_tool args =
      bind_method (required_str args "payment_id") list_refunds
        (λ rs. array (refunds_json decimal_text rs))

  abbrev pub get_inventory_tool : JsonObject → Operation Repository
  get_inventory_tool args = bind_method (required_str args "sku") get_inventory item_json

  abbrev pub restore_arguments : JsonObject → Result Exception (String × ℤ)
  restore_arguments args = integer_of (get_key "quantity" args) >>= λ quantity.
      required_str args "sku" >>= λ sku. ok (sku, quantity)

  abbrev pub restore_inventory_tool : JsonObject → Operation Repository
  restore_inventory_tool args =
      bind_method (restore_arguments args) (λ (sku, quantity). restore_inventory sku quantity)
        item_json

  abbrev pub confirmation_arguments :
      JsonObject → Result Exception (String × String × Option String)
  confirmation_arguments args = required_str args "order_id" >>= λ id.
      required_str args "message" >>= λ message.
      optional_str args "idempotency_key" >>= λ key. ok (id, message, key)

  abbrev pub send_confirmation_tool : JsonObject → Operation Repository
  send_confirmation_tool args =
      bind_method (confirmation_arguments args)
        (λ (id, message, key). send_confirmation id message key) notification_json

  -- The dict that `build_tool_handlers` returns.
  abbrev pub handlers : List (String × (JsonObject → Operation Repository))
  handlers =
      ("get_order", get_order_tool)
      ∷ ("cancel_order", cancel_order_tool)
      ∷ ("refund_payment", refund_payment_tool)
      ∷ ("list_refunds", list_refunds_tool)
      ∷ ("get_inventory", get_inventory_tool)
      ∷ ("restore_inventory", restore_inventory_tool)
      ∷ ("send_confirmation", send_confirmation_tool)
      ∷ []

  -- `build_tool_handlers`, read by `dict.get`
  unfoldable pub build_tool_handlers : String → Option (JsonObject → Operation Repository)
  unfolding handler_of
  build_tool_handlers tool = handler_of tool handlers

-- The names of `TOOL_SPECS`
abbrev pub tool_names : List String
tool_names =
    "get_order" ∷ "cancel_order" ∷ "refund_payment" ∷ "list_refunds" ∷ "get_inventory"
    ∷ "restore_inventory" ∷ "send_confirmation" ∷ []

-- ===== src/Commerce/Agents.antt =====
-- examples/commerce_demo/src/commerce_demo/agents.py: the scripted profiles.
-- `decimal_text` stands for `str` of a `Decimal`.
use rift_reliability_injecti.Prelude.{
  String, Bool, true, false, ◌&&◌, Option, none, some, List, [], ◌∷◌, is_some, if◌then◌else◌,
}
use rift_reliability_injecti.Prelude.Int.{ℤ, pos, is_less}
use rift_reliability_injecti.Core.Json.{
  JsonValue, JsonObject, boolean, integer, text, object, item, end,
}
use rift_reliability_injecti.Core.Json.Equality.{get_key, int_of}
use rift_reliability_injecti.Core.Contracts.{ToolErrorKind}
use rift_reliability_injecti.Agent.Script.{RetryPolicy, ScriptStep, Script}
use rift_reliability_injecti.Commerce.Money.{Decimal}
use rift_reliability_injecti.Commerce.Invariants.{
  order_1001, payment_1001, headphones, expected_refund_amount,
}

abbrev pub confirmation_message : String
confirmation_message = "Your order ORD-1001 has been cancelled and refunded."

abbrev pub success_message : String
success_message = "Order ORD-1001 was cancelled, refunded, restocked, and the customer notified."

abbrev pub failure_message : String
failure_message = "I could not fully process the cancellation of ORD-1001."

-- The `retry_on` of `_RETRY`
abbrev pub is_retried : ToolErrorKind → Bool
is_retried ToolErrorKind.timeout = true
is_retried ToolErrorKind.rate_limited = true
is_retried ToolErrorKind.tool_error = true
is_retried _ = false

-- `_RETRY`
abbrev pub retry_thrice : RetryPolicy
retry_thrice = record { max_attempts = 3; retry_on = is_retried; retry_on_invalid_response = true }

-- `DEFAULT_RETRY_ON`
abbrev pub is_retried_by_default : ToolErrorKind → Bool
is_retried_by_default ToolErrorKind.timeout = true
is_retried_by_default ToolErrorKind.rate_limited = true
is_retried_by_default _ = false

-- `RetryPolicy()`
abbrev pub no_retry : RetryPolicy
no_retry = record {
  max_attempts = 1;
  retry_on = is_retried_by_default;
  retry_on_invalid_response = false;
}

abbrev pub all_keys : List String → JsonObject → Bool
all_keys [] o = true
all_keys (k ∷ ks) o = is_some (get_key k o) && all_keys ks o

-- `_has_keys`
unfoldable pub has_keys : List String → JsonValue → Bool
unfolding get_key
has_keys ks (object o) = all_keys ks o
has_keys ks v = false

-- An `int`, or a truth value, which Python counts as one.
abbrev pub as_int : Option JsonValue → Option ℤ
as_int (some (integer n)) = some n
as_int (some (boolean b)) = some (int_of b)
as_int v = none

abbrev pub is_increase : Option ℤ → Option ℤ → Bool
is_increase (some m) (some n) = is_less m n
is_increase m n = false

-- `_inventory_increased`
unfoldable pub inventory_increased : JsonValue → JsonValue → Bool
unfolding get_key
inventory_increased (object before) (object now) =
    is_increase (as_int (get_key "available_quantity" before))
      (as_int (get_key "available_quantity" now))
inventory_increased before now = false

abbrev pub validator_if : Bool → List String → Option (JsonValue → Bool)
validator_if validate keys = if validate then some (has_keys keys) else none

abbrev pub key_if : Bool → String → JsonObject
key_if keys key = if keys then item "idempotency_key" (text key) end else end

-- `_steps`
unfoldable pub steps_with : (Decimal → String) → RetryPolicy → Bool → Bool → Bool → List ScriptStep
unfolding has_keys inventory_increased
steps_with decimal_text retry keys validate reconcile_inventory =
    record {
      tool_name = "cancel_order";
      arguments = item "order_id" (text order_1001) end;
      retry = retry;
      validate_response = validator_if validate ("order_id" ∷ "status" ∷ []);
      reconcile = none;
    }
    ∷ record {
      tool_name = "refund_payment";
      arguments = item "payment_id" (text payment_1001) (
          item "amount" (text (decimal_text expected_refund_amount))
            (key_if keys "refund-ORD-1001"));
      retry = retry;
      validate_response = validator_if validate ("refund_id" ∷ "amount" ∷ []);
      reconcile = none;
    }
    ∷ record {
      tool_name = "restore_inventory";
      arguments = item "sku" (text headphones) (item "quantity" (integer (pos 1)) end);
      retry = retry;
      validate_response = validator_if validate ("sku" ∷ "available_quantity" ∷ []);
      reconcile =
          if reconcile_inventory
          then some (record {
            probe_tool = "get_inventory";
            probe_arguments = item "sku" (text headphones) end;
            already_applied = inventory_increased;
          })
          else none;
    }
    ∷ record {
      tool_name = "send_confirmation";
      arguments =
          item "order_id" (text order_1001)
            (item "message" (text confirmation_message) (key_if keys "confirm-ORD-1001"));
      retry = retry;
      validate_response = validator_if validate ("notification_id" ∷ []);
      reconcile = none;
    }
    ∷ []

module _ (decimal_text : Decimal → String) where
  -- `naive_agent`
  unfoldable pub naive_agent : Script
  unfolding steps_with
  naive_agent = record {
    name = "naive";
    steps = steps_with decimal_text no_retry false false false;
    version = "1";
    aborts = false;
    honest_reporting = false;
    success_message = success_message;
    failure_message = failure_message;
  }

  -- The three profiles that retry, abort on a failed step and report honestly.
  abbrev pub careful_agent : String → Bool → Bool → Script
  careful_agent name keys reconcile_inventory = record {
    name = name;
    steps = steps_with decimal_text retry_thrice keys true reconcile_inventory;
    version = "1";
    aborts = true;
    honest_reporting = true;
    success_message = success_message;
    failure_message = failure_message;
  }

  -- `retrying_agent`
  unfoldable pub retrying_agent : Script
  unfolding steps_with
  retrying_agent = careful_agent "retrying" false false

  -- `idempotent_agent`
  unfoldable pub idempotent_agent : Script
  unfolding steps_with
  idempotent_agent = careful_agent "idempotent" true false

  -- `reconciling_agent`
  unfoldable pub reconciling_agent : Script
  unfolding steps_with
  reconciling_agent = careful_agent "reconciling" true true

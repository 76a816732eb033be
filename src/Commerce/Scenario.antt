-- ===== src/Commerce/Scenario.antt =====
-- examples/commerce_demo/src/commerce_demo/scenario.py, with its fixture initial_state.json: the commerce
-- sandbox as a scenario. The parameters are those of the tools and of the ordering invariant.
pub mod Runs
use rift_reliability_injecti.Prelude.{ℕ, String, Bool, Option, List, [], ◌∷◌}
use rift_reliability_injecti.Prelude.Int.{ℤ, pos}
use rift_reliability_injecti.Core.Json.{
  JsonValue, JsonObject, integer, text, array, object, nil, cons, end, item,
}
use rift_reliability_injecti.Core.Fault.{FaultRule}
use rift_reliability_injecti.Core.Spec.{ScenarioSpec, ExperimentSpec}
use rift_reliability_injecti.Commerce.Money.{Decimal}
use rift_reliability_injecti.Commerce.Models.{CommerceSnapshot}
use rift_reliability_injecti.Commerce.Repository.{Repository, reset, snapshot}
use rift_reliability_injecti.Commerce.Tools.{build_tool_handlers, tool_names}
use rift_reliability_injecti.Commerce.Tools.Dumps.{snapshot_json}
use rift_reliability_injecti.Commerce.Ordering.{commerce_scenario_invariants}
use rift_reliability_injecti.Runner.Setup.{Binding}

-- fixtures/initial_state.json
abbrev pub declared_initial_state : JsonObject
declared_initial_state =
    item "orders"
      (array (
        cons
          (object (
            item "order_id" (text "ORD-1001") (
              item "status" (text "confirmed") (
                item "items"
                  (array (
                    cons
                      (object (
                        item "sku" (text "SKU-HEADPHONES-001") (
                          item "quantity" (integer (pos 1))
                            (item "unit_price" (text "79.99") end))))
                      nil))
                  (item "total" (text "79.99") end)))))
          nil))
      (item "payments"
        (array (
          cons
            (object (
              item "payment_id" (text "PAY-1001") (
                item "order_id" (text "ORD-1001")
                  (item "status" (text "captured") (item "amount" (text "79.99") end)))))
            nil))
        (item "refunds" (array nil) (
          item "inventory"
            (array (
              cons
                (object (
                  item "sku" (text "SKU-HEADPHONES-001")
                    (item "available_quantity" (integer (pos 9)) end)))
                nil))
            (item "notifications" (array nil) end))))

abbrev pub commerce_invariant_ids : List String
commerce_invariant_ids =
    "order_cancelled" ∷ "exactly_one_refund" ∷ "refund_amount_correct" ∷ "inventory_restored"
    ∷ "single_confirmation" ∷ "refund_after_cancellation" ∷ []

-- `COMMERCE_SCENARIO`
abbrev pub commerce_scenario : ScenarioSpec
commerce_scenario = record {
  scenario_id = "commerce.cancel_order";
  name = "Cancel and refund an ecommerce order";
  task = "Cancel order ORD-1001, refund the customer, restore inventory, and send confirmation.";
  version = 2;
  initial_state = declared_initial_state;
  tool_names = tool_names;
  invariant_ids = commerce_invariant_ids;
}

-- What the scenario uses of Python, pydantic and `json`.
pub record Texts : Type 0 where
  pub decimal_text : Decimal → String
  pub parse_decimal : String → Option Decimal
  pub quoted : String → String
  pub accepts : Decimal → Bool
  pub parse_int : String → Option ℤ
  pub str_of : JsonValue → String

-- `CommerceScenarioBinding`, whose environments are `CommerceEnvironment`
unfoldable pub commerce_binding : Texts → Binding Repository CommerceSnapshot
unfolding snapshot snapshot_json reset build_tool_handlers commerce_scenario_invariants
commerce_binding t = record {
  spec = commerce_scenario;
  create_environment = λ n. reset;
  reset = λ r. reset;
  snapshot = snapshot;
  snapshot_json = snapshot_json t.decimal_text;
  tool_handlers = build_tool_handlers t.decimal_text t.parse_decimal t.quoted t.accepts;
  invariants = commerce_scenario_invariants t.parse_int t.str_of t.decimal_text;
}

-- `commerce_experiment`
unfoldable pub commerce_experiment : String → List FaultRule → ℕ → Option String → ExperimentSpec
commerce_experiment experiment_id rules seed description = record {
  experiment_id = experiment_id;
  name = experiment_id;
  scenario = commerce_scenario;
  seed = seed;
  fault_rules = rules;
  description = description;
}

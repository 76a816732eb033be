-- ===== src/Core/Spec.antt =====
-- packages/rift_core/src/rift_core/domain.py: scenarios, experiments and the context of a run.
pub mod Selectors
use rift_reliability_injecti.Prelude.{
  ℕ, String, Bool, true, false, not, ◌&&◌, Option, List, [], ◌∷◌, map, any, contains, is_unique,
  string_eq, nat_eq, pair_eq,
}
use rift_reliability_injecti.Prelude.Result.{Result, ok, err, ◌>>=◌, ◌>>◌, raise_if}
use rift_reliability_injecti.Core.Json.{JsonObject}
use rift_reliability_injecti.Core.Fault.{FaultRule, RunMode}

pub record ScenarioSpec : Type 0 where
  pub scenario_id : String
  pub name : String
  pub task : String
  pub version : ℕ
  pub initial_state : JsonObject
  pub tool_names : List String
  pub invariant_ids : List String

-- `ScenarioSpec.require_unique_names`
unfoldable pub require_unique_names : List String → Result String (List String)
require_unique_names values = do
  raise_if (not (is_unique values)) "values must be unique and ordered"
  ok values

pub record ExperimentSpec : Type 0 where
  pub experiment_id : String
  pub name : String
  pub scenario : ScenarioSpec
  pub seed : ℕ
  pub fault_rules : List FaultRule
  pub description : Option String

abbrev pub selector : FaultRule → String × ℕ
selector r = (r.tool_name, r.invocation_number)

abbrev pub rule_id : FaultRule → String
rule_id r = r.fault_rule_id

abbrev pub is_undeclared : List String → FaultRule → Bool
is_undeclared tools r = not (contains r.tool_name tools)

-- `ExperimentSpec.validate_fault_rules`
unfoldable pub validate_fault_rules : ExperimentSpec → Result String ExperimentSpec
validate_fault_rules s = do
  raise_if (not (is_unique (map rule_id s.fault_rules)))
      "fault_rule_id values must be unique within an experiment"
  raise_if (not (is_unique (map selector s.fault_rules)))
      "only one fault rule may target a tool invocation"
  raise_if (any (is_undeclared s.scenario.tool_names) s.fault_rules)
      "fault rules reference undeclared tools"
  ok s

pub record ExecutionContext : Type 0 where
  pub experiment_id : String
  pub run_id : String
  pub seed : ℕ
  pub run_mode : RunMode

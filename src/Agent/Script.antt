-- ===== src/Agent/Script.antt =====
-- packages/rift_agent_adapters/src/rift_agent_adapters/scripted.py: the script of an agent, with the
-- checks that are made when it is built.
use rift_reliability_injecti.Prelude.{ℕ, String, Bool, Option, List, [], ◌∷◌, ltb, if◌then◌else◌}
use rift_reliability_injecti.Prelude.Result.{Result, ok, err}
use rift_reliability_injecti.Core.Json.{JsonValue, JsonObject}
use rift_reliability_injecti.Core.Contracts.{ToolErrorKind}

pub record RetryPolicy : Type 0 where
  pub max_attempts : ℕ
  pub retry_on : ToolErrorKind → Bool
  pub retry_on_invalid_response : Bool

-- `RetryPolicy.__post_init__`
unfoldable pub check_policy : RetryPolicy → Result String RetryPolicy
check_policy p = if ltb p.max_attempts 1 then err "max_attempts must be at least one" else ok p

pub record Reconciliation : Type 0 where
  pub probe_tool : String
  pub probe_arguments : JsonObject
  pub already_applied : JsonValue → JsonValue → Bool

pub record ScriptStep : Type 0 where
  pub tool_name : String
  pub arguments : JsonObject
  pub retry : RetryPolicy
  pub validate_response : Option (JsonValue → Bool)
  pub reconcile : Option Reconciliation

pub record Script : Type 0 where
  pub name : String
  pub steps : List ScriptStep
  pub version : String
  pub aborts : Bool
  pub honest_reporting : Bool
  pub success_message : String
  pub failure_message : String

-- `ScriptedAgentAdapter.__init__`
unfoldable pub check_script : Script → Result String Script
check_script s = elim s.steps [ [] ↦ err "a script requires at least one step" | _ ∷ _ ↦ ok s ]

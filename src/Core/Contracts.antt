-- ===== src/Core/Contracts.antt =====
-- packages/rift_core/src/rift_core/contracts.py: what agents and tools exchange.
use rift_reliability_injecti.Prelude.{
  ℕ, String, Bool, true, false, not, ◌&&◌, ◌||◌, Option, is_some,
}
use rift_reliability_injecti.Prelude.Result.{Result, ok, ◌>>◌, raise_if}
use rift_reliability_injecti.Core.Json.{JsonValue, JsonObject, is_null}

pub data ToolErrorKind : Type 0 where
  timeout rate_limited tool_error unknown_tool call_budget_exhausted : ToolErrorKind

-- `ToolErrorKind.value`
abbrev pub kind_value : ToolErrorKind → String
kind_value ToolErrorKind.timeout = "timeout"
kind_value ToolErrorKind.rate_limited = "rate_limited"
kind_value ToolErrorKind.tool_error = "tool_error"
kind_value ToolErrorKind.unknown_tool = "unknown_tool"
kind_value ToolErrorKind.call_budget_exhausted = "call_budget_exhausted"

pub record ToolCallOutcome : Type 0 where
  pub tool_name : String
  pub succeeded : Bool
  pub response : JsonValue
  pub error_kind : Option ToolErrorKind
  pub error_message : Option String
  pub retryable : Bool

-- `ToolCallOutcome.validate_shape`
unfoldable pub validate_shape : ToolCallOutcome → Result String ToolCallOutcome
validate_shape o = do
  raise_if (o.succeeded && (is_some o.error_kind || is_some o.error_message))
      "a successful outcome cannot carry an error"
  raise_if (not o.succeeded && (not (is_some o.error_kind) || not (is_some o.error_message)))
      "a failed outcome requires error_kind and error_message"
  raise_if (not o.succeeded && not (is_null o.response)) "a failed outcome cannot carry a response"
  ok o

pub record AgentTask : Type 0 where
  pub scenario_id : String
  pub instruction : String
  pub max_tool_calls : ℕ

pub data AgentStatus : Type 0 where
  completed gave_up crashed : AgentStatus

-- `AgentStatus.claims_success`
abbrev pub claims_success : AgentStatus → Bool
claims_success AgentStatus.completed = true
claims_success _ = false

pub record AgentRunOutput : Type 0 where
  pub status : AgentStatus
  pub final_message : Option String
  pub tool_calls : ℕ
  pub metadata : JsonObject

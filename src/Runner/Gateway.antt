-- ===== src/Runner/Gateway.antt =====
-- packages/rift_experiment_runner/src/rift_experiment_runner/gateway.py: `ExecutorToolGateway`.
pub mod Budget
pub mod Boundary
pub mod Trace
use rift_reliability_injecti.Prelude.{
  ℕ, ◌+◌, String, Bool, true, false, Option, none, some, List, leb, if◌then◌else◌,
}
use rift_reliability_injecti.Prelude.Result.{Result, ok, err}
use rift_reliability_injecti.Prelude.Text.{◌&◌, show}
use rift_reliability_injecti.Core.Json.{JsonValue, JsonObject, null}
use rift_reliability_injecti.Core.Fault.{FaultRule}
use rift_reliability_injecti.Core.Spec.{ExecutionContext}
use rift_reliability_injecti.Core.Contracts.{ToolErrorKind, ToolCallOutcome}
use rift_reliability_injecti.Engine.Exceptions.{
  Exception, injected_tool_exception, injected_rate_limit, injected_timeout, ambiguous_tool_outcome,
  describe_error,
}
use rift_reliability_injecti.Engine.State.{Clock}
use rift_reliability_injecti.Engine.Action.{Running, Operation}
use rift_reliability_injecti.Engine.Execute.{ToolExecution, execute}

-- `_failure`
abbrev pub failure : String → ToolErrorKind → String → Bool → ToolCallOutcome
failure tool kind message retryable = record {
  tool_name = tool;
  succeeded = false;
  response = null;
  error_kind = some kind;
  error_message = some message;
  retryable = retryable;
}

abbrev pub success : String → JsonValue → ToolCallOutcome
success tool response = record {
  tool_name = tool;
  succeeded = true;
  response = response;
  error_kind = none;
  error_message = none;
  retryable = false;
}

abbrev pub timed_out : String → ToolCallOutcome
timed_out tool =
    failure tool ToolErrorKind.timeout ("Timed out waiting for a response from " & tool & ".") true

-- The `except` clauses of `call`, in order; the ambiguous timeout is a subclass of the other.
unfoldable pub observe_error : String → Exception → ToolCallOutcome
observe_error tool (injected_timeout m i) = timed_out tool
observe_error tool (ambiguous_tool_outcome m i) = timed_out tool
observe_error tool (injected_rate_limit m i) = failure tool ToolErrorKind.rate_limited m true
observe_error tool (injected_tool_exception m i) =
    failure tool ToolErrorKind.tool_error ("DependencyError: " & m) false
observe_error tool e = failure tool ToolErrorKind.tool_error (describe_error e) false

unfoldable pub observe : String → Result Exception ToolExecution → ToolCallOutcome
unfolding observe_error
observe tool (ok x) = success tool x.result
observe tool (err e) = observe_error tool e

-- What a gateway is built from. A handler takes the arguments of a call to the world's operation.
pub record Gateway (W : Type 0) : Type 0 where
  pub clock : Clock
  pub fault_rules : List FaultRule
  pub handlers : String → Option (JsonObject → Operation W)
  pub execution_context : ExecutionContext
  pub max_tool_calls : ℕ

-- What changes during the run: the calls made, the executor and the world.
pub record Session (W : Type 0) : Type 0 where
  pub calls : ℕ
  pub running : Running W

module _ {W : Type 0} where
  unfoldable pub call_handler :
      Gateway W
      → String
      → JsonObject
      → Option (JsonObject → Operation W)
      → Session W
      → ToolCallOutcome × Session W
  unfolding observe
  call_handler g tool args none s =
      (failure tool ToolErrorKind.unknown_tool ("Unknown tool: " & tool & ".") false, s)
  call_handler g tool args (some handler) s =
      let (r, running) =
        execute g.clock g.fault_rules tool args (handler args) g.execution_context s.running in
      (observe tool r, record s { running = running })

  -- `ExecutorToolGateway.call`
  unfoldable pub call : Gateway W → String → JsonObject → Session W → ToolCallOutcome × Session W
  unfolding call_handler
  call g tool args s =
      if leb g.max_tool_calls s.calls
      then (
        failure tool ToolErrorKind.call_budget_exhausted
            ("Tool-call budget of " & show g.max_tool_calls & " exhausted.") false,
        s,
      )
      else call_handler g tool args (g.handlers tool) (record s { calls = s.calls + 1 })

-- ===== src/Examples/Agent.antt =====
-- The theorems on the scripted agent with a gateway that answers every second call.
use rift_reliability_injecti.Prelude.{
  ◌≤◌, ◌≡◌, refl, String, Bool, true, false, Option, none, some, is_some, [], ◌∷◌, arith,
  if◌then◌else◌,
}
use rift_reliability_injecti.Core.Json.{JsonObject, null, text, end}
use rift_reliability_injecti.Core.Contracts.{
  ToolErrorKind, ToolCallOutcome, AgentStatus, AgentRunOutput, claims_success,
}
use rift_reliability_injecti.Agent.Script.{RetryPolicy, ScriptStep, Script}
use rift_reliability_injecti.Agent.Scripted.{
  Progress, run, run_step, run_steps, attempts, attempt_once, first_probe, report,
}
use rift_reliability_injecti.Agent.Scripted.Bounds.{most_calls, run-calls}
use rift_reliability_injecti.Agent.Scripted.Honest.{NamesFailures, Succeed, run-returns, run-honest}

abbrev answer : String → ToolCallOutcome
answer tool = record {
  tool_name = tool;
  succeeded = true;
  response = text "done";
  error_kind = none;
  error_message = none;
  retryable = false;
}

abbrev timeout : String → ToolCallOutcome
timeout tool = record {
  tool_name = tool;
  succeeded = false;
  response = null;
  error_kind = some ToolErrorKind.timeout;
  error_message = some "Timed out.";
  retryable = true;
}

-- The first call times out and every later one is answered.
abbrev flaky : String → JsonObject → Bool → ToolCallOutcome × Bool
flaky tool args down = (if down then timeout tool else answer tool, false)

flaky-NamesFailures : NamesFailures flaky
flaky-NamesFailures tool args true h = refl
flaky-NamesFailures tool args false h = cc

abbrev twice : RetryPolicy
twice = record { max_attempts = 2; retry_on = λ k. true; retry_on_invalid_response = false }

abbrev refund_step : ScriptStep
refund_step = record {
  tool_name = "refund";
  arguments = end;
  retry = twice;
  validate_response = none;
  reconcile = none;
}

abbrev script : Script
script = record {
  name = "refunder";
  steps = refund_step ∷ [];
  version = "1";
  aborts = true;
  honest_reporting = true;
  success_message = "Task completed.";
  failure_message = "Task could not be completed.";
}

abbrev beginning : Progress Bool
beginning = record { gateway = true; calls = 0; transcript = [] }

run-returns_example : is_some (run flaky script true).0 ≡ true
run-returns_example = run-returns flaky script true flaky-NamesFailures

-- The output of the run, as it computes.
abbrev from_run : Option AgentRunOutput → AgentRunOutput
from_run none = record {
  status = AgentStatus.crashed;
  final_message = none;
  tool_calls = 0;
  metadata = end;
}
from_run (some out) = out

abbrev output : AgentRunOutput
output = from_run (run flaky script true).0

output-run : (run flaky script true).0 ≡ some output
unfolding run run_steps run_step attempts attempt_once first_probe
output-run = refl

output_claims : claims_success output.status ≡ true
unfolding run run_steps run_step attempts attempt_once first_probe report
output_claims = refl

run-honest_example : Succeed flaky 1 (refund_step ∷ []) beginning
run-honest_example = run-honest flaky script true output refl output-run output_claims

run-calls_example : output.tool_calls ≤ most_calls (refund_step ∷ [])
run-calls_example = run-calls flaky script true output (omega arith, tt) output-run

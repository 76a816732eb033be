-- ===== src/Examples/Data.antt =====
-- A counter as the world, a refund tool that counts its deliveries, and rules that fault its first
-- call.
use rift_reliability_injecti.Prelude.{
  ℕ, ◌+◌, refl, true, none, some, List, [], ◌∷◌, arith, string_eq, pair_eq,
}
use rift_reliability_injecti.Prelude.Dict
use rift_reliability_injecti.Prelude.Int.{pos}
use rift_reliability_injecti.Prelude.Result.{ok}
use rift_reliability_injecti.Core.Json.{null, integer, text, end}
use rift_reliability_injecti.Core.Fault.{
  FaultRule, FaultType, RunMode, before_call, after_call, phase_of,
}
use rift_reliability_injecti.Core.Fault.Validation.{IsWellFormed}
use rift_reliability_injecti.Core.Invocation.{ToolInvocation}
use rift_reliability_injecti.Core.Outcome.{InvariantStatus, InvariantResult}
use rift_reliability_injecti.Core.Spec.{ExecutionContext}
use rift_reliability_injecti.Engine.State.{Clock, new_executor}
use rift_reliability_injecti.Engine.Action.{Running, Operation}
use rift_reliability_injecti.Engine.Record.{IsMonotone}
use rift_reliability_injecti.Engine.Execute.Whole.{IsBalanced}

abbrev pub ticking : Clock
ticking = record { now = λ i. i; monotonic = λ i. i }

pub ticking-IsMonotone : IsMonotone ticking
ticking-IsMonotone = record { wall = λ i j h. h; steady = λ i j h. h }

abbrev pub context_in : RunMode → ExecutionContext
context_in mode = record { experiment_id = "EXP-1"; run_id = "RUN-1"; seed = 7; run_mode = mode }

abbrev pub lost_rule : FaultRule
lost_rule = record {
  fault_rule_id = "lost";
  tool_name = "refund";
  invocation_number = 1;
  fault_type = FaultType.timeout_after_commit;
  phase = some after_call;
  delay_ms = none;
  error_message = none;
  replacement_response = null;
}

abbrev pub unsent_rule : FaultRule
unsent_rule = record lost_rule {
  fault_rule_id = "unsent";
  fault_type = FaultType.timeout_before_call;
  phase = some before_call;
}

pub lost_rule-IsWellFormed : IsWellFormed lost_rule
unfolding phase_of
lost_rule-IsWellFormed = record {
  phased = refl;
  delayed = refl;
  replaced = refl;
  worded = λ h. refl;
}

pub unsent_rule-IsWellFormed : IsWellFormed unsent_rule
unfolding phase_of
unsent_rule-IsWellFormed = record {
  phased = refl;
  delayed = refl;
  replaced = refl;
  worded = λ h. refl;
}

abbrev pub count_up : Operation ℕ
count_up w = (ok (integer (pos w)), w + 1)

abbrev pub fresh : Running ℕ
fresh = record { executor = new_executor; world = 0 }

pub new_executor-IsBalanced : IsBalanced new_executor
unfolding Dict.get Dict.empty
new_executor-IsBalanced r = omega arith

-- A refund that was carried out while its caller saw a timeout, with its count and its phase left out.
abbrev pub draft : ToolInvocation
draft = record {
  invocation_id = "RUN-1:refund:1";
  run_id = "RUN-1";
  tool_name = "refund";
  invocation_number = 1;
  sequence_number = some 1;
  completed_before_start = some 0;
  arguments = end;
  started_at = 3;
  finished_at = 5;
  duration_ms = pos 2;
  fault_rule_id = some "lost";
  fault_type = some FaultType.timeout_after_commit;
  fault_phase = none;
  executed = true;
  committed = some true;
  execution_count = none;
  underlying_result = text "REF-0001";
  underlying_error = none;
  caller_response = null;
  caller_error = some "timeout";
}

abbrev pub filled : ToolInvocation
filled = record draft {
  execution_count = some 1;
  fault_phase = some (phase_of FaultType.timeout_after_commit);
}

abbrev pub result_with : InvariantStatus → InvariantResult
result_with s = record {
  invariant_id = "one_refund";
  description = "At most one refund.";
  status = s;
  message = "";
  expected = null;
  observed = null;
  evidence = end;
  error = none;
}

abbrev pub mixed : List InvariantResult
mixed = result_with InvariantStatus.pass ∷ result_with InvariantStatus.fail ∷ []

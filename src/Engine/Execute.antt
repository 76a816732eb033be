-- ===== src/Engine/Execute.antt =====
-- packages/rift_fault_engine/src/rift_fault_engine/executor.py: `execute` of both executors, and
-- one function for each way to carry out a call. One call ends
-- before the next one starts.
pub mod Ending
pub mod Evidence
pub mod Coherent
pub mod Branches
pub mod Whole
pub mod Sequence
pub mod Control
use rift_reliability_injecti.Prelude.{
  ℕ, String, Bool, true, false, Option, none, some, List, [], ◌∷◌, find,
}
use rift_reliability_injecti.Prelude.Result.{Result, ok, err}
use rift_reliability_injecti.Core.Json.{
  JsonValue, JsonObject, null, text, array, object, items, item, end,
}
use rift_reliability_injecti.Core.Fault.{FaultRule, FaultType, RunMode, matches}
use rift_reliability_injecti.Core.Invocation.{ToolInvocation}
use rift_reliability_injecti.Core.Spec.{ExecutionContext}
use rift_reliability_injecti.Engine.Exceptions.{
  Exception, injected_tool_exception, injected_rate_limit, injected_timeout, ambiguous_tool_outcome,
  assertion_error, describe_error, message_or_default,
}
use rift_reliability_injecti.Engine.State.{
  Clock, Call, Start, Observation, Executor, next_invocation_number,
}
use rift_reliability_injecti.Engine.Action.{
  Running, Action, Operation, ◌>>=◌, ◌>>◌, pure, raise, lift, attempt, read_clock, sleep,
  record_call,
}

pub record ToolExecution : Type 0 where
  pub result : JsonValue
  pub invocation : ToolInvocation

-- What the handlers `except Exception as error` record; the caller sees the error itself.
abbrev pub failed : Option FaultRule → Exception → Observation
failed rule e = record {
  fault_rule = rule;
  executed = true;
  committed = none;
  execution_count = none;
  underlying_result = null;
  underlying_error = some (describe_error e);
  caller_response = null;
  caller_error = some (describe_error e);
}

-- What is recorded of a result that the caller sees as `shown`.
abbrev pub answered : Option FaultRule → Option ℕ → JsonValue → JsonValue → Observation
answered rule count result shown = record {
  fault_rule = rule;
  executed = true;
  committed = none;
  execution_count = count;
  underlying_result = result;
  underlying_error = none;
  caller_response = shown;
  caller_error = none;
}

abbrev pub skipped : FaultRule → String → Observation
skipped rule message = record {
  fault_rule = some rule;
  executed = false;
  committed = some false;
  execution_count = none;
  underlying_result = null;
  underlying_error = none;
  caller_response = null;
  caller_error = some message;
}

abbrev pub lost : FaultRule → JsonValue → String → Observation
lost rule result message = record {
  fault_rule = some rule;
  executed = true;
  committed = some true;
  execution_count = none;
  underlying_result = result;
  underlying_error = none;
  caller_response = null;
  caller_error = some message;
}

abbrev pub execution : JsonValue → ToolInvocation → ToolExecution
execution r i = record { result = r; invocation = i }

-- The second delivery of a duplicated request, as it is recorded.
abbrev pub second_outcome : Result Exception JsonValue → JsonValue
second_outcome (ok v) = v
second_outcome (err e) = object (item "error" (text (describe_error e)) end)

-- `_matching_rule`
unfoldable pub matching_rule : List FaultRule → String → ℕ → ExecutionContext → Option FaultRule
matching_rule rules tool n ctx = find (λ r. matches r tool n ctx.run_mode) rules

-- The exception that a fault before the call raises.
abbrev pub before_call_error : FaultType → String → ToolInvocation → Exception
before_call_error FaultType.exception m i = injected_tool_exception m i
before_call_error FaultType.rate_limit m i = injected_rate_limit m i
before_call_error FaultType.timeout_before_call m i = injected_timeout m i
before_call_error _ m i = assertion_error "not a before-call failure"

abbrev pub call_of : String → JsonObject → ExecutionContext → ℕ → Call
call_of tool args ctx n = record {
  tool_name = tool;
  arguments = args;
  context = ctx;
  invocation_number = n;
}

module _ {W : Type 0} (k : Clock) where
  -- The `except` block: record, then `raise`.
  unfoldable pub fail_call : Call → Start → Option FaultRule → Exception → Action W ToolExecution
  unfolding record_call
  fail_call c b rule e = do record_call k c b (failed rule e); raise e

  -- Record an answer and return it.
  unfoldable pub answer_call :
      Call → Start → Option FaultRule → Option ℕ → JsonValue → JsonValue → Action W ToolExecution
  unfolding record_call
  answer_call c b rule count result shown = do
    i ← record_call k c b (answered rule count result shown)
    pure (execution shown i)

  abbrev pub finish_plain :
      Call → Start → Option FaultRule → Result Exception JsonValue → Action W ToolExecution
  finish_plain c b rule (err e) = fail_call c b rule e
  finish_plain c b rule (ok v) = answer_call c b rule none v v

  -- `_execute_direct_call`
  unfoldable pub execute_direct_call : Operation W → Call → Action W ToolExecution
  unfolding fail_call answer_call
  execute_direct_call op c = do b ← read_clock k; r ← attempt op; finish_plain c b none r

  -- `_execute_latency`; the delay is missing from no validated rule
  unfoldable pub execute_latency :
      FaultRule → Option ℕ → Operation W → Call → Action W ToolExecution
  unfolding fail_call answer_call
  execute_latency rule none op c = raise (assertion_error "latency rule is missing delay_ms")
  execute_latency rule (some d) op c = do
    b ← read_clock k
    sleep d
    r ← attempt op
    finish_plain c b (some rule) r

  -- `_raise_before_call_fault`
  unfoldable pub raise_before_call_fault : FaultRule → Call → Action W ToolExecution
  unfolding record_call message_or_default
  raise_before_call_fault rule c = do
    b ← read_clock k
    m ← lift (message_or_default rule.error_message rule.fault_type)
    i ← record_call k c b (skipped rule m)
    raise (before_call_error rule.fault_type m i)

  abbrev pub finish_lost :
      FaultRule → Call → Start → Result Exception JsonValue → Action W ToolExecution
  finish_lost rule c b (err e) = fail_call c b none e
  finish_lost rule c b (ok v) = do
    m ← lift (message_or_default rule.error_message rule.fault_type)
    i ← record_call k c b (lost rule v m)
    raise (ambiguous_tool_outcome m i)

  -- `_execute_timeout_after_commit`
  unfoldable pub execute_timeout_after_commit :
      FaultRule → Operation W → Call → Action W ToolExecution
  unfolding fail_call record_call message_or_default
  execute_timeout_after_commit rule op c = do
    b ← read_clock k
    r ← attempt op
    finish_lost rule c b r

  abbrev pub finish_malformed :
      FaultRule → Call → Start → Result Exception JsonValue → Action W ToolExecution
  finish_malformed rule c b (err e) = fail_call c b none e
  finish_malformed rule c b (ok v) = answer_call c b (some rule) none v rule.replacement_response

  -- `_execute_malformed_response`
  unfoldable pub execute_malformed_response :
      FaultRule → Operation W → Call → Action W ToolExecution
  unfolding fail_call answer_call
  execute_malformed_response rule op c = do
    b ← read_clock k
    r ← attempt op
    finish_malformed rule c b r

  abbrev pub finish_duplicate :
      FaultRule → Operation W → Call → Start → Result Exception JsonValue → Action W ToolExecution
  finish_duplicate rule op c b (err e) = fail_call c b none e
  finish_duplicate rule op c b (ok v) = do
    again ← attempt op
    answer_call c b (some rule) (some 2) (array (items (v ∷ second_outcome again ∷ []))) v

  -- `_execute_duplicate_request`
  unfoldable pub execute_duplicate_request : FaultRule → Operation W → Call → Action W ToolExecution
  unfolding fail_call answer_call
  execute_duplicate_request rule op c = do
    b ← read_clock k
    r ← attempt op
    finish_duplicate rule op c b r

  -- The branches of `FaultInjectingToolExecutor.execute` on the rule's type.
  unfoldable pub inject : FaultType → FaultRule → Operation W → Call → Action W ToolExecution
  inject FaultType.latency rule op c = execute_latency rule rule.delay_ms op c
  inject FaultType.exception rule op c = raise_before_call_fault rule c
  inject FaultType.rate_limit rule op c = raise_before_call_fault rule c
  inject FaultType.timeout_before_call rule op c = raise_before_call_fault rule c
  inject FaultType.timeout_after_commit rule op c = execute_timeout_after_commit rule op c
  inject FaultType.malformed_response rule op c = execute_malformed_response rule op c
  inject FaultType.duplicate_request rule op c = execute_duplicate_request rule op c

  unfoldable pub inject_matching : Option FaultRule → Operation W → Call → Action W ToolExecution
  inject_matching none op c = execute_direct_call op c
  inject_matching (some rule) op c = inject rule.fault_type rule op c

  -- `_next_invocation_number`, as an action.
  abbrev pub number_call : String → ExecutionContext → Action W ℕ
  number_call tool ctx s =
      let (n, x) = next_invocation_number tool ctx s.executor in (ok n, record s { executor = x })

  -- `DirectToolExecutor.execute`
  unfoldable pub execute_direct :
      String → JsonObject → Operation W → ExecutionContext → Action W ToolExecution
  unfolding next_invocation_number
  execute_direct tool args op ctx = do
    n ← number_call tool ctx
    execute_direct_call op (call_of tool args ctx n)

  -- `FaultInjectingToolExecutor.execute`
  unfoldable pub execute :
      List FaultRule → String → JsonObject → Operation W → ExecutionContext → Action W ToolExecution
  unfolding next_invocation_number
  execute rules tool args op ctx = do
    n ← number_call tool ctx
    inject_matching (matching_rule rules tool n ctx) op (call_of tool args ctx n)

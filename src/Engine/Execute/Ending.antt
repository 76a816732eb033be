-- ===== src/Engine/Execute/Ending.antt =====
-- How a call of `execute` (executor.py) ends, rule by rule: the table that its branches meet.
use rift_reliability_injecti.Prelude.{
  String, ◌≡◌, ◌⊎◌, refl, false, Option, none, some, or_else, arith,
}
use rift_reliability_injecti.Prelude.Result.{Result, ok, err}
use rift_reliability_injecti.Core.Json.{JsonValue}
use rift_reliability_injecti.Core.Fault.{FaultRule, FaultType, operation_executes}
use rift_reliability_injecti.Core.Invocation.{ToolInvocation}
use rift_reliability_injecti.Engine.Exceptions.{
  Exception, injected_timeout, ambiguous_tool_outcome, injected_rate_limit, injected_tool_exception,
  message_or_default, message_of, carried,
}
use rift_reliability_injecti.Engine.Execute.{ToolExecution, before_call_error}

-- How a call ends, as far as a caller could tell: without the evidence that injected errors carry.
pub data Ending : Type 0 where
  answers : JsonValue → Ending
  times_out : Ending
  is_limited : String → Ending
  breaks : String → Ending
  raises : Exception → Ending

abbrev pub ending_of_error : Exception → Ending
ending_of_error (injected_timeout m i) = times_out
ending_of_error (ambiguous_tool_outcome m i) = times_out
ending_of_error (injected_rate_limit m i) = is_limited m
ending_of_error (injected_tool_exception m i) = breaks m
ending_of_error e = raises e

abbrev pub ending : Result Exception ToolExecution → Ending
ending (ok x) = answers x.result
ending (err e) = ending_of_error e

-- How the operation itself ended.
abbrev pub plain_ending : Result Exception JsonValue → Ending
plain_ending (ok v) = answers v
plain_ending (err e) = ending_of_error e

-- The endings under each fault, from how the operation ended.
abbrev pub skip_ending : FaultType → String → Ending
skip_ending FaultType.exception m = breaks m
skip_ending FaultType.rate_limit m = is_limited m
skip_ending _ m = times_out

abbrev pub lost_ending : Result Exception JsonValue → Ending
lost_ending (ok v) = times_out
lost_ending (err e) = ending_of_error e

abbrev pub malformed_ending : FaultRule → Result Exception JsonValue → Ending
malformed_ending rule (ok v) = answers rule.replacement_response
malformed_ending rule (err e) = ending_of_error e

abbrev pub default_text : FaultType → String
default_text FaultType.exception = "injected tool exception"
default_text FaultType.rate_limit = "injected rate limit"
default_text FaultType.timeout_before_call = "injected timeout before call"
default_text _ = "injected timeout after commit"

-- A fault that raises has a message: the rule's own or the default one.
pub message_of_raising :
    (given : Option String) (t : FaultType)
    → (operation_executes t ≡ false) ⊎ (t ≡ FaultType.timeout_after_commit)
    → (m : String) × (message_or_default given t ≡ ok m)
unfolding message_or_default operation_executes
message_of_raising (some m) t h = (m, refl)
message_of_raising none FaultType.exception h = (_, refl)
message_of_raising none FaultType.rate_limit h = (_, refl)
message_of_raising none FaultType.timeout_before_call h = (_, refl)
message_of_raising none FaultType.timeout_after_commit h = (_, refl)
message_of_raising none FaultType.latency h = absurd (ground arith)
message_of_raising none FaultType.malformed_response h = absurd (ground arith)
message_of_raising none FaultType.duplicate_request h = absurd (ground arith)

-- The text that an injected error carries.
abbrev pub message_for : FaultRule → String
message_for rule = or_else rule.error_message (default_text rule.fault_type)

pub message_or_default-message :
    (rule : FaultRule) (m : String)
    → message_or_default rule.error_message rule.fault_type ≡ ok m
    → m ≡ message_for rule
unfolding message_or_default
message_or_default-message rule m h = ground arith

pub skip_ended :
    (t : FaultType) (i : ToolInvocation) (m : String) {n : String}
    → m ≡ n
    → operation_executes t ≡ false
    → ending_of_error (before_call_error t m i) ≡ skip_ending t n
unfolding operation_executes
skip_ended FaultType.latency i m e h = cc
skip_ended _ i m e h = ground arith

-- The error of a fault before the call has the text and the record that it was made from.
pub skip_shown :
    (t : FaultType) (m : String) (i : ToolInvocation)
    → operation_executes t ≡ false
    → (some m ≡ some (message_of (before_call_error t m i)))
      × (carried (before_call_error t m i) ≡ some i)
unfolding operation_executes message_of
skip_shown FaultType.exception m i h = (refl, refl)
skip_shown FaultType.rate_limit m i h = (refl, refl)
skip_shown FaultType.timeout_before_call m i h = (refl, refl)
skip_shown FaultType.latency m i h = cc
skip_shown FaultType.timeout_after_commit m i h = cc
skip_shown FaultType.malformed_response m i h = cc
skip_shown FaultType.duplicate_request m i h = cc

-- The ending of a call, from the rule that matches it and the way its operation ends.
abbrev pub ending_by_type : FaultType → FaultRule → Result Exception JsonValue → Ending
ending_by_type FaultType.latency rule r = plain_ending r
ending_by_type FaultType.exception rule r = breaks (message_for rule)
ending_by_type FaultType.rate_limit rule r = is_limited (message_for rule)
ending_by_type FaultType.timeout_before_call rule r = times_out
ending_by_type FaultType.timeout_after_commit rule r = lost_ending r
ending_by_type FaultType.malformed_response rule r = malformed_ending rule r
ending_by_type FaultType.duplicate_request rule r = plain_ending r

abbrev pub expected_ending : Option FaultRule → Result Exception JsonValue → Ending
expected_ending none r = plain_ending r
expected_ending (some rule) r = ending_by_type rule.fault_type rule r

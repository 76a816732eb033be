-- ===== src/Engine/Exceptions.antt =====
-- packages/rift_fault_engine/src/rift_fault_engine/exceptions.py, and the texts of errors in
-- executor.py.
use rift_reliability_injecti.Prelude.{String, Bool, true, false, Option, none, some, if◌then◌else◌}
use rift_reliability_injecti.Prelude.Result.{Result, ok, err}
use rift_reliability_injecti.Prelude.Text.{◌&◌, strip, is_empty}
use rift_reliability_injecti.Core.Fault.{FaultType}
use rift_reliability_injecti.Core.Invocation.{ToolInvocation}

-- The exceptions that the engine tells apart. `raised` is any other class, by name and message. A
-- `validation_error` has the message of the check that failed: the longer text that pydantic puts
-- around it is not modelled. A `key_error` has the key as Python's `repr` writes it, which is the
-- text of the error.
pub data Exception : Type 0 where
  injected_tool_exception : String → ToolInvocation → Exception
  injected_rate_limit : String → ToolInvocation → Exception
  injected_timeout : String → ToolInvocation → Exception
  ambiguous_tool_outcome : String → ToolInvocation → Exception
  validation_error : String → Exception
  key_error : String → Exception
  assertion_error : String → Exception
  raised : String → String → Exception

-- `type(error).__name__`
unfoldable pub type_name : Exception → String
type_name (injected_tool_exception m i) = "InjectedToolException"
type_name (injected_rate_limit m i) = "InjectedRateLimitError"
type_name (injected_timeout m i) = "InjectedTimeoutError"
type_name (ambiguous_tool_outcome m i) = "AmbiguousToolOutcomeError"
type_name (validation_error m) = "ValidationError"
type_name (key_error m) = "KeyError"
type_name (assertion_error m) = "AssertionError"
type_name (raised name m) = name

-- `str(error)`
unfoldable pub message_of : Exception → String
message_of (injected_tool_exception m i) = m
message_of (injected_rate_limit m i) = m
message_of (injected_timeout m i) = m
message_of (ambiguous_tool_outcome m i) = m
message_of (validation_error m) = m
message_of (key_error m) = m
message_of (assertion_error m) = m
message_of (raised name m) = m

-- The `invocation` that an injected error carries.
abbrev pub carried : Exception → Option ToolInvocation
carried (injected_tool_exception m i) = some i
carried (injected_rate_limit m i) = some i
carried (injected_timeout m i) = some i
carried (ambiguous_tool_outcome m i) = some i
carried _ = none

-- `_describe_error`
unfoldable pub describe_error : Exception → String
unfolding type_name message_of
describe_error e =
    let message = strip (message_of e) in
    if is_empty message then type_name e else type_name e & ": " & message

-- `_default_error_message`: a dict that has only these keys
unfoldable pub default_error_message : FaultType → Result Exception String
default_error_message FaultType.exception = ok "injected tool exception"
default_error_message FaultType.rate_limit = ok "injected rate limit"
default_error_message FaultType.timeout_before_call = ok "injected timeout before call"
default_error_message FaultType.timeout_after_commit = ok "injected timeout after commit"
default_error_message FaultType.latency = err (key_error "<FaultType.LATENCY: 'latency'>")
default_error_message FaultType.malformed_response =
    err (key_error "<FaultType.MALFORMED_RESPONSE: 'malformed_response'>")
default_error_message FaultType.duplicate_request =
    err (key_error "<FaultType.DUPLICATE_REQUEST: 'duplicate_request'>")

-- `rule.error_message or _default_error_message(rule.fault_type)`
unfoldable pub message_or_default : Option String → FaultType → Result Exception String
unfolding default_error_message
message_or_default (some m) t = ok m
message_or_default none t = default_error_message t

-- `InjectedTimeoutError.operation_may_have_completed`, by class
unfoldable pub may_have_completed : Exception → Bool
may_have_completed (ambiguous_tool_outcome m i) = true
may_have_completed _ = false

-- ===== src/Core/Fault.antt =====
-- packages/rift_core/src/rift_core/domain.py: run modes, fault types and `FaultRule`.
pub mod Validation
use rift_reliability_injecti.Prelude.{
  ℕ, String, Bool, true, false, not, ◌&&◌, Option, none, some, is_some, ◌==◌, nat_eq, string_eq,
  if◌then◌else◌,
}
use rift_reliability_injecti.Prelude.Result.{Result, ok, err, ◌>>=◌, ◌>>◌, raise_if}
use rift_reliability_injecti.Core.Json.{JsonValue, is_null}

pub data RunMode : Type 0 where
  baseline faulted : RunMode

pub data FaultPhase : Type 0 where
  before_call after_call : FaultPhase

pub data FaultType : Type 0 where
  latency exception rate_limit timeout_before_call timeout_after_commit : FaultType
  malformed_response duplicate_request : FaultType

-- `FaultType.phase`
unfoldable pub phase_of : FaultType → FaultPhase
phase_of FaultType.timeout_after_commit = after_call
phase_of FaultType.malformed_response = after_call
phase_of FaultType.duplicate_request = after_call
phase_of _ = before_call

-- `FaultType.underlying_operation_executes`
unfoldable pub operation_executes : FaultType → Bool
operation_executes FaultType.exception = false
operation_executes FaultType.rate_limit = false
operation_executes FaultType.timeout_before_call = false
operation_executes _ = true

-- `FaultType.commits_before_caller_error`
unfoldable pub commits_before_caller_error : FaultType → Bool
commits_before_caller_error FaultType.timeout_after_commit = true
commits_before_caller_error _ = false

abbrev pub same_phase : FaultPhase → FaultPhase → Bool
same_phase before_call before_call = true
same_phase after_call after_call = true
same_phase _ _ = false

abbrev pub is_faulted : RunMode → Bool
is_faulted baseline = false
is_faulted faulted = true

abbrev pub is_latency : FaultType → Bool
is_latency FaultType.latency = true
is_latency _ = false

abbrev pub is_malformed_response : FaultType → Bool
is_malformed_response FaultType.malformed_response = true
is_malformed_response _ = false

-- The set `supports_error_message` of the validator.
abbrev pub supports_error_message : FaultType → Bool
supports_error_message FaultType.exception = true
supports_error_message FaultType.rate_limit = true
supports_error_message FaultType.timeout_before_call = true
supports_error_message FaultType.timeout_after_commit = true
supports_error_message _ = false

pub record FaultRule : Type 0 where
  pub fault_rule_id : String
  pub tool_name : String
  pub invocation_number : ℕ
  pub fault_type : FaultType
  pub phase : Option FaultPhase
  pub delay_ms : Option ℕ
  pub error_message : Option String
  pub replacement_response : JsonValue

-- The phase is filled in when it is missing and must otherwise be the type's own.
unfoldable pub fill_phase : Option FaultPhase → FaultType → Result String (Option FaultPhase)
fill_phase none t = ok (some (phase_of t))
fill_phase (some p) t =
    if same_phase p (phase_of t) then ok (some p) else err "must use the phase of its type"

unfoldable pub check_delay : FaultType → Option ℕ → Result String Unit
check_delay t d =
    if is_latency t
    then raise_if (not (is_some d)) "latency faults require delay_ms"
    else raise_if (is_some d) "delay_ms is only valid for latency faults"

unfoldable pub check_replacement : FaultType → JsonValue → Result String Unit
check_replacement t v =
    if is_malformed_response t
    then raise_if (is_null v) "malformed-response faults require replacement_response"
    else raise_if (not (is_null v))
        "replacement_response is only valid for malformed-response faults"

-- `FaultRule.validate_configuration`
unfoldable pub validate_configuration : FaultRule → Result String FaultRule
unfolding fill_phase check_delay check_replacement
validate_configuration r = do
  phase ← fill_phase r.phase r.fault_type
  check_delay r.fault_type r.delay_ms
  check_replacement r.fault_type r.replacement_response
  raise_if (is_some r.error_message && not (supports_error_message r.fault_type))
      "error_message is not valid for this fault type"
  ok (record r { phase = phase })

-- `FaultRule.matches`
unfoldable pub matches : FaultRule → String → ℕ → RunMode → Bool
matches r tool n mode = is_faulted mode && (r.tool_name == tool) && (r.invocation_number == n)

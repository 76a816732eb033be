-- ===== src/Core/Invocation.antt =====
-- packages/rift_core/src/rift_core/domain.py: `ToolInvocation`, the evidence of one intercepted
-- call. Times are read as natural numbers; what pydantic does to text (stripping) is not modelled.
pub mod Evidence
use rift_reliability_injecti.Prelude.{
  ℕ, ◌+◌, String, Bool, true, false, not, ◌&&◌, ◌||◌, Option, none, some, is_some, eqb, leb, ltb,
  if◌then◌else◌,
}
use rift_reliability_injecti.Prelude.Int.{ℤ, is_negative}
use rift_reliability_injecti.Prelude.Result.{Result, ok, err, ◌>>=◌, ◌>>◌, raise_if}
use rift_reliability_injecti.Core.Json.{JsonValue, JsonObject, is_null}
use rift_reliability_injecti.Core.Fault.{
  FaultPhase, FaultType, phase_of, operation_executes, fill_phase,
}

pub record ToolInvocation : Type 0 where
  pub invocation_id : String
  pub run_id : String
  pub tool_name : String
  pub invocation_number : ℕ
  pub sequence_number : Option ℕ
  pub completed_before_start : Option ℕ
  pub arguments : JsonObject
  pub started_at : ℕ
  pub finished_at : ℕ
  pub duration_ms : ℤ
  pub fault_rule_id : Option String
  pub fault_type : Option FaultType
  pub fault_phase : Option FaultPhase
  pub executed : Bool
  pub committed : Option Bool
  pub execution_count : Option ℕ
  pub underlying_result : JsonValue
  pub underlying_error : Option String
  pub caller_response : JsonValue
  pub caller_error : Option String

-- `completed_before_start >= sequence_number`, where both are known
abbrev pub is_behind : Option ℕ → Option ℕ → Bool
is_behind (some s) (some c) = leb s c
is_behind _ _ = false

-- The truth value of a `bool | None`.
abbrev pub is_true : Option Bool → Bool
is_true (some true) = true
is_true _ = false

-- `x is not False`
abbrev pub is_not_false : Option Bool → Bool
is_not_false (some false) = false
is_not_false _ = true

abbrev pub is_zero : Option ℕ → Bool
is_zero none = false
is_zero (some n) = eqb n 0

-- The `PositiveInt` and `NonNegativeFloat` fields.
unfoldable pub check_fields : ToolInvocation → Result String Unit
check_fields i = do
  raise_if (eqb i.invocation_number 0) "invocation_number must be positive"
  raise_if (is_zero i.sequence_number) "sequence_number must be positive"
  raise_if (is_negative i.duration_ms) "duration_ms must not be negative"

unfoldable pub check_order : ToolInvocation → Result String Unit
check_order i = do
  raise_if (ltb i.finished_at i.started_at) "finished_at cannot precede started_at"
  raise_if (is_behind i.sequence_number i.completed_before_start)
      "completed_before_start must be less than sequence_number"

unfoldable pub check_skipped : ToolInvocation → Result String Unit
check_skipped i = do
  raise_if (is_true i.committed && not i.executed) "a committed operation must have executed"
  raise_if (not i.executed && is_not_false i.committed)
      "a skipped operation has a known uncommitted outcome"
  raise_if (not i.executed && (not (is_null i.underlying_result) || is_some i.underlying_error))
      "a skipped operation cannot have an underlying outcome"

-- The execution count is filled in when it is missing and must otherwise fit the execution.
unfoldable pub fill_count : Bool → Option ℕ → Result String (Option ℕ)
fill_count executed none = ok (some (if executed then 1 else 0))
fill_count false (some n) =
    if eqb n 0 then ok (some n) else err "a skipped operation must have an execution count of zero"
fill_count true (some n) =
    if ltb n 1
    then err "an executed operation must have an execution count of at least one"
    else ok (some n)

unfoldable pub check_exposed : ToolInvocation → Result String Unit
check_exposed i = do
  raise_if (not (is_null i.underlying_result) && is_some i.underlying_error)
      "an invocation cannot have both an underlying result and error"
  raise_if (not (is_null i.caller_response) && is_some i.caller_error)
      "an invocation cannot expose both a response and an error"

abbrev pub is_timeout_before_call : FaultType → Bool
is_timeout_before_call FaultType.timeout_before_call = true
is_timeout_before_call _ = false

abbrev pub is_timeout_after_commit : FaultType → Bool
is_timeout_after_commit FaultType.timeout_after_commit = true
is_timeout_after_commit _ = false

abbrev pub is_duplicate_request : FaultType → Bool
is_duplicate_request FaultType.duplicate_request = true
is_duplicate_request _ = false

abbrev pub same_bool : Bool → Bool → Bool
same_bool true b = b
same_bool false b = not b

abbrev pub is_two : Option ℕ → Bool
is_two none = false
is_two (some n) = eqb n 2

-- The checks on an invocation that carries a fault of type `t`.
unfoldable pub check_fault : FaultType → ToolInvocation → Result String Unit
check_fault t i = do
  raise_if (is_timeout_before_call t && (i.executed || is_not_false i.committed))
      "timeout-before-call cannot execute or commit the operation"
  raise_if (is_timeout_before_call t && not (is_some i.caller_error))
      "timeout-before-call requires a caller-visible error"
  raise_if (is_timeout_after_commit t && not (i.executed && is_true i.committed))
      "timeout-after-commit requires an executed, committed operation"
  raise_if (is_timeout_after_commit t && not (is_some i.caller_error))
      "timeout-after-commit requires a caller-visible error"
  raise_if (is_duplicate_request t && i.executed && not (is_two i.execution_count))
      "duplicate-request faults execute the underlying operation twice"
  raise_if (not (same_bool i.executed (operation_executes t)))
      "contradictory underlying execution evidence"

-- The part of the validator that begins at `if self.fault_type is None`.
unfoldable pub check_metadata : Option FaultType → ToolInvocation → Result String ToolInvocation
unfolding check_fault fill_phase
check_metadata none i = do
  raise_if (is_some i.fault_rule_id || is_some i.fault_phase) "fault metadata requires fault_type"
  ok i
check_metadata (some t) i = do
  raise_if (not (is_some i.fault_rule_id)) "a faulted invocation requires fault_rule_id"
  phase ← fill_phase i.fault_phase t
  check_fault t i
  ok (record i { fault_phase = phase })

-- `ToolInvocation.model_validate`: the fields, then `validate_outcomes`.
unfoldable pub validate_outcomes : ToolInvocation → Result String ToolInvocation
unfolding check_fields check_order check_skipped fill_count check_exposed check_metadata
validate_outcomes i = do
  check_fields i
  check_order i
  check_skipped i
  count ← fill_count i.executed i.execution_count
  check_exposed i
  check_metadata i.fault_type (record i { execution_count = count })

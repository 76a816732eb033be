-- ===== src/Core/Fault/Validation.antt =====
-- What `FaultRule.validate_configuration` of rift_core/domain.py lets through.
use rift_reliability_injecti.Prelude.{◌≡◌, true, not, Option, none, some, is_some, arith}
use rift_reliability_injecti.Prelude.Result.{ok}
use rift_reliability_injecti.Core.Json.{is_null}
use rift_reliability_injecti.Core.Fault.{
  FaultRule, FaultType, FaultPhase, phase_of, is_latency, is_malformed_response,
  supports_error_message, fill_phase, validate_configuration, before_call, after_call,
}

-- The options that a rule carries are those of its fault type, and its phase is filled in.
pub record IsWellFormed (r : FaultRule) : Type 0 where
  pub phased : r.phase ≡ some (phase_of r.fault_type)
  pub delayed : is_some r.delay_ms ≡ is_latency r.fault_type
  pub replaced : not (is_null r.replacement_response) ≡ is_malformed_response r.fault_type
  pub worded : is_some r.error_message ≡ true → supports_error_message r.fault_type ≡ true

pub fill_phase_sound :
    (p : Option FaultPhase) (t : FaultType) {q : Option FaultPhase}
    → fill_phase p t ≡ ok q
    → q ≡ some (phase_of t)
unfolding fill_phase phase_of
fill_phase_sound none t h = cc
fill_phase_sound (some before_call) t h = ground arith
fill_phase_sound (some after_call) t h = ground arith

pub fill_phase_self : (t : FaultType) → fill_phase (some (phase_of t)) t ≡ ok (some (phase_of t))
unfolding fill_phase phase_of
fill_phase_self t = ground arith

-- A rule that was accepted is well formed and differs from what was given in its phase alone.
pub validate_configuration_sound :
    (r : FaultRule) {r' : FaultRule}
    → validate_configuration r ≡ ok r'
    → IsWellFormed r' × (r' ≡ record r { phase = some (phase_of r.fault_type) })
unfolding validate_configuration
validate_configuration_sound r h = ground (arith, fill_phase_sound r.phase r.fault_type)

-- A well-formed rule is accepted as it is: validation is idempotent.
pub validate_configuration_complete :
    (r : FaultRule) → IsWellFormed r → validate_configuration r ≡ ok r
unfolding validate_configuration
validate_configuration_complete r w = ground (arith, fill_phase_self r.fault_type)

-- ===== src/Engine/Execute/Coherent.antt =====
-- The observations that executor.py hands to `_record` fit together, each under its own faults.
use rift_reliability_injecti.Prelude.{String, ◌≡◌, ◌⊎◌, false, none, some, arith}
use rift_reliability_injecti.Core.Json.{JsonValue}
use rift_reliability_injecti.Core.Fault.{FaultRule, FaultType, phase_of, operation_executes}
use rift_reliability_injecti.Engine.Exceptions.{Exception}
use rift_reliability_injecti.Engine.Record.{IsCoherent}
use rift_reliability_injecti.Engine.Execute.{failed, answered, skipped, lost}

pub failed-IsCoherent : (e : Exception) → IsCoherent (failed none e)
failed-IsCoherent e = ground arith

pub answered-IsCoherent : (v shown : JsonValue) → IsCoherent (answered none none v shown)
answered-IsCoherent v shown = ground arith

pub failed-IsCoherent_latency :
    (rule : FaultRule) (e : Exception)
    → rule.fault_type ≡ FaultType.latency
    → rule.phase ≡ some (phase_of rule.fault_type)
    → IsCoherent (failed (some rule) e)
unfolding operation_executes
failed-IsCoherent_latency rule e t h = ground arith

-- An answer under a fault that lets the operation run: latency or a malformed response.
pub answered-IsCoherent_once :
    (rule : FaultRule) (v shown : JsonValue)
    → (rule.fault_type ≡ FaultType.latency) ⊎ (rule.fault_type ≡ FaultType.malformed_response)
    → rule.phase ≡ some (phase_of rule.fault_type)
    → IsCoherent (answered (some rule) none v shown)
unfolding operation_executes
answered-IsCoherent_once rule v shown t h = ground arith

pub answered-IsCoherent_twice :
    (rule : FaultRule) (v shown : JsonValue)
    → rule.fault_type ≡ FaultType.duplicate_request
    → rule.phase ≡ some (phase_of rule.fault_type)
    → IsCoherent (answered (some rule) (some 2) v shown)
unfolding operation_executes
answered-IsCoherent_twice rule v shown t h = ground arith

pub skipped-IsCoherent :
    (rule : FaultRule) (message : String)
    → operation_executes rule.fault_type ≡ false
    → rule.phase ≡ some (phase_of rule.fault_type)
    → IsCoherent (skipped rule message)
unfolding operation_executes
skipped-IsCoherent rule message t h = ground arith

pub lost-IsCoherent :
    (rule : FaultRule) (v : JsonValue) (message : String)
    → rule.fault_type ≡ FaultType.timeout_after_commit
    → rule.phase ≡ some (phase_of rule.fault_type)
    → IsCoherent (lost rule v message)
unfolding operation_executes
lost-IsCoherent rule v message t h = ground arith

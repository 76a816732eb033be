-- ===== src/Core/Invocation/Evidence.antt =====
-- What `ToolInvocation.validate_outcomes` of rift_core/domain.py guarantees of a record.
use rift_reliability_injecti.Prelude.{
  ℕ, ap, ◌∙◌, or_else, ◌≤◌, ◌≡◌, ◌⊎◌, refl, Bool, true, false, Option, none, some, is_some, arith,
  if◌then◌else◌,
}
use rift_reliability_injecti.Prelude.Int.{is_negative}
use rift_reliability_injecti.Prelude.Result.{ok, >>=-inv, >>-inv}
use rift_reliability_injecti.Core.Json.{null}
use rift_reliability_injecti.Core.Fault.{FaultType, phase_of, operation_executes}
use rift_reliability_injecti.Core.Fault.Validation.{fill_phase_sound, fill_phase_self}
use rift_reliability_injecti.Core.Invocation.{
  ToolInvocation, is_behind, is_zero, check_fields, check_order, check_skipped, fill_count,
  check_exposed, check_fault, check_metadata, validate_outcomes,
}

-- How often an operation ran, as the fields of a record say it.
abbrev pub CountFits : Bool → Option ℕ → Type 0
CountFits executed none = ⊥
CountFits true (some n) = 1 ≤ n
CountFits false (some n) = n ≡ 0

abbrev pub FaultFits : Option FaultType → ToolInvocation → Type 0
FaultFits none i = (i.fault_rule_id ≡ none) × (i.fault_phase ≡ none)
FaultFits (some t) i =
    (is_some i.fault_rule_id ≡ true)
    × (i.fault_phase ≡ some (phase_of t))
    × (i.executed ≡ operation_executes t)
    × (t ≡ FaultType.timeout_before_call
        → (i.committed ≡ some false) × (is_some i.caller_error ≡ true))
    × (t ≡ FaultType.timeout_after_commit
        → (i.committed ≡ some true) × (is_some i.caller_error ≡ true))
    × (t ≡ FaultType.duplicate_request → i.execution_count ≡ some 2)

-- Evidence that contradicts itself nowhere.
pub record IsConsistent (i : ToolInvocation) : Type 0 where
  pub numbered : 1 ≤ i.invocation_number
  pub sequenced : is_zero i.sequence_number ≡ false
  pub timed : is_negative i.duration_ms ≡ false
  pub ordered : i.started_at ≤ i.finished_at
  pub behind : is_behind i.sequence_number i.completed_before_start ≡ false
  pub skipped :
      i.executed ≡ false
      → (i.committed ≡ some false) × (i.underlying_result ≡ null) × (i.underlying_error ≡ none)
  pub counted : CountFits i.executed i.execution_count
  pub underlying : (i.underlying_result ≡ null) ⊎ (i.underlying_error ≡ none)
  pub exposed : (i.caller_response ≡ null) ⊎ (i.caller_error ≡ none)
  pub faulted : FaultFits i.fault_type i

fields_sound :
    (i : ToolInvocation)
    → check_fields i ≡ ok tt
    → (1 ≤ i.invocation_number)
      × (is_zero i.sequence_number ≡ false)
      × (is_negative i.duration_ms ≡ false)
unfolding check_fields
fields_sound i h = ground arith

order_sound :
    (i : ToolInvocation)
    → check_order i ≡ ok tt
    → (i.started_at ≤ i.finished_at)
      × (is_behind i.sequence_number i.completed_before_start ≡ false)
unfolding check_order
order_sound i h = ground arith

skipped_sound :
    (i : ToolInvocation)
    → check_skipped i ≡ ok tt
    → i.executed ≡ false
    → (i.committed ≡ some false) × (i.underlying_result ≡ null) × (i.underlying_error ≡ none)
unfolding check_skipped
skipped_sound i h e = ground arith

count_sound : (b : Bool) (c : Option ℕ) {d : Option ℕ} → fill_count b c ≡ ok d → CountFits b d
unfolding fill_count
count_sound b c h = ground arith

exposed_sound :
    (i : ToolInvocation)
    → check_exposed i ≡ ok tt
    → ((i.underlying_result ≡ null) ⊎ (i.underlying_error ≡ none))
      × ((i.caller_response ≡ null) ⊎ (i.caller_error ≡ none))
unfolding check_exposed
exposed_sound i h = ground arith

-- The clauses of `FaultFits` that `check_fault` is about.
abbrev FaultChecked : FaultType → ToolInvocation → Type 0
FaultChecked t i =
    (i.executed ≡ operation_executes t)
    × (t ≡ FaultType.timeout_before_call
        → (i.committed ≡ some false) × (is_some i.caller_error ≡ true))
    × (t ≡ FaultType.timeout_after_commit
        → (i.committed ≡ some true) × (is_some i.caller_error ≡ true))
    × (t ≡ FaultType.duplicate_request → i.execution_count ≡ some 2)

fault_sound : (t : FaultType) (i : ToolInvocation) → check_fault t i ≡ ok tt → FaultChecked t i
unfolding check_fault operation_executes
fault_sound FaultType.latency i h = ground arith
fault_sound _ i h = ground arith

fault_complete : (t : FaultType) (i : ToolInvocation) → FaultChecked t i → check_fault t i ≡ ok tt
unfolding check_fault operation_executes
fault_complete FaultType.latency i h = ground arith
fault_complete FaultType.exception i h = ground arith
fault_complete FaultType.rate_limit i h = ground arith
fault_complete FaultType.timeout_before_call i h = ground (arith, h.1 refl)
fault_complete FaultType.timeout_after_commit i h = ground (arith, h.2 refl)
fault_complete FaultType.malformed_response i h = ground arith
fault_complete FaultType.duplicate_request i h = ground (arith, h.3 refl)

metadata_sound :
    (t : Option FaultType) (i : ToolInvocation) {j : ToolInvocation}
    → t ≡ i.fault_type
    → check_metadata t i ≡ ok j
    → FaultFits t j × (j ≡ record i { fault_phase = j.fault_phase })
unfolding check_metadata
metadata_sound none i e h = ground arith
metadata_sound (some t) i e h = ground (arith, fault_sound t i, fill_phase_sound i.fault_phase t)

-- Every part of the validator, run on a consistent record, lets it through.
parts_complete :
    (i : ToolInvocation)
    → IsConsistent i
    → (check_fields i ≡ ok tt)
      × (check_order i ≡ ok tt)
      × (check_skipped i ≡ ok tt)
      × (fill_count i.executed i.execution_count ≡ ok i.execution_count)
      × (check_exposed i ≡ ok tt)
unfolding check_fields check_order check_skipped fill_count check_exposed
parts_complete i c = (ground arith, ground arith, ground arith, ground arith, ground arith)

metadata_complete :
    (t : Option FaultType) (i : ToolInvocation) → FaultFits t i → check_metadata t i ≡ ok i
unfolding check_metadata
metadata_complete none i f = ground arith
metadata_complete (some t) i f =
    ground (arith, fault_complete t i (f.2, f.3, f.4, f.5), fill_phase_self t)

-- What an accepting run of the validator went through.
parts-inv :
    (i : ToolInvocation) {j : ToolInvocation}
    → validate_outcomes i ≡ ok j
    → (c : Option ℕ) × (fill_count i.executed i.execution_count ≡ ok c)
      × (check_metadata i.fault_type (record i { execution_count = c }) ≡ ok j)
      × (check_fields i ≡ ok tt)
      × (check_order i ≡ ok tt)
      × (check_skipped i ≡ ok tt)
      × (check_exposed i ≡ ok tt)
unfolding validate_outcomes
parts-inv i h =
    let a = >>-inv (check_fields i) _ h in
    let b = >>-inv (check_order i) _ a.1 in
    let c = >>-inv (check_skipped i) _ b.1 in
    let d = >>=-inv (fill_count i.executed i.execution_count) _ c.1 in
    let e = >>-inv (check_exposed i) _ d.2 in (d.0, d.1, e.1, a.0, b.0, c.0, e.0)

-- A record that was accepted is consistent, and only its execution count and its fault phase may
-- differ from what was given.
pub validate_outcomes_sound :
    (i : ToolInvocation) {j : ToolInvocation}
    → validate_outcomes i ≡ ok j
    → IsConsistent j
      × (j ≡ record i { execution_count = j.execution_count; fault_phase = j.fault_phase })
validate_outcomes_sound i {j} h =
    let (c, filled, accepted, fields, order, skipped, exposed) = parts-inv i h in
    let m = metadata_sound i.fault_type (record i { execution_count = c }) refl accepted in
    ground (
      arith,
      m,
      fields_sound i fields,
      order_sound i order,
      skipped_sound i skipped,
      exposed_sound i exposed,
      count_sound i.executed i.execution_count filled,
    )

-- A consistent record is accepted as it is.
pub validate_outcomes_complete : (i : ToolInvocation) → IsConsistent i → validate_outcomes i ≡ ok i
unfolding validate_outcomes
validate_outcomes_complete i c =
    let p = parts_complete i c in ground (arith, metadata_complete i.fault_type i c.faulted)

abbrev pub default_count : Bool → ℕ
default_count executed = if executed then 1 else 0

-- A record whose count is left to the validator is accepted with the count filled in.
pub validate_outcomes-fill :
    (i : ToolInvocation)
    → i.execution_count ≡ none
    → IsConsistent (record i { execution_count = some (default_count i.executed) })
    → validate_outcomes i ≡ ok (record i { execution_count = some (default_count i.executed) })
unfolding check_fields check_order check_skipped fill_count check_exposed validate_outcomes
validate_outcomes-fill i e c =
    let j = record i { execution_count = some (default_count i.executed) } in
    let p = parts_complete j c in
    let m = metadata_complete i.fault_type j c.faulted in rw (e, p.0, p.1, p.2, p.4) m

-- Both cases of the count at once: given, or left to the validator.
pub validate_outcomes-default :
    (i : ToolInvocation) (count : Option ℕ)
    → i.execution_count ≡ count
    → IsConsistent (record i { execution_count = some (or_else count (default_count i.executed)) })
    → validate_outcomes i
      ≡ ok (record i { execution_count = some (or_else count (default_count i.executed)) })
validate_outcomes-default i none e c = validate_outcomes-fill i e c
validate_outcomes-default i (some n) e c =
    ap validate_outcomes (λ p. record i { execution_count = e p })
    ∙ validate_outcomes_complete (record i { execution_count = some n }) c

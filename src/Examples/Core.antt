-- ===== src/Examples/Core.antt =====
-- The theorems on rules, evidence, experiments and outcomes at small values.
use rift_reliability_injecti.Prelude.{
  ◌≤◌, ◌≡◌, ◌≢◌, ◌↔◌, refl, true, false, none, some, [], ◌∷◌, All, any, map, select, length,
  is_unique, string_eq, nat_eq, pair_eq,
}
use rift_reliability_injecti.Prelude.Result.{ok}
use rift_reliability_injecti.Core.Json.{end}
use rift_reliability_injecti.Core.Fault.{
  FaultRule, matches, faulted, validate_configuration, phase_of, operation_executes,
}
use rift_reliability_injecti.Core.Fault.Validation.{IsWellFormed, validate_configuration_sound}
use rift_reliability_injecti.Core.Invocation.{validate_outcomes}
use rift_reliability_injecti.Core.Invocation.Evidence.{
  IsConsistent, validate_outcomes_sound, validate_outcomes_complete,
}
use rift_reliability_injecti.Core.Outcome.{InvariantStatus, RunOutcome, derive_run_outcome}
use rift_reliability_injecti.Core.Outcome.Derived.{Passes, derive_run_outcome-pass_iff}
use rift_reliability_injecti.Core.Run.{ExperimentRunResult, validate_run_references}
use rift_reliability_injecti.Core.Run.References.{
  IsReferenced, validate_run_references_sound, validate_run_references-pass,
}
use rift_reliability_injecti.Core.Spec.{
  ExperimentSpec, rule_id, is_undeclared, validate_fault_rules,
}
use rift_reliability_injecti.Core.Spec.Selectors.{validate_fault_rules_sound}
use rift_reliability_injecti.Examples.Data.{
  context_in, result_with, lost_rule, draft, filled, mixed,
}

-- The rule as it is written, before its phase is filled in.
abbrev unphased : FaultRule
unphased = record lost_rule { phase = none }

unphased_accepted : validate_configuration unphased ≡ ok lost_rule
unfolding validate_configuration phase_of
unphased_accepted = refl

validate_configuration_sound_example :
    IsWellFormed lost_rule
    × (lost_rule ≡ record unphased { phase = some (phase_of unphased.fault_type) })
validate_configuration_sound_example = validate_configuration_sound unphased unphased_accepted

draft_accepted : validate_outcomes draft ≡ ok filled
unfolding validate_outcomes phase_of operation_executes
draft_accepted = refl

validate_outcomes_sound_example :
    IsConsistent filled
    × (filled ≡ record draft {
      execution_count = filled.execution_count;
      fault_phase = filled.fault_phase;
    })
validate_outcomes_sound_example = validate_outcomes_sound draft draft_accepted

filled-IsConsistent : IsConsistent filled
filled-IsConsistent = (validate_outcomes_sound draft draft_accepted).0

validate_outcomes_complete_example : validate_outcomes filled ≡ ok filled
validate_outcomes_complete_example = validate_outcomes_complete filled filled-IsConsistent

abbrev experiment : ExperimentSpec
experiment = record {
  experiment_id = "EXP-1";
  name = "refund lost";
  scenario = record {
    scenario_id = "SC-1";
    name = "refund";
    task = "Refund the order.";
    version = 1;
    initial_state = end;
    tool_names = "refund" ∷ [];
    invariant_ids = [];
  };
  seed = 7;
  fault_rules = lost_rule ∷ [];
  description = none;
}

experiment_accepted : validate_fault_rules experiment ≡ ok experiment
unfolding validate_fault_rules
experiment_accepted = refl

validate_fault_rules_sound_example :
    (experiment ≡ experiment)
    × (is_unique (map rule_id experiment.fault_rules) ≡ true)
    × (any (is_undeclared experiment.scenario.tool_names) experiment.fault_rules ≡ false)
    × (length (select (λ q. matches q "refund" 1 faulted) experiment.fault_rules) ≤ 1)
validate_fault_rules_sound_example =
    validate_fault_rules_sound experiment "refund" 1 faulted experiment_accepted

derive_run_outcome-pass_iff_example :
    (derive_run_outcome mixed ≡ RunOutcome.pass) ↔ ((mixed ≢ []) × All Passes mixed)
derive_run_outcome-pass_iff_example = derive_run_outcome-pass_iff mixed

abbrev passed_run : ExperimentRunResult
passed_run = record {
  context = context_in faulted;
  outcome = RunOutcome.pass;
  tool_invocations = filled ∷ [];
  state_snapshot = none;
  invariant_results = result_with InvariantStatus.pass ∷ [];
  agent_response = none;
}

passed_run_accepted : validate_run_references passed_run ≡ ok passed_run
unfolding validate_run_references derive_run_outcome
passed_run_accepted = refl

validate_run_references_sound_example : (passed_run ≡ passed_run) × IsReferenced passed_run
validate_run_references_sound_example = validate_run_references_sound passed_run passed_run_accepted

validate_run_references-pass_example :
    (passed_run.invariant_results ≢ []) × All Passes passed_run.invariant_results
validate_run_references-pass_example =
    validate_run_references-pass passed_run passed_run_accepted refl

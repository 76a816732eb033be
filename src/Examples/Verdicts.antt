-- ===== src/Examples/Verdicts.antt =====
-- The theorems on summaries, classifications and verdicts at small values.
use rift_reliability_injecti.Prelude.{
  ℕ, ◌≡◌, ◌≢◌, ◌↔◌, true, false, none, [], ◌∷◌, All, any, map, arith,
}
use rift_reliability_injecti.Prelude.Result.{ok, err}
use rift_reliability_injecti.Core.Json.{end}
use rift_reliability_injecti.Core.Invocation.{ToolInvocation}
use rift_reliability_injecti.Core.Outcome.{
  InvariantStatus, InvariantResult, RunOutcome, derive_run_outcome, has_status, is_error, is_fail,
}
use rift_reliability_injecti.Core.Outcome.Derived.{Passes}
use rift_reliability_injecti.Core.Contracts.{AgentStatus, AgentRunOutput, claims_success}
use rift_reliability_injecti.Engine.Exceptions.{raised}
use rift_reliability_injecti.Runner.Evaluation.{
  classify, correct, silent_failure, fired_rule_ids, verdict_of, resilient,
}
use rift_reliability_injecti.Runner.Evaluation.Verdicts.{
  classify-correct_iff, classify-silent_iff, verdict_of-resilient_iff,
}
use rift_reliability_injecti.Invariants.Evaluator.{
  Invariant, EvaluationContext, evaluate, all_passed,
}
use rift_reliability_injecti.Invariants.Evaluator.Summary.{
  name_of, id_of, all_passed_iff, evaluate-ids,
}
use rift_reliability_injecti.Examples.Data.{draft, result_with, mixed}

abbrev confident : AgentRunOutput
confident = record {
  status = AgentStatus.completed;
  final_message = none;
  tool_calls = 3;
  metadata = end;
}

classify-correct_iff_example :
    (classify (derive_run_outcome mixed) confident ≡ correct)
    ↔ ((mixed ≢ []) × All Passes mixed × (claims_success confident.status ≡ true))
classify-correct_iff_example = classify-correct_iff mixed confident

classify-silent_iff_example : (classify (derive_run_outcome mixed) confident ≡ silent_failure) ↔ (
    (any (has_status is_error) mixed ≡ false)
    × (any (has_status is_fail) mixed ≡ true)
    × (claims_success confident.status ≡ true))
classify-silent_iff_example = classify-silent_iff mixed confident

verdict_of-resilient_iff_example :
    (verdict_of RunOutcome.pass RunOutcome.pass (fired_rule_ids (draft ∷ [])) ≡ resilient) ↔ (
      (RunOutcome.pass ≡ RunOutcome.pass)
      × (RunOutcome.pass ≡ RunOutcome.pass)
      × ¬ All (λ (i : ToolInvocation). i.fault_rule_id ≡ none) (draft ∷ []))
verdict_of-resilient_iff_example =
    verdict_of-resilient_iff RunOutcome.pass RunOutcome.pass (draft ∷ [])

all_passed_iff_example : (all_passed mixed ≡ true) ↔ (derive_run_outcome mixed ≡ RunOutcome.pass)
all_passed_iff_example = all_passed_iff mixed

-- An invariant that answers and one that raises.
abbrev answering : Invariant ℕ
answering = record {
  name = "one_refund";
  description = "At most one refund.";
  evaluate = λ c. ok (result_with InvariantStatus.pass);
}

abbrev raising : Invariant ℕ
raising = record {
  name = "no_orphans";
  description = "No orphans.";
  evaluate = λ c. err (raised "ValueError" "boom");
}

abbrev unchanged : EvaluationContext ℕ
unchanged = record { before_state = 0; after_state = 0; evidence = end }

answering_named :
    (r : InvariantResult) → answering.evaluate unchanged ≡ ok r → r.invariant_id ≡ answering.name
answering_named r h = ground arith

raising_named :
    (r : InvariantResult) → raising.evaluate unchanged ≡ ok r → r.invariant_id ≡ raising.name
raising_named r h = cc

evaluate-ids_example :
    map id_of (evaluate (answering ∷ raising ∷ []) unchanged)
    ≡ map name_of (answering ∷ raising ∷ [])
evaluate-ids_example =
    evaluate-ids (answering ∷ raising ∷ []) unchanged (answering_named, (raising_named, tt))

-- ===== src/Runner/Evaluation/Verdicts.antt =====
-- What the classifications and verdicts of evaluation.py mean.
use rift_reliability_injecti.Prelude.{
  ◌≡◌, ◌≢◌, ◌↔◌, refl, true, false, none, List, [], ◌∷◌, All, arith, String, inl, inr, any,
  Option-cases,
}
use rift_reliability_injecti.Core.Invocation.{ToolInvocation}
use rift_reliability_injecti.Core.Outcome.{
  InvariantResult, RunOutcome, derive_run_outcome, has_status, is_error, is_fail,
}
use rift_reliability_injecti.Core.Outcome.Derived.{
  Passes, derive_run_outcome-pass_iff, derive_run_outcome-fail_iff,
}
use rift_reliability_injecti.Core.Contracts.{AgentRunOutput, claims_success}
use rift_reliability_injecti.Runner.Evaluation.{
  correct, silent_failure, classify, fired_rule_ids, resilient, verdict_of,
}

classify-correct :
    (o : RunOutcome) (agent : AgentRunOutput)
    → (classify o agent ≡ correct) ↔ ((o ≡ RunOutcome.pass) × (claims_success agent.status ≡ true))
unfolding classify
classify-correct RunOutcome.pass agent = (λ h. (refl, ground arith), λ p. ground arith)
classify-correct RunOutcome.fail agent = (λ h. ground arith, λ p. cc)
classify-correct RunOutcome.error agent = (λ h. cc, λ p. cc)
classify-correct RunOutcome.inconclusive agent = (λ h. cc, λ p. cc)

classify-silent :
    (o : RunOutcome) (agent : AgentRunOutput)
    → (classify o agent ≡ silent_failure)
      ↔ ((o ≡ RunOutcome.fail) × (claims_success agent.status ≡ true))
unfolding classify
classify-silent RunOutcome.pass agent = (λ h. ground arith, λ p. cc)
classify-silent RunOutcome.fail agent = (λ h. (refl, ground arith), λ p. ground arith)
classify-silent RunOutcome.error agent = (λ h. cc, λ p. cc)
classify-silent RunOutcome.inconclusive agent = (λ h. cc, λ p. cc)

-- A run is classified as correct exactly when there are results, all of them pass, and the agent
-- claims success: the claim alone is never enough.
pub classify-correct_iff :
    (rs : List InvariantResult) (agent : AgentRunOutput)
    → (classify (derive_run_outcome rs) agent ≡ correct)
      ↔ ((rs ≢ []) × All Passes rs × (claims_success agent.status ≡ true))
classify-correct_iff rs agent =
    let c = classify-correct (derive_run_outcome rs) agent in
    let d = derive_run_outcome-pass_iff rs in
    (λ h. let q = d.0 (c.0 h).0 in (q.0, q.1, (c.0 h).1), λ p. c.1 (d.1 (p.0, p.1), p.2))

-- A silent failure is exactly a run in which no result is an error, at least one fails, and the
-- agent claims success all the same.
pub classify-silent_iff :
    (rs : List InvariantResult) (agent : AgentRunOutput)
    → (classify (derive_run_outcome rs) agent ≡ silent_failure) ↔ (
        (any (has_status is_error) rs ≡ false)
        × (any (has_status is_fail) rs ≡ true)
        × (claims_success agent.status ≡ true))
classify-silent_iff rs agent =
    let c = classify-silent (derive_run_outcome rs) agent in
    let d = derive_run_outcome-fail_iff rs in
    (λ h. let q = d.0 (c.0 h).0 in (q.0, q.1, (c.0 h).1), λ p. c.1 (d.1 (p.0, p.1), p.2))

fired-nil :
    (is : List ToolInvocation)
    → (fired_rule_ids is ≡ []) ↔ All (λ (i : ToolInvocation). i.fault_rule_id ≡ none) is
unfolding fired_rule_ids
fired-nil [] = (λ h. tt, λ p. refl)
fired-nil (i ∷ is) =
    let ih = fired-nil is in
    elim (Option-cases i.fault_rule_id) [
      | inl n ↦ (λ h. (n, ih.0 (ground arith)), λ p. let q = ih.1 p.1 in ground arith)
      | inr (r, e) ↦ (λ h. ground arith, λ p. let q = p.0 in ground arith)
    ]

verdict-resilient :
    (base faulty : RunOutcome) (fired : List String)
    → (verdict_of base faulty fired ≡ resilient)
      ↔ ((base ≡ RunOutcome.pass) × (faulty ≡ RunOutcome.pass) × (fired ≢ []))
unfolding verdict_of
verdict-resilient RunOutcome.fail faulty fired = (λ h. cc, λ p. cc)
verdict-resilient RunOutcome.error faulty fired = (λ h. cc, λ p. cc)
verdict-resilient RunOutcome.inconclusive faulty fired = (λ h. cc, λ p. cc)
verdict-resilient RunOutcome.pass faulty [] = (λ h. cc, λ p. absurd (p.2 refl))
verdict-resilient RunOutcome.pass RunOutcome.pass (x ∷ xs) = (λ h. (refl, refl, λ e. cc), λ p. refl)
verdict-resilient RunOutcome.pass RunOutcome.fail (x ∷ xs) = (λ h. cc, λ p. cc)
verdict-resilient RunOutcome.pass RunOutcome.error (x ∷ xs) = (λ h. cc, λ p. cc)
verdict-resilient RunOutcome.pass RunOutcome.inconclusive (x ∷ xs) = (λ h. cc, λ p. cc)

-- A comparison calls an agent resilient exactly when both runs passed and the faulted run has an
-- invocation that carries a fault rule: a run in which nothing was injected proves nothing.
pub verdict_of-resilient_iff :
    (base faulty : RunOutcome) (is : List ToolInvocation)
    → (verdict_of base faulty (fired_rule_ids is) ≡ resilient) ↔ (
        (base ≡ RunOutcome.pass)
        × (faulty ≡ RunOutcome.pass)
        × ¬ All (λ (i : ToolInvocation). i.fault_rule_id ≡ none) is)
verdict_of-resilient_iff base faulty is =
    let v = verdict-resilient base faulty (fired_rule_ids is) in
    let n = fired-nil is in
    (λ h. let q = v.0 h in (q.0, q.1, λ a. q.2 (n.1 a)), λ p. v.1 (p.0, p.1, λ e. p.2 (n.0 e)))

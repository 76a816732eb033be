-- ===== src/Invariants/Evaluator/Summary.antt =====
-- The summary of evaluator.py against the outcome of a run (rift_core/domain.py).
use rift_reliability_injecti.Prelude.{
  ◌+◌, ◌≤◌, ◌≡◌, ◌↔◌, refl, ap₂, true, List, [], ◌∷◌, All, arith, map, String,
}
use rift_reliability_injecti.Prelude.Result.{Result, ok, err}
use rift_reliability_injecti.Core.Outcome.{RunOutcome, InvariantResult, derive_run_outcome}
use rift_reliability_injecti.Core.Outcome.Derived.{Passes, derive_run_outcome-pass_iff}
use rift_reliability_injecti.Engine.Exceptions.{Exception}
use rift_reliability_injecti.Invariants.Evaluator.{
  Invariant, EvaluationContext, evaluate, settle, count_status, total, passed, failed, errors,
  all_passed,
}

-- Every result is counted once, by its status.
pub counts_add : (rs : List InvariantResult) → passed rs + failed rs + errors rs ≡ total rs
unfolding count_status
counts_add [] = refl
counts_add (r ∷ rs) = ground (arith, counts_add rs)

passed-le : (rs : List InvariantResult) → passed rs ≤ total rs
passed-le rs = omega (arith, counts_add rs)

passed-All : (rs : List InvariantResult) → passed rs ≡ total rs → All Passes rs
unfolding count_status
passed-All [] h = tt
passed-All (r ∷ rs) h = ground (arith, passed-All rs, passed-le rs)

All-passed : (rs : List InvariantResult) → All Passes rs → passed rs ≡ total rs
unfolding count_status
All-passed [] h = refl
All-passed (r ∷ rs) h = ground (arith, All-passed rs h.1)

-- The summary says that all passed exactly when the run's outcome is a pass.
pub all_passed_iff :
    (rs : List InvariantResult) → (all_passed rs ≡ true) ↔ (derive_run_outcome rs ≡ RunOutcome.pass)
unfolding all_passed
all_passed_iff [] = (λ h. cc, λ h. absurd (((derive_run_outcome-pass_iff []).0 h).0 refl))
all_passed_iff (r ∷ rs) = (
  λ h. (derive_run_outcome-pass_iff (r ∷ rs)).1 (λ e. cc, passed-All (r ∷ rs) (ground arith)),
  λ h.
      let p = (derive_run_outcome-pass_iff (r ∷ rs)).0 h in ground (arith, All-passed (r ∷ rs) p.1),
)

abbrev pub name_of : {S : Type 0} → Invariant S → String
name_of i = i.name

abbrev pub id_of : InvariantResult → String
id_of r = r.invariant_id

-- The invariants that name their results as themselves.
abbrev pub IsNamed : {S : Type 0} → EvaluationContext S → Invariant S → Type 0
IsNamed c i = (r : InvariantResult) → i.evaluate c ≡ ok r → r.invariant_id ≡ i.name

settle-id :
    {S : Type 0} (c : EvaluationContext S) (i : Invariant S) (o : Result Exception InvariantResult)
    → IsNamed c i
    → i.evaluate c ≡ o
    → (settle i o).invariant_id ≡ i.name
settle-id c i (ok r) n e = n r e
settle-id c i (err x) n e = refl

-- If each invariant gives its results its own name, the identifiers of the results are the
-- invariants' names in order, whichever of the invariants raise.
pub evaluate-ids :
    {S : Type 0} (is : List (Invariant S)) (c : EvaluationContext S)
    → All (IsNamed c) is
    → map id_of (evaluate is c) ≡ map name_of is
unfolding evaluate
evaluate-ids [] c n = refl
evaluate-ids (i ∷ rest) c n =
    ap₂ ◌∷◌ (settle-id c i (i.evaluate c) n.0 refl) (evaluate-ids rest c n.1)

-- ===== src/Core/Outcome/Derived.antt =====
-- The rule `derive_run_outcome` of rift_core/domain.py against its description by the statuses.
use rift_reliability_injecti.Prelude.{
  ◌≡◌, ◌≢◌, ◌↔◌, refl, true, false, List, [], ◌∷◌, any, All, arith,
}
use rift_reliability_injecti.Core.Outcome.{
  InvariantStatus, RunOutcome, InvariantResult, is_fail, is_error, has_status, derive_run_outcome,
}

abbrev pub Passes : InvariantResult → Type 0
Passes r = r.status ≡ InvariantStatus.pass

any-All :
    (rs : List InvariantResult)
    → any (has_status is_error) rs ≡ false
    → any (has_status is_fail) rs ≡ false
    → All Passes rs
any-All [] e f = tt
any-All (r ∷ rs) e f = ground (arith, any-All rs)

All-any :
    (rs : List InvariantResult)
    → All Passes rs
    → (any (has_status is_error) rs ≡ false) × (any (has_status is_fail) rs ≡ false)
All-any [] p = (refl, refl)
All-any (r ∷ rs) p = ground (arith, All-any rs p.1)

-- A run passes exactly when there is a result and every result passes.
pub derive_run_outcome-pass_iff :
    (rs : List InvariantResult)
    → (derive_run_outcome rs ≡ RunOutcome.pass) ↔ ((rs ≢ []) × All Passes rs)
unfolding derive_run_outcome
derive_run_outcome-pass_iff [] = (λ h. cc, λ p. absurd (p.0 refl))
derive_run_outcome-pass_iff (r ∷ rs) =
    (λ h. (λ e. cc, ground (arith, any-All (r ∷ rs))), λ p. ground (arith, All-any (r ∷ rs) p.1))

-- An error anywhere decides the run, and nothing else makes it one.
pub derive_run_outcome-error_iff :
    (rs : List InvariantResult)
    → (derive_run_outcome rs ≡ RunOutcome.error) ↔ (any (has_status is_error) rs ≡ true)
unfolding derive_run_outcome
derive_run_outcome-error_iff [] = (λ h. cc, λ h. cc)
derive_run_outcome-error_iff (r ∷ rs) = (λ h. ground arith, λ h. ground arith)

-- A run fails exactly when no result is an error and some result fails.
pub derive_run_outcome-fail_iff :
    (rs : List InvariantResult)
    → (derive_run_outcome rs ≡ RunOutcome.fail)
      ↔ ((any (has_status is_error) rs ≡ false) × (any (has_status is_fail) rs ≡ true))
unfolding derive_run_outcome
derive_run_outcome-fail_iff [] = (λ h. cc, λ h. cc)
derive_run_outcome-fail_iff (r ∷ rs) =
    (λ h. (ground arith, ground arith), λ h. let q = h.0 in let q' = h.1 in ground arith)

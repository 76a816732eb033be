-- ===== src/Core/Run/References.antt =====
-- What `ExperimentRunResult.validate_run_references` of rift_core/domain.py guarantees.
use rift_reliability_injecti.Prelude.{
  String, ◌≡◌, ◌≢◌, ◌⊎◌, inl, inr, refl, sym, ◌∙◌, Bool, true, false, not, Option, none, some, List,
  [], ◌∷◌, map, any, All, is_unique, ==-iff, string_eq, nat_eq, arith,
}
use rift_reliability_injecti.Prelude.Result.{ok, raise_if-inv}
use rift_reliability_injecti.Core.Invocation.{ToolInvocation}
use rift_reliability_injecti.Core.Outcome.{InvariantResult, RunOutcome, derive_run_outcome}
use rift_reliability_injecti.Core.Outcome.Derived.{Passes, derive_run_outcome-pass_iff}
use rift_reliability_injecti.Core.Run.{
  StateSnapshot, ExperimentRunResult, sequence_numbers, is_of_another_run, is_foreign, same_outcome,
  is_allowed, invocation_id_of, invariant_id_of, validate_run_references,
}

-- The parts of a run result fit together.
pub record IsReferenced (r : ExperimentRunResult) : Type 0 where
  pub named : is_unique (map invocation_id_of r.tool_invocations) ≡ true
  pub owned : All (λ (i : ToolInvocation). i.run_id ≡ r.context.run_id) r.tool_invocations
  pub sequenced : is_unique (sequence_numbers r.tool_invocations) ≡ true
  pub observed : (s : StateSnapshot) → r.state_snapshot ≡ some s → s.run_id ≡ r.context.run_id
  pub judged : is_unique (map invariant_id_of r.invariant_results) ≡ true
  pub concluded :
      ((r.invariant_results ≡ [])
        × ((r.outcome ≡ RunOutcome.inconclusive) ⊎ (r.outcome ≡ RunOutcome.error)))
      ⊎ ((r.invariant_results ≢ []) × (r.outcome ≡ derive_run_outcome r.invariant_results))

owned_sound :
    (run : String) (is : List ToolInvocation)
    → any (is_of_another_run run) is ≡ false
    → All (λ (i : ToolInvocation). i.run_id ≡ run) is
owned_sound run [] h = tt
owned_sound run (i ∷ is) h = ground (arith, owned_sound run is, ==-iff i.run_id run)

observed_sound :
    (run : String) (o : Option StateSnapshot)
    → is_foreign run o ≡ false
    → (s : StateSnapshot) → o ≡ some s
    → s.run_id ≡ run
observed_sound run none h s e = cc
observed_sound run (some t) h s e = ground (arith, ==-iff t.run_id run)

same_outcome_sound : (a b : RunOutcome) → same_outcome a b ≡ true → a ≡ b
same_outcome_sound a b h = ground arith

concluded_sound :
    (o : RunOutcome) (rs : List InvariantResult)
    → is_allowed o rs ≡ true
    → ((rs ≡ []) × ((o ≡ RunOutcome.inconclusive) ⊎ (o ≡ RunOutcome.error)))
      ⊎ ((rs ≢ []) × (o ≡ derive_run_outcome rs))
unfolding is_allowed
concluded_sound o [] h = inl (refl, ground arith)
concluded_sound o (r ∷ rs) h = inr (λ e. cc, same_outcome_sound o (derive_run_outcome (r ∷ rs)) h)

not-false : (b : Bool) → not b ≡ false → b ≡ true
not-false b h = ground arith

-- A run result that was accepted is returned as it was given and fits together: its identifiers and
-- sequence numbers are unique, its invocations and its snapshot are of its own run, and its outcome
-- is the one that its invariant results imply or, without results, inconclusive or an error.
pub validate_run_references_sound :
    (r : ExperimentRunResult) {r' : ExperimentRunResult}
    → validate_run_references r ≡ ok r'
    → (r' ≡ r) × IsReferenced r
unfolding validate_run_references
validate_run_references_sound r h =
    let a = raise_if-inv _ _ _ h in
    let b = raise_if-inv _ _ _ a.1 in
    let c = raise_if-inv _ _ _ b.1 in
    let d = raise_if-inv _ _ _ c.1 in
    let e = raise_if-inv _ _ _ d.1 in
    let f = raise_if-inv _ _ _ e.1 in
    (
      ground arith,
      record {
        named = not-false _ a.0;
        owned = owned_sound r.context.run_id r.tool_invocations b.0;
        sequenced = not-false _ c.0;
        observed = observed_sound r.context.run_id r.state_snapshot d.0;
        judged = not-false _ e.0;
        concluded = concluded_sound r.outcome r.invariant_results (not-false _ f.0);
      },
    )

-- A run result that was accepted says that the run passed only if there are invariant results and
-- all of them pass, whatever the agent said.
pub validate_run_references-pass :
    (r : ExperimentRunResult) {r' : ExperimentRunResult}
    → validate_run_references r ≡ ok r'
    → r.outcome ≡ RunOutcome.pass
    → (r.invariant_results ≢ []) × All Passes r.invariant_results
validate_run_references-pass r h p = elim ((validate_run_references_sound r h).1.concluded) [
  | inl (bare, inl i) ↦ absurd (ground arith)
  | inl (bare, inr i) ↦ absurd (ground arith)
  | inr (full, d) ↦ (derive_run_outcome-pass_iff r.invariant_results).0 (sym d ∙ p)
]

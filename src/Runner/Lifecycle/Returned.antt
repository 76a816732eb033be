-- ===== src/Runner/Lifecycle/Returned.antt =====
-- When `ExperimentRunner.run` comes to a report, and when a run is refused at its start (runner.py).
use rift_reliability_injecti.Prelude.{
  String, ◌≡◌, ◌≢◌, ◌↔◌, inl, inr, refl, ap, Bool, true, false, List, [], ◌∷◌, map, string_eq,
  nat_eq, pair_eq, Bool-cases,
}
use rift_reliability_injecti.Prelude.Result.{Result, ok, err, raise_if}
use rift_reliability_injecti.Core.Json.{JsonObject, object}
use rift_reliability_injecti.Core.Json.Equality.{py_eq, IsDistinct}
use rift_reliability_injecti.Core.Fault.{RunMode}
use rift_reliability_injecti.Core.Spec.{ExperimentSpec}
use rift_reliability_injecti.Engine.State.{Clock}
use rift_reliability_injecti.Runner.Adapter.{SequentialAdapter, IsConfined}
use rift_reliability_injecti.Runner.Gateway.{Session}
use rift_reliability_injecti.Runner.Compare.{RunReport, ExperimentReport}
use rift_reliability_injecti.Runner.Differences.{diff_states}
use rift_reliability_injecti.Runner.Differences.Agreement.{diff_states-nil_iff}
use rift_reliability_injecti.Runner.Setup.{
  Binding, Lab, RunError, drifted, repeated_selectors, validate, has_items,
}
use rift_reliability_injecti.Runner.Lifecycle.{
  check_start, start_state, task_of, path_of, run_once, run_faulted, conclude, experiment_report,
  run_both, run,
}
use rift_reliability_injecti.Runner.Lifecycle.Settled.{IsRunnable, run_once_settles}

map-nonempty :
    {A B : Type 0} (f : A → B) (xs : List A)
    → xs ≢ []
    → (y : B) × (ys : List B) × (map f xs ≡ y ∷ ys)
map-nonempty f [] h = absurd (h refl)
map-nonempty f (x ∷ xs) h = (f x, map f xs, refl)

not_drifted :
    (c : Bool) (id : String) (ps : List String)
    → raise_if c repeated_selectors ≢ err (drifted id ps)
not_drifted true id ps h = cc
not_drifted false id ps h = cc

-- Where neither document has a key twice: a run is refused for drift, with at least one path of a
-- difference named, exactly when the scenario declares a state and the reset state is not equal to
-- it.
pub check_start-drifted_iff :
    (e : ExperimentSpec) (initial : JsonObject)
    → IsDistinct (object e.scenario.initial_state)
    → IsDistinct (object initial)
    → ((p : String) × (ps : List String) × (check_start e initial
          ≡ err (drifted e.scenario.scenario_id (p ∷ ps))))
      ↔ ((has_items e.scenario.initial_state ≡ true)
          × (py_eq (object e.scenario.initial_state) (object initial) ≡ false))
unfolding check_start
check_start-drifted_iff e initial d d' =
    let declared = e.scenario.initial_state in
    (
      λ (p, ps, h). elim (Bool-cases (has_items declared)) [
        | inl some_items ↦ elim (Bool-cases (py_eq (object declared) (object initial))) [
          | inl same ↦
              absurd (not_drifted _ e.scenario.scenario_id (p ∷ ps) (rw (some_items, same) at h))
          | inr differs ↦ (some_items, differs)
        ]
        | inr none_there ↦
            absurd (not_drifted _ e.scenario.scenario_id (p ∷ ps) (rw none_there at h))
      ],
      λ (some_items, differs).
          let told : diff_states declared initial ≢ [] =
            λ n. let same = (diff_states-nil_iff declared initial d d').0 n in cc in
          let (p, ps, paths) = map-nonempty path_of (diff_states declared initial) told in
          (
            p,
            ps,
            rw (some_items, differs) (ap (λ l. err (drifted e.scenario.scenario_id l)) paths),
          ),
    )

module _ {W S : Type 0} (digest : JsonObject → String) (k : Clock) (e : ExperimentSpec)
    (b : Binding W S) (a : SequentialAdapter (Session W)) where
  faulted_returns :
      (base : RunReport) (o : Result RunError RunReport × Lab)
      → IsRunnable k e b
      → IsConfined a (task_of b)
      → ((l : Lab) → check_start e (start_state b l) ≡ ok tt)
      → ((l : Lab) → py_eq (object base.initial_state) (object (start_state b l)) ≡ true)
      → o.0 ≡ ok base
      → (r : ExperimentReport) × ((run_faulted digest k e b a o).0 ≡ ok r) × (r.baseline ≡ base)
  unfolding run_faulted conclude
  faulted_returns base (err x, l) h c start equal first = cc
  faulted_returns base (ok base', l) h c start equal first =
      let same : base' ≡ base = cc in
      let s = run_once_settles k e b RunMode.faulted digest a l h c (start l) in
      (experiment_report e a base s.0, rw (s.1, same) (rw (s.6, equal l) refl), refl)

  both_return :
      (o : Result RunError Unit × Lab)
      → IsRunnable k e b
      → IsConfined a (task_of b)
      → ((l : Lab) → check_start e (start_state b l) ≡ ok tt)
      → ((l m : Lab) → py_eq (object (start_state b l)) (object (start_state b m)) ≡ true)
      → o.0 ≡ ok tt
      → (r : ExperimentReport) × ((run_both digest k e b a o).0 ≡ ok r)
  unfolding run_both
  both_return (err x, l) h c start equal valid = cc
  both_return (ok u, l) h c start equal valid =
      let s = run_once_settles k e b RunMode.baseline digest a l h c (start l) in
      let done =
        faulted_returns s.0 (run_once digest k e b a RunMode.baseline l) h c start
          (λ m. rw s.6 (equal l m)) s.1 in
      (done.0, done.1)

  -- An experiment that `_validate` accepts comes to a report, whatever the agent's calls and the
  -- injected faults do, if the clock does not run backwards, the rules are well formed, the
  -- invariants have names of their own, the agent acts through its gateway alone, every new
  -- environment passes the checks at a run's start, and any two of them start from equal states.
  pub run_returns :
      (lab : Lab)
      → IsRunnable k e b
      → IsConfined a (task_of b)
      → ((l : Lab) → check_start e (start_state b l) ≡ ok tt)
      → ((l m : Lab) → py_eq (object (start_state b l)) (object (start_state b m)) ≡ true)
      → (validate e b lab).0 ≡ ok tt
      → (r : ExperimentReport) × ((run digest k e b a lab).0 ≡ ok r)
  unfolding run
  run_returns lab h c start equal valid = both_return (validate e b lab) h c start equal valid

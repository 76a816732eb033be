-- ===== src/Runner/Lifecycle/Controlled.antt =====
-- What `ExperimentRunner.run` demands before it compares two runs (runner.py).
use rift_reliability_injecti.Prelude.{
  String, ◌≡◌, inl, inr, refl, true, false, List, [], ◌∷◌, arith, string_eq, nat_eq, pair_eq, subst,
}
use rift_reliability_injecti.Prelude.Result.{
  Result, ok, err, raise_if-inv, raise_if-false, Result-cases, >>=-inv,
}
use rift_reliability_injecti.Core.Json.{JsonObject, object}
use rift_reliability_injecti.Core.Json.Equality.{py_eq}
use rift_reliability_injecti.Core.Fault.{RunMode}
use rift_reliability_injecti.Core.Spec.{ExperimentSpec}
use rift_reliability_injecti.Engine.State.{Clock}
use rift_reliability_injecti.Runner.Adapter.{SequentialAdapter}
use rift_reliability_injecti.Runner.Gateway.{Session}
use rift_reliability_injecti.Runner.Compare.{RunReport, ExperimentReport, compare}
use rift_reliability_injecti.Runner.Setup.{
  Binding, Lab, RunError, check_identity, check_content, validate, validate_content, has_elements,
  differing_fields, missing_tools,
}
use rift_reliability_injecti.Runner.Lifecycle.{
  run_once, run_faulted, conclude, experiment_report, run_both, run,
}

bare : {A : Type 0} (xs : List A) → has_elements xs ≡ false → xs ≡ []
bare [] h = refl
bare (x ∷ xs) h = cc

module _ {W S : Type 0} (e : ExperimentSpec) (b : Binding W S) where
  -- The experiment's scenario is the bound one, and its tools are there.
  pub record IsBound : Type 0 where
    pub same_content : differing_fields e.scenario b.spec ≡ []
    pub tools_there : missing_tools e b ≡ []

  check_content_sound : check_content e b ≡ ok tt → IsBound
  unfolding check_content
  check_content_sound h =
      let (tools, same) = raise_if-inv _ _ _ h in
      record {
        same_content = bare (differing_fields e.scenario b.spec) (raise_if-false _ _ same);
        tools_there = bare (missing_tools e b) tools;
      }

  validate_sound : (lab : Lab) → (validate e b lab).0 ≡ ok tt → IsBound
  unfolding validate validate_content
  validate_sound lab h = elim (Result-cases (check_identity e b)) [
    | inl (_, fine) ↦ check_content_sound (rw fine at h)
    | inr (x, failed) ↦ let lost : err x ≡ ok tt = rw failed at h in cc
  ]

module _ {W S : Type 0} (digest : JsonObject → String) (k : Clock) (e : ExperimentSpec)
    (b : Binding W S) (a : SequentialAdapter (Session W)) where
  -- What a report rests on.
  pub record IsControlled (r : ExperimentReport) : Type 0 where
    pub bound : IsBound e b
    pub base_lab : Lab
    pub faulted_lab : Lab
    pub baseline_run : (run_once digest k e b a RunMode.baseline base_lab).0 ≡ ok r.baseline
    pub faulted_run : (run_once digest k e b a RunMode.faulted faulted_lab).0 ≡ ok r.faulted
    pub same_start : py_eq (object r.baseline.initial_state) (object r.faulted.initial_state) ≡ true
    pub compared : r.comparison ≡ compare r.baseline r.faulted e.fault_rules
    pub about : r.experiment ≡ e

  conclude_sound :
      (base faulty : RunReport) (r : ExperimentReport)
      → IsBound e b
      → (l m : Lab) → (run_once digest k e b a RunMode.baseline l).0 ≡ ok base
      → (run_once digest k e b a RunMode.faulted m).0 ≡ ok faulty
      → conclude e a base faulty ≡ ok r
      → IsControlled r
  unfolding conclude
  conclude_sound base faulty r bound l m first second h =
      let checks = raise_if-inv _ _ (ok (experiment_report e a base faulty)) h in
      let made : ok (experiment_report e a base faulty) ≡ ok r = checks.1 in
      let same : experiment_report e a base faulty ≡ r = cc in
      subst IsControlled same (record {
        bound = bound;
        base_lab = l;
        faulted_lab = m;
        baseline_run = first;
        faulted_run = second;
        same_start = ground (arith, checks.0);
        compared = refl;
        about = refl;
      })

  run_faulted_sound :
      (r : ExperimentReport) (l : Lab) (o : Result RunError RunReport × Lab)
      → IsBound e b
      → (run_once digest k e b a RunMode.baseline l).0 ≡ o.0
      → (run_faulted digest k e b a o).0 ≡ ok r
      → IsControlled r
  unfolding run_faulted
  run_faulted_sound r l (err x, m) bound first h = cc
  run_faulted_sound r l (ok base, m) bound first h =
      let (faulty, second, done) = >>=-inv _ (conclude e a base) h in
      conclude_sound base faulty r bound l m first second done

  run_both_sound :
      (r : ExperimentReport) (o : Result RunError Unit × Lab)
      → (o.0 ≡ ok tt → IsBound e b)
      → (run_both digest k e b a o).0 ≡ ok r
      → IsControlled r
  unfolding run_both
  run_both_sound r (err x, m) bound h = cc
  run_both_sound r (ok u, m) bound h =
      run_faulted_sound r m (run_once digest k e b a RunMode.baseline m) (bound refl) refl h

  -- If `run` returns a report then the experiment's scenario is the bound one in all its fields and
  -- all its tools are there; the report's two runs are those of `run_once` in the two modes, they
  -- started from equal states, and the comparison is theirs.
  pub run_sound :
      (lab : Lab) {r : ExperimentReport} → (run digest k e b a lab).0 ≡ ok r → IsControlled r
  unfolding run
  run_sound lab {r} h = run_both_sound r (validate e b lab) (validate_sound e b lab) h

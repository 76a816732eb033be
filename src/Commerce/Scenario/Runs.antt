-- ===== src/Commerce/Scenario/Runs.antt =====
-- Every experiment on the commerce scenario comes to a report (scenario.py, runner.py).
use rift_reliability_injecti.Prelude.{
  ℕ, String, ◌≡◌, refl, true, Option, List, map, All, is_unique, string_eq, nat_eq, pair_eq,
}
use rift_reliability_injecti.Prelude.Dict
use rift_reliability_injecti.Prelude.Result.{ok}
use rift_reliability_injecti.Core.Json.{JsonObject, object}
use rift_reliability_injecti.Core.Json.Equality.{py_eq, keys}
use rift_reliability_injecti.Core.Fault.{FaultRule}
use rift_reliability_injecti.Core.Fault.Validation.{IsWellFormed}
use rift_reliability_injecti.Core.Spec.{selector}
use rift_reliability_injecti.Commerce.Repository.{Repository, reset, snapshot, price}
use rift_reliability_injecti.Commerce.Tools.Dumps.{snapshot_json}
use rift_reliability_injecti.Commerce.Scenario.{
  Texts, commerce_binding, commerce_experiment, declared_initial_state,
}
use rift_reliability_injecti.Commerce.Tools.{build_tool_handlers}
use rift_reliability_injecti.Commerce.Ordering.{commerce_scenario_invariants}
use rift_reliability_injecti.Invariants.Library.{field_equals, count_equals, numeric_equals}
use rift_reliability_injecti.Engine.State.{Clock}
use rift_reliability_injecti.Engine.Record.{IsMonotone}
use rift_reliability_injecti.Commerce.Models.{CommerceSnapshot}
use rift_reliability_injecti.Commerce.Invariants.Named.{commerce_scenario_invariants-IsNamed}
use rift_reliability_injecti.Invariants.Evaluator.{EvaluationContext}
use rift_reliability_injecti.Invariants.Evaluator.Summary.{IsNamed, name_of}
use rift_reliability_injecti.Runner.Adapter.{SequentialAdapter, IsConfined}
use rift_reliability_injecti.Runner.Compare.{ExperimentReport}
use rift_reliability_injecti.Runner.Gateway.{Session}
use rift_reliability_injecti.Runner.Lifecycle.Settled.{IsRunnable}
use rift_reliability_injecti.Runner.Lifecycle.Returned.{run_returns}
use rift_reliability_injecti.Runner.Setup.{
  Lab, validate, differing_fields, check_identity, check_content, validate_content,
}
use rift_reliability_injecti.Runner.Lifecycle.{check_start, start_state, task_of, run}

-- The declared state is the one that a reset leaves.
declared-reset :
    (t : Texts)
    → t.decimal_text price ≡ "79.99"
    → snapshot_json t.decimal_text (snapshot reset) ≡ declared_initial_state
unfolding snapshot snapshot_json reset Dict.sorted_values Dict.put Dict.empty
declared-reset t h = rw h refl

-- The scenario's own declaration agrees with itself, and has the tools that it declares.
commerce-validate :
    (t : Texts) (id : String) (rules : List FaultRule) (seed : ℕ) (d : Option String) (lab : Lab)
    → (validate (commerce_experiment id rules seed d) (commerce_binding t) lab).0 ≡ ok tt
unfolding validate check_identity check_content validate_content commerce_experiment
    commerce_binding differing_fields build_tool_handlers commerce_scenario_invariants py_eq
    field_equals count_equals numeric_equals keys
commerce-validate t id rules seed d lab = refl

pub commerce-start :
    (t : Texts) (id : String) (rules : List FaultRule) (seed : ℕ) (d : Option String) (lab : Lab)
    → t.decimal_text price ≡ "79.99"
    → is_unique (map selector rules) ≡ true
    → check_start (commerce_experiment id rules seed d) (start_state (commerce_binding t) lab)
      ≡ ok tt
unfolding check_start commerce_experiment commerce_binding keys
commerce-start t id rules seed d lab h u = rw (declared-reset t h, u) (unfold py_eq in refl)

commerce-distinct : (t : Texts) → is_unique (map name_of (commerce_binding t).invariants) ≡ true
unfolding commerce_binding commerce_scenario_invariants field_equals count_equals numeric_equals
commerce-distinct t = refl

commerce-labelled :
    (t : Texts) (c : EvaluationContext CommerceSnapshot)
    → All (IsNamed c) (commerce_binding t).invariants
unfolding commerce_binding
commerce-labelled t c = commerce_scenario_invariants-IsNamed t.parse_int t.str_of t.decimal_text c

commerce-same_start :
    (t : Texts) (l m : Lab)
    → t.decimal_text price ≡ "79.99"
    → py_eq
        (object (start_state (commerce_binding t) l))
        (object (start_state (commerce_binding t) m))
      ≡ true
unfolding commerce_binding keys
commerce-same_start t l m h = rw (declared-reset t h) (unfold py_eq in refl)

pub commerce-IsRunnable :
    (k : Clock) (t : Texts) (id : String) (rules : List FaultRule) (seed : ℕ) (d : Option String)
    → IsMonotone k
    → All IsWellFormed rules
    → IsRunnable k (commerce_experiment id rules seed d) (commerce_binding t)
unfolding commerce_experiment
commerce-IsRunnable k t id rules seed d m f = record {
  clocked = m;
  validated = f;
  labelled = commerce-labelled t;
  distinct = commerce-distinct t;
}

-- Every experiment on the commerce scenario comes to a report, whatever its faults do to the calls, if
-- the clock does not run backwards, the rules are well formed and no two aim at one invocation, the
-- agent awaits each call before the next and acts through its gateway alone, and the text of the
-- price is 79.99.
pub commerce_run_returns :
    (digest : JsonObject → String) (k : Clock) (t : Texts) (id : String) (rules : List FaultRule)
    (seed : ℕ) (d : Option String) (a : SequentialAdapter (Session Repository)) (lab : Lab)
    → IsMonotone k
    → All IsWellFormed rules
    → is_unique (map selector rules) ≡ true
    → IsConfined a (task_of (commerce_binding t))
    → t.decimal_text price ≡ "79.99"
    → (r : ExperimentReport) × ((run digest k
          (commerce_experiment id rules seed d)
          (commerce_binding t)
          a
          lab).0
        ≡ ok r)
commerce_run_returns digest k t id rules seed d a lab m f u c h =
    run_returns digest k (commerce_experiment id rules seed d) (commerce_binding t) a lab
      (commerce-IsRunnable k t id rules seed d m f) c (λ l. commerce-start t id rules seed d l h u)
      (λ l n. commerce-same_start t l n h) (commerce-validate t id rules seed d lab)

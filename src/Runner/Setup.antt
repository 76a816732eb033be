-- ===== src/Runner/Setup.antt =====
-- packages/rift_experiment_runner/src/rift_experiment_runner/runner.py: the scenario's binding, the
-- errors of the runner, and `_validate`. The binding is what the protocols `ScenarioBinding` and
-- `ScenarioEnvironment` demand; an environment is a world that its methods read and change.
use rift_reliability_injecti.Prelude.{
  ℕ, suc, String, Bool, true, false, not, ◌&&◌, Option, is_some, List, [], ◌∷◌, ◌++◌, map, select,
  eqb, string_eq, nat_eq, pair_eq, ◌==◌, if◌then◌else◌,
}
use rift_reliability_injecti.Prelude.Result.{Result, ok, err, ◌>>◌, raise_if}
use rift_reliability_injecti.Core.Json.{JsonObject, object, item, end}
use rift_reliability_injecti.Core.Json.Equality.{py_eq}
use rift_reliability_injecti.Core.Spec.{ScenarioSpec, ExperimentSpec}
use rift_reliability_injecti.Engine.Action.{Operation}
use rift_reliability_injecti.Invariants.Evaluator.{Invariant}

-- `create_environment` is given how many environments there were before.
pub record Binding (W S : Type 0) : Type 0 where
  pub spec : ScenarioSpec
  pub create_environment : ℕ → W
  pub reset : W → W
  pub snapshot : W → S
  pub snapshot_json : S → JsonObject
  pub tool_handlers : String → Option (JsonObject → Operation W)
  pub invariants : List (Invariant S)

-- The `ExperimentConfigurationError`s with what their messages name; then the `ValueError` of the
-- executor's constructor, and the validation error of the run result.
pub data RunError : Type 0 where
  another_scenario : ScenarioSpec → ScenarioSpec → RunError
  other_invariants : List String → List String → RunError
  unbound_tools : List String → RunError
  differing_content : List String → RunError
  drifted : String → List String → RunError
  different_starts : RunError
  repeated_selectors : RunError
  invalid_result : String → RunError

-- What outlives a run: the readings of the runner's clock, and the environments created so far.
pub record Lab : Type 0 where
  pub readings : ℕ
  pub environments : ℕ

abbrev pub same_texts : List String → List String → Bool
same_texts [] [] = true
same_texts (a ∷ xs) (b ∷ ys) = (a == b) && same_texts xs ys
same_texts _ _ = false

abbrev pub has_items : JsonObject → Bool
has_items end = false
has_items (item k v rest) = true

abbrev pub has_elements : {A : Type 0} → List A → Bool
has_elements [] = false
has_elements (x ∷ xs) = true

abbrev field_if : Bool → String → List String
field_if same name = if same then [] else name ∷ []

-- The fields in which the declared scenario is not the bound one.
unfoldable pub differing_fields : ScenarioSpec → ScenarioSpec → List String
differing_fields a b =
    field_if (a.scenario_id == b.scenario_id) "scenario_id"
    ++ field_if (a.name == b.name) "name"
    ++ field_if (a.task == b.task) "task"
    ++ field_if (eqb a.version b.version) "version"
    ++ field_if (py_eq (object a.initial_state) (object b.initial_state)) "initial_state"
    ++ field_if (same_texts a.tool_names b.tool_names) "tool_names"
    ++ field_if (same_texts a.invariant_ids b.invariant_ids) "invariant_ids"

module _ {W S : Type 0} where
  abbrev pub invariant_names : Binding W S → List String
  invariant_names b = map (λ (i : Invariant S). i.name) b.invariants

  -- The checks of `_validate` before it creates an environment.
  unfoldable pub check_identity : ExperimentSpec → Binding W S → Result RunError Unit
  check_identity e b = do
    raise_if
        (not
          (e.scenario.scenario_id == b.spec.scenario_id && eqb e.scenario.version b.spec.version))
        (another_scenario e.scenario b.spec)
    raise_if
        (has_elements e.scenario.invariant_ids
          && not (same_texts e.scenario.invariant_ids (invariant_names b)))
        (other_invariants e.scenario.invariant_ids (invariant_names b))

  abbrev pub missing_tools : ExperimentSpec → Binding W S → List String
  missing_tools e b = select (λ name. not (is_some (b.tool_handlers name))) e.scenario.tool_names

  -- The checks after it.
  unfoldable pub check_content : ExperimentSpec → Binding W S → Result RunError Unit
  unfolding differing_fields
  check_content e b = do
    raise_if (has_elements (missing_tools e b)) (unbound_tools (missing_tools e b))
    raise_if (has_elements (differing_fields e.scenario b.spec))
        (differing_content (differing_fields e.scenario b.spec))

  -- The rest of `_validate`, which creates an environment to ask for its tools.
  unfoldable pub validate_content :
      ExperimentSpec → Binding W S → Lab → Result RunError Unit → Result RunError Unit × Lab
  unfolding check_content
  validate_content e b lab (err x) = (err x, lab)
  validate_content e b lab (ok _) =
      (check_content e b, record lab { environments = suc lab.environments })

  -- `_validate`
  unfoldable pub validate : ExperimentSpec → Binding W S → Lab → Result RunError Unit × Lab
  unfolding check_identity validate_content
  validate e b lab = validate_content e b lab (check_identity e b)

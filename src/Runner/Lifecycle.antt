-- ===== src/Runner/Lifecycle.antt =====
-- packages/rift_experiment_runner/src/rift_experiment_runner/runner.py: the baseline and the faulted
-- run of an experiment.
pub mod Settled
pub mod Controlled
pub mod Returned
use rift_reliability_injecti.Prelude.{
  ℕ, suc, ◌+◌, String, Bool, true, false, not, ◌&&◌, Option, none, some, is_some, List, [], ◌∷◌,
  ◌++◌, map, select, is_unique, eqb, string_eq, nat_eq, pair_eq, ◌==◌, if◌then◌else◌,
}
use rift_reliability_injecti.Prelude.Result.{Result, ok, err, ◌>>=◌, ◌>>◌, raise_if}
use rift_reliability_injecti.Prelude.Text.{◌&◌}
use rift_reliability_injecti.Core.Json.{JsonObject, text, object, item, end}
use rift_reliability_injecti.Core.Json.Equality.{py_eq}
use rift_reliability_injecti.Core.Fault.{FaultRule, RunMode}
use rift_reliability_injecti.Core.Spec.{ScenarioSpec, ExperimentSpec, ExecutionContext, selector}
use rift_reliability_injecti.Core.Contracts.{AgentTask, AgentRunOutput, AgentStatus}
use rift_reliability_injecti.Core.Outcome.{InvariantResult, RunOutcome, derive_run_outcome}
use rift_reliability_injecti.Core.Run.{ExperimentRunResult, validate_run_references}
use rift_reliability_injecti.Engine.Exceptions.{Exception, type_name, message_of}
use rift_reliability_injecti.Engine.State.{Clock, new_executor}
use rift_reliability_injecti.Engine.Action.{Operation}
use rift_reliability_injecti.Invariants.Evaluator.{Invariant, evaluate}
use rift_reliability_injecti.Runner.Adapter.{SequentialAdapter}
use rift_reliability_injecti.Runner.Gateway.{Gateway, Session, call}
use rift_reliability_injecti.Runner.Evaluation.{classify, fired_rule_ids, invocation_evidence}
use rift_reliability_injecti.Runner.Differences.{StateDifference, diff_states}
use rift_reliability_injecti.Runner.Compare.{RunReport, ExperimentReport, compare, fingerprint}
use rift_reliability_injecti.Runner.Setup.{
  Binding, Lab, RunError, another_scenario, check_content, check_identity, different_starts,
  differing_content, differing_fields, drifted, has_elements, has_items, invalid_result,
  invariant_names, missing_tools, other_invariants, repeated_selectors, same_texts, unbound_tools,
  validate, validate_content,
}

abbrev pub path_of : StateDifference → String
path_of d = d.path

module _ {W S : Type 0} where
  -- The world that a run starts from.
  abbrev pub start_world : Binding W S → Lab → W
  start_world b lab = b.reset (b.create_environment lab.environments)

  abbrev pub start_state : Binding W S → Lab → JsonObject
  start_state b lab = b.snapshot_json (b.snapshot (start_world b lab))

-- The check of the reset state against the declared one, and the one of the executor's constructor.
unfoldable pub check_start : ExperimentSpec → JsonObject → Result RunError Unit
check_start e initial = do
  raise_if
      (has_items e.scenario.initial_state
        && not (py_eq (object e.scenario.initial_state) (object initial)))
      (drifted e.scenario.scenario_id (map path_of (diff_states e.scenario.initial_state initial)))
  raise_if (not (is_unique (map selector e.fault_rules))) repeated_selectors

-- `RunMode.value`
abbrev pub mode_value : RunMode → String
mode_value RunMode.baseline = "baseline"
mode_value RunMode.faulted = "faulted"

abbrev pub run_context : ExperimentSpec → RunMode → ExecutionContext
run_context e mode = record {
  experiment_id = e.experiment_id;
  run_id = e.experiment_id & ":" & mode_value mode;
  seed = e.seed;
  run_mode = mode;
}

-- What the adapter returned or, where it raised, the report of its crash.
unfoldable pub agent_output : Result Exception AgentRunOutput → ℕ → AgentRunOutput
agent_output (ok output) calls = output
agent_output (err e) calls = record {
  status = AgentStatus.crashed;
  final_message = none;
  tool_calls = calls;
  metadata = item "error" (text (type_name e & ": " & message_of e)) end;
}

-- A fresh executor and a world, before the first call.
abbrev pub first_session : {W : Type 0} → ℕ → W → Session W
first_session readings w = record {
  calls = 0;
  running = record { executor = record new_executor { readings = readings }; world = w };
}

-- `RunReport(...)`
unfoldable pub run_report :
    (JsonObject → String)
    → RunMode
    → JsonObject
    → AgentRunOutput
    → JsonObject
    → ExperimentRunResult
    → RunReport
run_report digest mode initial out final r = record {
  mode = mode;
  result = r;
  agent = out;
  classification = classify r.outcome out;
  initial_state = initial;
  fired_fault_rule_ids = fired_rule_ids r.tool_invocations;
  fingerprint = fingerprint digest r.tool_invocations final r.invariant_results out;
}

-- `ExperimentReport(...)`
abbrev pub experiment_report :
    {G : Type 0} → ExperimentSpec → SequentialAdapter G → RunReport → RunReport → ExperimentReport
experiment_report e a base faulty = record {
  experiment = e;
  adapter = record { name = a.name; version = a.version };
  baseline = base;
  faulted = faulty;
  comparison = compare base faulty e.fault_rules;
}

-- The end of `run`: both runs have to have started from equal states.
unfoldable pub conclude :
    {G : Type 0}
    → ExperimentSpec
    → SequentialAdapter G
    → RunReport
    → RunReport
    → Result RunError ExperimentReport
conclude e a base faulty = do
  raise_if (not (py_eq (object base.initial_state) (object faulty.initial_state))) different_starts
  ok (experiment_report e a base faulty)

module _ {W S : Type 0} where
  abbrev pub task_of : Binding W S → AgentTask
  task_of b = record {
    scenario_id = b.spec.scenario_id;
    instruction = b.spec.task;
    max_tool_calls = 50;
  }

  -- The invariants' verdicts on a session that started from `w`.
  abbrev pub judged : Binding W S → W → Session W → List InvariantResult
  judged b w s = evaluate b.invariants (record {
    before_state = b.snapshot w;
    after_state = b.snapshot s.running.world;
    evidence = invocation_evidence s.running.executor.records;
  })

module _ {W S : Type 0} (k : Clock) where
  abbrev pub gateway_of : ExperimentSpec → Binding W S → RunMode → Gateway W
  gateway_of e b mode = record {
    clock = k;
    fault_rules = e.fault_rules;
    handlers = b.tool_handlers;
    execution_context = run_context e mode;
    max_tool_calls = (task_of b).max_tool_calls;
  }

  -- `ExperimentRunResult(...)`, before its validation.
  unfoldable pub run_result :
      ExperimentSpec → Binding W S → RunMode → W → AgentRunOutput → Session W → ExperimentRunResult
  run_result e b mode w out s = record {
    context = run_context e mode;
    outcome = derive_run_outcome (judged b w s);
    tool_invocations = s.running.executor.records;
    state_snapshot = some (record {
      snapshot_id = (run_context e mode).run_id & ":final";
      run_id = (run_context e mode).run_id;
      captured_at = k.now s.running.executor.readings;
      state = b.snapshot_json (b.snapshot s.running.world);
      schema_version = "1";
    });
    invariant_results = judged b w s;
    agent_response = out.final_message;
  }

  -- The adapter's run, with the session that it leaves.
  unfoldable pub play_run :
      ExperimentSpec
      → Binding W S
      → SequentialAdapter (Session W)
      → RunMode
      → Lab
      → AgentRunOutput × Session W
  unfolding agent_output
  play_run e b a mode lab =
      let (out, s) =
        a.run (task_of b) (call (gateway_of e b mode))
          (first_session lab.readings (start_world b lab)) in
      (agent_output out s.calls, s)

module _ (digest : JsonObject → String) where
  -- The report on a result, if the validator returned one.
  unfoldable pub report_on :
      RunMode
      → JsonObject
      → AgentRunOutput
      → JsonObject
      → Result String ExperimentRunResult
      → Result RunError RunReport
  unfolding run_report
  report_on mode initial out final (err m) = err (invalid_result m)
  report_on mode initial out final (ok r) = ok (run_report digest mode initial out final r)

module _ {W S : Type 0} (digest : JsonObject → String) (k : Clock) where
  -- `run_once` from the return of the adapter on, for a run that started from `w`.
  unfoldable pub close_run :
      ExperimentSpec
      → Binding W S
      → RunMode
      → W
      → AgentRunOutput
      → Session W
      → Result RunError RunReport
  unfolding run_result report_on
  close_run e b mode w out s =
      report_on digest mode (b.snapshot_json (b.snapshot w)) out
        (b.snapshot_json (b.snapshot s.running.world))
        (validate_run_references (run_result k e b mode w out s))

  -- The rest of `run_once`, after its checks.
  unfoldable pub run_checked :
      ExperimentSpec
      → Binding W S
      → SequentialAdapter (Session W)
      → RunMode
      → Lab
      → Result RunError Unit
      → Result RunError RunReport × Lab
  unfolding close_run play_run
  run_checked e b a mode lab (err x) = (err x, record lab { environments = suc lab.environments })
  run_checked e b a mode lab (ok _) =
      let (out, s) = play_run k e b a mode lab in
      (
        close_run e b mode (start_world b lab) out s,
        record { readings = suc s.running.executor.readings; environments = suc lab.environments },
      )

  -- `run_once`
  unfoldable pub run_once :
      ExperimentSpec
      → Binding W S
      → SequentialAdapter (Session W)
      → RunMode
      → Lab
      → Result RunError RunReport × Lab
  unfolding check_start run_checked
  run_once e b a mode lab = run_checked e b a mode lab (check_start e (start_state b lab))

  unfoldable pub run_faulted :
      ExperimentSpec
      → Binding W S
      → SequentialAdapter (Session W)
      → Result RunError RunReport × Lab
      → Result RunError ExperimentReport × Lab
  unfolding run_once conclude
  run_faulted e b a (err x, lab) = (err x, lab)
  run_faulted e b a (ok base, lab) =
      let (r, lab') = run_once e b a RunMode.faulted lab in (r >>= conclude e a base, lab')

  -- The rest of `run`, after `_validate`.
  unfoldable pub run_both :
      ExperimentSpec
      → Binding W S
      → SequentialAdapter (Session W)
      → Result RunError Unit × Lab
      → Result RunError ExperimentReport × Lab
  unfolding run_faulted
  run_both e b a (err x, lab) = (err x, lab)
  run_both e b a (ok _, lab) = run_faulted e b a (run_once e b a RunMode.baseline lab)

  -- `run`
  unfoldable pub run :
      ExperimentSpec
      → Binding W S
      → SequentialAdapter (Session W)
      → Lab
      → Result RunError ExperimentReport × Lab
  unfolding validate run_both
  run e b a lab = run_both e b a (validate e b lab)

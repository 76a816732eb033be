-- ===== src/Lib.antt =====
-- RIFT injects faults into the tool calls of an agent and judges the agent by the state that it
-- leaves. This library models its parts and proves what makes them correct. Paths are from the
-- root of the repository.
--
-- Parts, and how they interact. The runner (packages/rift_experiment_runner) runs an experiment
-- twice, without and with faults, each time from a fresh environment of the scenario. An agent
-- (packages/rift_agent_adapters) calls tools through the runner's gateway, which keeps a budget and
-- hands each call to an executor (packages/rift_fault_engine). The executor numbers the call, finds
-- the fault rule for it, runs the scenario's operation as often as the rule says, and records what
-- happened. The records, the rules and the outcomes are values of packages/rift_core with validators
-- of their own. Invariants (packages/rift_invariant_engine) are evaluated on the state that is left
-- and on the trace of the calls, and the runner compares the two runs. The scenario of
-- examples/commerce_demo is a store with orders, payments, refunds, stock and notifications, with
-- tools, invariants, agents and fault cases of its own.
--
-- Files:
--   Prelude              what the modules share: tests, lists, dicts, integers, results, text
--   Core.Json            JSON values, and Python's equality on them
--   Core.Fault           rift_core/domain.py: FaultType, FaultRule
--   Core.Invocation      rift_core/domain.py: ToolInvocation, `validate_outcomes`
--   Core.Outcome         rift_core/domain.py: `derive_run_outcome`, InvariantResult
--   Core.Spec            rift_core/domain.py: ScenarioSpec, ExperimentSpec, ExecutionContext
--   Core.Run             rift_core/domain.py: StateSnapshot, ExperimentRunResult
--   Core.Contracts       rift_core/contracts.py
--   Engine.Exceptions    rift_fault_engine/exceptions.py and the texts of executor.py
--   Engine.State         executor.py: `_BaseToolExecutor`, `_next_invocation_number`, `_record`
--   Engine.Action        executor.py: actions on the executor's state and the scenario's world
--   Engine.Record        what `_record` writes
--   Engine.Execute       executor.py: `execute` and a function for each way to carry out a call
--   Engine.Overlap       executor.py: the starts and records of calls that overlap, step by step
--   Runner.Gateway       rift_experiment_runner/gateway.py: `call`
--   Runner.Evaluation    rift_experiment_runner/evaluation.py: classes, evidence, verdicts, deltas
--   Runner.Differences   rift_experiment_runner/evaluation.py: `diff_states`
--   Runner.Compare       rift_experiment_runner/evaluation.py and models.py: `compare`, `fingerprint`
--   Runner.Adapter       rift_core/contracts.py: the AgentAdapter protocol, without overlapping calls
--   Runner.Setup         rift_experiment_runner/runner.py: the binding of a scenario, `_validate`
--   Runner.Lifecycle     rift_experiment_runner/runner.py: `run_once`, `run`
--   Invariants.Evaluator rift_invariant_engine/evaluator.py and contracts.py
--   Invariants.Library   rift_invariant_engine/invariants.py, with the values of Invariants.Values
--   Agent.Script         rift_agent_adapters/scripted.py: the script and its checks
--   Agent.Scripted       rift_agent_adapters/scripted.py: `run`
--   Commerce             commerce_demo: Money, Models, Repository, Method and Sandbox the store; Tools
--                        tools.py; Invariants invariants.py; Ordering ordering.py; Agents agents.py;
--                        Scenario scenario.py; FaultCases fault_cases.py
--   Examples             the theorems at concrete inputs
-- Children of these hold the proofs, each named for what it proves.
--
-- State. A method that changes an object's attributes is a function from the object's state to a
-- result and the next state; what was written before an exception stays written. The executor's
-- state goes together with the world that operations change, and an operation is any function on
-- that world that returns a JSON value or raises. A run owns its session (the executor, the world
-- and the calls made); from one run to the next the runner keeps its clock and the number of
-- environments that were created.
--
-- Parameters. The clock is a function from the number of a reading to its value; that it does not run
-- backwards is a named hypothesis, IsMonotone. The handlers of the gateway, the gateway of the agent,
-- the binding of the runner, and the agent's two predicates are arguments. An adapter is any function
-- of a gateway and its state that awaits each call before it makes the next; IsConfined says what the protocol demands, that it affects the state
-- through its calls alone, and the scripted agent is shown to be so. The check that pydantic makes of
-- a money field is the argument `accepts` of the sandbox. Further arguments are Python's own: `digest`
-- (canonical JSON and SHA-256), `decimal_text` and `parse_decimal` (a decimal and its text), `quoted`
-- (the repr of a text), `parse_int` (int of a text), `str_of` (str of a document).
--
-- Loops. The agent's retry loop is recursion on the attempts left, which its policy bounds, and its
-- script a list; comparing documents is recursion on them; `show` has fuel of one more than the
-- number, which has at most as many digits.
--
-- Not modelled: floats in JSON values; pydantic's stripping of text and its type checks; the rounding
-- of decimals to the precision of their context; agents whose calls overlap (for
-- these the executor's start evidence alone is modelled); the text that pydantic
-- puts around the message of a failed check, in str of a ValidationError; rendered reports; the
-- descriptions and schemas of tools; logging; the command line and the web service.
pub mod Prelude
pub mod Core
pub mod Engine
pub mod Runner
pub mod Invariants
pub mod Agent
pub mod Commerce
pub mod Examples

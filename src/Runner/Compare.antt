-- ===== src/Runner/Compare.antt =====
-- packages/rift_experiment_runner/src/rift_experiment_runner: the reports of models.py, and `compare`
-- and `fingerprint` of evaluation.py. `digest` stands for the SHA-256 of the canonical JSON text of a
-- document.
use rift_reliability_injecti.Prelude.{
  String, Bool, true, false, not, Option, none, some, is_some, List, [], ◌∷◌, map, select,
  if◌then◌else◌,
}
use rift_reliability_injecti.Prelude.Int.{pos}
use rift_reliability_injecti.Prelude.Text.{◌&◌}
use rift_reliability_injecti.Core.Json.{
  JsonValue, JsonObject, null, boolean, integer, text, array, object, item, end, items,
  optional_number, optional_text,
}
use rift_reliability_injecti.Core.Fault.{FaultRule, RunMode}
use rift_reliability_injecti.Core.Invocation.{ToolInvocation}
use rift_reliability_injecti.Core.Outcome.{
  InvariantStatus, InvariantResult, RunOutcome, is_passing_run, is_pass,
}
use rift_reliability_injecti.Core.Run.{ExperimentRunResult, StateSnapshot}
use rift_reliability_injecti.Core.Spec.{ExperimentSpec}
use rift_reliability_injecti.Core.Contracts.{AgentRunOutput, AgentStatus, claims_success}
use rift_reliability_injecti.Agent.Scripted.{join}
use rift_reliability_injecti.Runner.Evaluation.{
  OutcomeClassification, ComparisonVerdict, InvariantDelta, resilient, degraded, baseline_invalid,
  not_exercised, verdict_of, unfired_of, invariant_deltas, status_by_id, first_places, result_ids,
}
use rift_reliability_injecti.Runner.Differences.{StateDifference, diff_states}

pub record AdapterIdentity : Type 0 where
  pub name : String
  pub version : String

pub record RunReport : Type 0 where
  pub mode : RunMode
  pub result : ExperimentRunResult
  pub agent : AgentRunOutput
  pub classification : OutcomeClassification
  pub initial_state : JsonObject
  pub fired_fault_rule_ids : List String
  pub fingerprint : String

-- `RunReport.outcome`
abbrev pub report_outcome : RunReport → RunOutcome
report_outcome r = r.result.outcome

pub record Comparison : Type 0 where
  pub verdict : ComparisonVerdict
  pub baseline_valid : Bool
  pub explanation : String
  pub invariant_deltas : List InvariantDelta
  pub state_differences : List StateDifference
  pub unfired_fault_rule_ids : List String

pub record ExperimentReport : Type 0 where
  pub experiment : ExperimentSpec
  pub adapter : AdapterIdentity
  pub baseline : RunReport
  pub faulted : RunReport
  pub comparison : Comparison

-- `RunOutcome.value`
abbrev pub outcome_value : RunOutcome → String
outcome_value RunOutcome.pass = "pass"
outcome_value RunOutcome.fail = "fail"
outcome_value RunOutcome.error = "error"
outcome_value RunOutcome.inconclusive = "inconclusive"

-- `InvariantStatus.value`
abbrev pub status_value : InvariantStatus → String
status_value InvariantStatus.pass = "pass"
status_value InvariantStatus.fail = "fail"
status_value InvariantStatus.error = "error"

-- `AgentStatus.value`
abbrev pub agent_value : AgentStatus → String
agent_value AgentStatus.completed = "completed"
agent_value AgentStatus.gave_up = "gave_up"
agent_value AgentStatus.crashed = "crashed"

-- `_final_state`
abbrev pub state_of : Option StateSnapshot → JsonObject
state_of none = end
state_of (some s) = s.state

abbrev pub final_state : RunReport → JsonObject
final_state r = state_of r.result.state_snapshot

-- `delta.faulted is not InvariantStatus.PASS`
abbrev pub is_broken : InvariantDelta → Bool
is_broken d = not (elim d.faulted [ none ↦ false | some s ↦ is_pass s ])

abbrev pub delta_id : InvariantDelta → String
delta_id d = d.invariant_id

-- The explanation of a verdict, without the note on unfired rules.
unfoldable pub explain : ComparisonVerdict → RunReport → RunReport → List InvariantDelta → String
explain baseline_invalid base faulty deltas =
    "The fault-free baseline ended "
    & outcome_value (report_outcome base)
    & ", so it is not a valid control. Fix the agent or scenario before interpreting the faulted run."
explain not_exercised base faulty deltas =
    "No fault rule matched an invocation the agent made, so this experiment did not exercise any failure. A passing faulted run here is not evidence of resilience."
explain resilient base faulty deltas = "Faults were injected and every invariant still held."
explain degraded base faulty deltas =
    "Faults were injected and the faulted run ended "
    & outcome_value (report_outcome faulty)
    & "; invariants not satisfied: "
    & join (map delta_id (select is_broken deltas))
    & "."
    & (if claims_success faulty.agent.status
        then " The agent nevertheless reported success."
        else "")

abbrev pub is_not_exercised : ComparisonVerdict → Bool
is_not_exercised not_exercised = true
is_not_exercised _ = false

-- The note on the rules that did not fire.
abbrev pub unfired_note : ComparisonVerdict → List String → String
unfired_note v [] = ""
unfired_note v (x ∷ xs) =
    if is_not_exercised v then "" else " Unfired fault rules: " & join (x ∷ xs) & "."

-- `compare`
unfoldable pub compare : RunReport → RunReport → List FaultRule → Comparison
unfolding explain
compare base faulty rules =
    let fired = faulty.fired_fault_rule_ids in
    let unfired = unfired_of rules fired in
    let deltas = invariant_deltas base.result.invariant_results faulty.result.invariant_results in
    let verdict = verdict_of (report_outcome base) (report_outcome faulty) fired in
    record {
      verdict = verdict;
      baseline_valid = is_passing_run (report_outcome base);
      explanation = explain verdict base faulty deltas & unfired_note verdict unfired;
      invariant_deltas = deltas;
      state_differences = diff_states (final_state base) (final_state faulty);
      unfired_fault_rule_ids = unfired;
    }

-- What `fingerprint` keeps of an invocation.
abbrev pub fingerprint_entry : ToolInvocation → JsonValue
fingerprint_entry i = object (
    item "tool" (text i.tool_name) (
      item "number" (integer (pos i.invocation_number)) (
        item "sequence" (optional_number i.sequence_number) (
          item "completed_before_start" (optional_number i.completed_before_start) (
            item "arguments" (object i.arguments) (
              item "fault_rule_id" (optional_text i.fault_rule_id) (
                item "executed" (boolean i.executed) (
                  item "committed" (elim i.committed [ none ↦ null | some b ↦ boolean b ])
                    (item "execution_count" (optional_number i.execution_count)
                      (item "caller_failed" (boolean (is_some i.caller_error)) end))))))))))

abbrev pub optional_status : Option InvariantStatus → JsonValue
optional_status none = null
optional_status (some s) = text (status_value s)

-- `{result.invariant_id: result.status.value for result in results}`
abbrev pub statuses : List String → List InvariantResult → JsonObject
statuses [] rs = end
statuses (id ∷ ids) rs = item id (optional_status (status_by_id id rs)) (statuses ids rs)

-- The `payload` of `fingerprint`.
unfoldable pub fingerprint_payload :
    List ToolInvocation → JsonObject → List InvariantResult → AgentRunOutput → JsonObject
fingerprint_payload invocations state results agent =
    item "invocations" (array (items (map fingerprint_entry invocations))) (
      item "final_state" (object state) (
        item "invariants" (object (statuses (first_places [] (result_ids results)) results))
          (item "agent_status" (text (agent_value agent.status)) end)))

-- `fingerprint`
unfoldable pub fingerprint :
    (JsonObject → String)
    → List ToolInvocation
    → JsonObject
    → List InvariantResult
    → AgentRunOutput
    → String
unfolding fingerprint_payload
fingerprint digest invocations state results agent =
    digest (fingerprint_payload invocations state results agent)

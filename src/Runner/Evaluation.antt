-- ===== src/Runner/Evaluation.antt =====
-- packages/rift_experiment_runner/src/rift_experiment_runner: models.py, and the rules of
-- evaluation.py that classify a run and compare a faulted run with its baseline.
pub mod Verdicts
use rift_reliability_injecti.Prelude.{
  ℕ, zero, suc, ◌+◌, String, Bool, true, false, not, ◌&&◌, ◌||◌, Option, none, some, List, [], ◌∷◌,
  ◌++◌, map, select, contains, string_eq, ◌==◌, find, if◌then◌else◌,
}
use rift_reliability_injecti.Prelude.Int.{pos}
use rift_reliability_injecti.Core.Json.{
  JsonValue, JsonItems, JsonObject, null, boolean, integer, text, array, object, item, end, nil,
  cons, optional_number,
}
use rift_reliability_injecti.Core.Fault.{FaultRule, FaultType}
use rift_reliability_injecti.Core.Invocation.{ToolInvocation}
use rift_reliability_injecti.Core.Outcome.{
  InvariantStatus, InvariantResult, RunOutcome, is_passing_run,
}
use rift_reliability_injecti.Core.Contracts.{AgentRunOutput, AgentStatus, claims_success}

pub data OutcomeClassification : Type 0 where
  correct silent_failure detected_failure unconfirmed_success : OutcomeClassification
  evaluation_error : OutcomeClassification

-- `classify`
unfoldable pub classify : RunOutcome → AgentRunOutput → OutcomeClassification
classify RunOutcome.pass agent =
    if claims_success agent.status then correct else unconfirmed_success
classify RunOutcome.fail agent =
    if claims_success agent.status then silent_failure else detected_failure
classify RunOutcome.error agent = evaluation_error
classify RunOutcome.inconclusive agent = evaluation_error

-- `fired_rule_ids`
unfoldable pub fired_rule_ids : List ToolInvocation → List String
fired_rule_ids [] = []
fired_rule_ids (i ∷ rest) =
    elim i.fault_rule_id [ none ↦ [] | some id ↦ id ∷ [] ] ++ fired_rule_ids rest

-- `FaultType.value`
abbrev pub fault_value : FaultType → String
fault_value FaultType.latency = "latency"
fault_value FaultType.exception = "exception"
fault_value FaultType.rate_limit = "rate_limit"
fault_value FaultType.timeout_before_call = "timeout_before_call"
fault_value FaultType.timeout_after_commit = "timeout_after_commit"
fault_value FaultType.malformed_response = "malformed_response"
fault_value FaultType.duplicate_request = "duplicate_request"

-- An operation that ran and did not raise, whatever the caller saw.
abbrev pub has_succeeded : ToolInvocation → Bool
has_succeeded i = i.executed && elim i.underlying_error [ none ↦ true | some e ↦ false ]

-- The dict that `invocation_evidence` makes of an invocation.
unfoldable pub invocation_item : ℕ → ToolInvocation → JsonObject
invocation_item position i = item "completion_position" (integer (pos position)) (
    item "sequence_number" (optional_number i.sequence_number) (
      item "completed_before_start" (optional_number i.completed_before_start) (
        item "tool" (text i.tool_name) (
          item "invocation_number" (integer (pos i.invocation_number)) (
            item "executed" (boolean i.executed) (
              item "succeeded" (boolean (has_succeeded i)) (
                item "committed" (elim i.committed [ none ↦ null | some b ↦ boolean b ])
                  (item "execution_count" (optional_number i.execution_count) (
                    item "fault_type"
                      (elim i.fault_type [ none ↦ null | some t ↦ text (fault_value t) ])
                      end)))))))))

abbrev pub entries_from : ℕ → List ToolInvocation → JsonItems
entries_from n [] = nil
entries_from n (i ∷ rest) = cons (object (invocation_item n i)) (entries_from (suc n) rest)

-- `invocation_evidence`
unfoldable pub invocation_evidence : List ToolInvocation → JsonObject
unfolding invocation_item
invocation_evidence is = item "invocations" (array (entries_from 1 is)) end

pub data ComparisonVerdict : Type 0 where
  resilient degraded baseline_invalid not_exercised : ComparisonVerdict

pub record InvariantDelta : Type 0 where
  pub invariant_id : String
  pub baseline : Option InvariantStatus
  pub faulted : Option InvariantStatus

-- The verdict of `compare`, from the outcomes of both runs and the rules that fired.
unfoldable pub verdict_of : RunOutcome → RunOutcome → List String → ComparisonVerdict
verdict_of base faulty fired = if not (is_passing_run base) then baseline_invalid else elim fired [
  | [] ↦ not_exercised
  | _ ∷ _ ↦ if is_passing_run faulty then resilient else degraded
]

-- `unfired` of `compare`
unfoldable pub unfired_of : List FaultRule → List String → List String
unfired_of rules fired =
    select (λ id. not (contains id fired)) (map (λ (r : FaultRule). r.fault_rule_id) rules)

-- `{result.invariant_id: result.status for result in results}.get(id)`: the last one counts
abbrev pub status_by_id : String → List InvariantResult → Option InvariantStatus
status_by_id id [] = none
status_by_id id (r ∷ rs) = elim (status_by_id id rs) [
  | some s ↦ some s
  | none ↦ if r.invariant_id == id then some r.status else none
]

abbrev pub result_ids : List InvariantResult → List String
result_ids rs = map (λ (r : InvariantResult). r.invariant_id) rs

-- The keys of a dict built in order: each identifier at its first place.
abbrev pub first_places : List String → List String → List String
first_places seen [] = []
first_places seen (x ∷ xs) =
    let rest = first_places (x ∷ seen) xs in
    if contains x seen then first_places seen xs else x ∷ rest

-- `_invariant_deltas`
unfoldable pub invariant_deltas : List InvariantResult → List InvariantResult → List InvariantDelta
invariant_deltas base faulty =
    let base_ids = first_places [] (result_ids base) in
    let new_ids =
      select (λ id. not (contains id (result_ids base))) (first_places [] (result_ids faulty)) in
    map
      (λ id. record {
        invariant_id = id;
        baseline = status_by_id id base;
        faulted = status_by_id id faulty;
      })
      (base_ids ++ new_ids)

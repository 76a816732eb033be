-- ===== src/Core/Run.antt =====
-- packages/rift_core/src/rift_core/domain.py: `StateSnapshot` and `ExperimentRunResult` with its
-- validator.
pub mod References
use rift_reliability_injecti.Prelude.{
  ℕ, String, Bool, true, false, not, ◌&&◌, ◌||◌, Option, none, some, List, [], ◌∷◌, ◌++◌, map, any,
  eqb, is_unique, ◌==◌, string_eq, nat_eq, if◌then◌else◌,
}
use rift_reliability_injecti.Prelude.Result.{Result, ok, err, ◌>>=◌, ◌>>◌, raise_if}
use rift_reliability_injecti.Core.Json.{JsonObject}
use rift_reliability_injecti.Core.Invocation.{ToolInvocation}
use rift_reliability_injecti.Core.Outcome.{InvariantResult, RunOutcome, derive_run_outcome}
use rift_reliability_injecti.Core.Spec.{ExecutionContext}

pub record StateSnapshot : Type 0 where
  pub snapshot_id : String
  pub run_id : String
  pub captured_at : ℕ
  pub state : JsonObject
  pub schema_version : String

pub record ExperimentRunResult : Type 0 where
  pub context : ExecutionContext
  pub outcome : RunOutcome
  pub tool_invocations : List ToolInvocation
  pub state_snapshot : Option StateSnapshot
  pub invariant_results : List InvariantResult
  pub agent_response : Option String

-- `item.sequence_number` where it is true: neither missing nor zero
abbrev pub known_number : Option ℕ → List ℕ
known_number none = []
known_number (some n) = if eqb n 0 then [] else n ∷ []

unfoldable pub sequence_numbers : List ToolInvocation → List ℕ
sequence_numbers [] = []
sequence_numbers (i ∷ rest) = known_number i.sequence_number ++ sequence_numbers rest

abbrev pub is_of_another_run : String → ToolInvocation → Bool
is_of_another_run run i = not (i.run_id == run)

abbrev pub is_foreign : String → Option StateSnapshot → Bool
is_foreign run none = false
is_foreign run (some s) = not (s.run_id == run)

abbrev pub same_outcome : RunOutcome → RunOutcome → Bool
same_outcome RunOutcome.pass RunOutcome.pass = true
same_outcome RunOutcome.fail RunOutcome.fail = true
same_outcome RunOutcome.error RunOutcome.error = true
same_outcome RunOutcome.inconclusive RunOutcome.inconclusive = true
same_outcome _ _ = false

-- `self.outcome in allowed`
unfoldable pub is_allowed : RunOutcome → List InvariantResult → Bool
is_allowed o [] = same_outcome o RunOutcome.inconclusive || same_outcome o RunOutcome.error
is_allowed o (r ∷ rs) = same_outcome o (derive_run_outcome (r ∷ rs))

abbrev pub invocation_id_of : ToolInvocation → String
invocation_id_of i = i.invocation_id

abbrev pub invariant_id_of : InvariantResult → String
invariant_id_of r = r.invariant_id

-- `ExperimentRunResult.validate_run_references`
unfoldable pub validate_run_references : ExperimentRunResult → Result String ExperimentRunResult
unfolding sequence_numbers is_allowed
validate_run_references r = do
  raise_if (not (is_unique (map invocation_id_of r.tool_invocations)))
      "tool invocation IDs must be unique within a run result"
  raise_if (any (is_of_another_run r.context.run_id) r.tool_invocations)
      "tool invocations reference another run"
  raise_if (not (is_unique (sequence_numbers r.tool_invocations)))
      "tool invocation sequence numbers must be unique within a run"
  raise_if (is_foreign r.context.run_id r.state_snapshot)
      "state snapshot must reference the result's run"
  raise_if (not (is_unique (map invariant_id_of r.invariant_results)))
      "invariant IDs must be unique within a run result"
  raise_if (not (is_allowed r.outcome r.invariant_results))
      "outcome contradicts the invariant results"
  ok r

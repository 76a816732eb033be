-- ===== src/Core/Outcome.antt =====
-- packages/rift_core/src/rift_core/domain.py: invariant results, and the one rule that maps them
-- to the outcome of a run.
pub mod Derived
use rift_reliability_injecti.Prelude.{
  String, Bool, true, false, not, ◌&&◌, ◌||◌, Option, none, some, is_some, List, [], ◌∷◌, any,
  if◌then◌else◌,
}
use rift_reliability_injecti.Prelude.Result.{Result, ok, err, ◌>>=◌, ◌>>◌, raise_if}
use rift_reliability_injecti.Core.Json.{JsonValue, JsonObject}

pub data InvariantStatus : Type 0 where
  pass fail error : InvariantStatus

pub data RunOutcome : Type 0 where
  pass fail error inconclusive : RunOutcome

pub record InvariantResult : Type 0 where
  pub invariant_id : String
  pub description : String
  pub status : InvariantStatus
  pub message : String
  pub expected : JsonValue
  pub observed : JsonValue
  pub evidence : JsonObject
  pub error : Option String

abbrev pub is_pass : InvariantStatus → Bool
is_pass InvariantStatus.pass = true
is_pass _ = false

abbrev pub is_fail : InvariantStatus → Bool
is_fail InvariantStatus.fail = true
is_fail _ = false

abbrev pub is_error : InvariantStatus → Bool
is_error InvariantStatus.error = true
is_error _ = false

abbrev pub has_status : (InvariantStatus → Bool) → InvariantResult → Bool
has_status p r = p r.status

abbrev pub is_passing_run : RunOutcome → Bool
is_passing_run RunOutcome.pass = true
is_passing_run _ = false

-- `derive_run_outcome` once there are results
unfoldable pub outcome_of : List InvariantResult → RunOutcome
outcome_of rs =
    if any (has_status is_error) rs
    then RunOutcome.error
    else if any (has_status is_fail) rs
    then RunOutcome.fail
    else RunOutcome.pass

unfoldable pub derive_run_outcome : List InvariantResult → RunOutcome
unfolding outcome_of
derive_run_outcome [] = RunOutcome.inconclusive
derive_run_outcome (r ∷ rs) = outcome_of (r ∷ rs)

-- `InvariantResult.validate_error`
unfoldable pub validate_error : InvariantResult → Result String InvariantResult
validate_error r = do
  raise_if (is_error r.status && not (is_some r.error)) "error status requires error details"
  raise_if (not (is_error r.status) && is_some r.error)
      "error details are only valid for error status"
  ok r

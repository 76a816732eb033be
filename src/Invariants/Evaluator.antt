-- ===== src/Invariants/Evaluator.antt =====
-- packages/rift_invariant_engine/src/rift_invariant_engine: contracts.py and evaluator.py.
pub mod Summary
use rift_reliability_injecti.Prelude.{
  ℕ, zero, suc, ◌+◌, ◌<◌, String, Bool, true, false, ◌&&◌, Option, none, some, List, [], ◌∷◌,
  length, ltb, eqb, if◌then◌else◌, map,
}
use rift_reliability_injecti.Prelude.Result.{Result, ok, err}
use rift_reliability_injecti.Core.Json.{JsonValue, JsonObject, null, text, item, end}
use rift_reliability_injecti.Core.Outcome.{
  InvariantStatus, InvariantResult, is_pass, is_fail, is_error,
}
use rift_reliability_injecti.Engine.Exceptions.{Exception, type_name, describe_error}

pub record EvaluationContext (S : Type 0) : Type 0 where
  pub before_state : S
  pub after_state : S
  pub evidence : JsonObject

-- The `Invariant` protocol: `evaluate` may return a result or raise.
pub record Invariant (S : Type 0) : Type 0 where
  pub name : String
  pub description : String
  pub evaluate : EvaluationContext S → Result Exception InvariantResult

-- The `except` block: the error, as a result of its own.
abbrev pub error_result : {S : Type 0} → Invariant S → Exception → InvariantResult
error_result i e = record {
  invariant_id = i.name;
  description = i.description;
  status = InvariantStatus.error;
  message = "Invariant evaluation raised an unexpected error.";
  expected = null;
  observed = null;
  evidence = item "exception_type" (text (type_name e)) end;
  error = some (describe_error e);
}

abbrev pub settle : {S : Type 0} → Invariant S → Result Exception InvariantResult → InvariantResult
settle i (ok r) = r
settle i (err e) = error_result i e

-- `InvariantEvaluator.evaluate`
unfoldable pub evaluate :
    {S : Type 0} → List (Invariant S) → EvaluationContext S → List InvariantResult
evaluate [] c = []
evaluate (i ∷ rest) c = settle i (i.evaluate c) ∷ evaluate rest c

-- `sum(result.status is ... for result in self.results)`
unfoldable pub count_status : (InvariantStatus → Bool) → List InvariantResult → ℕ
count_status p [] = 0
count_status p (r ∷ rs) = (if p r.status then 1 else 0) + count_status p rs

-- The computed fields of `InvariantEvaluationSummary`.
abbrev pub total : List InvariantResult → ℕ
total rs = length rs

abbrev pub passed : List InvariantResult → ℕ
passed rs = count_status is_pass rs

abbrev pub failed : List InvariantResult → ℕ
failed rs = count_status is_fail rs

abbrev pub errors : List InvariantResult → ℕ
errors rs = count_status is_error rs

unfoldable pub all_passed : List InvariantResult → Bool
all_passed rs = ltb 0 (total rs) && eqb (passed rs) (total rs)

-- ===== src/Examples/Gateway.antt =====
-- The theorems on the gateway at a tool that counts its calls.
use rift_reliability_injecti.Prelude.{
  ℕ, ◌+◌, ◌≡◌, refl, String, Option, some, List, [], ◌∷◌, min, arith, string_eq, nat_eq, pair_eq,
}
use rift_reliability_injecti.Prelude.Dict
use rift_reliability_injecti.Prelude.Result.{ok}
use rift_reliability_injecti.Core.Json.{JsonObject, end}
use rift_reliability_injecti.Core.Fault.{FaultRule, faulted, matches}
use rift_reliability_injecti.Core.Contracts.{validate_shape}
use rift_reliability_injecti.Engine.Action.{Operation}
use rift_reliability_injecti.Engine.Execute.{matching_rule}
use rift_reliability_injecti.Engine.Execute.Ending.{expected_ending}
use rift_reliability_injecti.Runner.Gateway.{Gateway, Session, call}
use rift_reliability_injecti.Runner.Gateway.Budget.{call-validate_shape, call_all, call_all-calls}
use rift_reliability_injecti.Engine.Execute.Sequence.{IsSequential, new_executor-IsSequential}
use rift_reliability_injecti.Runner.Gateway.Trace.{call_all-IsSequential}
use rift_reliability_injecti.Runner.Gateway.Boundary.{
  shown, IsSound, IsValid, next_rule, call-shown, timeouts_alike, call_all-IsValid,
}
use rift_reliability_injecti.Examples.Data.{
  ticking, ticking-IsMonotone, context_in, lost_rule, lost_rule-IsWellFormed, unsent_rule,
  unsent_rule-IsWellFormed, count_up, fresh, new_executor-IsBalanced,
}

abbrev counting : String → Option (JsonObject → Operation ℕ)
counting tool = some (λ args. count_up)

abbrev gateway_with : FaultRule → Gateway ℕ
gateway_with r = record {
  clock = ticking;
  fault_rules = r ∷ [];
  handlers = counting;
  execution_context = context_in faulted;
  max_tool_calls = 2;
}

abbrev opened : Session ℕ
opened = record { calls = 0; running = fresh }

lossy-IsSound : IsSound (gateway_with lost_rule) opened
lossy-IsSound = record {
  clocked = ticking-IsMonotone;
  validated = (lost_rule-IsWellFormed, tt);
  balanced = new_executor-IsBalanced;
}

silent-IsSound : IsSound (gateway_with unsent_rule) opened
silent-IsSound = record {
  clocked = ticking-IsMonotone;
  validated = (unsent_rule-IsWellFormed, tt);
  balanced = new_executor-IsBalanced;
}

lossy-IsValid : IsValid (gateway_with lost_rule) opened
lossy-IsValid = record { sound = lossy-IsSound; within = omega arith; recorded = omega arith }

abbrev requests : List (String × JsonObject)
requests = ("refund", end) ∷ ("refund", end) ∷ ("cancel", end) ∷ []

call-shown_example :
    (call (gateway_with lost_rule) "refund" end opened).0
    ≡ shown "refund"
        (expected_ending (next_rule (gateway_with lost_rule) "refund" opened) (count_up 0).0)
call-shown_example =
    call-shown (gateway_with lost_rule) "refund" end opened (λ args. count_up) lossy-IsSound
      (omega arith) refl

next_lost : next_rule (gateway_with lost_rule) "refund" opened ≡ some lost_rule
unfolding matching_rule matches Dict.get Dict.empty
next_lost = refl

next_unsent : next_rule (gateway_with unsent_rule) "refund" opened ≡ some unsent_rule
unfolding matching_rule matches Dict.get Dict.empty
next_unsent = refl

timeouts_alike_example :
    ((call (gateway_with unsent_rule) "refund" end opened).0
      ≡ (call (gateway_with lost_rule) "refund" end opened).0)
    × ((call (gateway_with unsent_rule) "refund" end opened).1.running.world ≡ 0)
    × ((call (gateway_with lost_rule) "refund" end opened).1.running.world ≡ 1)
timeouts_alike_example =
    timeouts_alike (gateway_with unsent_rule) (gateway_with lost_rule) "refund" end opened
      unsent_rule lost_rule (λ args. count_up) _ silent-IsSound lossy-IsSound (omega arith)
      (omega arith) refl refl next_unsent next_lost refl refl refl

call-validate_shape_example :
    validate_shape (call (gateway_with lost_rule) "refund" end opened).0
    ≡ ok (call (gateway_with lost_rule) "refund" end opened).0
call-validate_shape_example = call-validate_shape (gateway_with lost_rule) "refund" end opened

call_all-calls_example : (call_all (gateway_with lost_rule) requests opened).calls ≡ min 2 (0 + 3)
call_all-calls_example = call_all-calls (gateway_with lost_rule) requests opened (omega arith)

call_all-IsValid_example :
    IsValid (gateway_with lost_rule) (call_all (gateway_with lost_rule) requests opened)
call_all-IsValid_example = call_all-IsValid (gateway_with lost_rule) requests opened lossy-IsValid

call_all-IsSequential_example :
    IsSequential
      (context_in faulted)
      (call_all (gateway_with lost_rule) requests opened).running.executor
call_all-IsSequential_example =
    call_all-IsSequential (gateway_with lost_rule) requests opened lossy-IsValid
      (new_executor-IsSequential (context_in faulted) 0)

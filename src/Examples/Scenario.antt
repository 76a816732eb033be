-- ===== src/Examples/Scenario.antt =====
-- The theorems on the runner and on the commerce scenario, at the naive agent and a lost refund.
use rift_reliability_injecti.Prelude.{
  ◌+◌, ◌≤◌, String, ◌≡◌, ◌↔◌, refl, true, false, none, some, List, [], ◌∷◌, All, arith, string_eq,
  nat_eq, pair_eq, length,
}
use rift_reliability_injecti.Prelude.Int.{pos}
use rift_reliability_injecti.Prelude.Result.{ok, err}
use rift_reliability_injecti.Core.Json.{JsonObject, text, integer, object, item, end}
use rift_reliability_injecti.Core.Json.Equality.{py_eq, IsDistinct, keys}
use rift_reliability_injecti.Core.Fault.{FaultRule, FaultType, RunMode}
use rift_reliability_injecti.Core.Fault.Validation.{IsWellFormed}
use rift_reliability_injecti.Core.Outcome.{InvariantResult, RunOutcome, derive_run_outcome}
use rift_reliability_injecti.Core.Run.References.{IsReferenced}
use rift_reliability_injecti.Core.Spec.{ExperimentSpec}
use rift_reliability_injecti.Commerce.Models.{CommerceSnapshot}
use rift_reliability_injecti.Commerce.Repository.{Repository, reset, snapshot, price}
use rift_reliability_injecti.Commerce.Agents.{naive_agent}
use rift_reliability_injecti.Commerce.FaultCases.{rule, plain_rule-IsWellFormed}
use rift_reliability_injecti.Commerce.Invariants.{commerce_cancellation_invariants}
use rift_reliability_injecti.Commerce.Invariants.Outcome.{
  IsCancelledOnce, commerce_cancellation_invariants-pass_iff,
}
use rift_reliability_injecti.Commerce.Ordering.{refund_after_cancellation}
use rift_reliability_injecti.Commerce.Ordering.Trace.{monitor, refund_after_cancellation-monitor}
use rift_reliability_injecti.Commerce.Scenario.{
  Texts, commerce_scenario, commerce_binding, commerce_experiment,
}
use rift_reliability_injecti.Commerce.Scenario.Runs.{
  commerce_run_returns, commerce-IsRunnable, commerce-start,
}
use rift_reliability_injecti.Commerce.Tools.{build_tool_handlers}
use rift_reliability_injecti.Commerce.Tools.Retried.{IsRefundRequest, refund_retried_once}
use rift_reliability_injecti.Commerce.Tools.Dumps.{refund_json}
use rift_reliability_injecti.Commerce.Models.{CommerceError, Refund}
use rift_reliability_injecti.Commerce.Sandbox.{
  refund_payment, validate_refund_amount, normalize_idempotency_key, replay_or_make, make_refund,
}
use rift_reliability_injecti.Commerce.Sandbox.Replay.{refund_at}
use rift_reliability_injecti.Core.Json.Equality.{get_key}
use rift_reliability_injecti.Prelude.Result.{Result}
use rift_reliability_injecti.Prelude.Dict
use rift_reliability_injecti.Core.Fault.{matches}
use rift_reliability_injecti.Engine.Execute.{matching_rule}
use rift_reliability_injecti.Runner.Gateway.{success, call}
use rift_reliability_injecti.Prelude.Text.{strip}
use rift_reliability_injecti.Agent.Scripted.Confined.{scripted, scripted-IsConfined}
use rift_reliability_injecti.Engine.State.{new_executor, next_number}
use rift_reliability_injecti.Engine.Execute.Sequence.{InOrder}
use rift_reliability_injecti.Core.Invocation.{ToolInvocation}
use rift_reliability_injecti.Invariants.Evaluator.{EvaluationContext, evaluate}
use rift_reliability_injecti.Invariants.Library.{status_of}
use rift_reliability_injecti.Runner.Adapter.{SequentialAdapter}
use rift_reliability_injecti.Runner.Compare.{RunReport, ExperimentReport}
use rift_reliability_injecti.Runner.Differences.{diff_states}
use rift_reliability_injecti.Runner.Differences.Agreement.{diff_states-nil_iff}
use rift_reliability_injecti.Runner.Evaluation.{invocation_evidence}
use rift_reliability_injecti.Runner.Gateway.{Gateway, Session}
use rift_reliability_injecti.Runner.Gateway.Boundary.{IsValid}
use rift_reliability_injecti.Runner.Setup.{Lab, drifted, has_items}
use rift_reliability_injecti.Runner.Lifecycle.{
  check_start, start_state, task_of, run_once, run, run_context,
}
use rift_reliability_injecti.Runner.Lifecycle.Settled.{run_once_settles}
use rift_reliability_injecti.Runner.Lifecycle.Controlled.{IsControlled, run_sound}
use rift_reliability_injecti.Runner.Lifecycle.Returned.{check_start-drifted_iff}
use rift_reliability_injecti.Examples.Data.{
  ticking, ticking-IsMonotone, context_in, draft, new_executor-IsBalanced,
}

-- Python's text of the price, whatever the decimal; the other functions answer nothing.
abbrev texts : Texts
texts = record {
  decimal_text = λ d. "79.99";
  parse_decimal = λ s. some price;
  quoted = λ s. s;
  accepts = λ d. true;
  parse_int = λ s. none;
  str_of = λ v. "";
}

abbrev no_digest : JsonObject → String
no_digest o = ""

abbrev lab : Lab
lab = record { readings = 0; environments = 0 }

abbrev rules : List FaultRule
rules = rule "refund_payment" FaultType.timeout_after_commit 1 ∷ []

rules-IsWellFormed : All IsWellFormed rules
rules-IsWellFormed =
    (plain_rule-IsWellFormed "refund_payment" FaultType.timeout_after_commit 1 refl refl, tt)

abbrev experiment : ExperimentSpec
experiment = commerce_experiment "EXP-1" rules 7 none

abbrev naive : SequentialAdapter (Session Repository)
naive = scripted (naive_agent texts.decimal_text)

returned_report :
    (r : ExperimentReport) × ((run no_digest ticking experiment
        (commerce_binding texts)
        naive
        lab).0
      ≡ ok r)
returned_report =
    commerce_run_returns no_digest ticking texts "EXP-1" rules 7 none naive lab ticking-IsMonotone
      rules-IsWellFormed refl
      (scripted-IsConfined (naive_agent texts.decimal_text) (task_of (commerce_binding texts))) refl

commerce_run_returns_example :
    (r : ExperimentReport) × ((run no_digest ticking experiment
        (commerce_binding texts)
        naive
        lab).0
      ≡ ok r)
commerce_run_returns_example =
    commerce_run_returns no_digest ticking texts "EXP-1" rules 7 none naive lab ticking-IsMonotone
      rules-IsWellFormed refl
      (scripted-IsConfined (naive_agent texts.decimal_text) (task_of (commerce_binding texts))) refl

run_sound_example :
    IsControlled no_digest ticking experiment (commerce_binding texts) naive (returned_report.0)
run_sound_example =
    run_sound no_digest ticking experiment (commerce_binding texts) naive lab (returned_report.1)

run_once_settles_example :
    (r : RunReport) × ((run_once no_digest ticking experiment
        (commerce_binding texts)
        naive
        RunMode.faulted
        lab).0
      ≡ ok r)
    × IsReferenced r.result
    × InOrder (run_context experiment RunMode.faulted) 0 r.result.tool_invocations
    × (length r.result.tool_invocations ≤ 50)
    × (r.result.outcome ≡ derive_run_outcome r.result.invariant_results)
    × (r.initial_state ≡ start_state (commerce_binding texts) lab)
run_once_settles_example =
    run_once_settles ticking experiment (commerce_binding texts) RunMode.faulted no_digest naive lab
      (commerce-IsRunnable ticking texts "EXP-1" rules 7 none ticking-IsMonotone rules-IsWellFormed)
      (scripted-IsConfined (naive_agent texts.decimal_text) (task_of (commerce_binding texts)))
      (commerce-start texts "EXP-1" rules 7 none lab refl refl)

-- A scenario that declares nine units of stock, and a reset state that has eight.
abbrev nine : JsonObject
nine = item "stock" (integer (pos 9)) end

abbrev eight : JsonObject
eight = item "stock" (integer (pos 8)) end

abbrev stocked : ExperimentSpec
stocked = record {
  experiment_id = "EXP-2";
  name = "EXP-2";
  scenario = record commerce_scenario { initial_state = nine };
  seed = 0;
  fault_rules = [];
  description = none;
}

nine-IsDistinct : IsDistinct (object nine)
unfolding keys
nine-IsDistinct = (refl, (tt, tt))

eight-IsDistinct : IsDistinct (object eight)
unfolding keys
eight-IsDistinct = (refl, (tt, tt))

check_start-drifted_iff_example :
    ((p : String) × (ps : List String) × (check_start stocked eight
        ≡ err (drifted "commerce.cancel_order" (p ∷ ps))))
    ↔ ((has_items nine ≡ true) × (py_eq (object nine) (object eight) ≡ false))
check_start-drifted_iff_example =
    check_start-drifted_iff stocked eight nine-IsDistinct eight-IsDistinct

diff_states-nil_iff_example :
    (diff_states nine eight ≡ []) ↔ (py_eq (object nine) (object eight) ≡ true)
diff_states-nil_iff_example = diff_states-nil_iff nine eight nine-IsDistinct eight-IsDistinct

abbrev unchanged : EvaluationContext CommerceSnapshot
unchanged = record { before_state = snapshot reset; after_state = snapshot reset; evidence = end }

commerce_cancellation_invariants-pass_iff_example :
    (derive_run_outcome (evaluate (commerce_cancellation_invariants texts.decimal_text) unchanged)
      ≡ RunOutcome.pass)
    ↔ IsCancelledOnce (snapshot reset) (snapshot reset)
commerce_cancellation_invariants-pass_iff_example =
    commerce_cancellation_invariants-pass_iff texts.decimal_text unchanged

-- One refund, and no cancellation.
abbrev early : List ToolInvocation
early = record draft { tool_name = "refund_payment" } ∷ []

abbrev after_early : EvaluationContext CommerceSnapshot
after_early = record unchanged { evidence = invocation_evidence early }

refund_after_cancellation-monitor_example :
    (r : InvariantResult) × ((refund_after_cancellation texts.parse_int texts.str_of).evaluate
        after_early
      ≡ ok r)
    × (r.status ≡ status_of (monitor false early))
    × (r.invariant_id ≡ "refund_after_cancellation")
refund_after_cancellation-monitor_example =
    refund_after_cancellation-monitor texts.parse_int texts.str_of (context_in RunMode.faulted)
      after_early early (refl, refl, refl, tt) refl

abbrev commerce_gateway : Gateway Repository
commerce_gateway = record {
  clock = ticking;
  fault_rules = rules;
  handlers = build_tool_handlers texts.decimal_text texts.parse_decimal texts.quoted texts.accepts;
  execution_context = context_in RunMode.faulted;
  max_tool_calls = 50;
}

abbrev opened : Session Repository
opened = record { calls = 0; running = record { executor = new_executor; world = reset } }

opened-IsValid : IsValid commerce_gateway opened
opened-IsValid = record {
  sound = record {
    clocked = ticking-IsMonotone;
    validated = rules-IsWellFormed;
    balanced = new_executor-IsBalanced;
  };
  within = omega arith;
  recorded = omega arith;
}

abbrev refund_request : JsonObject
refund_request =
    item "payment_id" (text "PAY-1001")
      (item "amount" (text "79.99") (item "idempotency_key" (text "refund-1") end))

refund_request-IsRefundRequest :
    IsRefundRequest texts.parse_decimal refund_request "PAY-1001" price "refund-1"
unfolding get_key strip
refund_request-IsRefundRequest = record {
  paying = refl;
  named = refl;
  figure = "79.99";
  priced = refl;
  parsed = refl;
  keyed = refl;
}

abbrev granted : Result CommerceError Refund × Repository
granted = refund_payment texts.accepts "PAY-1001" price (some "refund-1") reset

abbrev first_refund : Refund
first_refund = refund_at reset "PAY-1001" price (some "refund-1")

refund_granted : granted ≡ (ok first_refund, granted.1)
unfolding refund_payment validate_refund_amount normalize_idempotency_key replay_or_make make_refund
    Dict.get Dict.empty Dict.put strip reset
refund_granted = refl

retry_unfaulted :
    matching_rule rules "refund_payment"
      (next_number new_executor (context_in RunMode.faulted) "refund_payment" + 1)
      (context_in RunMode.faulted)
    ≡ none
unfolding matching_rule matches rule Dict.get Dict.empty
retry_unfaulted = refl

refund_retried_once_example :
    let again =
      call commerce_gateway "refund_payment" refund_request
        (call commerce_gateway "refund_payment" refund_request opened).1 in
    (again.0 ≡ success "refund_payment" (refund_json texts.decimal_text first_refund))
    × (again.1.running.world ≡ granted.1)
refund_retried_once_example =
    refund_retried_once texts.decimal_text texts.parse_decimal texts.quoted texts.accepts
      commerce_gateway refund_request opened "PAY-1001" price "refund-1" granted.1 first_refund refl
      opened-IsValid.sound (omega arith) refund_request-IsRefundRequest refund_granted
      retry_unfaulted

-- ===== src/Runner/Lifecycle/Settled.antt =====
-- A run that is allowed to start comes to a report (runner.py): whatever the agent, the tools and the
-- invariants do, the evidence fits together and its validator accepts it.
use rift_reliability_injecti.Prelude.{
  ℕ, ◌≤◌, String, ◌≡◌, refl, ap, ◌∙◌, true, List, [], ◌∷◌, map, length, All, is_unique, arith,
  string_eq, nat_eq, ==-refl,
}
use rift_reliability_injecti.Prelude.Result.{ok}
use rift_reliability_injecti.Core.Json.{JsonObject}
use rift_reliability_injecti.Core.Fault.{RunMode}
use rift_reliability_injecti.Core.Fault.Validation.{IsWellFormed}
use rift_reliability_injecti.Core.Spec.{ExperimentSpec}
use rift_reliability_injecti.Core.Outcome.{InvariantResult, RunOutcome, derive_run_outcome}
use rift_reliability_injecti.Core.Run.{is_allowed, same_outcome, validate_run_references}
use rift_reliability_injecti.Core.Run.References.{IsReferenced, validate_run_references_sound}
use rift_reliability_injecti.Engine.State.{Clock, new_executor}
use rift_reliability_injecti.Engine.Record.{IsMonotone}
use rift_reliability_injecti.Engine.Execute.Sequence.{
  IsSequential, InOrder, new_executor-IsSequential,
}
use rift_reliability_injecti.Prelude.Dict
use rift_reliability_injecti.Engine.Execute.Whole.{IsBalanced}
use rift_reliability_injecti.Core.Contracts.{AgentRunOutput}
use rift_reliability_injecti.Invariants.Evaluator.{EvaluationContext}
use rift_reliability_injecti.Invariants.Evaluator.Summary.{IsNamed, name_of, evaluate-ids}
use rift_reliability_injecti.Runner.Adapter.{SequentialAdapter, IsConfined}
use rift_reliability_injecti.Runner.Adapter.Calls.{run-call_all}
use rift_reliability_injecti.Runner.Gateway.{Session}
use rift_reliability_injecti.Runner.Gateway.Boundary.{IsValid, call_all-IsValid}
use rift_reliability_injecti.Runner.Gateway.Trace.{
  call_all-IsSequential, InOrder-owned, InOrder-unique,
}
use rift_reliability_injecti.Runner.Compare.{RunReport}
use rift_reliability_injecti.Runner.Setup.{Binding, Lab}
use rift_reliability_injecti.Runner.Lifecycle.{
  check_start, start_state, start_world, task_of, gateway_of, first_session, run_context, judged,
  run_result, run_report, report_on, close_run, play_run, run_checked, run_once,
}

same_outcome_refl : (o : RunOutcome) → same_outcome o o ≡ true
same_outcome_refl o = ground arith

-- Nothing was started or completed.
none_started : (n : ℕ) → IsBalanced (record new_executor { readings = n })
unfolding Dict.get Dict.empty
none_started n r = omega arith

derived-allowed : (rs : List InvariantResult) → is_allowed (derive_run_outcome rs) rs ≡ true
unfolding is_allowed derive_run_outcome
derived-allowed [] = refl
derived-allowed (r ∷ rs) = same_outcome_refl (derive_run_outcome (r ∷ rs))

module _ {W S : Type 0} (k : Clock) (e : ExperimentSpec) (b : Binding W S) where
  -- What the checks of this module ask of an experiment's parts.
  pub record IsRunnable : Type 0 where
    pub clocked : IsMonotone k
    pub validated : All IsWellFormed e.fault_rules
    pub labelled : (c : EvaluationContext S) → All (IsNamed c) b.invariants
    pub distinct : is_unique (map name_of b.invariants) ≡ true

module _ {W S : Type 0} (k : Clock) (e : ExperimentSpec) (b : Binding W S) (mode : RunMode) where
  first_session-IsValid :
      (lab : Lab)
      → IsRunnable k e b
      → IsValid (gateway_of k e b mode) (first_session lab.readings (start_world b lab))
  first_session-IsValid lab h = record {
    sound = record {
      clocked = h.clocked;
      validated = h.validated;
      balanced = none_started lab.readings;
    };
    within = omega arith;
    recorded = omega arith;
  }

  run_result-valid :
      (w : W) (out : AgentRunOutput) (s : Session W)
      → IsRunnable k e b
      → IsSequential (run_context e mode) s.running.executor
      → validate_run_references (run_result k e b mode w out s) ≡ ok (run_result k e b mode w out s)
  unfolding validate_run_references run_result
  run_result-valid w out s h q =
      rw
        (
          q.named,
          InOrder-owned (run_context e mode) 0 s.running.executor.records q.ordered,
          InOrder-unique (run_context e mode) 0 s.running.executor.records q.ordered,
          ==-refl (run_context e mode).run_id,
          evaluate-ids b.invariants _ (h.labelled _),
          h.distinct,
          derived-allowed (judged b w s),
        )
        refl

  -- The session that the adapter's run leaves.
  played :
      (a : SequentialAdapter (Session W)) (lab : Lab)
      → IsRunnable k e b
      → IsConfined a (task_of b)
      → IsValid (gateway_of k e b mode) (play_run k e b a mode lab).1
        × IsSequential (run_context e mode) (play_run k e b a mode lab).1.running.executor
  unfolding play_run
  played a lab h c =
      let g = gateway_of k e b mode in
      let s = first_session lab.readings (start_world b lab) in
      let valid = first_session-IsValid lab h in
      let (requests, left) = run-call_all g a (task_of b) s c in
      rw left (
        call_all-IsValid g requests s valid,
        call_all-IsSequential g requests s valid
            (new_executor-IsSequential (run_context e mode) lab.readings),
      )

  -- Take a run of an agent that awaits each call before it makes the next, so that no two calls
  -- overlap, and acts through its gateway alone. If the run passes the checks at its start then it
  -- ends in a report, provided that the clock does not run backwards, the rules are well formed, and
  -- the invariants have names of their own. The report's result fits together; its trace stands in
  -- the order of the calls, so that each record counts all the earlier calls as completed before its
  -- own start, and has 50 records at most; its outcome is the one that the invariants' results
  -- imply; and it names the state that the run started from.
  pub run_once_settles :
      (digest : JsonObject → String) (a : SequentialAdapter (Session W)) (lab : Lab)
      → IsRunnable k e b
      → IsConfined a (task_of b)
      → check_start e (start_state b lab) ≡ ok tt
      → (r : RunReport) × ((run_once digest k e b a mode lab).0 ≡ ok r)
        × IsReferenced r.result
        × InOrder (run_context e mode) 0 r.result.tool_invocations
        × (length r.result.tool_invocations ≤ 50)
        × (r.result.outcome ≡ derive_run_outcome r.result.invariant_results)
        × (r.initial_state ≡ start_state b lab)
  unfolding run_once run_checked close_run report_on run_report run_result
  run_once_settles digest a lab h c start =
      let (out, s) = play_run k e b a mode lab in
      let (valid, q) = played a lab h c in
      let w = start_world b lab in
      let accepted = run_result-valid w out s h q in
      (
        run_report digest mode (start_state b lab) out
            (b.snapshot_json (b.snapshot s.running.world)) (run_result k e b mode w out s),
        (ap (λ v. (run_checked digest k e b a mode lab v).0) start
            ∙ ap
                (report_on digest mode (start_state b lab) out
                  (b.snapshot_json (b.snapshot s.running.world)))
                accepted),
        (validate_run_references_sound (run_result k e b mode w out s) accepted).1,
        q.ordered,
        omega (arith, valid.within, valid.recorded),
        refl,
        refl,
      )

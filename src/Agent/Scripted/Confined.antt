-- ===== src/Agent/Scripted/Confined.antt =====
-- The scripted agent as an adapter (scripted.py): it affects its gateway through calls alone.
use rift_reliability_injecti.Prelude.{
  ℕ, zero, suc, String, Bool, not, ◌&&◌, Option, none, some, is_some, List, [], ◌∷◌, ◌++◌, ltb,
  Bool-cases, inl, inr,
}
use rift_reliability_injecti.Prelude.Result.{Result, ok, err}
use rift_reliability_injecti.Core.Json.{JsonValue, JsonObject, is_null}
use rift_reliability_injecti.Core.Contracts.{AgentTask, AgentRunOutput}
use rift_reliability_injecti.Engine.Exceptions.{Exception, assertion_error}
use rift_reliability_injecti.Agent.Script.{ScriptStep, Reconciliation, Script}
use rift_reliability_injecti.Agent.Scripted.{
  Progress, Verdict, StepOutcome, finish, again, crash, logged_call, first_probe, retry_probe,
  probe_if_needed, attempt_once, attempts, resume, run_step, run_steps, failed_after, after_step,
  run,
}
use rift_reliability_injecti.Runner.Adapter.{SequentialAdapter, Caller, IsConfined}

-- A script that is left by a failed assertion raises it.
abbrev pub returned : Option AgentRunOutput → Result Exception AgentRunOutput
returned none = err (assertion_error "")
returned (some out) = ok out

-- `ScriptedAgentAdapter`
unfoldable pub scripted : {G : Type 0} → Script → SequentialAdapter G
scripted s = record {
  name = s.name;
  version = s.version;
  run = λ task call g. let (out, g') = run call s g in (returned out, g');
}

module _ {G : Type 0} (P : G → Type 0) (call : Caller G)
    (kept : (tool : String) (args : JsonObject) (g : G) → P g → P (call tool args g).1) where
  retry_probe-kept :
      (index : ℕ) (s : ScriptStep) (r : Option Reconciliation) (before : JsonValue) (p : Progress G)
      → P p.gateway
      → P (retry_probe call index s r before p).1.gateway
  unfolding retry_probe logged_call
  retry_probe-kept index s none before p h = h
  retry_probe-kept index s (some rc) before p h =
      elim (Bool-cases (
        (call rc.probe_tool rc.probe_arguments p.gateway).0.succeeded
        && rc.already_applied before
            (call rc.probe_tool rc.probe_arguments p.gateway).0.response)) [
              | inl t ↦ rw t (kept rc.probe_tool rc.probe_arguments p.gateway h)
              | inr f ↦ rw f (kept rc.probe_tool rc.probe_arguments p.gateway h)
            ]

  probe_if_needed-kept :
      (index : ℕ) (s : ScriptStep) (attempt : ℕ) (before : JsonValue) (p : Progress G)
      → P p.gateway
      → P (probe_if_needed call index s attempt before p).1.gateway
  unfolding probe_if_needed
  probe_if_needed-kept index s attempt before p h =
      elim (Bool-cases (ltb 1 attempt && is_some s.reconcile && not (is_null before))) [
        | inl t ↦ rw t (retry_probe-kept index s s.reconcile before p h)
        | inr f ↦ rw f h
      ]

  attempt_once-kept :
      (index : ℕ) (s : ScriptStep) (attempt : ℕ) (before : JsonValue) (p : Progress G)
      → P p.gateway
      → P (attempt_once call index s attempt before p).1.gateway
  unfolding attempt_once logged_call
  attempt_once-kept index s attempt before p h =
      let probe = probe_if_needed call index s attempt before p in
      let h' = probe_if_needed-kept index s attempt before p h in
      elim (Bool-cases probe.0) [
        | inl t ↦ rw t h'
        | inr f ↦ rw f (kept s.tool_name s.arguments probe.1.gateway h')
      ]

  resume-kept :
      (v : Verdict) (next : String → Option StepOutcome × Progress G) (p : Progress G)
      → P p.gateway
      → ((r : String) → P (next r).1.gateway)
      → P (resume call v next p).1.gateway
  resume-kept (finish o) next p h k = h
  resume-kept (again r) next p h k = k r
  resume-kept crash next p h k = h

  attempts-kept :
      (left index : ℕ) (s : ScriptStep) (attempt : ℕ) (reason : String) (before : JsonValue)
      (p : Progress G)
      → P p.gateway
      → P (attempts call left index s attempt reason before p).1.gateway
  unfolding attempts
  attempts-kept zero index s attempt reason before p h = h
  attempts-kept (suc left) index s attempt reason before p h =
      let (v, p') = attempt_once call index s attempt before p in
      let h' = attempt_once-kept index s attempt before p h in
      resume-kept v _ p' h' (λ r. attempts-kept left index s (suc attempt) r before p' h')

  first_probe-kept :
      (index : ℕ) (r : Option Reconciliation) (p : Progress G)
      → P p.gateway
      → P (first_probe call index r p).1.gateway
  unfolding first_probe logged_call
  first_probe-kept index none p h = h
  first_probe-kept index (some rc) p h = kept rc.probe_tool rc.probe_arguments p.gateway h

  run_step-kept :
      (index : ℕ) (s : ScriptStep) (p : Progress G)
      → P p.gateway
      → P (run_step call index s p).1.gateway
  unfolding run_step
  run_step-kept index s p h =
      attempts-kept s.retry.max_attempts index s 1 "not attempted" _ _
        (first_probe-kept index s.reconcile p h)

  after_step-kept :
      {A : Type 0} (aborts : Bool) (o : Option StepOutcome) (stop more crashed : A × Progress G)
      → P stop.1.gateway
      → P more.1.gateway
      → P crashed.1.gateway
      → P (after_step aborts o stop more crashed).1.gateway
  after_step-kept aborts none stop more crashed a b c = c
  after_step-kept aborts (some o) stop more crashed a b c =
      elim (Bool-cases (not o.succeeded && aborts)) [ inl t ↦ rw t a | inr f ↦ rw f b ]

  run_steps-kept :
      (aborts : Bool) (index : ℕ) (steps : List ScriptStep) (failed : List String) (p : Progress G)
      → P p.gateway
      → P (run_steps call aborts index steps failed p).1.gateway
  unfolding run_steps
  run_steps-kept aborts index [] failed p h = h
  run_steps-kept aborts index (s ∷ rest) failed p h =
      let (r, p') = run_step call index s p in
      let h' = run_step-kept index s p h in
      let failed' = failed ++ failed_after index s r in
      after_step-kept aborts r (some failed', p')
        (run_steps call aborts (suc index) rest failed' p') (none, p') h'
        (run_steps-kept aborts (suc index) rest failed' p' h') h'

-- A scripted agent affects the state behind its gateway through calls alone: a property of that state
-- that no call breaks, its run does not break.
pub scripted-kept :
    {G : Type 0} (s : Script) (task : AgentTask) (P : G → Type 0) (call : Caller G)
    → ((tool : String) (args : JsonObject) (g : G) → P g → P (call tool args g).1)
    → (g : G) → P g
    → P ((scripted s).run task call g).1
unfolding scripted run
scripted-kept s task P call kept g h =
    run_steps-kept P call kept s.aborts 1 s.steps []
      (record { gateway = g; calls = 0; transcript = [] }) h

pub scripted-IsConfined :
    {G : Type 0} (s : Script) (task : AgentTask) → IsConfined (scripted {G = G} s) task
scripted-IsConfined s task P call kept g h = scripted-kept s task P call kept g h

-- ===== src/Agent/Scripted/Bounds.antt =====
-- How many calls the script of scripted.py can make.
use rift_reliability_injecti.Prelude.{
  ℕ, zero, suc, ◌+◌, ◌*◌, ◌≤◌, ◌≡◌, refl, Bool, ◌&&◌, Option, none, some, List, [], ◌∷◌, ◌++◌, All,
  String, is_some, ltb, arith, if◌then◌else◌,
}
use rift_reliability_injecti.Core.Json.{JsonValue, JsonObject}
use rift_reliability_injecti.Core.Contracts.{ToolCallOutcome, AgentRunOutput}
use rift_reliability_injecti.Agent.Script.{ScriptStep, Reconciliation, Script}
use rift_reliability_injecti.Agent.Scripted.{
  Progress, Verdict, finish, again, crash, logged_call, first_probe, retry_probe, probe_if_needed,
  attempt_once, attempts, resume, StepOutcome, run_step, run_steps, failed_after, run, report,
}

-- The most that a retry's probe adds to a round.
abbrev pub extra_probe : ℕ → Option Reconciliation → ℕ
extra_probe attempt r = if ltb 1 attempt && is_some r then 1 else 0

abbrev pub calls_per_round : Option Reconciliation → ℕ
calls_per_round none = 1
calls_per_round (some r) = 2

-- `RetryPolicy.__post_init__` has accepted the step's policy.
abbrev pub HasAttempts : ScriptStep → Type 0
HasAttempts s = 1 ≤ s.retry.max_attempts

-- The most calls that a script can make.
abbrev pub most_calls : List ScriptStep → ℕ
most_calls [] = 0
most_calls (s ∷ rest) = s.retry.max_attempts * calls_per_round s.reconcile + most_calls rest

round-le : (attempt : ℕ) (r : Option Reconciliation) → 1 + extra_probe attempt r ≤ calls_per_round r
round-le attempt r = ground arith

module _ {G : Type 0} (call : String → JsonObject → G → ToolCallOutcome × G) where
  retry_probe-calls :
      (index : ℕ) (s : ScriptStep) (r : Option Reconciliation) (before : JsonValue) (p : Progress G)
      → (retry_probe call index s r before p).1.calls ≤ p.calls + 1
  unfolding retry_probe
  retry_probe-calls index s r before p = ground arith

  logged_call-calls :
      (index : ℕ) (action tool : String) (args : JsonObject) (p : Progress G)
      → (logged_call call index action tool args p).1.calls ≡ p.calls + 1
  unfolding logged_call
  logged_call-calls index action tool args p = refl

  probe_if_needed-calls :
      (index : ℕ) (s : ScriptStep) (attempt : ℕ) (before : JsonValue) (p : Progress G)
      → (probe_if_needed call index s attempt before p).1.calls
        ≤ p.calls + extra_probe attempt s.reconcile
  unfolding probe_if_needed
  probe_if_needed-calls index s attempt before p =
      ground (arith, retry_probe-calls index s s.reconcile before p)

  -- A round makes one call, and one more for its probe from the second round on.
  attempt_once-calls :
      (index : ℕ) (s : ScriptStep) (attempt : ℕ) (before : JsonValue) (p : Progress G)
      → (attempt_once call index s attempt before p).1.calls
        ≤ p.calls + 1 + extra_probe attempt s.reconcile
  unfolding attempt_once
  attempt_once-calls index s attempt before p =
      ground (arith, probe_if_needed-calls index s attempt before p)

  resume-calls :
      (v : Verdict) (next : String → Option StepOutcome × Progress G) (p : Progress G) (n : ℕ)
      → p.calls ≤ n
      → ((r : String) → (next r).1.calls ≤ n)
      → (resume call v next p).1.calls ≤ n
  resume-calls (finish o) next p n h k = h
  resume-calls (again r) next p n h k = k r
  resume-calls crash next p n h k = h

  attempts-calls :
      (left index : ℕ) (s : ScriptStep) (attempt : ℕ) (reason : String) (before : JsonValue)
      (p : Progress G)
      → (attempts call left index s attempt reason before p).1.calls
        ≤ p.calls + left * calls_per_round s.reconcile
  unfolding attempts
  attempts-calls zero index s attempt reason before p = omega arith
  attempts-calls (suc left) index s attempt reason before p =
      let p' = (attempt_once call index s attempt before p).1 in
      let once = attempt_once-calls index s attempt before p in
      let round = round-le attempt s.reconcile in
      resume-calls (attempt_once call index s attempt before p).0 _ p' _ (grind arith) (λ r.
        let rest = attempts-calls left index s (suc attempt) r before p' in
        omega (arith, once, rest, round))

  -- The first round has no probe of its own.
  first_attempts-calls :
      (left index : ℕ) (s : ScriptStep) (reason : String) (before : JsonValue) (p : Progress G)
      → (attempts call (suc left) index s 1 reason before p).1.calls
        ≤ p.calls + 1 + left * calls_per_round s.reconcile
  unfolding attempts
  first_attempts-calls left index s reason before p =
      let p' = (attempt_once call index s 1 before p).1 in
      let once = attempt_once-calls index s 1 before p in
      resume-calls (attempt_once call index s 1 before p).0 _ p' _ (omega (arith, once))
        (λ r. omega (arith, once, attempts-calls left index s 2 r before p'))

  first_probe-calls :
      (index : ℕ) (r : Option Reconciliation) (p : Progress G)
      → (first_probe call index r p).1.calls + 1 ≤ p.calls + calls_per_round r
  unfolding first_probe
  first_probe-calls index r p = ground arith

  rounds-calls :
      (n index : ℕ) (s : ScriptStep) (reason : String) (p : Progress G) (before : JsonValue)
      (q : Progress G)
      → 1 ≤ n
      → q.calls + 1 ≤ p.calls + calls_per_round s.reconcile
      → (attempts call n index s 1 reason before q).1.calls
        ≤ p.calls + n * calls_per_round s.reconcile
  rounds-calls zero index s reason p before q h k = absurd (omega arith)
  rounds-calls (suc left) index s reason p before q h k =
      omega (arith, first_attempts-calls left index s reason before q)

  -- A step that may be attempted at least once makes at most `max_attempts` calls, and twice as
  -- many if it reconciles, whatever the gateway answers.
  pub run_step-calls :
      (index : ℕ) (s : ScriptStep) (p : Progress G)
      → 1 ≤ s.retry.max_attempts
      → (run_step call index s p).1.calls
        ≤ p.calls + s.retry.max_attempts * calls_per_round s.reconcile
  unfolding run_step
  run_step-calls index s p h =
      rounds-calls s.retry.max_attempts index s "not attempted" p
        (first_probe call index s.reconcile p).0 (first_probe call index s.reconcile p).1 h
        (first_probe-calls index s.reconcile p)

  run_steps-calls :
      (aborts : Bool) (index : ℕ) (steps : List ScriptStep) (failed : List String) (p : Progress G)
      → All HasAttempts steps
      → (run_steps call aborts index steps failed p).1.calls ≤ p.calls + most_calls steps
  unfolding run_steps
  run_steps-calls aborts index [] failed p h = omega arith
  run_steps-calls aborts index (s ∷ rest) failed p h =
      let r = run_step call index s p in
      ground (
        arith,
        run_step-calls index s p h.0,
        run_steps-calls aborts (suc index) rest (failed ++ failed_after index s r.0) r.1 h.1,
      )

  -- If every step may be attempted at least once, the calls that a run reports are at most those
  -- of `most_calls` of its script, whatever the gateway answers.
  pub run-calls :
      (s : Script) (g : G) (out : AgentRunOutput)
      → All HasAttempts s.steps
      → (run call s g).0 ≡ some out
      → out.tool_calls ≤ most_calls s.steps
  unfolding run report
  run-calls s g out h e = ground (
    arith,
    run_steps-calls s.aborts 1 s.steps [] (record { gateway = g; calls = 0; transcript = [] }) h,
  )

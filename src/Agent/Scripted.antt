-- ===== src/Agent/Scripted.antt =====
-- packages/rift_agent_adapters/src/rift_agent_adapters/scripted.py: `ScriptedAgentAdapter`, over
-- any gateway `call` with a state `G` of its own.
pub mod Bounds
pub mod Honest
pub mod Confined
use rift_reliability_injecti.Prelude.{
  ℕ, zero, suc, ◌+◌, String, Bool, true, false, not, ◌&&◌, ◌||◌, Option, none, some, List, [], ◌∷◌,
  ◌++◌, is_some, ltb, map, if◌then◌else◌,
}
use rift_reliability_injecti.Prelude.Int.{pos}
use rift_reliability_injecti.Prelude.Result.{Result, ok, err}
use rift_reliability_injecti.Prelude.Text.{◌&◌, show}
use rift_reliability_injecti.Core.Json.{
  JsonValue, JsonObject, null, boolean, integer, text, array, object, item, end, items, is_null,
  optional_text,
}
use rift_reliability_injecti.Agent.Script.{RetryPolicy, Reconciliation, ScriptStep, Script}
use rift_reliability_injecti.Core.Contracts.{
  ToolErrorKind, ToolCallOutcome, AgentStatus, AgentRunOutput, kind_value,
}

pub record StepOutcome : Type 0 where
  pub succeeded : Bool
  pub reason : String

abbrev pub step_outcome : Bool → String → StepOutcome
step_outcome b r = record { succeeded = b; reason = r }

-- What a run has behind it: the gateway's state, the calls counted and the transcript.
pub record Progress (G : Type 0) : Type 0 where
  pub gateway : G
  pub calls : ℕ
  pub transcript : List JsonValue

-- What the loop does after an attempt: return, go round again, or fail its assertion.
pub data Verdict : Type 0 where
  finish : StepOutcome → Verdict
  again : String → Verdict
  crash : Verdict

-- `_entry`
unfoldable pub entry : ℕ → String → String → ToolCallOutcome → JsonValue
entry index action tool o = object (
    item "step" (integer (pos index)) (
      item "action" (text action) (
        item "tool" (text tool) (
          item "ok" (boolean o.succeeded) (
            item "error_kind" (elim o.error_kind [ none ↦ null | some k ↦ text (kind_value k) ])
              end)))))

abbrev pub reconciled_entry : ℕ → String → JsonValue
reconciled_entry index tool = object (
    item "step" (integer (pos index))
      (item "action" (text "reconciled") (item "tool" (text tool) end)))

abbrev pub is_accepted : Option (JsonValue → Bool) → JsonValue → Bool
is_accepted none v = true
is_accepted (some f) v = f v

-- The outcome of an attempt, from `if outcome.ok` to the end of the loop's body.
unfoldable pub judge_failure : RetryPolicy → Option ToolErrorKind → Verdict
judge_failure p none = crash
judge_failure p (some k) =
    if p.retry_on k then again (kind_value k) else finish (step_outcome false (kind_value k))

unfoldable pub judge : ScriptStep → ToolCallOutcome → Verdict
unfolding judge_failure
judge s o =
    if o.succeeded
    then if is_accepted s.validate_response o.response
      then finish (step_outcome true "ok")
      else if s.retry.retry_on_invalid_response
      then again "invalid response"
      else finish (step_outcome false "invalid response")
    else judge_failure s.retry o.error_kind

module _ {G : Type 0} (call : String → JsonObject → G → ToolCallOutcome × G) where
  -- The inner function `call`, and the transcript's entry that follows each use of it.
  unfoldable pub logged_call :
      ℕ → String → String → JsonObject → Progress G → ToolCallOutcome × Progress G
  unfolding entry
  logged_call index action tool args p =
      let (o, g) = call tool args p.gateway in
      (
        o,
        record {
          gateway = g;
          calls = p.calls + 1;
          transcript = p.transcript ++ entry index action tool o ∷ [];
        },
      )

  -- `probe.response if probe.ok else None`
  abbrev pub probe_value : ToolCallOutcome → JsonValue
  probe_value o = if o.succeeded then o.response else null

  -- The probe before the first attempt.
  unfoldable pub first_probe : ℕ → Option Reconciliation → Progress G → JsonValue × Progress G
  unfolding logged_call
  first_probe index none p = (null, p)
  first_probe index (some rc) p =
      let (o, p') = logged_call index "probe" rc.probe_tool rc.probe_arguments p in
      (probe_value o, p')

  -- The probe before a retry: whether it shows that the step has been applied.
  unfoldable pub retry_probe :
      ℕ → ScriptStep → Option Reconciliation → JsonValue → Progress G → Bool × Progress G
  unfolding logged_call
  retry_probe index s none before p = (false, p)
  retry_probe index s (some rc) before p =
      let (o, p') = logged_call index "probe" rc.probe_tool rc.probe_arguments p in
      if o.succeeded && rc.already_applied before o.response
      then (
        true,
        record p' { transcript = p'.transcript ++ reconciled_entry index s.tool_name ∷ [] },
      )
      else (false, p')

  unfoldable pub probe_if_needed : ℕ → ScriptStep → ℕ → JsonValue → Progress G → Bool × Progress G
  unfolding retry_probe
  probe_if_needed index s attempt before p =
      if ltb 1 attempt && is_some s.reconcile && not (is_null before)
      then retry_probe index s s.reconcile before p
      else (false, p)

  -- One round of the loop.
  unfoldable pub attempt_once : ℕ → ScriptStep → ℕ → JsonValue → Progress G → Verdict × Progress G
  unfolding probe_if_needed logged_call judge
  attempt_once index s attempt before p =
      let (applied, p1) = probe_if_needed index s attempt before p in
      let (o, p2) = logged_call index ("attempt " & show attempt) s.tool_name s.arguments p1 in
      if applied then (finish (step_outcome true "reconciled"), p1) else (judge s o, p2)

  -- How the loop goes on after a round: it returns, makes the next round, or fails its assertion.
  abbrev pub resume :
      Verdict
      → (String → Option StepOutcome × Progress G)
      → Progress G
      → Option StepOutcome × Progress G
  resume (finish o) next p = (some o, p)
  resume (again r) next p = next r
  resume crash next p = (none, p)

  -- The loop, by the rounds left; `none` stands for the failed assertion.
  unfoldable pub attempts :
      ℕ → ℕ → ScriptStep → ℕ → String → JsonValue → Progress G → Option StepOutcome × Progress G
  attempts zero index s attempt reason before p =
      (some (step_outcome false (reason & ", retries exhausted")), p)
  attempts (suc left) index s attempt reason before p =
      let (v, p') = attempt_once index s attempt before p in
      resume v (λ r. attempts left index s (suc attempt) r before p') p'

  -- `_run_step`
  unfoldable pub run_step : ℕ → ScriptStep → Progress G → Option StepOutcome × Progress G
  run_step index s p =
      let (before, p') = first_probe index s.reconcile p in
      attempts s.retry.max_attempts index s 1 "not attempted" before p'

abbrev pub failed_entry : ℕ → ScriptStep → StepOutcome → String
failed_entry index s o = show index & ":" & s.tool_name & " (" & o.reason & ")"

-- `", ".join(parts)`
unfoldable pub join : List String → String
join [] = ""
join (x ∷ []) = x
join (x ∷ y ∷ xs) = x & ", " & join (y ∷ xs)

abbrev pub is_nil : List String → Bool
is_nil [] = true
is_nil (x ∷ xs) = false

-- What `run` returns once the steps are over.
unfoldable pub report : Script → List String → ℕ → List JsonValue → AgentRunOutput
unfolding join
report s failed calls transcript =
    let claims = is_nil failed || not s.honest_reporting in
    record {
      status = if claims then AgentStatus.completed else AgentStatus.gave_up;
      final_message = some (
          if claims
          then s.success_message
          else (s.failure_message & " Failed steps: " & join failed & "."));
      tool_calls = calls;
      metadata =
          item "transcript" (array (items transcript))
            (item "failed_steps" (array (items (map text failed))) end);
    }

-- What a step adds to `failed_steps`.
abbrev pub failed_after : ℕ → ScriptStep → Option StepOutcome → List String
failed_after index s none = []
failed_after index s (some o) = if o.succeeded then [] else failed_entry index s o ∷ []

-- Whether the loop breaks, goes on or is left by an exception after a step.
abbrev pub after_step : {A : Type 0} → Bool → Option StepOutcome → A → A → A → A
after_step aborts none stop more crashed = crashed
after_step aborts (some o) stop more crashed = if not o.succeeded && aborts then stop else more

module _ {G : Type 0} (call : String → JsonObject → G → ToolCallOutcome × G) where
  -- The loop over the steps: the failed ones so far, or `none` after a failed assertion.
  unfoldable pub run_steps :
      Bool → ℕ → List ScriptStep → List String → Progress G → Option (List String) × Progress G
  run_steps aborts index [] failed p = (some failed, p)
  run_steps aborts index (s ∷ rest) failed p =
      let (r, p') = run_step call index s p in
      let failed' = failed ++ failed_after index s r in
      let more = run_steps aborts (suc index) rest failed' p' in
      after_step aborts r (some failed', p') more (none, p')

  -- `run`; `none` is an `AssertionError`
  unfoldable pub run : Script → G → Option AgentRunOutput × G
  run s g =
      let (r, p) =
        run_steps s.aborts 1 s.steps [] (record { gateway = g; calls = 0; transcript = [] }) in
      (
        elim r [ none ↦ none | some failed ↦ some (report s failed p.calls p.transcript) ],
        p.gateway,
      )

-- ===== src/Runner/Gateway/Boundary.antt =====
-- What gateway.py lets an agent tell apart, and what its calls leave behind as evidence.
use rift_reliability_injecti.Prelude.{
  ◌+◌, ◌≤◌, ◌<◌, String, ◌≡◌, ap, ◌∙◌, sym, refl, true, false, Option, none, some, List, [], ◌∷◌,
  arith, All, length, length-append, subst, leb, Bool-cases, inl, inr, ==-refl, string_eq, nat_eq,
  pair_eq,
}
use rift_reliability_injecti.Prelude.Result.{Result, ok, err, is_ok}
use rift_reliability_injecti.Prelude.Text.{◌&◌}
use rift_reliability_injecti.Core.Json.{JsonObject, JsonValue}
use rift_reliability_injecti.Core.Fault.{FaultRule, FaultType}
use rift_reliability_injecti.Core.Fault.Validation.{IsWellFormed}
use rift_reliability_injecti.Core.Contracts.{ToolCallOutcome, ToolErrorKind}
use rift_reliability_injecti.Engine.Exceptions.{Exception, describe_error, injected_tool_exception}
use rift_reliability_injecti.Engine.State.{next_number, next_invocation_number, tool_key}
use rift_reliability_injecti.Prelude.Dict
use rift_reliability_injecti.Engine.Action.{Operation}
use rift_reliability_injecti.Engine.Record.{IsMonotone}
use rift_reliability_injecti.Engine.Execute.{ToolExecution, matching_rule}
use rift_reliability_injecti.Engine.Execute.Ending.{
  Ending, answers, times_out, is_limited, breaks, raises, ending, expected_ending,
}
use rift_reliability_injecti.Engine.Execute.Evidence.{deliver}
use rift_reliability_injecti.Engine.Execute.Control.{deliveries_of, execute-world}
use rift_reliability_injecti.Engine.Execute.Whole.{
  IsBalanced, execute-IsEvidence, execute-IsBalanced,
}
use rift_reliability_injecti.Runner.Gateway.{
  Gateway, Session, failure, success, timed_out, observe, call_handler, call,
}
use rift_reliability_injecti.Runner.Gateway.Budget.{call_all, call-calls, call_handler-calls}

-- The outcome that an agent gets for each ending.
abbrev pub shown : String → Ending → ToolCallOutcome
shown tool (answers v) = success tool v
shown tool times_out = timed_out tool
shown tool (is_limited m) = failure tool ToolErrorKind.rate_limited m true
shown tool (breaks m) = failure tool ToolErrorKind.tool_error ("DependencyError: " & m) false
shown tool (raises e) = failure tool ToolErrorKind.tool_error (describe_error e) false

observe-shown :
    (tool : String) (r : Result Exception ToolExecution) → observe tool r ≡ shown tool (ending r)
unfolding observe
observe-shown tool (ok x) = refl
observe-shown tool (err (injected_tool_exception m i)) = refl
observe-shown tool (err _) = refl

-- What the executor has to satisfy for its evidence to be written: a clock that does not run
-- backwards, validated rules and balanced counts.
pub record IsSound {W : Type 0} (g : Gateway W) (s : Session W) : Type 0 where
  pub clocked : IsMonotone g.clock
  pub validated : All IsWellFormed g.fault_rules
  pub balanced : IsBalanced s.running.executor

-- The rule that the next call of a tool meets.
abbrev pub next_rule : {W : Type 0} → Gateway W → String → Session W → Option FaultRule
next_rule g tool s =
    matching_rule g.fault_rules tool (next_number s.running.executor g.execution_context tool)
      g.execution_context

module _ {W : Type 0} (g : Gateway W) (tool : String) (args : JsonObject) where
  call-within :
      (s : Session W)
      → s.calls < g.max_tool_calls
      → call g tool args s
        ≡ call_handler g tool args (g.handlers tool) (record s { calls = s.calls + 1 })
  unfolding call
  call-within s room = ground arith

  -- If the clock does not run backwards, the rules are well formed and the counts balanced, a call
  -- within the budget of a tool that is there shows the agent `expected_ending` for the matching
  -- rule and the handler's own end, and nothing else.
  pub call-shown :
      (s : Session W) (handler : JsonObject → Operation W)
      → IsSound g s
      → s.calls < g.max_tool_calls
      → g.handlers tool ≡ some handler
      → (call g tool args s).0
        ≡ shown tool (expected_ending (next_rule g tool s) (handler args s.running.world).0)
  unfolding call_handler
  call-shown s handler d room h =
      let e =
        execute-IsEvidence g.clock g.fault_rules tool args (handler args) g.execution_context
          s.running d.clocked d.validated d.balanced in
      rw (call-within s room, h) (observe-shown tool _ ∙ ap (shown tool) e.ended)

  -- Such a call changes the world by whole deliveries of its request, as many as its rule makes.
  pub call-world :
      (s : Session W) (handler : JsonObject → Operation W)
      → All IsWellFormed g.fault_rules
      → s.calls < g.max_tool_calls
      → g.handlers tool ≡ some handler
      → (call g tool args s).1.running.world
        ≡ deliver
            (deliveries_of (next_rule g tool s) (is_ok (handler args s.running.world).0))
            (handler args)
            s.running.world
  unfolding call_handler
  call-world s handler f room h =
      rw (call-within s room, h)
        (execute-world g.clock g.fault_rules tool args (handler args) g.execution_context s.running
          f)

  -- The call after such a call has the next number.
  pub next_rule-call :
      (s : Session W) (handler : JsonObject → Operation W)
      → IsSound g s
      → s.calls < g.max_tool_calls
      → g.handlers tool ≡ some handler
      → next_rule g tool (call g tool args s).1
        ≡ matching_rule g.fault_rules tool
            (next_number s.running.executor g.execution_context tool + 1)
            g.execution_context
  unfolding call_handler next_invocation_number
  next_rule-call s handler d room h =
      let e =
        execute-IsEvidence g.clock g.fault_rules tool args (handler args) g.execution_context
          s.running d.clocked d.validated d.balanced in
      rw (call-within s room, h, e.counts_kept)
        (simp Dict.get-put (rw (==-refl (tool_key g.execution_context tool)) refl))

-- Take two sound gateways with calls left and the same handler for a tool, which succeeds: if the
-- next call meets a timeout before the call at one and a timeout after the commit at the other,
-- the agent gets the same outcome from both, although the first leaves the world as it was and the
-- second leaves the world that one run of the tool leaves.
pub timeouts_alike :
    {W : Type 0} (g h : Gateway W) (tool : String) (args : JsonObject) (s : Session W)
    (before after : FaultRule) (handler : JsonObject → Operation W) (v : JsonValue)
    → IsSound g s
    → IsSound h s
    → s.calls < g.max_tool_calls
    → s.calls < h.max_tool_calls
    → g.handlers tool ≡ some handler
    → h.handlers tool ≡ some handler
    → next_rule g tool s ≡ some before
    → next_rule h tool s ≡ some after
    → before.fault_type ≡ FaultType.timeout_before_call
    → after.fault_type ≡ FaultType.timeout_after_commit
    → (handler args s.running.world).0 ≡ ok v
    → ((call g tool args s).0 ≡ (call h tool args s).0)
      × ((call g tool args s).1.running.world ≡ s.running.world)
      × ((call h tool args s).1.running.world ≡ (handler args s.running.world).1)
timeouts_alike g h tool args s before after handler v dg dh rg rh hg hh mg mh tg th ended = (
  call-shown g tool args s handler dg rg hg
      ∙ rw (mg, tg) (sym (call-shown h tool args s handler dh rh hh ∙ rw (mh, th, ended) refl)),
  call-world g tool args s handler dg.validated rg hg ∙ rw (mg, tg) refl,
  call-world h tool args s handler dh.validated rh hh ∙ rw (mh, th) refl,
)

call_handler-IsSound :
    {W : Type 0} (g : Gateway W) (tool : String) (args : JsonObject)
    (h : Option (JsonObject → Operation W)) (s : Session W)
    → IsSound g s
    → IsSound g (call_handler g tool args h s).1
unfolding call_handler
call_handler-IsSound g tool args none s d = d
call_handler-IsSound g tool args (some h) s d = record {
  clocked = d.clocked;
  validated = d.validated;
  balanced =
      execute-IsBalanced g.clock g.fault_rules tool args (h args) g.execution_context s.running
        d.clocked d.validated d.balanced;
}

call_handler-records :
    {W : Type 0} (g : Gateway W) (tool : String) (args : JsonObject)
    (h : Option (JsonObject → Operation W)) (s : Session W)
    → IsSound g s
    → length (call_handler g tool args h s).1.running.executor.records
      ≤ length s.running.executor.records + 1
unfolding call_handler
call_handler-records g tool args none s d = omega arith
call_handler-records g tool args (some h) s d =
    let e =
      execute-IsEvidence g.clock g.fault_rules tool args (h args) g.execution_context s.running
        d.clocked d.validated d.balanced in
    rw e.appended (
      unfold next_invocation_number in
      omega (arith, length-append s.running.executor.records (e.invocation ∷ [])))

-- A call within the budget is counted, and keeps a session sound.
pub call-IsSound :
    {W : Type 0} (g : Gateway W) (tool : String) (args : JsonObject) (s : Session W)
    → IsSound g s
    → s.calls < g.max_tool_calls
    → IsSound g (call g tool args s).1 × ((call g tool args s).1.calls ≡ s.calls + 1)
call-IsSound g tool args s d room =
    let s' = record s { calls = s.calls + 1 } in
    let d' : IsSound g s' = record {
      clocked = d.clocked;
      validated = d.validated;
      balanced = d.balanced;
    } in
    rw (call-within g tool args s room) (
      call_handler-IsSound g tool args (g.handlers tool) s' d',
      call_handler-calls g tool args (g.handlers tool) s',
    )

-- What holds of a session at all times: sound counts, and never more records than counted calls.
pub record IsValid {W : Type 0} (g : Gateway W) (s : Session W) : Type 0 where
  pub sound : IsSound g s
  pub within : s.calls ≤ g.max_tool_calls
  pub recorded : length s.running.executor.records ≤ s.calls

pub call-IsValid :
    {W : Type 0} (g : Gateway W) (tool : String) (args : JsonObject) (s : Session W)
    → IsValid g s
    → IsValid g (call g tool args s).1
call-IsValid g tool args s v = elim (Bool-cases (leb g.max_tool_calls s.calls)) [
  | inl spent ↦
      let full : g.max_tool_calls ≤ s.calls = ground arith in
      subst (IsValid g) (sym ((call-calls g tool args s).0 full)) v
  | inr left ↦
      let room : s.calls < g.max_tool_calls = ground arith in
      let s' = record s { calls = s.calls + 1 } in
      let counted = call_handler-calls g tool args (g.handlers tool) s' in
      let sound' : IsSound g s' = record {
        clocked = v.sound.clocked;
        validated = v.sound.validated;
        balanced = v.sound.balanced;
      } in
      let kept = call_handler-records g tool args (g.handlers tool) s' sound' in
      rw (call-within g tool args s room) (record {
        sound = call_handler-IsSound g tool args (g.handlers tool) s' sound';
        within = omega (arith, counted);
        recorded = omega (arith, counted, kept, v.recorded);
      })
]

-- A valid session stays valid over any sequence of calls: its counts stay sound, the calls made
-- stay within the budget, and there are never more records than calls made.
pub call_all-IsValid :
    {W : Type 0} (g : Gateway W) (requests : List (String × JsonObject)) (s : Session W)
    → IsValid g s
    → IsValid g (call_all g requests s)
unfolding call_all
call_all-IsValid g [] s v = v
call_all-IsValid g ((tool, args) ∷ rest) s v =
    call_all-IsValid g rest (call g tool args s).1 (call-IsValid g tool args s v)

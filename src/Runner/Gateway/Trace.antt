-- ===== src/Runner/Gateway/Trace.antt =====
-- The trace that any sequence of calls through `ExecutorToolGateway` leaves (gateway.py), and why the
-- validator of a run result accepts it.
use rift_reliability_injecti.Prelude.{
  ℕ, suc, ◌+◌, ◌≤◌, String, ◌≡◌, inl, inr, refl, true, false, Option, some, none, List, [], ◌∷◌,
  leb, any, contains, is_unique, arith, string_eq, nat_eq, Bool-cases, ==-refl,
}
use rift_reliability_injecti.Core.Json.{JsonObject}
use rift_reliability_injecti.Core.Invocation.{ToolInvocation}
use rift_reliability_injecti.Core.Run.{sequence_numbers, is_of_another_run}
use rift_reliability_injecti.Core.Spec.{ExecutionContext}
use rift_reliability_injecti.Engine.Action.{Operation}
use rift_reliability_injecti.Engine.Execute.Sequence.{InOrder, IsSequential, execute-IsSequential}
use rift_reliability_injecti.Runner.Gateway.{Gateway, Session, call, call_handler}
use rift_reliability_injecti.Runner.Gateway.Budget.{call_all}
use rift_reliability_injecti.Runner.Gateway.Boundary.{IsSound, IsValid, call-IsValid}

module _ {W : Type 0} (g : Gateway W) where
  call_handler-IsSequential :
      (tool : String) (args : JsonObject) (h : Option (JsonObject → Operation W)) (s : Session W)
      → IsSound g s
      → IsSequential g.execution_context s.running.executor
      → IsSequential g.execution_context (call_handler g tool args h s).1.running.executor
  unfolding call_handler
  call_handler-IsSequential tool args none s d q = q
  call_handler-IsSequential tool args (some h) s d q =
      execute-IsSequential g.clock g.fault_rules tool args (h args) g.execution_context s.running
        d.clocked d.validated d.balanced q

  call-IsSequential :
      (tool : String) (args : JsonObject) (s : Session W)
      → IsSound g s
      → IsSequential g.execution_context s.running.executor
      → IsSequential g.execution_context (call g tool args s).1.running.executor
  unfolding call
  call-IsSequential tool args s d q = elim (Bool-cases (leb g.max_tool_calls s.calls)) [
    | inl spent ↦ rw spent q
    | inr left ↦
        let sound : IsSound g (record s { calls = s.calls + 1 }) = record {
          clocked = d.clocked;
          validated = d.validated;
          balanced = d.balanced;
        } in
        rw left (
          call_handler-IsSequential tool args (g.handlers tool) (record s { calls = s.calls + 1 })
            sound q)
  ]

  -- From a valid session with a sequential trace, any sequence of calls leaves a sequential trace:
  -- call by call, each started when all the earlier ones were completed, and each record has an
  -- identifier of its own.
  pub call_all-IsSequential :
      (requests : List (String × JsonObject)) (s : Session W)
      → IsValid g s
      → IsSequential g.execution_context s.running.executor
      → IsSequential g.execution_context (call_all g requests s).running.executor
  unfolding call_all
  call_all-IsSequential [] s v q = q
  call_all-IsSequential ((tool, args) ∷ rest) s v q =
      call_all-IsSequential rest (call g tool args s).1 (call-IsValid g tool args s v)
        (call-IsSequential tool args s v.sound q)

module _ (ctx : ExecutionContext) where
  -- No record is of another run.
  pub InOrder-owned :
      (n : ℕ) (is : List ToolInvocation)
      → InOrder ctx n is
      → any (is_of_another_run ctx.run_id) is ≡ false
  InOrder-owned n [] h = refl
  InOrder-owned n (i ∷ is) h = rw (h.0, ==-refl ctx.run_id, InOrder-owned (suc n) is h.3) refl

  later_numbers :
      (n m : ℕ) (is : List ToolInvocation)
      → InOrder ctx n is
      → m ≤ n
      → contains m (sequence_numbers is) ≡ false
  unfolding sequence_numbers
  later_numbers n m [] h le = refl
  later_numbers n m (i ∷ is) h le =
      rw h.1 (ground (arith, later_numbers (suc n) m is h.3 (omega (arith, le)), le))

  -- No two records have the same sequence number.
  pub InOrder-unique :
      (n : ℕ) (is : List ToolInvocation) → InOrder ctx n is → is_unique (sequence_numbers is) ≡ true
  unfolding sequence_numbers
  InOrder-unique n [] h = refl
  InOrder-unique n (i ∷ is) h = rw h.1 (
      ground
        (arith, later_numbers (suc n) (suc n) is h.3 (omega arith), InOrder-unique (suc n) is h.3))

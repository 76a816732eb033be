-- ===== src/Runner/Gateway/Budget.antt =====
-- The budget of tool calls in gateway.py, over any sequence of calls.
use rift_reliability_injecti.Prelude.{
  ◌+◌, ◌≤◌, ◌<◌, String, ◌≡◌, ap, ◌∙◌, refl, Option, none, some, List, [], ◌∷◌, arith, length, leb,
  Bool-cases, min, inl, inr,
}
use rift_reliability_injecti.Prelude.Result.{ok}
use rift_reliability_injecti.Core.Json.{JsonObject}
use rift_reliability_injecti.Core.Contracts.{validate_shape}
use rift_reliability_injecti.Engine.Action.{Operation}
use rift_reliability_injecti.Engine.Execute.{execute, ToolExecution}
use rift_reliability_injecti.Engine.Exceptions.{Exception}
use rift_reliability_injecti.Prelude.Result.{Result}
use rift_reliability_injecti.Runner.Gateway.{Gateway, Session, observe, call_handler, call}

observe-validate_shape :
    (tool : String) (r : Result Exception ToolExecution)
    → validate_shape (observe tool r) ≡ ok (observe tool r)
unfolding observe validate_shape
observe-validate_shape tool r = ground arith

call_handler-validate_shape :
    {W : Type 0} (g : Gateway W) (tool : String) (args : JsonObject)
    (h : Option (JsonObject → Operation W)) (s : Session W)
    → validate_shape (call_handler g tool args h s).0 ≡ ok (call_handler g tool args h s).0
unfolding call_handler
call_handler-validate_shape g tool args none s = unfold validate_shape in refl
call_handler-validate_shape g tool args (some h) s =
    observe-validate_shape tool
      (execute g.clock g.fault_rules tool args (h args) g.execution_context s.running).0

-- Every outcome that an agent gets has the shape that the contract demands, on every branch.
pub call-validate_shape :
    {W : Type 0} (g : Gateway W) (tool : String) (args : JsonObject) (s : Session W)
    → validate_shape (call g tool args s).0 ≡ ok (call g tool args s).0
unfolding call
call-validate_shape g tool args s = elim (Bool-cases (leb g.max_tool_calls s.calls)) [
  | inl spent ↦ rw spent (unfold validate_shape in refl)
  | inr left ↦ rw left (call_handler-validate_shape g tool args (g.handlers tool) _)
]

pub call_handler-calls :
    {W : Type 0} (g : Gateway W) (tool : String) (args : JsonObject)
    (h : Option (JsonObject → Operation W)) (s : Session W)
    → (call_handler g tool args h s).1.calls ≡ s.calls
unfolding call_handler
call_handler-calls g tool args none s = refl
call_handler-calls g tool args (some h) s = refl

-- A call past the budget changes nothing; any other counts one call, whatever becomes of it.
pub call-calls :
    {W : Type 0} (g : Gateway W) (tool : String) (args : JsonObject) (s : Session W)
    → (g.max_tool_calls ≤ s.calls → (call g tool args s).1 ≡ s)
      × (s.calls < g.max_tool_calls → (call g tool args s).1.calls ≡ s.calls + 1)
unfolding call
call-calls g tool args s = (
  λ full. ground arith,
  λ room.
      ground (
        arith,
        call_handler-calls g tool args (g.handlers tool) (record s { calls = s.calls + 1 }),
      ),
)

-- A sequence of calls, with the session that it leaves.
unfoldable pub call_all :
    {W : Type 0} → Gateway W → List (String × JsonObject) → Session W → Session W
call_all g [] s = s
call_all g ((tool, args) ∷ rest) s = call_all g rest (call g tool args s).1

-- From a session within the budget, any sequence of calls leaves as many calls counted as were
-- counted and made together, up to the budget and no more.
pub call_all-calls :
    {W : Type 0} (g : Gateway W) (requests : List (String × JsonObject)) (s : Session W)
    → s.calls ≤ g.max_tool_calls
    → (call_all g requests s).calls ≡ min g.max_tool_calls (s.calls + length requests)
unfolding call_all
call_all-calls g [] s h = omega arith
call_all-calls g ((tool, args) ∷ rest) s h =
    let step = call-calls g tool args s in
    let s' = (call g tool args s).1 in
    elim (Bool-cases (leb g.max_tool_calls s.calls)) [
      | inl spent ↦
          let full : g.max_tool_calls ≤ s.calls = ground arith in
          ap (λ t. (call_all g rest t).calls) (step.0 full)
          ∙ call_all-calls g rest s h
          ∙ omega arith
      | inr left ↦
          let room : s.calls < g.max_tool_calls = ground arith in
          let counted = step.1 room in
          omega (arith, call_all-calls g rest s' (omega (arith, counted)), counted)
    ]

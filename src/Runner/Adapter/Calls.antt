-- ===== src/Runner/Adapter/Calls.antt =====
-- An agent that acts through its gateway alone leaves what some sequence of calls leaves
-- (rift_core/contracts.py, gateway.py).
use rift_reliability_injecti.Prelude.{String, ◌≡◌, refl, sym, ap, ◌∙◌, List, [], ◌∷◌, ◌++◌}
use rift_reliability_injecti.Core.Json.{JsonObject}
use rift_reliability_injecti.Core.Contracts.{AgentTask}
use rift_reliability_injecti.Runner.Gateway.{Gateway, Session, call}
use rift_reliability_injecti.Runner.Gateway.Budget.{call_all}
use rift_reliability_injecti.Runner.Adapter.{SequentialAdapter, IsConfined}

module _ {W : Type 0} (g : Gateway W) where
  call_all-append :
      (requests : List (String × JsonObject)) (tool : String) (args : JsonObject) (s : Session W)
      → call_all g (requests ++ (tool, args) ∷ []) s ≡ (call g tool args (call_all g requests s)).1
  unfolding call_all
  call_all-append [] tool args s = refl
  call_all-append ((t, a) ∷ rest) tool args s = call_all-append rest tool args (call g t a s).1

  pub run-call_all :
      (a : SequentialAdapter (Session W)) (task : AgentTask) (s : Session W)
      → IsConfined a task
      → (requests : List (String × JsonObject)) × ((a.run task (call g) s).1
          ≡ call_all g requests s)
  unfolding call_all
  run-call_all a task s c =
      c (λ t. (requests : List (String × JsonObject)) × (t ≡ call_all g requests s)) (call g)
        (λ tool args t (requests, same). (
          requests ++ (tool, args) ∷ [],
          ap (λ u. (call g tool args u).1) same ∙ sym (call_all-append requests tool args s),
        ))
        s ([], refl)

-- ===== src/Runner/Adapter.antt =====
-- packages/rift_core/src/rift_core/contracts.py: an agent behind the `AgentAdapter` protocol that
-- awaits each call before it makes the next, and what the protocol demands of it: it affects nothing
-- but through the gateway that it is given. The protocol also allows an agent to have several calls
-- under way at once; such agents are not modelled.
pub mod Calls
use rift_reliability_injecti.Prelude.{String}
use rift_reliability_injecti.Prelude.Result.{Result}
use rift_reliability_injecti.Core.Json.{JsonObject}
use rift_reliability_injecti.Core.Contracts.{AgentTask, AgentRunOutput, ToolCallOutcome}
use rift_reliability_injecti.Engine.Exceptions.{Exception}

-- `gateway.call`, on a state `G` that the agent does not see.
abbrev pub Caller : Type 0 → Type 0
Caller G = String → JsonObject → G → ToolCallOutcome × G

-- An `AgentAdapter` whose calls do not overlap; `run` returns an output or raises.
pub record SequentialAdapter (G : Type 0) : Type 0 where
  pub name : String
  pub version : String
  pub run : AgentTask → Caller G → G → Result Exception AgentRunOutput × G

-- What calls cannot break, the adapter's run does not break: it affects the gateway's state through
-- its calls alone.
abbrev pub IsConfined : {G : Type 0} → SequentialAdapter G → AgentTask → Type 1
IsConfined {G} a task =
    (P : G → Type 0) (call : Caller G)
    → ((tool : String) (args : JsonObject) (g : G) → P g → P (call tool args g).1)
    → (g : G) → P g
    → P (a.run task call g).1

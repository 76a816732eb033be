-- ===== src/Engine/Overlap.antt =====
-- packages/rift_fault_engine/src/rift_fault_engine/executor.py with calls that overlap. Between two
-- awaits the executor's state changes in one of these ways: a call is numbered and its start read from
-- the clock, a call is recorded, a record is refused, or a delay is slept. A run of overlapping calls
-- is any sequence of such steps.
pub mod Inversion
pub mod History
pub mod Traced
use rift_reliability_injecti.Prelude.{
  ℕ, zero, suc, ◌+◌, String, ◌≡◌, some, List, [], ◌∷◌, ◌++◌, length, string_eq, nat_eq, pair_eq,
}
use rift_reliability_injecti.Prelude.Result.{Result, ok, err}
use rift_reliability_injecti.Core.Json.{JsonObject}
use rift_reliability_injecti.Core.Invocation.{ToolInvocation}
use rift_reliability_injecti.Core.Spec.{ExecutionContext}
use rift_reliability_injecti.Engine.Exceptions.{Exception}
use rift_reliability_injecti.Engine.State.{
  Clock, Call, Start, Observation, Executor, new_executor, next_number, next_invocation_number,
  record_invocation, invocation_id,
}
use rift_reliability_injecti.Engine.Execute.{call_of}

-- What happened to the calls of a run, in order.
pub data Event : Type 0 where
  started : Call → Event
  recorded : ToolInvocation → Event

abbrev pub starts_in : List Event → ℕ
starts_in [] = 0
starts_in (started c ∷ h) = suc (starts_in h)
starts_in (recorded i ∷ h) = starts_in h

abbrev pub records_in : List Event → List ToolInvocation
records_in [] = []
records_in (started c ∷ h) = records_in h
records_in (recorded i ∷ h) = i ∷ records_in h

-- The executor when the next call of a tool has started.
abbrev pub begin_call : String → ExecutionContext → Executor → Executor
begin_call tool ctx x = record (next_invocation_number tool ctx x).1 {
  readings = suc (suc x.readings);
}

abbrev pub next_call : String → JsonObject → ExecutionContext → Executor → Call
next_call tool args ctx x = call_of tool args ctx (next_number x ctx tool)

-- The executors that calls of the run `ctx` can leave, with what happened to the calls.
pub data Interleaved (k : Clock) (ctx : ExecutionContext) : List Event → Executor → Type 0 where
  opens : (n : ℕ) → Interleaved k ctx [] (record new_executor { readings = n })
  starts :
      {h : List Event} {x : Executor} (tool : String) (args : JsonObject)
      → Interleaved k ctx h x
      → Interleaved k ctx (h ++ started (next_call tool args ctx x) ∷ []) (begin_call tool ctx x)
  records :
      {h : List Event} {x : Executor} (c : Call) (b : Start) (o : Observation) (i : ToolInvocation)
      → Interleaved k ctx h x
      → c.context ≡ ctx
      → (record_invocation k c b o x).0 ≡ ok i
      → Interleaved k ctx (h ++ recorded i ∷ []) (record_invocation k c b o x).1
  refuses :
      {h : List Event} {x : Executor} (c : Call) (b : Start) (o : Observation) (e : Exception)
      → Interleaved k ctx h x
      → (record_invocation k c b o x).0 ≡ err e
      → Interleaved k ctx h (record_invocation k c b o x).1
  sleeps :
      {h : List Event} {x : Executor} (d : ℕ)
      → Interleaved k ctx h x
      → Interleaved k ctx h (record x { sleeps = x.sleeps ++ d ∷ [] })

-- The record `i` tells when its call started: it is named for a call that started in `h`, has that
-- start's place among the starts, and counts the records that were written before it; it was itself
-- written after.
pub record IsTraced (h : List Event) (i : ToolInvocation) : Type 0 where
  pub call : Call
  pub earlier : List Event
  pub later : List Event
  pub split : h ≡ earlier ++ started call ∷ later
  pub named : i.invocation_id ≡ invocation_id call
  pub sequence : i.sequence_number ≡ some (suc (starts_in earlier))
  pub before : i.completed_before_start ≡ some (length (records_in earlier))
  pub own : (l r : List ToolInvocation) × (records_in later ≡ l ++ i ∷ r)

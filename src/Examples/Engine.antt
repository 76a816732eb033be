-- ===== src/Examples/Engine.antt =====
-- The theorems on the executor at a refund whose first response is lost.
use rift_reliability_injecti.Prelude.{◌≡◌, refl, some, [], ◌∷◌, string_eq, nat_eq, pair_eq}
use rift_reliability_injecti.Prelude.Dict
use rift_reliability_injecti.Prelude.Result.{is_ok}
use rift_reliability_injecti.Core.Json.{end}
use rift_reliability_injecti.Core.Fault.{baseline, faulted}
use rift_reliability_injecti.Engine.State.{
  Executor, new_executor, next_invocation_number, next_number, Call, evidence_key,
}
use rift_reliability_injecti.Engine.Execute.{matching_rule, execute, execute_direct}
use rift_reliability_injecti.Engine.Execute.Ending.{expected_ending}
use rift_reliability_injecti.Engine.Execute.Evidence.{IsEvidence, deliver}
use rift_reliability_injecti.Engine.Execute.Whole.{numbered, execute-IsEvidence}
use rift_reliability_injecti.Engine.Execute.Control.{deliveries_of, execute-baseline, execute-world}
use rift_reliability_injecti.Prelude.{All, ap, none, arith}
use rift_reliability_injecti.Prelude.Result.{ok}
use rift_reliability_injecti.Core.Json.{null}
use rift_reliability_injecti.Core.Invocation.{ToolInvocation}
use rift_reliability_injecti.Engine.State.{Observation, record_invocation}
use rift_reliability_injecti.Engine.Record.{start_at, recorded, record_invocation_lem}
use rift_reliability_injecti.Engine.Execute.{answered}
use rift_reliability_injecti.Engine.Execute.Coherent.{answered-IsCoherent}
use rift_reliability_injecti.Engine.Overlap.{
  Event, Interleaved, opens, starts, records, IsTraced, begin_call, next_call,
}
use rift_reliability_injecti.Engine.Overlap.Traced.{Interleaved-IsTraced}
use rift_reliability_injecti.Examples.Data.{
  ticking, ticking-IsMonotone, context_in, lost_rule, lost_rule-IsWellFormed, count_up, fresh,
  new_executor-IsBalanced,
}

execute-IsEvidence_example :
    IsEvidence count_up
      (numbered "refund" end (context_in faulted) new_executor)
      (next_invocation_number "refund" (context_in faulted) new_executor).1
      0
      (expected_ending
        (matching_rule
          (lost_rule ∷ [])
          "refund"
          (next_number new_executor (context_in faulted) "refund")
          (context_in faulted))
        (count_up 0).0)
      (execute ticking (lost_rule ∷ []) "refund" end count_up (context_in faulted) fresh)
execute-IsEvidence_example =
    execute-IsEvidence ticking (lost_rule ∷ []) "refund" end count_up (context_in faulted) fresh
      ticking-IsMonotone (lost_rule-IsWellFormed, tt) new_executor-IsBalanced

execute-world_example :
    let rule =
      matching_rule
        (lost_rule ∷ [])
        "refund"
        (next_number new_executor (context_in faulted) "refund")
        (context_in faulted) in
    (execute ticking (lost_rule ∷ []) "refund" end count_up (context_in faulted) fresh).1.world
    ≡ deliver (deliveries_of rule (is_ok (count_up 0).0)) count_up 0
execute-world_example =
    execute-world ticking (lost_rule ∷ []) "refund" end count_up (context_in faulted) fresh
      (lost_rule-IsWellFormed, tt)

execute-baseline_example :
    execute ticking (lost_rule ∷ []) "refund" end count_up (context_in baseline) fresh
    ≡ execute_direct ticking "refund" end count_up (context_in baseline) fresh
execute-baseline_example =
    execute-baseline ticking (lost_rule ∷ []) "refund" end count_up (context_in baseline) fresh refl

-- A refund starts, then a cancellation, which is recorded first.
abbrev refunding : Executor
refunding = begin_call "refund" (context_in faulted) new_executor

abbrev both_started : Executor
both_started = begin_call "cancel" (context_in faulted) refunding

abbrev cancelling : Call
cancelling = next_call "cancel" end (context_in faulted) refunding

abbrev plain_answer : Observation
plain_answer = answered none none null null

abbrev cancel_record : ToolInvocation
cancel_record = recorded ticking cancelling plain_answer 2 4 (2, 0)

cancelling_held : Dict.get both_started.start_evidence (evidence_key cancelling) ≡ some (2, 0)
unfolding Dict.get Dict.put Dict.empty next_invocation_number
cancelling_held = refl

cancel_recorded :
    (record_invocation ticking cancelling (start_at ticking 2) plain_answer both_started).0
    ≡ ok cancel_record
cancel_recorded =
    ap (λ r. r.0)
      (record_invocation_lem ticking cancelling plain_answer 2 2 0 both_started ticking-IsMonotone
        (answered-IsCoherent null null) (omega arith) (omega arith) (omega arith) cancelling_held).0

overlapping :
    Interleaved ticking
      (context_in faulted)
      (Event.started (next_call "refund" end (context_in faulted) new_executor)
        ∷ Event.started cancelling
        ∷ Event.recorded cancel_record
        ∷ [])
      (record_invocation ticking cancelling (start_at ticking 2) plain_answer both_started).1
overlapping =
    records cancelling (start_at ticking 2) plain_answer cancel_record
      (starts "cancel" end (starts "refund" end (opens 0))) refl cancel_recorded

Interleaved-IsTraced_example :
    ((record_invocation ticking cancelling (start_at ticking 2) plain_answer both_started).1.records
      ≡ cancel_record ∷ [])
    × All
        (IsTraced (
          Event.started (next_call "refund" end (context_in faulted) new_executor)
          ∷ Event.started cancelling
          ∷ Event.recorded cancel_record
          ∷ []))
        (record_invocation ticking cancelling
          (start_at ticking 2)
          plain_answer
          both_started).1.records
Interleaved-IsTraced_example = Interleaved-IsTraced overlapping

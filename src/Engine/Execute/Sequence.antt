-- ===== src/Engine/Execute/Sequence.antt =====
-- What successive calls of one run leave in the executor (executor.py): a trace in which every call
-- has a name of its own, and starts when all the earlier ones are completed.
use text.Mathlib.TextLemmas.{append_cancel_left}
use rift_reliability_injecti.Prelude.{
  ℕ, suc, ◌+◌, ◌≤◌, ◌<◌, String, ◌≡◌, inl, inr, refl, sym, ap, ◌∙◌, true, false, some, or_else,
  List, [], ◌∷◌, ◌++◌, map, length, length-append, All, contains, is_unique, is_unique_append,
  arith, string_eq, nat_eq, pair_eq, ==-refl, ==-iff, Bool-cases, ◌==◌,
}
use rift_reliability_injecti.Prelude.Dict
use rift_reliability_injecti.Prelude.Text.{◌&◌, show}
use rift_reliability_injecti.Prelude.Text.Numerals.{split_numeral}
use rift_reliability_injecti.Core.Json.{JsonObject}
use rift_reliability_injecti.Core.Fault.{FaultRule}
use rift_reliability_injecti.Core.Fault.Validation.{IsWellFormed}
use rift_reliability_injecti.Core.Invocation.{ToolInvocation}
use rift_reliability_injecti.Core.Run.{invocation_id_of}
use rift_reliability_injecti.Core.Spec.{ExecutionContext}
use rift_reliability_injecti.Engine.State.{
  Clock, Executor, RunKey, new_executor, run_key, tool_key, count_at, evidence_key, next_number,
  next_invocation_number, invocation_id,
}
use rift_reliability_injecti.Engine.Action.{Running, Operation}
use rift_reliability_injecti.Engine.Record.{IsMonotone}
use rift_reliability_injecti.Engine.Execute.{execute}
use rift_reliability_injecti.Engine.Execute.Whole.{IsBalanced, numbered, execute-IsEvidence}

-- The records from position `n` on: each call started when exactly the `n` earlier ones were done.
abbrev pub InOrder : ExecutionContext → ℕ → List ToolInvocation → Type 0
InOrder ctx n [] = Unit
InOrder ctx n (i ∷ rest) =
    (i.run_id ≡ ctx.run_id)
    × (i.sequence_number ≡ some (suc n))
    × (i.completed_before_start ≡ some n)
    × InOrder ctx (suc n) rest

InOrder-append :
    (ctx : ExecutionContext) (n : ℕ) (is : List ToolInvocation) (i : ToolInvocation)
    → InOrder ctx n is
    → i.run_id ≡ ctx.run_id
    → i.sequence_number ≡ some (suc (n + length is))
    → i.completed_before_start ≡ some (n + length is)
    → InOrder ctx n (is ++ i ∷ [])
InOrder-append ctx n [] i h r s b = (r, s ∙ ap some (omega arith), b ∙ ap some (omega arith), tt)
InOrder-append ctx n (j ∷ is) i h r s b = (
  h.0,
  h.1,
  h.2,
  InOrder-append ctx (suc n) is i h.3 r (s ∙ ap some (omega arith)) (b ∙ ap some (omega arith)),
)

-- The number of calls of a tool so far.
abbrev pub calls_of : ExecutionContext → Executor → String → ℕ
calls_of ctx x tool = or_else (Dict.get x.invocation_counts (tool_key ctx tool)) 0

-- A record is named for its tool and its number, and the number was counted.
abbrev pub IsCounted : ExecutionContext → Executor → ToolInvocation → Type 0
IsCounted ctx x i =
    (i.invocation_id ≡ (ctx.run_id & ":" & i.tool_name & ":" & show i.invocation_number))
    × (i.invocation_number ≤ calls_of ctx x i.tool_name)

-- An executor whose calls were all of the run `ctx`, one after the other.
pub record IsSequential (ctx : ExecutionContext) (x : Executor) : Type 0 where
  pub started : count_at x.started (run_key ctx) ≡ length x.records
  pub completed : count_at x.completed (run_key ctx) ≡ length x.records
  pub ordered : InOrder ctx 0 x.records
  pub numbered : All (IsCounted ctx x) x.records
  pub named : is_unique (map invocation_id_of x.records) ≡ true

pub new_executor-IsSequential :
    (ctx : ExecutionContext) (n : ℕ) → IsSequential ctx (record new_executor { readings = n })
unfolding Dict.get Dict.empty
new_executor-IsSequential ctx n = record {
  started = refl;
  completed = refl;
  ordered = tt;
  numbered = tt;
  named = refl;
}

-- The name of the call `n` of a tool, in the run `run`.
abbrev pub call_name : String → String → ℕ → String
call_name run tool n = run & ":" & tool & ":" & show n

call_name_injective :
    (run s t : String) (m n : ℕ) → call_name run s m ≡ call_name run t n → (s ≡ t) × (m ≡ n)
call_name_injective run s t m n h =
    split_numeral s t m n (append_cancel_left ":" _ _ (append_cancel_left run _ _ h))

-- The next call of a tool has a name that no record has.
fresh_name :
    (ctx : ExecutionContext) (x : Executor) (tool : String) (n : ℕ) (is : List ToolInvocation)
    → All (IsCounted ctx x) is
    → calls_of ctx x tool < n
    → contains (call_name ctx.run_id tool n) (map invocation_id_of is) ≡ false
fresh_name ctx x tool n [] h lt = refl
fresh_name ctx x tool n (i ∷ is) h lt =
    let ih = fresh_name ctx x tool n is h.1 lt in
    elim (Bool-cases (call_name ctx.run_id tool n == i.invocation_id)) [
      | inl t ↦
          let same = (==-iff (call_name ctx.run_id tool n) i.invocation_id).0 t in
          let parts =
            call_name_injective ctx.run_id tool i.tool_name n i.invocation_number (same ∙ h.0.0) in
          absurd (omega (arith, lt, h.0.1, parts.1, ap (calls_of ctx x) parts.0))
      | inr f ↦ rw (f, ih) refl
    ]

-- The counts after a call are those before it, but for one more call of that tool.
counted_after :
    (ctx : ExecutionContext) (x : Executor) (tool : String) (i : ToolInvocation)
    → IsCounted ctx x i
    → IsCounted ctx (next_invocation_number tool ctx x).1 i
unfolding next_invocation_number
counted_after ctx x tool i h = (
  h.0,
  simp Dict.get-put (ground (arith, h.1, ==-iff (tool_key ctx tool) (tool_key ctx i.tool_name))),
)

calls_of-next :
    (ctx : ExecutionContext) (x : Executor) (tool : String)
    → calls_of ctx (next_invocation_number tool ctx x).1 tool ≡ next_number x ctx tool
unfolding next_invocation_number
calls_of-next ctx x tool = simp Dict.get-put (rw (==-refl (tool_key ctx tool)) refl)

-- The evidence that is kept for the call that has just started.
held_next :
    (ctx : ExecutionContext) (x : Executor) (tool : String) (args : JsonObject)
    → IsSequential ctx x
    → Dict.get
        (next_invocation_number tool ctx x).1.start_evidence
        (evidence_key (numbered tool args ctx x))
      ≡ some (suc (length x.records), length x.records)
unfolding next_invocation_number
held_next ctx x tool args q =
    let c = evidence_key (numbered tool args ctx x) in
    simp Dict.get-put
      (rw (==-refl c, q.started, q.completed) (ap (λ n. some (n, length x.records)) (omega arith)))

count_at-next :
    (ctx : ExecutionContext) (d : Dict.Dict RunKey ℕ) (n : ℕ)
    → count_at d (run_key ctx) ≡ n
    → count_at (Dict.put d (run_key ctx) (count_at d (run_key ctx) + 1)) (run_key ctx) ≡ suc n
count_at-next ctx d n h = simp Dict.get-put (rw (==-refl (run_key ctx)) (omega (arith, h)))

module _ (P : ToolInvocation → Type 0) where
  All_append :
      (is : List ToolInvocation) (i : ToolInvocation) → All P is → P i → All P (is ++ i ∷ [])
  All_append [] i h p = (p, tt)
  All_append (j ∷ is) i h p = (h.0, All_append is i h.1 p)

  All_map :
      (Q : ToolInvocation → Type 0) (is : List ToolInvocation)
      → ((i : ToolInvocation) → P i → Q i)
      → All P is
      → All Q is
  All_map Q [] f h = tt
  All_map Q (i ∷ is) f h = (f i h.0, All_map Q is f h.1)

one_more : (is : List ToolInvocation) (i : ToolInvocation) → length (is ++ i ∷ []) ≡ suc (length is)
one_more is i = omega (arith, length-append is (i ∷ []))

map_append :
    (is : List ToolInvocation) (i : ToolInvocation)
    → map invocation_id_of (is ++ i ∷ []) ≡ map invocation_id_of is ++ i.invocation_id ∷ []
map_append [] i = refl
map_append (j ∷ is) i = ap (◌∷◌ j.invocation_id) (map_append is i)

same_pair : (p q : ℕ × ℕ) → some p ≡ some q → (p.0 ≡ q.0) × (p.1 ≡ q.1)
same_pair p q h = let both : p ≡ q = cc in (ap (λ r. r.0) both, ap (λ r. r.1) both)

-- If the clock does not run backwards, the rules are well formed and the counts are balanced, one
-- more call leaves the trace of its run sequential: every call started when all the earlier ones
-- were completed, and has an identifier of its own.
pub execute-IsSequential :
    {W : Type 0} (k : Clock) (rules : List FaultRule) (tool : String) (args : JsonObject)
    (op : Operation W) (ctx : ExecutionContext) (s : Running W)
    → IsMonotone k
    → All IsWellFormed rules
    → IsBalanced s.executor
    → IsSequential ctx s.executor
    → IsSequential ctx (execute k rules tool args op ctx s).1.executor
unfolding next_invocation_number invocation_id
execute-IsSequential k rules tool args op ctx s m f b q =
    let e = execute-IsEvidence k rules tool args op ctx s m f b in
    let x = s.executor in
    let i = e.invocation in
    let n = length x.records in
    let out = (execute k rules tool args op ctx s).1.executor in
    let next = (next_invocation_number tool ctx x).1 in
    let at =
      same_pair (e.sequence, e.before) (suc n, n) (sym e.held ∙ held_next ctx x tool args q) in
    let counted : IsCounted ctx next i = (
      e.identified.0 ∙ rw (e.identified.2, e.identified.3) refl,
      rw (e.identified.2, e.identified.3, calls_of-next ctx x tool) (omega arith),
    ) in
    let all : All (IsCounted ctx next) (x.records ++ i ∷ []) =
      All_append (IsCounted ctx next) x.records i
        (All_map (IsCounted ctx x) (IsCounted ctx next) x.records (counted_after ctx x tool)
          q.numbered)
        counted in
    record {
      started =
          rw (e.started_kept, e.appended, one_more x.records i)
            (count_at-next ctx x.started n q.started);
      completed =
          rw (e.completed_counted, e.appended, one_more x.records i)
            (count_at-next ctx x.completed n q.completed);
      ordered = rw e.appended (
          InOrder-append ctx 0 x.records i q.ordered e.identified.1
            (e.placed.0 ∙ ap some (at.0 ∙ omega arith))
            (e.placed.1 ∙ ap some (at.1 ∙ omega arith)));
      numbered = rw e.appended (
          All_map (IsCounted ctx next) (IsCounted ctx out) (x.records ++ i ∷ [])
            (λ j h. (h.0, rw e.counts_kept h.1)) all);
      named =
          rw (e.appended, map_append x.records i)
            (is_unique_append (map invocation_id_of x.records) i.invocation_id q.named (
              rw e.identified.0 (
                fresh_name ctx x tool (next_number x ctx tool) x.records q.numbered
                  (omega arith))));
    }

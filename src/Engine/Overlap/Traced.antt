-- ===== src/Engine/Overlap/Traced.antt =====
-- The start evidence of executor.py under calls that overlap: what each record says of its start is
-- what happened.
use rift_reliability_injecti.Prelude.{
  ℕ, suc, ◌+◌, String, ◌≡◌, refl, sym, ap, ◌∙◌, some, List, [], ◌∷◌, ◌++◌, length, length-append,
  All, arith, Bool-cases, inl, inr, string_eq, nat_eq, pair_eq, ◌==◌, ==-refl, ==-iff,
}
use rift_reliability_injecti.Prelude.Dict
use rift_reliability_injecti.Core.Json.{JsonObject}
use rift_reliability_injecti.Core.Invocation.{ToolInvocation}
use rift_reliability_injecti.Core.Spec.{ExecutionContext}
use rift_reliability_injecti.Engine.State.{
  Clock, Call, Executor, EvidenceKey, RunKey, evidence_key, run_key, count_at,
  next_invocation_number, new_executor,
}
use rift_reliability_injecti.Engine.Record.{after_record}
use rift_reliability_injecti.Engine.Overlap.{
  Event, started, recorded, starts_in, records_in, begin_call, next_call, Interleaved, opens,
  starts, records, refuses, sleeps, IsTraced,
}
use rift_reliability_injecti.Engine.Overlap.Inversion.{
  IsBuilt, record_invocation-inv, IsRefused, record_invocation-IsRefused, held_before,
}
use rift_reliability_injecti.Engine.Overlap.History.{
  starts_in-started, starts_in-recorded, records_in-append, records_in-started, IsOpened,
  IsOpened-longer, all_longer, all_one_more, new-IsTraced,
}

-- The executor's counts, records and evidence are those of what happened.
record IsTracked (ctx : ExecutionContext) (h : List Event) (x : Executor) : Type 0 where
  started : count_at x.started (run_key ctx) ≡ starts_in h
  completed : count_at x.completed (run_key ctx) ≡ length (records_in h)
  listed : x.records ≡ records_in h
  held :
      (key : EvidenceKey) (v : ℕ × ℕ)
      → Dict.get x.start_evidence key ≡ some v
      → IsOpened h key v.0 v.1
  traced : All (IsTraced h) x.records

opens-IsTracked :
    (ctx : ExecutionContext) (n : ℕ) → IsTracked ctx [] (record new_executor { readings = n })
unfolding Dict.get Dict.empty
opens-IsTracked ctx n = record {
  started = refl;
  completed = refl;
  listed = refl;
  held = λ key v g. cc;
  traced = tt;
}

count_at-put : (d : Dict.Dict RunKey ℕ) (r : RunKey) (n : ℕ) → count_at (Dict.put d r n) r ≡ n
count_at-put d r n = simp Dict.get-put (rw (==-refl r) refl)

-- The start that has just been counted.
IsOpened-now :
    (h : List Event) (c : Call) (key : EvidenceKey) (v w : ℕ × ℕ)
    → evidence_key c ≡ key
    → some v ≡ some w
    → v.0 ≡ suc (starts_in h)
    → v.1 ≡ length (records_in h)
    → IsOpened (h ++ started c ∷ []) key w.0 w.1
IsOpened-now h c key v w k e s b =
    let same : v ≡ w = cc in
    record {
      call = c;
      earlier = h;
      later = [];
      split = refl;
      keyed = k;
      sequence = sym (ap (λ p. p.0) same) ∙ s;
      before = sym (ap (λ p. p.1) same) ∙ b;
    }

starts-IsTracked :
    (ctx : ExecutionContext) (h : List Event) (x : Executor) (tool : String) (args : JsonObject)
    → IsTracked ctx h x
    → IsTracked ctx (h ++ started (next_call tool args ctx x) ∷ []) (begin_call tool ctx x)
unfolding next_invocation_number
starts-IsTracked ctx h x tool args t =
    let c = next_call tool args ctx x in
    let pair : ℕ × ℕ = (count_at x.started (run_key ctx) + 1, count_at x.completed (run_key ctx)) in
    let more = records_in-started h c in
    record {
      started =
          count_at-put x.started (run_key ctx) (count_at x.started (run_key ctx) + 1)
          ∙ rw (t.started, starts_in-started h c) (omega arith);
      completed = t.completed ∙ ap length (sym more);
      listed = t.listed ∙ sym more;
      held = λ key v g.
          let read = sym (Dict.get-put x.start_evidence (evidence_key c) key pair) ∙ g in
          elim (Bool-cases (evidence_key c == key)) [
            | inl same ↦
                IsOpened-now h c key pair v ((==-iff (evidence_key c) key).0 same) (rw same at read)
                  (rw t.started (omega arith)) t.completed
            | inr other ↦
                IsOpened-longer h (started c) key v.0 v.1 (t.held key v (rw other at read))
          ];
      traced = all_longer h (started c) x.records t.traced;
    }

records-IsTracked :
    (ctx : ExecutionContext) (h : List Event) (x : Executor) (c : Call) (i : ToolInvocation)
    (seq before : ℕ)
    → c.context ≡ ctx
    → Dict.get x.start_evidence (evidence_key c) ≡ some (seq, before)
    → IsBuilt c seq before i
    → IsTracked ctx h x
    → IsTracked ctx (h ++ recorded i ∷ []) (after_record c i x)
records-IsTracked ctx h x c i seq before e g b t =
    let more = records_in-append h (recorded i ∷ []) in
    let put : count_at
          (Dict.put x.completed (run_key c.context) (count_at x.completed (run_key c.context) + 1))
          (run_key ctx)
        ≡ count_at x.completed (run_key ctx) + 1 =
      rw e (count_at-put x.completed (run_key ctx) (count_at x.completed (run_key ctx) + 1)) in
    let counted : count_at x.completed (run_key ctx) + 1
        ≡ length (records_in (h ++ recorded i ∷ [])) =
      rw (more, t.completed) (omega (arith, length-append (records_in h) (i ∷ []))) in
    record {
      started = t.started ∙ sym (starts_in-recorded h i);
      completed = put ∙ counted;
      listed = ap (λ is. is ++ i ∷ []) t.listed ∙ sym more;
      held = λ key v r.
          IsOpened-longer h (recorded i) key v.0 v.1
            (t.held key v (held_before x.start_evidence (evidence_key c) key v r));
      traced =
          all_one_more (h ++ recorded i ∷ []) x.records i
            (all_longer h (recorded i) x.records t.traced)
            (new-IsTraced h c i seq before (t.held (evidence_key c) (seq, before) g) b);
    }

refuses-IsTracked :
    (ctx : ExecutionContext) (h : List Event) (x y : Executor)
    → IsRefused x y
    → IsTracked ctx h x
    → IsTracked ctx h y
refuses-IsTracked ctx h x y r t = record {
  started = rw r.0 t.started;
  completed = rw r.1 t.completed;
  listed = r.2 ∙ t.listed;
  held = λ key v g. t.held key v (r.3 key v g);
  traced = rw r.2 t.traced;
}

Interleaved-IsTracked :
    {k : Clock} {ctx : ExecutionContext} {h : List Event} {x : Executor}
    → Interleaved k ctx h x
    → IsTracked ctx h x
Interleaved-IsTracked {ctx = ctx} (opens n) = opens-IsTracked ctx n
Interleaved-IsTracked {ctx = ctx} (starts {h} {x} tool args r) =
    starts-IsTracked ctx h x tool args (Interleaved-IsTracked r)
Interleaved-IsTracked {k} {ctx} (records {h} {x} c b o i r e made) =
    let (seq, before, g, built, left) = record_invocation-inv k c b o x i made in
    rw left (records-IsTracked ctx h x c i seq before e g built (Interleaved-IsTracked r))
Interleaved-IsTracked {k} {ctx} (refuses {h} {x} c b o e r made) =
    refuses-IsTracked ctx h x _ (record_invocation-IsRefused k c b o x e made)
      (Interleaved-IsTracked r)
Interleaved-IsTracked {ctx = ctx} (sleeps {h} {x} d r) =
    let t = Interleaved-IsTracked r in
    record {
      started = t.started;
      completed = t.completed;
      listed = t.listed;
      held = t.held;
      traced = t.traced;
    }

-- However the calls of a run overlap, the executor has the records of the run in the order in which
-- they were written, and each tells when its call started: its sequence number is the place of that
-- start among all starts, `completed_before_start` counts the records that were written before it,
-- and the record itself was written after it. Records may be refused in between.
pub Interleaved-IsTraced :
    {k : Clock} {ctx : ExecutionContext} {h : List Event} {x : Executor}
    → Interleaved k ctx h x
    → (x.records ≡ records_in h) × All (IsTraced h) x.records
Interleaved-IsTraced r = let t = Interleaved-IsTracked r in (t.listed, t.traced)

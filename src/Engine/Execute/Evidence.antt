-- ===== src/Engine/Execute/Evidence.antt =====
-- Whatever fault is injected, `execute` of executor.py leaves one consistent record, and that
-- record says how often the operation ran and what the caller saw.
use rift_reliability_injecti.Prelude.{
  ℕ, zero, suc, ◌+◌, ◌≤◌, ◌<◌, ◌≡◌, ap, refl, Option, none, some, or_else, List, [], ◌∷◌, ◌++◌,
  String, string_eq, nat_eq, pair_eq,
}
use rift_reliability_injecti.Prelude.Dict
use rift_reliability_injecti.Prelude.Result.{Result, ok, err}
use rift_reliability_injecti.Core.Json.{JsonValue, null}
use rift_reliability_injecti.Core.Fault.{FaultRule}
use rift_reliability_injecti.Core.Invocation.{ToolInvocation}
use rift_reliability_injecti.Core.Invocation.Evidence.{IsConsistent}
use rift_reliability_injecti.Engine.Exceptions.{Exception, describe_error, message_of, carried}
use rift_reliability_injecti.Engine.State.{
  Clock, Call, Executor, invocation_id, evidence_key, run_key, count_at,
}
use rift_reliability_injecti.Engine.Action.{Running, Operation}
use rift_reliability_injecti.Engine.Record.{
  IsMonotone, IsCoherent, start_at, recorded, record_invocation_lem,
}
use rift_reliability_injecti.Engine.Execute.Ending.{
  Ending, answers, ending, ending_of_error, plain_ending,
}
use rift_reliability_injecti.Engine.Execute.{
  ToolExecution, failed, answered, fail_call, answer_call, finish_plain,
}

-- `n` deliveries of one request to the world.
abbrev pub deliver : {W : Type 0} → ℕ → Operation W → W → W
deliver zero op w = w
deliver (suc n) op w = deliver n op (op w).1

-- What the record `i` says of an error `e` that the caller saw, by the error of the operation that
-- it holds. An error that the operation raised is the caller's too, and both are its description. An
-- error that was injected has the text that the record gives it, and carries the record.
abbrev pub ShowsError : Option String → ToolInvocation → Exception → Type 0
ShowsError (some text) i e = (text ≡ describe_error e) × (i.caller_error ≡ some (describe_error e))
ShowsError none i e = (i.caller_error ≡ some (message_of e)) × (carried e ≡ some i)

-- What the caller got is what the record says it saw.
abbrev pub Shows : ToolInvocation → Result Exception ToolExecution → Type 0
Shows i (ok x) = (x.invocation ≡ i) × (x.result ≡ i.caller_response) × (i.caller_error ≡ none)
Shows i (err e) = (i.caller_response ≡ null) × ShowsError i.underlying_error i e

-- The record names the call that it is about.
abbrev pub IsRecordOf : Call → ToolInvocation → Type 0
IsRecordOf c i =
    (i.invocation_id ≡ invocation_id c)
    × (i.run_id ≡ c.context.run_id)
    × (i.tool_name ≡ c.tool_name)
    × (i.invocation_number ≡ c.invocation_number)
    × (i.arguments ≡ c.arguments)

-- From the executor `x` and the world `w` the call `c` of `op` came to the outcome `out`.
pub record IsEvidence {W : Type 0} (op : Operation W) (c : Call) (x : Executor) (w : W)
    (end : Ending) (out : Result Exception ToolExecution × Running W) : Type 0 where
  pub invocation : ToolInvocation
  pub identified : IsRecordOf c invocation
  pub sequence : ℕ
  pub before : ℕ
  pub held : Dict.get x.start_evidence (evidence_key c) ≡ some (sequence, before)
  pub placed :
      (invocation.sequence_number ≡ some sequence)
      × (invocation.completed_before_start ≡ some before)
  pub appended : out.1.executor.records ≡ x.records ++ invocation ∷ []
  pub counts_kept : out.1.executor.invocation_counts ≡ x.invocation_counts
  pub started_kept : out.1.executor.started ≡ x.started
  pub evidence_spent : out.1.executor.start_evidence ≡ Dict.remove x.start_evidence (evidence_key c)
  pub completed_counted :
      out.1.executor.completed
      ≡ Dict.put x.completed (run_key c.context) (count_at x.completed (run_key c.context) + 1)
  pub consistent : IsConsistent invocation
  pub deliveries : ℕ
  pub counted : invocation.execution_count ≡ some deliveries
  pub delivered : out.1.world ≡ deliver deliveries op w
  pub shown : Shows invocation out.0
  pub ended : ending out.0 ≡ end

-- A call whose start was counted and not yet recorded.
pub record IsPending (c : Call) (x : Executor) : Type 0 where
  pub sequence : ℕ
  pub before : ℕ
  pub held : Dict.get x.start_evidence (evidence_key c) ≡ some (sequence, before)
  pub behind : before < sequence
  pub numbered : 1 ≤ c.invocation_number

module _ {W : Type 0} (k : Clock) (m : IsMonotone k) (op : Operation W) (w : W) where
  pub fail_call-IsEvidence :
      (c : Call) (t : ℕ) (rule : Option FaultRule) (e : Exception) (s : Running W)
      → IsPending c s.executor
      → t ≤ s.executor.readings
      → IsCoherent (failed rule e)
      → s.world ≡ deliver 1 op w
      → IsEvidence op c s.executor w (ending_of_error e) (fail_call k c (start_at k t) rule e s)
  unfolding fail_call recorded
  fail_call-IsEvidence c t rule e s p le h d =
      let r =
        record_invocation_lem k c (failed rule e) t p.sequence p.before s.executor m h le p.numbered
          p.behind p.held in
      rw (r.0) (record {
        invocation = recorded k c (failed rule e) t s.executor.readings (p.sequence, p.before);
        identified = (refl, refl, refl, refl, refl);
        sequence = p.sequence;
        before = p.before;
        held = p.held;
        placed = (refl, refl);
        appended = refl;
        counts_kept = refl;
        started_kept = refl;
        evidence_spent = refl;
        completed_counted = refl;
        consistent = r.1;
        deliveries = 1;
        counted = refl;
        delivered = d;
        shown = (refl, (refl, refl));
        ended = refl;
      })

  pub answer_call-IsEvidence :
      (c : Call) (t : ℕ) (rule : Option FaultRule) (count : Option ℕ) (n : ℕ) (v shown : JsonValue)
      (s : Running W)
      → IsPending c s.executor
      → t ≤ s.executor.readings
      → IsCoherent (answered rule count v shown)
      → or_else count 1 ≡ n
      → s.world ≡ deliver n op w
      → IsEvidence op c s.executor w
          (answers shown)
          (answer_call k c (start_at k t) rule count v shown s)
  unfolding answer_call recorded
  answer_call-IsEvidence c t rule count n v shown s p le h e d =
      let r =
        record_invocation_lem k c (answered rule count v shown) t p.sequence p.before s.executor m h
          le p.numbered p.behind p.held in
      rw (r.0) (record {
        invocation =
            recorded k c (answered rule count v shown) t s.executor.readings (p.sequence, p.before);
        identified = (refl, refl, refl, refl, refl);
        sequence = p.sequence;
        before = p.before;
        held = p.held;
        placed = (refl, refl);
        appended = refl;
        counts_kept = refl;
        started_kept = refl;
        evidence_spent = refl;
        completed_counted = refl;
        consistent = r.1;
        deliveries = n;
        counted = ap some e;
        delivered = d;
        shown = (refl, refl, refl);
        ended = refl;
      })

  -- A plain run, faulted by nothing or by latency alone.
  pub finish_plain-IsEvidence :
      (c : Call) (t : ℕ) (rule : Option FaultRule) (r : Result Exception JsonValue) (s : Running W)
      → IsPending c s.executor
      → t ≤ s.executor.readings
      → ((e : Exception) → IsCoherent (failed rule e))
      → ((v : JsonValue) → IsCoherent (answered rule none v v))
      → s.world ≡ deliver 1 op w
      → IsEvidence op c s.executor w (plain_ending r) (finish_plain k c (start_at k t) rule r s)
  finish_plain-IsEvidence c t rule (ok v) s p le f g d =
      answer_call-IsEvidence c t rule none 1 v v s p le (g v) refl d
  finish_plain-IsEvidence c t rule (err e) s p le f g d =
      fail_call-IsEvidence c t rule e s p le (f e) d

-- What a call read from the clock and slept before it ran is no part of its evidence.
pub IsEvidence-rewind :
    {W : Type 0} (op : Operation W) (c : Call) (x : Executor) (n : ℕ) (sleeps : List ℕ) {w : W}
    {end : Ending} {out : Result Exception ToolExecution × Running W}
    → IsEvidence op c (record x { readings = n; sleeps = sleeps }) w end out
    → IsEvidence op c x w end out
IsEvidence-rewind op c x n sleeps e = record {
  invocation = e.invocation;
  identified = e.identified;
  sequence = e.sequence;
  before = e.before;
  held = e.held;
  placed = e.placed;
  appended = e.appended;
  counts_kept = e.counts_kept;
  started_kept = e.started_kept;
  evidence_spent = e.evidence_spent;
  completed_counted = e.completed_counted;
  consistent = e.consistent;
  deliveries = e.deliveries;
  counted = e.counted;
  delivered = e.delivered;
  shown = e.shown;
  ended = e.ended;
}

-- ===== src/Engine/Record.antt =====
-- What `_record` of executor.py writes when the clock does not run backwards.
use rift_reliability_injecti.Prelude.{
  ℕ, ap, suc, ◌+◌, ◌*◌, ◌≤◌, ◌<◌, ◌≡◌, ◌⊎◌, refl, true, false, Option, none, some, or_else, [], ◌∷◌,
  ◌++◌, arith, string_eq, nat_eq, pair_eq, is_some,
}
use rift_reliability_injecti.Prelude.Dict
use rift_reliability_injecti.Prelude.Int.{is_negative, sub_ℕ}
use rift_reliability_injecti.Prelude.Result.{ok}
use rift_reliability_injecti.Core.Json.{null}
use rift_reliability_injecti.Core.Fault.{FaultRule, FaultType, phase_of, operation_executes}
use rift_reliability_injecti.Core.Invocation.{ToolInvocation, validate_outcomes}
use rift_reliability_injecti.Core.Invocation.Evidence.{
  IsConsistent, CountFits, default_count, validate_outcomes-default,
}
use rift_reliability_injecti.Engine.State.{
  Clock, Call, Start, Observation, Executor, run_key, evidence_key, count_at, build_invocation,
  commit_record, record_popped, record_invocation,
}

-- Later readings are not smaller.
pub record IsMonotone (k : Clock) : Type 0 where
  pub wall : (i j : ℕ) → i ≤ j → k.now i ≤ k.now j
  pub steady : (i j : ℕ) → i ≤ j → k.monotonic i ≤ k.monotonic j

abbrev pub FaultObserved : Option FaultRule → Observation → Type 0
FaultObserved none o = Unit
FaultObserved (some r) o =
    (r.phase ≡ some (phase_of r.fault_type))
    × (o.executed ≡ operation_executes r.fault_type)
    × (r.fault_type ≡ FaultType.timeout_before_call
        → (o.committed ≡ some false) × (is_some o.caller_error ≡ true))
    × (r.fault_type ≡ FaultType.timeout_after_commit
        → (o.committed ≡ some true) × (is_some o.caller_error ≡ true))
    × (r.fault_type ≡ FaultType.duplicate_request → o.execution_count ≡ some 2)

-- The times of two operations: one by the readings at `t`, one by those at `u`.
abbrev pub start_at : Clock → ℕ → Start
start_at k t = record { started_at = k.now t; started_monotonic = k.monotonic (suc t) }

abbrev pub count_of : Observation → ℕ
count_of o = or_else o.execution_count (default_count o.executed)

-- An observation that fits together.
pub record IsCoherent (o : Observation) : Type 0 where
  pub skipped :
      o.executed ≡ false
      → (o.committed ≡ some false) × (o.underlying_result ≡ null) × (o.underlying_error ≡ none)
  pub counted : CountFits o.executed (some (count_of o))
  pub underlying : (o.underlying_result ≡ null) ⊎ (o.underlying_error ≡ none)
  pub exposed : (o.caller_response ≡ null) ⊎ (o.caller_error ≡ none)
  pub observed : FaultObserved o.fault_rule o

-- The record of a call that started at the readings from `t` on and finished at those from `u` on.
unfoldable pub recorded : Clock → Call → Observation → ℕ → ℕ → ℕ × ℕ → ToolInvocation
unfolding build_invocation
recorded k c o t u e =
    record (build_invocation c (start_at k t) o (k.now u) (k.monotonic (suc u)) e) {
      execution_count = some (count_of o);
    }

duration_nonneg : (a b : ℕ) → a ≤ b → is_negative (sub_ℕ (b * 1000) (a * 1000)) ≡ false
duration_nonneg a b h = ground arith

recorded-IsConsistent :
    (k : Clock) (c : Call) (o : Observation) (t u seq before : ℕ)
    → IsMonotone k
    → IsCoherent o
    → t ≤ u
    → 1 ≤ c.invocation_number
    → before < seq
    → IsConsistent (recorded k c o t u (seq, before))
unfolding recorded
recorded-IsConsistent k c o t u seq before m h le n b = record {
  numbered = n;
  sequenced = ground arith;
  timed = duration_nonneg (k.monotonic (suc t)) (k.monotonic (suc u)) (m.steady _ _ (omega arith));
  ordered = m.wall t u le;
  behind = ground arith;
  skipped = h.skipped;
  counted = h.counted;
  underlying = h.underlying;
  exposed = h.exposed;
  faulted = ground (arith, h.observed);
}

-- The executor after `_record` has written `i`.
abbrev pub after_record : Call → ToolInvocation → Executor → Executor
after_record c i x = record x {
  readings = suc (suc x.readings);
  start_evidence = Dict.remove x.start_evidence (evidence_key c);
  completed =
      Dict.put x.completed (run_key c.context) (count_at x.completed (run_key c.context) + 1);
  records = x.records ++ i ∷ [];
}

record_popped_lem :
    (k : Clock) (c : Call) (o : Observation) (t u : ℕ) (e : ℕ × ℕ) (x : Executor)
    → validate_outcomes (build_invocation c (start_at k t) o (k.now u) (k.monotonic (suc u)) e)
      ≡ ok (recorded k c o t u e)
    → record_popped k c (start_at k t) o u (some e) x ≡ (
      ok (recorded k c o t u e),
      record x {
        start_evidence = Dict.remove x.start_evidence (evidence_key c);
        completed =
            Dict.put x.completed (run_key c.context) (count_at x.completed (run_key c.context) + 1);
        records = x.records ++ recorded k c o t u e ∷ [];
      },
    )
unfolding record_popped
record_popped_lem k c o t u e x v = ap (commit_record c _) v

-- If the clock does not run backwards, the observation is coherent, the call has a positive
-- number, was started no later than the clock's readings so far, and its start evidence is stored
-- with fewer completed calls than its sequence number, then `_record` returns one consistent
-- record, appends it and counts one more completed call.
pub record_invocation_lem :
    (k : Clock) (c : Call) (o : Observation) (t seq before : ℕ) (x : Executor)
    → IsMonotone k
    → IsCoherent o
    → t ≤ x.readings
    → 1 ≤ c.invocation_number
    → before < seq
    → Dict.get x.start_evidence (evidence_key c) ≡ some (seq, before)
    → let i = recorded k c o t x.readings (seq, before) in
      (record_invocation k c (start_at k t) o x ≡ (ok i, after_record c i x)) × IsConsistent i
unfolding record_invocation
record_invocation_lem k c o t seq before x m h le n b e =
    let u = x.readings in
    let good = recorded-IsConsistent k c o t u seq before m h le n b in
    (
      rw e (
          record_popped_lem k c o t u (seq, before) (record x { readings = suc (suc u) })
            (unfold recorded build_invocation in
              validate_outcomes-default
                (build_invocation c (start_at k t) o (k.now u) (k.monotonic (suc u)) (seq, before))
                o.execution_count refl good)),
      good,
    )

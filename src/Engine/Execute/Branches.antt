-- ===== src/Engine/Execute/Branches.antt =====
-- Every branch of `execute` of executor.py leaves its evidence.
use rift_reliability_injecti.Prelude.{
  ℕ, suc, ◌≤◌, ◌≡◌, ap, inl, inr, refl, true, false, Option, none, some, is_some, List, [], ◌∷◌,
  ◌++◌, arith, string_eq, nat_eq, pair_eq,
}
use rift_reliability_injecti.Prelude.Result.{Result, ok, err}
use rift_reliability_injecti.Core.Json.{JsonValue}
use rift_reliability_injecti.Core.Fault.{FaultRule, FaultType, phase_of, operation_executes}
use rift_reliability_injecti.Engine.Exceptions.{Exception, message_of}
use rift_reliability_injecti.Engine.State.{Clock, Call, Executor}
use rift_reliability_injecti.Engine.Action.{Running, Operation, record_call}
use rift_reliability_injecti.Engine.Record.{IsMonotone, start_at, recorded, record_invocation_lem}
use rift_reliability_injecti.Engine.Execute.{
  skipped, lost, execute_direct_call, execute_latency, raise_before_call_fault, finish_lost,
  finish_malformed, finish_duplicate,
}
use rift_reliability_injecti.Engine.Execute.Ending.{
  plain_ending, skip_ending, lost_ending, malformed_ending, message_for, message_of_raising,
  message_or_default-message, skip_ended, skip_shown,
}
use rift_reliability_injecti.Engine.Execute.Evidence.{
  deliver, IsEvidence, IsPending, fail_call-IsEvidence, answer_call-IsEvidence,
  finish_plain-IsEvidence, IsEvidence-rewind,
}
use rift_reliability_injecti.Engine.Execute.Coherent.{
  failed-IsCoherent, answered-IsCoherent, failed-IsCoherent_latency, answered-IsCoherent_once,
  answered-IsCoherent_twice, skipped-IsCoherent, lost-IsCoherent,
}

-- The state when the operation has run once after the first two readings.
abbrev pub ran : {W : Type 0} → Operation W → List ℕ → Running W → Running W
ran op sleeps s = record {
  executor = record s.executor { readings = suc (suc s.executor.readings); sleeps = sleeps };
  world = (op s.world).1;
}

-- Reading the clock and sleeping leave the start evidence alone.
pub still-IsPending :
    (c : Call) (x : Executor) (n : ℕ) (sleeps : List ℕ)
    → IsPending c x
    → IsPending c (record x { readings = n; sleeps = sleeps })
still-IsPending c x n sleeps p = record {
  sequence = p.sequence;
  before = p.before;
  held = p.held;
  behind = p.behind;
  numbered = p.numbered;
}

module _ {W : Type 0} (k : Clock) (m : IsMonotone k) (op : Operation W) where
  pub direct-IsEvidence :
      (c : Call) (s : Running W)
      → IsPending c s.executor
      → IsEvidence op c s.executor s.world
          (plain_ending (op s.world).0)
          (execute_direct_call k op c s)
  unfolding execute_direct_call
  direct-IsEvidence c s p = IsEvidence-rewind op c s.executor _ _ (
      finish_plain-IsEvidence k m op s.world c s.executor.readings none (op s.world).0
        (ran op s.executor.sleeps s) (still-IsPending c s.executor _ _ p) (omega arith)
        failed-IsCoherent (λ v. answered-IsCoherent v v) refl)

  pub latency-IsEvidence :
      (rule : FaultRule) (d : Option ℕ) (c : Call) (s : Running W)
      → rule.fault_type ≡ FaultType.latency
      → rule.phase ≡ some (phase_of rule.fault_type)
      → is_some d ≡ true
      → IsPending c s.executor
      → IsEvidence op c s.executor s.world
          (plain_ending (op s.world).0)
          (execute_latency k rule d op c s)
  unfolding execute_latency
  latency-IsEvidence rule none c s t h d p = absurd (ground arith)
  latency-IsEvidence rule (some d) c s t h _ p = IsEvidence-rewind op c s.executor _ _ (
      finish_plain-IsEvidence k m op s.world c s.executor.readings (some rule) (op s.world).0
        (ran op (s.executor.sleeps ++ d ∷ []) s) (still-IsPending c s.executor _ _ p) (omega arith)
        (λ e. failed-IsCoherent_latency rule e t h)
        (λ v. answered-IsCoherent_once rule v v (inl t) h) refl)

  pub skip-IsEvidence :
      (rule : FaultRule) (c : Call) (s : Running W)
      → operation_executes rule.fault_type ≡ false
      → rule.phase ≡ some (phase_of rule.fault_type)
      → IsPending c s.executor
      → IsEvidence op c s.executor s.world
          (skip_ending rule.fault_type (message_for rule))
          (raise_before_call_fault k rule c s)
  unfolding raise_before_call_fault recorded
  skip-IsEvidence rule c s t h p =
      let x = record s.executor { readings = suc (suc s.executor.readings) } in
      let g = message_of_raising rule.error_message rule.fault_type (inl t) in
      let r =
        record_invocation_lem k c (skipped rule g.0) s.executor.readings p.sequence p.before x m
          (skipped-IsCoherent rule g.0 t h) (omega arith) p.numbered p.behind p.held in
      rw (g.1, r.0)
        (record {
          invocation =
              recorded k c (skipped rule g.0) s.executor.readings x.readings (p.sequence, p.before);
          identified = (refl, refl, refl, refl, refl);
          sequence = p.sequence;
          before = p.before;
          held = p.held;
          placed = (refl, refl);
          appended = refl;
          counts_kept = refl;
          started_kept = refl;
          evidence_spent = refl;
          completed_counted = refl;
          consistent = r.1;
          deliveries = 0;
          counted = refl;
          delivered = refl;
          shown = (refl, skip_shown rule.fault_type g.0 _ t);
          ended = skip_ended rule.fault_type _ g.0 (message_or_default-message rule g.0 g.1) t;
        })

  pub finish_lost-IsEvidence :
      (rule : FaultRule) (c : Call) (t : ℕ) (r : Result Exception JsonValue) (w : W) (s : Running W)
      → rule.fault_type ≡ FaultType.timeout_after_commit
      → rule.phase ≡ some (phase_of rule.fault_type)
      → IsPending c s.executor
      → t ≤ s.executor.readings
      → s.world ≡ deliver 1 op w
      → IsEvidence op c s.executor w (lost_ending r) (finish_lost k rule c (start_at k t) r s)
  unfolding record_call recorded message_of
  finish_lost-IsEvidence rule c t (err e) w s f h p le d =
      fail_call-IsEvidence k m op w c t none e s p le (failed-IsCoherent e) d
  finish_lost-IsEvidence rule c t (ok v) w s f h p le d =
      let g = message_of_raising rule.error_message rule.fault_type (inr f) in
      let r =
        record_invocation_lem k c (lost rule v g.0) t p.sequence p.before s.executor m
          (lost-IsCoherent rule v g.0 f h) le p.numbered p.behind p.held in
      rw (g.1, r.0)
        (record {
          invocation = recorded k c (lost rule v g.0) t s.executor.readings (p.sequence, p.before);
          identified = (refl, refl, refl, refl, refl);
          sequence = p.sequence;
          before = p.before;
          held = p.held;
          placed = (refl, refl);
          appended = refl;
          counts_kept = refl;
          started_kept = refl;
          evidence_spent = refl;
          completed_counted = refl;
          consistent = r.1;
          deliveries = 1;
          counted = refl;
          delivered = d;
          shown = (refl, (refl, refl));
          ended = refl;
        })

  pub finish_malformed-IsEvidence :
      (rule : FaultRule) (c : Call) (t : ℕ) (r : Result Exception JsonValue) (w : W) (s : Running W)
      → rule.fault_type ≡ FaultType.malformed_response
      → rule.phase ≡ some (phase_of rule.fault_type)
      → IsPending c s.executor
      → t ≤ s.executor.readings
      → s.world ≡ deliver 1 op w
      → IsEvidence op c s.executor w
          (malformed_ending rule r)
          (finish_malformed k rule c (start_at k t) r s)
  finish_malformed-IsEvidence rule c t (err e) w s f h p le d =
      fail_call-IsEvidence k m op w c t none e s p le (failed-IsCoherent e) d
  finish_malformed-IsEvidence rule c t (ok v) w s f h p le d =
      answer_call-IsEvidence k m op w c t (some rule) none 1 v rule.replacement_response s p le
        (answered-IsCoherent_once rule v rule.replacement_response (inr f) h) refl d

  pub finish_duplicate-IsEvidence :
      (rule : FaultRule) (c : Call) (t : ℕ) (r : Result Exception JsonValue) (w : W) (s : Running W)
      → rule.fault_type ≡ FaultType.duplicate_request
      → rule.phase ≡ some (phase_of rule.fault_type)
      → IsPending c s.executor
      → t ≤ s.executor.readings
      → s.world ≡ deliver 1 op w
      → IsEvidence op c s.executor w
          (plain_ending r)
          (finish_duplicate k rule op c (start_at k t) r s)
  finish_duplicate-IsEvidence rule c t (err e) w s f h p le d =
      fail_call-IsEvidence k m op w c t none e s p le (failed-IsCoherent e) d
  finish_duplicate-IsEvidence rule c t (ok v) w s f h p le d =
      answer_call-IsEvidence k m op w c t (some rule) (some 2) 2 _ v
        (record s { world = (op s.world).1 }) p le (answered-IsCoherent_twice rule _ v f h) refl
        (ap (λ u. (op u).1) d)

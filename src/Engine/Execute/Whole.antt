-- ===== src/Engine/Execute/Whole.antt =====
-- The evidence of `FaultInjectingToolExecutor.execute` as a whole (executor.py).
use rift_reliability_injecti.Prelude.{
  ◌+◌, ◌≤◌, String, ◌≡◌, ap, inl, inr, refl, Bool, Option, none, some, List, [], ◌∷◌, All, arith,
  string_eq, nat_eq, pair_eq, find, ==-refl, ==-iff, subst, Bool-cases,
}
use rift_reliability_injecti.Prelude.Dict
use rift_reliability_injecti.Core.Json.{JsonObject}
use rift_reliability_injecti.Core.Fault.{matches, FaultRule, FaultType, operation_executes}
use rift_reliability_injecti.Core.Fault.Validation.{IsWellFormed}
use rift_reliability_injecti.Core.Spec.{ExecutionContext}
use rift_reliability_injecti.Engine.State.{
  Clock, Call, Executor, RunKey, evidence_key, next_invocation_number, next_number, run_key,
  count_at,
}
use rift_reliability_injecti.Engine.Action.{Running, Operation}
use rift_reliability_injecti.Engine.Record.{IsMonotone}
use rift_reliability_injecti.Engine.Execute.{
  matching_rule, inject, inject_matching, execute, call_of, execute_timeout_after_commit,
  execute_malformed_response, execute_duplicate_request,
}
use rift_reliability_injecti.Engine.Execute.Ending.{
  expected_ending, ending_by_type, skip_ending, message_for,
}
use rift_reliability_injecti.Engine.Execute.Evidence.{IsEvidence, IsPending, IsEvidence-rewind}
use rift_reliability_injecti.Engine.Execute.Branches.{
  ran, still-IsPending, direct-IsEvidence, latency-IsEvidence, skip-IsEvidence,
  finish_lost-IsEvidence, finish_malformed-IsEvidence, finish_duplicate-IsEvidence,
}

-- No run has more completed calls than started ones.
abbrev pub IsBalanced : Executor → Type 0
IsBalanced x = (r : RunKey) → count_at x.completed r ≤ count_at x.started r

module _ {W : Type 0} (k : Clock) (m : IsMonotone k) (op : Operation W) where
  -- Every fault type, on a rule that the domain model accepts.
  inject-IsEvidence :
      (t : FaultType) (rule : FaultRule) (c : Call) (s : Running W)
      → rule.fault_type ≡ t
      → IsWellFormed rule
      → IsPending c s.executor
      → IsEvidence op c s.executor s.world
          (ending_by_type t rule (op s.world).0)
          (inject k t rule op c s)
  unfolding inject execute_timeout_after_commit execute_malformed_response execute_duplicate_request
  inject-IsEvidence FaultType.latency rule c s e f p =
      latency-IsEvidence k m op rule rule.delay_ms c s e f.phased (ground (arith, f.delayed)) p
  inject-IsEvidence FaultType.exception rule c s e f p =
      rw (ap (λ t. skip_ending t (message_for rule)) e) at
        (skip-IsEvidence k m op rule c s (rw e (unfold operation_executes in refl)) f.phased p)
  inject-IsEvidence FaultType.rate_limit rule c s e f p =
      rw (ap (λ t. skip_ending t (message_for rule)) e) at
        (skip-IsEvidence k m op rule c s (rw e (unfold operation_executes in refl)) f.phased p)
  inject-IsEvidence FaultType.timeout_before_call rule c s e f p =
      rw (ap (λ t. skip_ending t (message_for rule)) e) at
        (skip-IsEvidence k m op rule c s (rw e (unfold operation_executes in refl)) f.phased p)
  inject-IsEvidence FaultType.timeout_after_commit rule c s e f p =
      IsEvidence-rewind op c s.executor _ _ (
        finish_lost-IsEvidence k m op rule c s.executor.readings (op s.world).0 s.world
          (ran op s.executor.sleeps s) e f.phased (still-IsPending c s.executor _ _ p) (omega arith)
          refl)
  inject-IsEvidence FaultType.malformed_response rule c s e f p =
      IsEvidence-rewind op c s.executor _ _ (
        finish_malformed-IsEvidence k m op rule c s.executor.readings (op s.world).0 s.world
          (ran op s.executor.sleeps s) e f.phased (still-IsPending c s.executor _ _ p) (omega arith)
          refl)
  inject-IsEvidence FaultType.duplicate_request rule c s e f p =
      IsEvidence-rewind op c s.executor _ _ (
        finish_duplicate-IsEvidence k m op rule c s.executor.readings (op s.world).0 s.world
          (ran op s.executor.sleeps s) e f.phased (still-IsPending c s.executor _ _ p) (omega arith)
          refl)

  inject_matching-IsEvidence :
      (r : Option FaultRule) (c : Call) (s : Running W)
      → ((rule : FaultRule) → r ≡ some rule → IsWellFormed rule)
      → IsPending c s.executor
      → IsEvidence op c s.executor s.world
          (expected_ending r (op s.world).0)
          (inject_matching k r op c s)
  unfolding inject_matching
  inject_matching-IsEvidence none c s f p = direct-IsEvidence k m op c s p
  inject_matching-IsEvidence (some rule) c s f p =
      inject-IsEvidence rule.fault_type rule c s refl (f rule refl) p

pub All-find :
    {A : Type 0} (P : A → Type 0) (p : A → Bool) (xs : List A) {a : A}
    → All P xs
    → find p xs ≡ some a
    → P a
All-find P p [] h e = absurd (ground arith)
All-find P p (x ∷ xs) {a} h e = elim (Bool-cases (p x)) [
  | inl t ↦ let found : x ≡ a = ground arith in subst P found h.0
  | inr f ↦ All-find P p xs h.1 (rw f at e)
]

-- The call that `_next_invocation_number` has just counted.
abbrev pub numbered : String → JsonObject → ExecutionContext → Executor → Call
numbered tool args ctx x = call_of tool args ctx (next_number x ctx tool)

numbered-IsPending :
    (tool : String) (args : JsonObject) (ctx : ExecutionContext) (x : Executor)
    → IsBalanced x
    → IsPending (numbered tool args ctx x) (next_invocation_number tool ctx x).1
unfolding next_invocation_number
numbered-IsPending tool args ctx x b = record {
  sequence = count_at x.started (run_key ctx) + 1;
  before = count_at x.completed (run_key ctx);
  held = rw (
    Dict.get-put x.start_evidence (evidence_key (numbered tool args ctx x))
        (evidence_key (numbered tool args ctx x))
        (count_at x.started (run_key ctx) + 1, count_at x.completed (run_key ctx)),
    ==-refl (evidence_key (numbered tool args ctx x)),
  );
  behind = omega (arith, b (run_key ctx));
  numbered = omega arith;
}

-- With a clock that does not run backwards, well-formed rules and balanced counts, `execute`
-- appends exactly one record. The record names the call, contradicts itself nowhere, and counts how
-- often the operation was delivered to the world. It has the answer that the caller got, or else the
-- text of its error: the description of an error that the operation raised, or the message of an
-- injected error, which carries the record. The call ends as `expected_ending` has it for the
-- matching rule and the operation's own end.
pub execute-IsEvidence :
    {W : Type 0} (k : Clock) (rules : List FaultRule) (tool : String) (args : JsonObject)
    (op : Operation W) (ctx : ExecutionContext) (s : Running W)
    → IsMonotone k
    → All IsWellFormed rules
    → IsBalanced s.executor
    → IsEvidence op
        (numbered tool args ctx s.executor)
        (next_invocation_number tool ctx s.executor).1
        s.world
        (expected_ending
          (matching_rule rules tool (next_number s.executor ctx tool) ctx)
          (op s.world).0)
        (execute k rules tool args op ctx s)
unfolding execute matching_rule
execute-IsEvidence k rules tool args op ctx s m f b =
    inject_matching-IsEvidence k m op
      (matching_rule rules tool (next_number s.executor ctx tool) ctx)
      (numbered tool args ctx s.executor)
      (record s { executor = (next_invocation_number tool ctx s.executor).1 })
      (λ rule e.
        All-find IsWellFormed (λ r. matches r tool (next_number s.executor ctx tool) ctx.run_mode)
          rules f e)
      (numbered-IsPending tool args ctx s.executor b)

-- With a clock that does not run backwards, well-formed rules and balanced counts, `execute`
-- leaves balanced counts: no run has more completed calls than started ones.
pub execute-IsBalanced :
    {W : Type 0} (k : Clock) (rules : List FaultRule) (tool : String) (args : JsonObject)
    (op : Operation W) (ctx : ExecutionContext) (s : Running W)
    → IsMonotone k
    → All IsWellFormed rules
    → IsBalanced s.executor
    → IsBalanced (execute k rules tool args op ctx s).1.executor
unfolding next_invocation_number
execute-IsBalanced k rules tool args op ctx s m f b r =
    let e = execute-IsEvidence k rules tool args op ctx s m f b in
    let n = run_key ctx in
    rw (e.started_kept, e.completed_counted)
      (simp Dict.get-put (ground (arith, b r, b n, ==-iff n r)))

-- ===== src/Engine/Execute/Control.antt =====
-- What the executors of executor.py do to the world, rule by rule: the control run is not touched
-- by the rules, and each fault type delivers the request as often as it means to.
use rift_reliability_injecti.Prelude.{
  ℕ, String, ◌≡◌, ap, ◌∙◌, refl, Bool, true, Option, none, some, List, [], ◌∷◌, find, All, arith,
  is_some, if◌then◌else◌,
}
use rift_reliability_injecti.Prelude.Result.{is_ok}
use rift_reliability_injecti.Core.Json.{JsonObject}
use rift_reliability_injecti.Core.Fault.{FaultRule, FaultType, baseline, matches, is_latency}
use rift_reliability_injecti.Core.Spec.{ExecutionContext}
use rift_reliability_injecti.Engine.State.{Clock, Call, next_invocation_number, next_number}
use rift_reliability_injecti.Engine.Action.{Running, Operation}
use rift_reliability_injecti.Engine.Execute.{
  matching_rule, execute_direct_call, execute_latency, raise_before_call_fault,
  execute_timeout_after_commit, execute_malformed_response, execute_duplicate_request, inject,
  inject_matching, execute_direct, execute,
}
use rift_reliability_injecti.Engine.Execute.Evidence.{deliver}
use rift_reliability_injecti.Engine.Execute.Whole.{All-find, numbered}
use rift_reliability_injecti.Core.Fault.Validation.{IsWellFormed}

find-baseline :
    (rules : List FaultRule) (tool : String) (n : ℕ)
    → find (λ r. matches r tool n baseline) rules ≡ none
unfolding matches
find-baseline [] tool n = refl
find-baseline (r ∷ rules) tool n = find-baseline rules tool n

-- In a baseline run `execute` is the direct executor's `execute`, whatever the rules: same result,
-- same state.
pub execute-baseline :
    {W : Type 0} (k : Clock) (rules : List FaultRule) (tool : String) (args : JsonObject)
    (op : Operation W) (ctx : ExecutionContext) (s : Running W)
    → ctx.run_mode ≡ baseline
    → execute k rules tool args op ctx s ≡ execute_direct k tool args op ctx s
unfolding execute execute_direct matching_rule inject_matching
execute-baseline k rules tool args op ctx s h =
    rw (h, find-baseline rules tool (next_number s.executor ctx tool)) refl

-- How often a fault of a type delivers a request, by whether the first delivery succeeds.
abbrev pub deliveries_by_type : FaultType → Bool → ℕ
deliveries_by_type FaultType.latency first = 1
deliveries_by_type FaultType.exception first = 0
deliveries_by_type FaultType.rate_limit first = 0
deliveries_by_type FaultType.timeout_before_call first = 0
deliveries_by_type FaultType.timeout_after_commit first = 1
deliveries_by_type FaultType.malformed_response first = 1
deliveries_by_type FaultType.duplicate_request first = if first then 2 else 1

abbrev pub deliveries_of : Option FaultRule → Bool → ℕ
deliveries_of none first = 1
deliveries_of (some rule) first = deliveries_by_type rule.fault_type first

module _ {W : Type 0} (k : Clock) (op : Operation W) where
  direct-world :
      (c : Call) (s : Running W) → (execute_direct_call k op c s).1.world ≡ (op s.world).1
  unfolding execute_direct_call
  direct-world c s = ground arith

  latency-world :
      (rule : FaultRule) (d : Option ℕ) (c : Call) (s : Running W)
      → is_some d ≡ true
      → (execute_latency k rule d op c s).1.world ≡ (op s.world).1
  unfolding execute_latency
  latency-world rule d c s h = ground arith

  skip-world :
      (rule : FaultRule) (c : Call) (s : Running W)
      → (raise_before_call_fault k rule c s).1.world ≡ s.world
  unfolding raise_before_call_fault
  skip-world rule c s = ground arith

  lost-world :
      (rule : FaultRule) (c : Call) (s : Running W)
      → (execute_timeout_after_commit k rule op c s).1.world ≡ (op s.world).1
  unfolding execute_timeout_after_commit
  lost-world rule c s = ground arith

  malformed-world :
      (rule : FaultRule) (c : Call) (s : Running W)
      → (execute_malformed_response k rule op c s).1.world ≡ (op s.world).1
  unfolding execute_malformed_response
  malformed-world rule c s = ground arith

  duplicate-world :
      (rule : FaultRule) (c : Call) (s : Running W)
      → (execute_duplicate_request k rule op c s).1.world
        ≡ deliver (if is_ok (op s.world).0 then 2 else 1) op s.world
  unfolding execute_duplicate_request
  duplicate-world rule c s = ground arith

  inject-world :
      (t : FaultType) (rule : FaultRule) (c : Call) (s : Running W)
      → (t ≡ FaultType.latency → is_some rule.delay_ms ≡ true)
      → (inject k t rule op c s).1.world
        ≡ deliver (deliveries_by_type t (is_ok (op s.world).0)) op s.world
  unfolding inject
  inject-world FaultType.latency rule c s h = latency-world rule rule.delay_ms c s (h refl)
  inject-world FaultType.exception rule c s h = skip-world rule c s
  inject-world FaultType.rate_limit rule c s h = skip-world rule c s
  inject-world FaultType.timeout_before_call rule c s h = skip-world rule c s
  inject-world FaultType.timeout_after_commit rule c s h = lost-world rule c s
  inject-world FaultType.malformed_response rule c s h = malformed-world rule c s
  inject-world FaultType.duplicate_request rule c s h = duplicate-world rule c s

  inject_matching-world :
      (r : Option FaultRule) (c : Call) (s : Running W)
      → ((rule : FaultRule) → r ≡ some rule → IsWellFormed rule)
      → (inject_matching k r op c s).1.world
        ≡ deliver (deliveries_of r (is_ok (op s.world).0)) op s.world
  unfolding inject_matching
  inject_matching-world none c s f = direct-world c s
  inject_matching-world (some rule) c s f =
      inject-world rule.fault_type rule c s (λ e. (f rule refl).delayed ∙ ap is_latency e)

-- With well-formed rules a call changes the world by whole deliveries of its request: none for the
-- faults before the call, two for a duplicated request whose first delivery succeeds, and one
-- otherwise. This depends neither on the clock nor on whether the record could be written.
pub execute-world :
    {W : Type 0} (k : Clock) (rules : List FaultRule) (tool : String) (args : JsonObject)
    (op : Operation W) (ctx : ExecutionContext) (s : Running W)
    → All IsWellFormed rules
    → let rule = matching_rule rules tool (next_number s.executor ctx tool) ctx in
      (execute k rules tool args op ctx s).1.world
      ≡ deliver (deliveries_of rule (is_ok (op s.world).0)) op s.world
unfolding execute matching_rule
execute-world k rules tool args op ctx s f =
    inject_matching-world k op
      (find (λ r. matches r tool (next_number s.executor ctx tool) ctx.run_mode) rules)
      (numbered tool args ctx s.executor)
      (record s { executor = (next_invocation_number tool ctx s.executor).1 })
      (λ rule e.
        All-find IsWellFormed (λ r. matches r tool (next_number s.executor ctx tool) ctx.run_mode)
          rules f e)

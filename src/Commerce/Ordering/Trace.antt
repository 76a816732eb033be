-- ===== src/Commerce/Ordering/Trace.antt =====
-- What the ordering invariant reads in the trace of a run whose calls were made one after the other
-- (ordering.py, over the evidence of rift_experiment_runner's evaluation.py).
use rift_reliability_injecti.Prelude.{
  ℕ, suc, ◌+◌, ◌<◌, String, ◌≡◌, refl, ap, ◌∙◌, Bool, true, false, not, ◌&&◌, ◌||◌, Option, List,
  [], ◌∷◌, ◌++◌, length, length-append, subst, ltb, any, arith, string_eq,
}
use rift_reliability_injecti.Prelude.Int.{ℤ}
use rift_reliability_injecti.Prelude.Result.{ok}
use rift_reliability_injecti.Core.Json.{JsonValue, JsonObject}
use rift_reliability_injecti.Core.Invocation.{ToolInvocation}
use rift_reliability_injecti.Core.Outcome.{InvariantResult}
use rift_reliability_injecti.Invariants.Library.{status_of}
use rift_reliability_injecti.Core.Spec.{ExecutionContext}
use rift_reliability_injecti.Engine.Execute.Sequence.{InOrder}
use rift_reliability_injecti.Commerce.Models.{CommerceSnapshot}
use rift_reliability_injecti.Invariants.Evaluator.{EvaluationContext}
use rift_reliability_injecti.Runner.Evaluation.{invocation_evidence}
use rift_reliability_injecti.Commerce.Ordering.{has_none, keep_if, refund_after_cancellation}
use rift_reliability_injecti.Commerce.Ordering.Reading.{
  is_done, pick, has_before, pick_early, trace-objects, select-objects, early-items,
}
use rift_reliability_injecti.Commerce.Ordering.Entries.{
  pick-IsEntry, pick_early-IsEntry, order_result-there,
}

-- Read call by call: no refund before the first cancellation.
unfoldable pub monitor : Bool → List ToolInvocation → Bool
monitor seen [] = true
monitor seen (i ∷ is) =
    (not (is_done "refund_payment" i) || seen) && monitor (seen || is_done "cancel_order" i) is

later_calls : (k m : ℕ) (js : List ToolInvocation) → k < m → has_before k m js ≡ false
unfolding has_before
later_calls k m [] h = refl
later_calls k m (j ∷ js) h = ground (arith, later_calls k (suc m) js)

and_true_or : (a b : Bool) → ((a && true) || b) ≡ (a || b)
and_true_or true b = refl
and_true_or false b = refl

before-prefix :
    (m : ℕ) (prefix suffix : List ToolInvocation)
    → has_before (m + length prefix) (suc m) (prefix ++ suffix)
      ≡ any (is_done "cancel_order") prefix
unfolding has_before
before-prefix m [] suffix = later_calls (m + 0) (suc m) suffix (omega arith)
before-prefix m (p ∷ ps) suffix =
    let there : ltb (m + suc (length ps)) (suc m) ≡ false = ground arith in
    let ih = before-prefix (suc m) ps suffix in
    let same : suc m + length ps ≡ m + suc (length ps) = omega arith in
    rw (there, rw same at ih) (and_true_or (is_done "cancel_order" p) _)

or_false : (b : Bool) → (b || false) ≡ b
or_false true = refl
or_false false = refl

or_assoc : (a b c : Bool) → (a || (b || c)) ≡ ((a || b) || c)
or_assoc true b c = refl
or_assoc false b c = refl

append_one :
    (xs : List ToolInvocation) (y : ToolInvocation) (ys : List ToolInvocation)
    → (xs ++ y ∷ []) ++ ys ≡ xs ++ y ∷ ys
append_one [] y ys = refl
append_one (x ∷ xs) y ys = ap (◌∷◌ x) (append_one xs y ys)

any-append :
    (p : ToolInvocation → Bool) (xs : List ToolInvocation) (y : ToolInvocation)
    → any p (xs ++ y ∷ []) ≡ (any p xs || p y)
any-append p [] y = or_false (p y)
any-append p (x ∷ xs) y = rw (any-append p xs y) (or_assoc (p x) (any p xs) (p y))

kept_none :
    (r b : Bool) (o : JsonObject) (os : List JsonObject) (m : Bool)
    → has_none os ≡ m
    → has_none (keep_if (r && not b) o os) ≡ ((not r || b) && m)
kept_none true true o os m h = h
kept_none true false o os m h = refl
kept_none false b o os m h = h

early-monitor :
    (prefix suffix : List ToolInvocation)
    → has_none (pick_early (prefix ++ suffix) (length prefix) suffix)
      ≡ monitor (any (is_done "cancel_order") prefix) suffix
unfolding pick_early monitor
early-monitor prefix [] = refl
early-monitor prefix (i ∷ is) =
    let ih = early-monitor (prefix ++ i ∷ []) is in
    let found = before-prefix 0 prefix (i ∷ is) in
    let longer : length (prefix ++ i ∷ []) ≡ suc (length prefix) =
      omega (arith, length-append prefix (i ∷ [])) in
    let rest =
      rw (append_one prefix i is, longer, any-append (is_done "cancel_order") prefix i) at ih in
    let here : has_before (length prefix) 1 (prefix ++ i ∷ is)
        ≡ any (is_done "cancel_order") prefix =
      subst (λ n. has_before n 1 (prefix ++ i ∷ is) ≡ any (is_done "cancel_order") prefix)
        (omega arith) found in
    rw here (kept_none (is_done "refund_payment" i) _ _ _ _ rest)

-- In a run whose calls were made one after the other, the ordering invariant comes to a verdict, and
-- it passes exactly when, read call by call, the trace has no successful refund before the first
-- successful cancellation.
pub refund_after_cancellation-monitor :
    (parse_int : String → Option ℤ) (str_of : JsonValue → String) (ctx : ExecutionContext)
    (c : EvaluationContext CommerceSnapshot) (is : List ToolInvocation)
    → InOrder ctx 0 is
    → c.evidence ≡ invocation_evidence is
    → (r : InvariantResult) × ((refund_after_cancellation parse_int str_of).evaluate c ≡ ok r)
      × (r.status ≡ status_of (monitor false is))
      × (r.invariant_id ≡ "refund_after_cancellation")
unfolding refund_after_cancellation
refund_after_cancellation-monitor parse_int str_of ctx c is h e =
    let refunds = pick (is_done "refund_payment") 1 is in
    let cancels = pick (is_done "cancel_order") 1 is in
    let early = pick_early is 0 is in
    let (r, made, status, name) =
      order_result-there str_of refunds cancels early (pick-IsEntry _ 1 is) (pick-IsEntry _ 1 is)
        (pick_early-IsEntry is 0 is) in
    (
      r,
      rw
          (
            e,
            trace-objects is,
            select-objects "refund_payment" 1 is,
            select-objects "cancel_order" 1 is,
            early-items parse_int ctx is 0 is h,
          )
          made,
      status ∙ ap status_of (early-monitor [] is),
      name,
    )

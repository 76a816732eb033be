-- ===== src/Commerce/Ordering/Entries.antt =====
-- The entries of trace evidence have every key that ordering.py reads for its report.
use rift_reliability_injecti.Prelude.{
  ℕ, suc, String, ◌≡◌, refl, Bool, true, false, List, [], ◌∷◌, length, All, string_eq,
}
use rift_reliability_injecti.Prelude.Result.{ok}
use rift_reliability_injecti.Core.Json.{JsonValue, JsonItems, JsonObject, nil, cons}
use rift_reliability_injecti.Core.Json.Equality.{get_key}
use rift_reliability_injecti.Core.Invocation.{ToolInvocation}
use rift_reliability_injecti.Core.Outcome.{InvariantResult}
use rift_reliability_injecti.Invariants.Library.{status_of}
use rift_reliability_injecti.Runner.Evaluation.{invocation_item}
use rift_reliability_injecti.Commerce.Ordering.{
  get_item, refs, ref, column, has_none, keep_if, order_result, ordering_verdict,
}
use rift_reliability_injecti.Commerce.Ordering.Reading.{pick, pick_early}

-- Entries of the trace.
abbrev IsEntry : JsonObject → Type 0
IsEntry o = (n : ℕ) × (i : ToolInvocation) × (o ≡ invocation_item n i)

keep-IsEntry :
    (b : Bool) (o : JsonObject) (os : List JsonObject)
    → IsEntry o
    → All IsEntry os
    → All IsEntry (keep_if b o os)
keep-IsEntry true o os e h = (e, h)
keep-IsEntry false o os e h = h

ref-item :
    (str_of : JsonValue → String) (n : ℕ) (i : ToolInvocation)
    → (v : JsonValue) × (ref str_of (invocation_item n i) ≡ ok v)
unfolding ref get_item get_key invocation_item
ref-item str_of n i = (_, refl)

pub pick-IsEntry :
    (p : ToolInvocation → Bool) (n : ℕ) (is : List ToolInvocation) → All IsEntry (pick p n is)
unfolding pick
pick-IsEntry p n [] = tt
pick-IsEntry p n (i ∷ is) = keep-IsEntry (p i) _ _ (n, i, refl) (pick-IsEntry p (suc n) is)

pub pick_early-IsEntry :
    (all : List ToolInvocation) (n : ℕ) (is : List ToolInvocation)
    → All IsEntry (pick_early all n is)
unfolding pick_early
pick_early-IsEntry all n [] = tt
pick_early-IsEntry all n (i ∷ is) =
    keep-IsEntry _ _ _ (suc n, i, refl) (pick_early-IsEntry all (suc n) is)

refs-IsEntry :
    (str_of : JsonValue → String) (os : List JsonObject)
    → All IsEntry os
    → (xs : JsonItems) × (refs str_of os ≡ ok xs)
unfolding refs
refs-IsEntry str_of [] h = (nil, refl)
refs-IsEntry str_of (o ∷ os) ((n, i, e), h) =
    let (xs, more) = refs-IsEntry str_of os h in
    let (v, here) = ref-item str_of n i in (cons v xs, rw (e, here, more) refl)

position-item :
    (n : ℕ) (i : ToolInvocation)
    → (v : JsonValue) × (get_item "completion_position" (invocation_item n i) ≡ ok v)
unfolding get_item get_key invocation_item
position-item n i = (_, refl)

before-item :
    (n : ℕ) (i : ToolInvocation)
    → (v : JsonValue) × (get_item "completed_before_start" (invocation_item n i) ≡ ok v)
unfolding get_item get_key invocation_item
before-item n i = (_, refl)

column-IsEntry :
    (key : String)
    → ((n : ℕ) (i : ToolInvocation) → (v : JsonValue) × (get_item key (invocation_item n i) ≡ ok v))
    → (os : List JsonObject) → All IsEntry os
    → (xs : JsonItems) × (column key os ≡ ok xs)
unfolding column
column-IsEntry key f [] h = (nil, refl)
column-IsEntry key f (o ∷ os) ((n, i, e), h) =
    let (xs, more) = column-IsEntry key f os h in
    let (v, here) = f n i in (cons v xs, rw (e, here, more) refl)

module _ (str_of : JsonValue → String) where
  pub order_result-there :
      (refunds cancels early : List JsonObject)
      → All IsEntry refunds
      → All IsEntry cancels
      → All IsEntry early
      → (r : InvariantResult) × (order_result str_of refunds cancels early ≡ ok r)
        × (r.status ≡ status_of (has_none early))
        × (r.invariant_id ≡ "refund_after_cancellation")
  unfolding order_result
  order_result-there refunds cancels early hr hc he =
      let (a, ra) = refs-IsEntry str_of refunds hr in
      let (b, rb) = refs-IsEntry str_of cancels hc in
      let (d, rd) = refs-IsEntry str_of early he in
      let (u, cu) = column-IsEntry "completion_position" position-item cancels hc in
      let (v, cv) = column-IsEntry "completed_before_start" before-item early he in
      (
        ordering_verdict (has_none early) (length early) a b d u v,
        rw (ra, rb, rd, cu, cv) refl,
        refl,
        refl,
      )

-- ===== src/Commerce/Ordering/Reading.antt =====
-- How `evaluate` of ordering.py reads the evidence of a trace, call by call.
use rift_reliability_injecti.Prelude.{
  ℕ, suc, String, ◌≡◌, refl, ap, inl, inr, Bool, true, false, not, ◌&&◌, ◌||◌, Option, some, List,
  [], ◌∷◌, ltb, string_eq, ◌==◌, Bool-cases,
}
use rift_reliability_injecti.Prelude.Int.{ℤ}
use rift_reliability_injecti.Prelude.Result.{ok}
use rift_reliability_injecti.Core.Json.{JsonObject}
use rift_reliability_injecti.Core.Json.Equality.{get_key}
use rift_reliability_injecti.Core.Invocation.{ToolInvocation}
use rift_reliability_injecti.Core.Spec.{ExecutionContext}
use rift_reliability_injecti.Engine.Execute.Sequence.{InOrder}
use rift_reliability_injecti.Runner.Evaluation.{
  invocation_item, entries_from, invocation_evidence, has_succeeded,
}
use rift_reliability_injecti.Commerce.Ordering.{
  dicts, invocations_of, is_success_of, get_item, select_by, any_by, happened_before, early_refunds,
  keep_if, or_next,
}

-- An operation of a tool that ran and did not raise.
abbrev pub is_done : String → ToolInvocation → Bool
is_done tool i = (i.tool_name == tool) && has_succeeded i

-- The trace's entries from position `n` on, and those of them that `p` selects.
unfoldable pub pick : (ToolInvocation → Bool) → ℕ → List ToolInvocation → List JsonObject
pick p n [] = []
pick p n (i ∷ is) = let rest = pick p (suc n) is in keep_if (p i) (invocation_item n i) rest

unfoldable pub objects : ℕ → List ToolInvocation → List JsonObject
objects n [] = []
objects n (i ∷ is) = invocation_item n i ∷ objects (suc n) is

dicts-entries : (n : ℕ) (is : List ToolInvocation) → dicts (entries_from n is) ≡ objects n is
unfolding objects
dicts-entries n [] = refl
dicts-entries n (i ∷ is) = ap (◌∷◌ (invocation_item n i)) (dicts-entries (suc n) is)

pub trace-objects :
    (is : List ToolInvocation) → invocations_of (invocation_evidence is) ≡ ok (objects 1 is)
unfolding invocations_of get_key invocation_evidence
trace-objects is = ap ok (dicts-entries 1 is)

item_success :
    (tool : String) (n : ℕ) (i : ToolInvocation)
    → is_success_of tool (invocation_item n i) ≡ ok (is_done tool i)
unfolding is_success_of get_item get_key invocation_item
item_success tool n i = elim (Bool-cases (i.tool_name == tool)) [
  | inl t ↦ rw t refl
  | inr f ↦ rw f refl
]

pub select-objects :
    (tool : String) (n : ℕ) (is : List ToolInvocation)
    → select_by (is_success_of tool) (objects n is) ≡ ok (pick (is_done tool) n is)
unfolding select_by objects pick
select-objects tool n [] = refl
select-objects tool n (i ∷ is) = rw (item_success tool n i, select-objects tool (suc n) is) refl

module _ (parse_int : String → Option ℤ) where
  -- Reading back: a call finished before another was requested if its position is not above the
  -- number of calls that were completed then.
  happened-items :
      (m n k : ℕ) (j i : ToolInvocation)
      → i.completed_before_start ≡ some k
      → happened_before parse_int (invocation_item m j) (invocation_item n i) ≡ ok (not (ltb k m))
  unfolding happened_before get_item get_key invocation_item
  happened-items m n k j i h = rw h refl

or_next_ok : (b c : Bool) → or_next b (ok c) ≡ ok (b || c)
or_next_ok true c = refl
or_next_ok false c = refl

-- Among the calls from position `m` on, a successful cancellation at position `k` at the latest.
unfoldable pub has_before : ℕ → ℕ → List ToolInvocation → Bool
has_before k m [] = false
has_before k m (j ∷ js) = (is_done "cancel_order" j && not (ltb k m)) || has_before k (suc m) js

module _ (parse_int : String → Option ℤ) where
  any-items :
      (n k m : ℕ) (i : ToolInvocation) (js : List ToolInvocation)
      → i.completed_before_start ≡ some k
      → any_by
          (λ cancel. happened_before parse_int cancel (invocation_item n i))
          (pick (is_done "cancel_order") m js)
        ≡ ok (has_before k m js)
  unfolding any_by pick has_before
  any-items n k m i [] h = refl
  any-items n k m i (j ∷ js) h =
      let ih = any-items n k (suc m) i js h in
      elim (Bool-cases (is_done "cancel_order" j)) [
        | inl t ↦ rw (t, happened-items parse_int m n k j i h, ih) (or_next_ok (not (ltb k m)) _)
        | inr f ↦ rw f ih
      ]

-- The refunds of the suffix `is` of a trace that were requested before any cancellation in it.
unfoldable pub pick_early : List ToolInvocation → ℕ → List ToolInvocation → List JsonObject
pick_early all n [] = []
pick_early all n (i ∷ is) =
    let rest = pick_early all (suc n) is in
    keep_if (is_done "refund_payment" i && not (has_before n 1 all)) (invocation_item (suc n) i)
      rest

pub early-items :
    (parse_int : String → Option ℤ) (ctx : ExecutionContext) (all : List ToolInvocation) (n : ℕ)
    (is : List ToolInvocation)
    → InOrder ctx n is
    → early_refunds parse_int
        (pick (is_done "cancel_order") 1 all)
        (pick (is_done "refund_payment") (suc n) is)
      ≡ ok (pick_early all n is)
unfolding early_refunds select_by pick pick_early
early-items parse_int ctx all n [] h = refl
early-items parse_int ctx all n (i ∷ is) h =
    let ih = early-items parse_int ctx all (suc n) is h.3 in
    elim (Bool-cases (is_done "refund_payment" i)) [
      | inl t ↦ rw (t, any-items parse_int (suc n) n 1 i all h.2, ih) refl
      | inr f ↦ rw f ih
    ]

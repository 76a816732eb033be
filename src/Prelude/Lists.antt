-- ===== src/Prelude/Lists.antt =====
-- Lists measured by native numbers, and the Boolean tests over lists that run.
use Prim.Native.Nat.{ℕ, suc, ◌+◌, ◌≤◌}
use mathlib.Core.Logic.{inl, inr}
use mathlib.Core.Path.{◌≡◌, refl}
use mathlib.Core.Bool.{Bool, true, false, ◌||◌}
use mathlib.Core.List.{List, [], ◌∷◌, ◌++◌}
use mathlib.Core.Option.{Option, none, some}
use native.Mathlib.Omega.{arith}
use rift_reliability_injecti.Prelude.Tests.{if◌then◌else◌, Key, ◌==◌, ==-iff, ==-refl, Bool-cases}

module _ {ℓ} {A : Type ℓ} where
  abbrev pub length : List A → ℕ
  length [] = 0
  length (x ∷ xs) = suc (length xs)

  pub length-append : (xs ys : List A) → length (xs ++ ys) ≡ length xs + length ys
  length-append [] ys = omega arith
  length-append (x ∷ xs) ys = omega (arith, length-append xs ys)

  -- `[x for x in xs if p(x)]`
  abbrev pub select : (A → Bool) → List A → List A
  select p [] = []
  select p (x ∷ xs) = let rest = select p xs in if p x then x ∷ rest else rest

  -- `next((x for x in xs if p(x)), None)`
  abbrev pub find : (A → Bool) → List A → Option A
  find p [] = none
  find p (x ∷ xs) = if p x then some x else find p xs

  abbrev pub any : (A → Bool) → List A → Bool
  any p [] = false
  any p (x ∷ xs) = p x || any p xs

  abbrev pub All {κ} : (A → Type κ) → List A → Type κ
  All P [] = Unit
  All P (x ∷ xs) = P x × All P xs

module _ {ℓ} {A : Type ℓ} ⦃e : Key A⦄ where
  abbrev pub contains : A → List A → Bool
  contains a [] = false
  contains a (x ∷ xs) = (a == x) || contains a xs

  -- `len(xs) == len(set(xs))`
  abbrev pub is_unique : List A → Bool
  is_unique [] = true
  is_unique (x ∷ xs) = if contains x xs then false else is_unique xs

  -- The elements other than `a`.
  others : A → List A → List A
  others a [] = []
  others a (x ∷ xs) = let rest = others a xs in if a == x then rest else x ∷ rest

  others-length : (a : A) (xs : List A) → length (others a xs) ≤ length xs
  unfolding others
  others-length a [] = omega arith
  others-length a (x ∷ xs) = ground (arith, others-length a xs)

  others_shorter :
      (a : A) (xs : List A) → contains a xs ≡ true → suc (length (others a xs)) ≤ length xs
  unfolding others
  others_shorter a [] h = cc
  others_shorter a (x ∷ xs) h = ground (arith, others_shorter a xs, others-length a xs)

  contains-others :
      (a b : A) (xs : List A)
      → contains b xs ≡ true
      → (a == b) ≡ false
      → contains b (others a xs) ≡ true
  unfolding others
  contains-others a b [] h n = cc
  contains-others a b (x ∷ xs) h n =
      ground (arith, contains-others a b xs, ==-iff a x, ==-iff b x, ==-iff a b)

  -- Every element of `xs` is one of `ys`.
  abbrev pub IsWithin : List A → List A → Type 0
  IsWithin xs ys = All (λ x. contains x ys ≡ true) xs

  IsWithin-others :
      (a : A) (xs ys : List A) → contains a xs ≡ false → IsWithin xs ys → IsWithin xs (others a ys)
  IsWithin-others a [] ys n h = tt
  IsWithin-others a (x ∷ xs) ys n h =
      (contains-others a x ys h.0 (ground arith), IsWithin-others a xs ys (ground arith) h.1)

  -- Distinct elements of a list are no more than its length.
  pub IsWithin-length :
      (xs ys : List A) → is_unique xs ≡ true → IsWithin xs ys → length xs ≤ length ys
  IsWithin-length [] ys u h = omega arith
  IsWithin-length (x ∷ xs) ys u h =
      let fresh : contains x xs ≡ false = ground arith in
      let ih =
        IsWithin-length xs (others x ys) (ground arith) (IsWithin-others x xs ys fresh h.1) in
      omega (arith, ih, others_shorter x ys h.0)

  IsWithin-of_members :
      (xs ys : List A) → ((x : A) → contains x xs ≡ true → contains x ys ≡ true) → IsWithin xs ys
  IsWithin-of_members [] ys f = tt
  IsWithin-of_members (x ∷ xs) ys f =
      (f x (ground (arith, ==-refl x)), IsWithin-of_members xs ys (λ y h. f y (ground (arith, h))))

  -- Distinct elements of a list that is no longer are all of it.
  pub IsWithin-back :
      (xs ys : List A)
      → is_unique xs ≡ true
      → IsWithin xs ys
      → length ys ≤ length xs
      → IsWithin ys xs
  IsWithin-back xs ys u h le = IsWithin-of_members ys xs (λ y m. elim (Bool-cases (contains y xs)) [
    | inl t ↦ t
    | inr f ↦
        let more = IsWithin-length (y ∷ xs) ys (ground arith) (m, h) in absurd (omega (arith, more))
  ])

  contains_append :
      (a b : A) (xs : List A)
      → contains a xs ≡ false
      → (a == b) ≡ false
      → contains a (xs ++ b ∷ []) ≡ false
  contains_append a b [] h n = ground (arith, n)
  contains_append a b (x ∷ xs) h n = ground (arith, contains_append a b xs)

  pub is_unique_append :
      (xs : List A) (b : A)
      → is_unique xs ≡ true
      → contains b xs ≡ false
      → is_unique (xs ++ b ∷ []) ≡ true
  is_unique_append [] b u f = refl
  is_unique_append (x ∷ xs) b u f =
      let ih = is_unique_append xs b (ground arith) (ground arith) in
      let apart : contains x (xs ++ b ∷ []) ≡ false =
        contains_append x b xs (ground arith) (ground (arith, ==-iff b x, ==-iff x b)) in
      rw (apart, ih) refl

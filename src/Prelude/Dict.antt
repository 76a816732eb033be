-- ===== src/Prelude/Dict.antt =====
-- A `dict` whose entries are read, written and removed by key. Its representation is private:
-- clients have the laws of reading after a write.
use Prim.Native.Nat.{Ordering}
use Prim.Native.String.{String, compare}
use mathlib.Core.Path.{◌≡◌, refl}
use mathlib.Core.Bool.{Bool, true, false}
use mathlib.Core.Option.{Option, none, some}
use mathlib.Core.List.{List, [], ◌∷◌}
use native.Mathlib.Omega.{arith}
use mathlib.Core.Logic.{◌↔◌, inl, inr}
use rift_reliability_injecti.Prelude.Lists.{All}
use rift_reliability_injecti.Prelude.Tests.{Key, ◌==◌, if◌then◌else◌, Bool-cases}

pub record Dict {ℓ} (K V : Type ℓ) : Type ℓ where
  pairs : List (K × V)

module _ {ℓ} {K V : Type ℓ} ⦃e : Key K⦄ where
  delete : List (K × V) → K → List (K × V)
  delete [] k = []
  delete (p ∷ ps) k = let kept = delete ps k in if p.0 == k then kept else p ∷ kept

  search_key : List (K × V) → K → Option V
  search_key [] k = none
  search_key (p ∷ ps) k = let later = search_key ps k in if p.0 == k then some p.1 else later

  search_key-delete :
      (ps : List (K × V)) (k j : K)
      → search_key (delete ps k) j ≡ (if k == j then none else search_key ps j)
  unfolding search_key delete
  search_key-delete [] k j = ground arith
  search_key-delete ((i, v) ∷ ps) k j =
      ground (arith, e.same_iff k j, e.same_iff i j, e.same_iff i k, search_key-delete ps k j)

  -- d[k] = v
  unfoldable pub put : Dict K V → K → V → Dict K V
  unfolding delete
  put d k v = record { pairs = (k, v) ∷ delete d.pairs k }

  -- d.get(k)
  unfoldable pub get : Dict K V → K → Option V
  unfolding search_key
  get d = search_key d.pairs

  -- d.pop(k), without the value; del d[k]
  unfoldable pub remove : Dict K V → K → Dict K V
  unfolding delete
  remove d k = record { pairs = delete d.pairs k }

  -- Reading after a write.
  pub get-put :
      (d : Dict K V) (k j : K) (v : V) → get (put d k v) j ≡ (if k == j then some v else get d j)
  unfolding put get
  get-put d k j v = simp search_key-delete (ground arith)

  -- Reading after a removal.
  pub get-remove :
      (d : Dict K V) (k j : K) → get (remove d k) j ≡ (if k == j then none else get d j)
  unfolding remove get
  get-remove d = search_key-delete d.pairs

unfoldable pub empty {ℓ} : {K V : Type ℓ} → Dict K V
empty = record { pairs = [] }

pub get-empty {ℓ} : {K V : Type ℓ} ⦃e : Key K⦄ (k : K) → get (empty {V = V}) k ≡ none
unfolding empty get
get-empty k = refl

-- Pairs in the order of their keys, by code points, as Python compares texts.
abbrev is_before : String → String → Bool
is_before a b = elim (compare a b) [ Ordering.gt ↦ false | _ ↦ true ]

module _ {ℓ} {V : Type ℓ} where
  place : String × V → List (String × V) → List (String × V)
  place e [] = e ∷ []
  place e (f ∷ l) = let rest = place e l in if is_before e.0 f.0 then e ∷ f ∷ l else f ∷ rest

  unfoldable pub sort : List (String × V) → List (String × V)
  unfolding place
  sort [] = []
  sort (e ∷ l) = place e (sort l)

  unfoldable pub values_of : List (String × V) → List V
  values_of [] = []
  values_of ((k, v) ∷ l) = v ∷ values_of l

  All-place :
      (P : String × V → Type 0) (e : String × V) (l : List (String × V))
      → All P (place e l) ↔ (P e × All P l)
  unfolding place
  All-place P e [] = (λ h. h, λ h. h)
  All-place P e (f ∷ l) =
      let ih = All-place P e l in
      elim (Bool-cases (is_before e.0 f.0)) [
        | inl t ↦ rw t (λ h. h, λ h. h)
        | inr n ↦ rw n (λ h. let q = ih.0 h.1 in (q.0, (h.0, q.1)), λ h. (h.1.0, ih.1 (h.0, h.1.1)))
      ]

  -- Sorting neither drops nor adds a pair.
  pub All-sort : (P : String × V → Type 0) (l : List (String × V)) → All P (sort l) ↔ All P l
  unfolding sort
  All-sort P [] = (λ h. h, λ h. h)
  All-sort P (e ∷ l) =
      let ih = All-sort P l in
      let pl = All-place P e (sort l) in
      (λ h. let q = pl.0 h in (q.0, ih.0 q.1), λ h. pl.1 (h.0, ih.1 h.1))

-- `d[key] for key in sorted(d)`
unfoldable pub sorted_values : {V : Type 0} → Dict String V → List V
unfolding sort values_of
sorted_values d = values_of (sort d.pairs)

-- ===== src/Prelude/Tests.antt =====
-- Boolean tests on the native numbers, the conditional, and equality as an interface.
use Prim.Native.Nat.{ℕ, compare, Ordering}
use Prim.Native.String.{String}
use mathlib.Core.Path.{◌≡◌, refl}
use mathlib.Core.Logic.{◌↔◌, ◌⊎◌, inl, inr}
use mathlib.Core.Bool.{Bool, true, false, ◌&&◌}
use mathlib.Core.Option.{Option, none, some}
use native.Mathlib.Omega.{arith}
use text.Mathlib.Text.{◌==◌ as str_eq}
use text.Mathlib.TextEquality.{eq_iff}

abbrev pub ltb : ℕ → ℕ → Bool
ltb a b = elim (compare a b) [ Ordering.lt ↦ true | _ ↦ false ]

abbrev pub leb : ℕ → ℕ → Bool
leb a b = elim (compare a b) [ Ordering.gt ↦ false | _ ↦ true ]

abbrev pub eqb : ℕ → ℕ → Bool
eqb a b = elim (compare a b) [ Ordering.eq ↦ true | _ ↦ false ]

infix 1 if◌then◌else◌
abbrev pub if◌then◌else◌ {ℓ} : {A : Type ℓ} → Bool → A → A → A
if true then x else y = x
if false then x else y = y

pub eqb_iff : (a b : ℕ) → (eqb a b ≡ true) ↔ (a ≡ b)
eqb_iff a b = ground arith

-- Case splits that keep the equation.
pub Bool-cases : (b : Bool) → (b ≡ true) ⊎ (b ≡ false)
Bool-cases true = inl refl
Bool-cases false = inr refl

pub Option-cases {ℓ} : {A : Type ℓ} (o : Option A) → (o ≡ none) ⊎ ((a : A) × (o ≡ some a))
Option-cases none = inl refl
Option-cases (some a) = inr (a, refl)

abbrev pub is_some {ℓ} : {A : Type ℓ} → Option A → Bool
is_some none = false
is_some (some a) = true

-- `dict.get(key, default)` and `x or default`, on the value that was found.
abbrev pub or_else {ℓ} : {A : Type ℓ} → Option A → A → A
or_else none d = d
or_else (some a) d = a

-- Types whose equality is decided by a test, as the keys of a dict and the members of a set.
pub record Key {ℓ} (A : Type ℓ) : Type ℓ where
  pub same : A → A → Bool
  pub same_iff : (x y : A) → (same x y ≡ true) ↔ (x ≡ y)

module _ {ℓ} {A : Type ℓ} ⦃e : Key A⦄ where
  infix 50 ◌==◌
  abbrev pub ◌==◌ : A → A → Bool
  x == y = e.same x y

  pub ==-iff : (x y : A) → ((x == y) ≡ true) ↔ (x ≡ y)
  ==-iff = e.same_iff

  pub ==-refl : (x : A) → (x == x) ≡ true
  ==-refl x = (==-iff x x).1 refl

module _ {ℓ} {A B : Type ℓ} ⦃ea : Key A⦄ ⦃eb : Key B⦄ where
  abbrev pub pair_same : A × B → A × B → Bool
  pair_same (a, b) (c, d) = (a == c) && (b == d)

  pub pair_same_iff : (p q : A × B) → (pair_same p q ≡ true) ↔ (p ≡ q)
  pair_same_iff (a, b) (c, d) = ground (arith, ea.same_iff a c, eb.same_iff b d)

  instance abbrev pub pair_eq : Key (A × B)
  pair_eq = record { same = pair_same; same_iff = pair_same_iff }

instance abbrev pub string_eq : Key String
string_eq = record { same = str_eq; same_iff = eq_iff }

instance abbrev pub nat_eq : Key ℕ
nat_eq = record { same = eqb; same_iff = eqb_iff }

-- ===== src/Prelude/Result.antt =====
-- Code that returns a value or raises, with the errors as a parameter.
use mathlib.Core.Path.{◌≡◌, refl}
use mathlib.Core.Logic.{◌⊎◌, inl, inr}
use mathlib.Core.Bool.{Bool, true, false}

pub data Result {ℓ} (E A : Type ℓ) : Type ℓ where
  ok : A → Result E A
  err : E → Result E A

infixl 5 ◌>>=◌ ◌>>◌
abbrev pub ◌>>=◌ {ℓ} : {E A B : Type ℓ} → Result E A → (A → Result E B) → Result E B
ok a >>= f = f a
err e >>= f = err e

abbrev pub ◌>>◌ {ℓ} : {E B : Type ℓ} → Result E Unit → Result E B → Result E B
m >> k = m >>= λ _. k

abbrev pub raise_if {ℓ} : {E : Type ℓ} → Bool → E → Result E Unit
raise_if true e = err e
raise_if false e = ok tt

abbrev pub is_ok {ℓ} : {E A : Type ℓ} → Result E A → Bool
is_ok (ok a) = true
is_ok (err e) = false

-- A check that ended well did not hold.
pub raise_if-false {ℓ} : {E : Type ℓ} (b : Bool) (e : E) → raise_if b e ≡ ok tt → b ≡ false
raise_if-false true e h = cc
raise_if-false false e h = refl

-- A case split that keeps the equation.
pub Result-cases {ℓ} :
    {E A : Type ℓ} (r : Result E A) → ((a : A) × (r ≡ ok a)) ⊎ ((e : E) × (r ≡ err e))
Result-cases (ok a) = inl (a, refl)
Result-cases (err e) = inr (e, refl)

-- A check that let the code go on did not hold.
pub raise_if-inv {ℓ} :
    {E B : Type ℓ} (b : Bool) (e : E) (k : Result E B) {r : B}
    → (raise_if b e >> k) ≡ ok r
    → (b ≡ false) × (k ≡ ok r)
raise_if-inv true e k h = cc
raise_if-inv false e k h = (refl, h)

pub >>=-inv {ℓ} :
    {E A B : Type ℓ} (m : Result E A) (f : A → Result E B) {b : B}
    → (m >>= f) ≡ ok b
    → (a : A) × (m ≡ ok a) × (f a ≡ ok b)
>>=-inv (ok a) f h = (a, refl, h)
>>=-inv (err e) f h = cc

-- Inversion of a step whose value is not used.
pub >>-inv {ℓ} :
    {E B : Type ℓ} (m : Result E Unit) (k : Result E B) {b : B}
    → (m >> k) ≡ ok b
    → (m ≡ ok tt) × (k ≡ ok b)
>>-inv (ok a) k h = (refl, h)
>>-inv (err e) k h = cc

-- ===== src/Commerce/Money.antt =====
-- Python's `Decimal`, as far as the commerce scenario uses it: a sign, a coefficient and a power of
-- ten, or one of the special values.
use rift_reliability_injecti.Prelude.{
  ℕ, ◌*◌, ◌^◌, ◌+◌, ◌-◌, ◌≡◌, refl, Option, some, none, if◌then◌else◌, Bool, true, false, not, ◌&&◌,
  ◌||◌, arith, eqb, ltb,
}
use rift_reliability_injecti.Prelude.Int.{ℤ, pos, negsuc, pos_part, neg_part, is_less, distance}

pub data Decimal : Type 0 where
  -- `finite negative coefficient exponent`
  finite : Bool → ℕ → ℤ → Decimal
  infinity : Bool → Decimal
  nan : Decimal

-- `amount.is_finite()`
abbrev pub is_finite : Decimal → Bool
is_finite (finite s c e) = true
is_finite _ = false

-- `amount <= 0`, asked of finite values alone
abbrev pub is_nonpositive : Decimal → Bool
is_nonpositive (finite s c e) = s || eqb c 0
is_nonpositive _ = false

-- `isinstance(exponent, int) and exponent < -2`
abbrev pub is_below_cents : Decimal → Bool
is_below_cents (finite s c e) = ltb 2 (neg_part e)
is_below_cents _ = false

-- `c·10^e` and `d·10^f` are one number.
abbrev pub same_magnitude : ℕ → ℤ → ℕ → ℤ → Bool
same_magnitude c e d f =
    eqb (c * 10 ^ pos_part e * 10 ^ neg_part f) (d * 10 ^ pos_part f * 10 ^ neg_part e)

abbrev pub same_sign : Bool → Bool → Bool
same_sign true b = b
same_sign false b = not b

-- `a == b`: equality of values, where both zeros are equal and nan equals nothing
unfoldable pub eq_decimal : Decimal → Decimal → Bool
eq_decimal (finite s c e) (finite t d f) = same_magnitude c e d f && (same_sign s t || eqb c 0)
eq_decimal (infinity s) (infinity t) = same_sign s t
eq_decimal _ _ = false

-- The coefficient at the smaller exponent `e`.
abbrev pub aligned : ℕ → ℤ → ℤ → ℕ
aligned c e f = if is_less f e then c * 10 ^ distance f e else c

-- s·c + t·d, as a sign and a coefficient.
abbrev pub signed_sum : Bool → ℕ → Bool → ℕ → Bool × ℕ
signed_sum s c t d =
    if same_sign s t then (s, c + d) else if ltb d c then (s, c - d) else (t && ltb c d, d - c)

abbrev pub with_exponent : Bool × ℕ → ℤ → Decimal
with_exponent (s, c) e = finite s c e

-- `a + b`, where `none` is `decimal.InvalidOperation`. The sum is exact: the precision of 28 digits,
-- at which `decimal` rounds, is not modelled.
unfoldable pub add_decimal : Decimal → Decimal → Option Decimal
add_decimal (finite s c e) (finite t d f) =
    some (
      with_exponent (signed_sum s (aligned c e f) t (aligned d f e)) (if is_less f e then f else e))
add_decimal nan b = some nan
add_decimal a nan = some nan
add_decimal (infinity s) (infinity t) = if same_sign s t then some (infinity s) else none
add_decimal (infinity s) b = some (infinity s)
add_decimal a (infinity t) = some (infinity t)

add_cents :
    add_decimal (finite false 0 (negsuc 1)) (finite false 7999 (negsuc 1))
    ≡ some (finite false 7999 (negsuc 1))
unfolding add_decimal
add_cents = refl

add_mixed :
    add_decimal (finite true 5 (pos 0)) (finite false 125 (negsuc 1))
    ≡ some (finite true 375 (negsuc 1))
unfolding add_decimal
add_mixed = refl

pub eq_decimal_refl : (a : Decimal) → is_finite a ≡ true → eq_decimal a a ≡ true
unfolding eq_decimal
eq_decimal_refl (finite s c e) h = ground arith
eq_decimal_refl (infinity s) h = cc
eq_decimal_refl nan h = cc

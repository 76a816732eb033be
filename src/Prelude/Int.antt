-- ===== src/Prelude/Int.antt =====
-- Signed integers over the native numbers, as Python's `int`.
use Prim.Native.Nat.{ℕ, suc, ◌+◌, ◌-◌}
use mathlib.Core.Bool.{Bool, true, false}
use rift_reliability_injecti.Prelude.Tests.{eqb, leb, ltb, if◌then◌else◌}

-- `negsuc n` is -(n + 1).
pub data ℤ : Type 0 where
  pos : ℕ → ℤ
  negsuc : ℕ → ℤ

abbrev pub pos_part : ℤ → ℕ
pos_part (pos n) = n
pos_part (negsuc n) = 0

abbrev pub neg_part : ℤ → ℕ
neg_part (pos n) = 0
neg_part (negsuc n) = suc n

-- a - b, as an integer.
abbrev pub sub_ℕ : ℕ → ℕ → ℤ
sub_ℕ a b = if leb b a then pos (a - b) else negsuc (b - a - 1)

abbrev pub is_negative : ℤ → Bool
is_negative (pos n) = false
is_negative (negsuc n) = true

abbrev pub eq_ℤ : ℤ → ℤ → Bool
eq_ℤ (pos a) (pos b) = eqb a b
eq_ℤ (negsuc a) (negsuc b) = eqb a b
eq_ℤ _ _ = false

-- `a < b`
abbrev pub is_less : ℤ → ℤ → Bool
is_less (pos a) (pos b) = ltb a b
is_less (negsuc a) (negsuc b) = ltb b a
is_less (negsuc a) (pos b) = true
is_less (pos a) (negsuc b) = false

-- b - a, where a is not above b.
abbrev pub distance : ℤ → ℤ → ℕ
distance (pos a) (pos b) = b - a
distance (negsuc a) (negsuc b) = a - b
distance (negsuc a) (pos b) = suc a + b
distance (pos a) (negsuc b) = 0

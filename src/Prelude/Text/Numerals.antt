-- ===== src/Prelude/Text/Numerals.antt =====
-- `str(n)` can be read back, and a text that ends in a colon and a numeral has one such end.
use Prim.Native.Nat.{ℕ, zero, suc, ◌+◌, ◌-◌, ◌*◌, ◌/◌, ◌%◌, ◌≤◌, ◌<◌}
use Prim.Native.Char.{Char, code}
use Prim.Native.String.{String}
use Prim.Native.String.append.{nil, cons}
use mathlib.Core.Path.{◌≡◌, refl, sym, ap, ap₂, ◌∙◌}
use mathlib.Core.Logic.{◌≢◌, inl, inr}
use mathlib.Core.Bool.{Bool, true, false, ◌||◌}
use native.Mathlib.Omega.{arith}
use rift_reliability_injecti.Prelude.Tests.{ltb, eqb, Bool-cases}
use rift_reliability_injecti.Prelude.Text.{◌&◌, digit, show_fuel, show}

-- The number that the digits `s` after the number `n` make.
read_from : ℕ → String → ℕ
read_from n String.[] = n
read_from n (String.◌∷◌ c s) = read_from (n * 10 + (code c - 48)) s

read_from-append : (n : ℕ) (s t : String) → read_from n (s & t) ≡ read_from (read_from n s) t
unfolding read_from
read_from-append n String.[] t = rw (nil t) refl
read_from-append n (String.◌∷◌ c s) t =
    rw (cons c s t) (read_from-append (n * 10 + (code c - 48)) s t)

read_from-digit : (n d : ℕ) → d < 10 → read_from n (digit d) ≡ n * 10 + d
unfolding read_from digit
read_from-digit n zero h = refl
read_from-digit n (suc zero) h = refl
read_from-digit n (suc (suc zero)) h = refl
read_from-digit n (suc (suc (suc zero))) h = refl
read_from-digit n (suc (suc (suc (suc zero)))) h = refl
read_from-digit n (suc (suc (suc (suc (suc zero))))) h = refl
read_from-digit n (suc (suc (suc (suc (suc (suc zero)))))) h = refl
read_from-digit n (suc (suc (suc (suc (suc (suc (suc zero))))))) h = refl
read_from-digit n (suc (suc (suc (suc (suc (suc (suc (suc zero)))))))) h = refl
read_from-digit n (suc (suc (suc (suc (suc (suc (suc (suc (suc zero))))))))) h = refl
read_from-digit n (suc (suc (suc (suc (suc (suc (suc (suc (suc (suc d)))))))))) h =
    absurd (omega (arith, h))

read_from-show_fuel : (f n : ℕ) → n < f → read_from 0 (show_fuel f n) ≡ n
unfolding show_fuel
read_from-show_fuel zero n h = absurd (omega (arith, h))
read_from-show_fuel (suc f) n h = elim (Bool-cases (ltb n 10)) [
  | inl t ↦ rw t (read_from-digit 0 n (ground arith) ∙ omega arith)
  | inr b ↦
      let big : 10 ≤ n = ground arith in
      rw
        (
          b,
          read_from-append 0 (show_fuel f (n / 10)) (digit (n % 10)),
          read_from-show_fuel f (n / 10) (omega (arith, h, big)),
        )
        (read_from-digit (n / 10) (n % 10) (omega arith) ∙ omega arith)
]

-- Different numbers have different texts.
show_injective : (m n : ℕ) → show m ≡ show n → m ≡ n
unfolding show
show_injective m n e =
    sym (read_from-show_fuel (suc m) m (omega arith))
    ∙ ap (read_from 0) e
    ∙ read_from-show_fuel (suc n) n (omega arith)

has_colon : String → Bool
has_colon String.[] = false
has_colon (String.◌∷◌ c s) = eqb (code c) 58 || has_colon s

has_colon-append : (s t : String) → has_colon (s & t) ≡ (has_colon s || has_colon t)
unfolding has_colon
has_colon-append String.[] t = rw (nil t) refl
has_colon-append (String.◌∷◌ c s) t = rw (cons c s t) (ground (arith, has_colon-append s t))

has_colon-digit : (d : ℕ) → has_colon (digit d) ≡ false
unfolding has_colon digit
has_colon-digit zero = refl
has_colon-digit (suc zero) = refl
has_colon-digit (suc (suc zero)) = refl
has_colon-digit (suc (suc (suc zero))) = refl
has_colon-digit (suc (suc (suc (suc zero)))) = refl
has_colon-digit (suc (suc (suc (suc (suc zero))))) = refl
has_colon-digit (suc (suc (suc (suc (suc (suc zero)))))) = refl
has_colon-digit (suc (suc (suc (suc (suc (suc (suc zero))))))) = refl
has_colon-digit (suc (suc (suc (suc (suc (suc (suc (suc zero)))))))) = refl
has_colon-digit (suc (suc (suc (suc (suc (suc (suc (suc (suc zero))))))))) = refl
has_colon-digit (suc (suc (suc (suc (suc (suc (suc (suc (suc (suc d)))))))))) = refl

has_colon-show_fuel : (f n : ℕ) → has_colon (show_fuel f n) ≡ false
unfolding show_fuel
has_colon-show_fuel zero n = unfold has_colon in refl
has_colon-show_fuel (suc f) n = elim (Bool-cases (ltb n 10)) [
  | inl t ↦ rw t (has_colon-digit n)
  | inr b ↦
      rw
        (
          b,
          has_colon-append (show_fuel f (n / 10)) (digit (n % 10)),
          has_colon-show_fuel f (n / 10),
        )
        (has_colon-digit (n % 10))
]

tail_of : String → String
tail_of String.[] = String.[]
tail_of (String.◌∷◌ c s) = s

colon_first : (d : String) → (":" & d) ≡ String.◌∷◌ ":" d
colon_first d = cons ":" String.[] d ∙ ap (String.◌∷◌ ":") (nil d)

has_colon-inside : (t e : String) → has_colon (t & ":" & e) ≡ true
unfolding has_colon
has_colon-inside t e = rw (has_colon-append t (":" & e), colon_first e) (ground arith)

-- No text without a colon ends in a colon and more.
no_colon : (t d e : String) → has_colon d ≡ false → d ≢ (t & ":" & e)
no_colon t d e h eq = let more = has_colon-inside t e in cc

head_of : String → Char
head_of String.[] = ":"
head_of (String.◌∷◌ c s) = c

-- A text splits in one way at its last colon.
split_colon :
    (s t d e : String)
    → has_colon d ≡ false
    → has_colon e ≡ false
    → (s & ":" & d) ≡ (t & ":" & e)
    → (s ≡ t) × (d ≡ e)
unfolding head_of tail_of
split_colon String.[] String.[] d e hd he h =
    (refl, rw (nil (":" & d), nil (":" & e), colon_first d, colon_first e) at (ap tail_of h))
split_colon String.[] (String.◌∷◌ c t) d e hd he h =
    absurd
      (no_colon t d e hd (rw (nil (":" & d), colon_first d, cons c t (":" & e)) at (ap tail_of h)))
split_colon (String.◌∷◌ c s) String.[] d e hd he h = absurd (
    no_colon s e d he
      (rw (nil (":" & e), colon_first e, cons c s (":" & d)) at (ap tail_of (sym h))))
split_colon (String.◌∷◌ c s) (String.◌∷◌ b t) d e hd he h =
    let hh = rw (cons c s (":" & d), cons b t (":" & e)) at h in
    let ih = split_colon s t d e hd he (ap tail_of hh) in
    (ap₂ String.◌∷◌ (ap head_of hh) ih.0, ih.1)

-- A text that ends in a colon and a numeral says which numeral.
pub split_numeral :
    (s t : String) (m n : ℕ) → (s & ":" & show m) ≡ (t & ":" & show n) → (s ≡ t) × (m ≡ n)
unfolding show
split_numeral s t m n h =
    let parts =
      split_colon s t (show m) (show n) (has_colon-show_fuel (suc m) m)
        (has_colon-show_fuel (suc n) n) h in
    (parts.0, show_injective m n parts.1)

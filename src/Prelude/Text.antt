-- ===== src/Prelude/Text.antt =====
-- What the program does with text: f-strings, `str(int)` and `str.strip`.
pub mod Numerals
use Prim.Native.Nat.{ℕ, zero, suc, ◌/◌, ◌%◌}
use Prim.Native.Char.{code}
use Prim.Native.String.{String, ◌++◌}
use mathlib.Core.Path.{◌≡◌, refl}
use mathlib.Core.Bool.{Bool, true, false, ◌&&◌, ◌||◌}
use rift_reliability_injecti.Prelude.Tests.{ltb, leb, eqb, if◌then◌else◌}

-- Texts end to end, as in an f-string.
infixr 65 ◌&◌
abbrev pub ◌&◌ : String → String → String
s & t = s ++ t

unfoldable digit : ℕ → String
digit zero = "0"
digit (suc zero) = "1"
digit (suc (suc zero)) = "2"
digit (suc (suc (suc zero))) = "3"
digit (suc (suc (suc (suc zero)))) = "4"
digit (suc (suc (suc (suc (suc zero))))) = "5"
digit (suc (suc (suc (suc (suc (suc zero)))))) = "6"
digit (suc (suc (suc (suc (suc (suc (suc zero))))))) = "7"
digit (suc (suc (suc (suc (suc (suc (suc (suc zero)))))))) = "8"
digit _ = "9"

unfoldable show_fuel : ℕ → ℕ → String
show_fuel zero n = ""
show_fuel (suc f) n =
    let more = show_fuel f (n / 10) & digit (n % 10) in if ltb n 10 then digit n else more

-- `str(n)`: a number has fewer digits than its value plus one.
unfoldable pub show : ℕ → String
unfolding show_fuel digit
show n = show_fuel (suc n) n

-- `f"{n:04d}"`
unfoldable pub show_padded : ℕ → String
unfolding show
show_padded n =
    (if ltb n 10 then "000" else if ltb n 100 then "00" else if ltb n 1000 then "0" else "")
    & show n

-- `str.isspace` of one character.
unfoldable pub is_space : ℕ → Bool
is_space c =
    leb 9 c && leb c 13
    || leb 28 c && leb c 32
    || eqb c 0x85
    || eqb c 0xa0
    || eqb c 0x1680
    || leb 0x2000 c && leb c 0x200a
    || leb 0x2028 c && leb c 0x2029
    || eqb c 0x202f
    || eqb c 0x205f
    || eqb c 0x3000

abbrev pub is_empty : String → Bool
is_empty String.[] = true
is_empty (String.◌∷◌ c s) = false

unfoldable pub lstrip : String → String
unfolding is_space
lstrip String.[] = String.[]
lstrip (String.◌∷◌ c s) = let rest = lstrip s in if is_space (code c) then rest else String.◌∷◌ c s

unfoldable pub rstrip : String → String
unfolding is_space
rstrip String.[] = String.[]
rstrip (String.◌∷◌ c s) =
    let rest = rstrip s in
    if is_space (code c) && is_empty rest then String.[] else String.◌∷◌ c rest

-- `text.strip()`
unfoldable pub strip : String → String
unfolding lstrip rstrip
strip s = rstrip (lstrip s)

show_1203 : show 1203 ≡ "1203"
unfolding show
show_1203 = refl

show_padded_42 : show_padded 42 ≡ "0042"
unfolding show_padded
show_padded_42 = refl

strip_both : strip "  ORD 1 " ≡ "ORD 1"
unfolding strip
strip_both = refl

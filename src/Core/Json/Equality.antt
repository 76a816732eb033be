-- ===== src/Core/Json/Equality.antt =====
-- Python's `==` on JSON documents: objects are equal as dicts, whatever the order of their items, and
-- a truth value equals the integer that it stands for.
use rift_reliability_injecti.Prelude.{
  ◌≡◌, String, Bool, true, false, ◌&&◌, Option, none, some, List, [], ◌∷◌, length, eqb, is_unique,
  string_eq, ◌==◌, if◌then◌else◌,
}
use rift_reliability_injecti.Prelude.Int.{ℤ, pos, eq_ℤ}
use rift_reliability_injecti.Core.Json.{
  JsonValue, JsonItems, JsonObject, null, boolean, integer, text, array, object, nil, cons, end,
  item,
}

-- `document.get(key)`
unfoldable pub get_key : String → JsonObject → Option JsonValue
get_key k end = none
get_key k (item j v rest) = if j == k then some v else get_key k rest

unfoldable pub keys : JsonObject → List String
keys end = []
keys (item k v rest) = k ∷ keys rest

-- `int(b)`
abbrev pub int_of : Bool → ℤ
int_of true = pos 1
int_of false = pos 0

-- `v == w`, where not both are dicts and not both are lists
abbrev pub scalar_eq : JsonValue → JsonValue → Bool
scalar_eq null null = true
scalar_eq (boolean a) (boolean b) = eq_ℤ (int_of a) (int_of b)
scalar_eq (boolean a) (integer n) = eq_ℤ (int_of a) n
scalar_eq (integer m) (boolean b) = eq_ℤ m (int_of b)
scalar_eq (integer m) (integer n) = eq_ℤ m n
scalar_eq (text a) (text b) = a == b
scalar_eq _ _ = false

unfoldable mutual
  -- `v == w`
  pub py_eq : JsonValue → JsonValue → Bool
  py_eq (array xs) (array ys) = eq_items xs ys
  py_eq (object l) (object r) = eqb (length (keys l)) (length (keys r)) && each_in l r
  py_eq v w = scalar_eq v w

  pub eq_items : JsonItems → JsonItems → Bool
  eq_items nil nil = true
  eq_items (cons v xs) (cons w ys) = py_eq v w && eq_items xs ys
  eq_items _ _ = false

  -- Every item of `l` is in `r`, with an equal value.
  pub each_in : JsonObject → JsonObject → Bool
  each_in end r = true
  each_in (item k v rest) r =
      elim (get_key k r) [ none ↦ false | some w ↦ py_eq v w ] && each_in rest r

-- No object of a document has a key twice, as in any `dict`.
abbrev mutual
  pub IsDistinct : JsonValue → Type 0
  IsDistinct (array xs) = AreDistinct xs
  IsDistinct (object o) = (is_unique (keys o) ≡ true) × HasDistinct o
  IsDistinct _ = Unit

  pub AreDistinct : JsonItems → Type 0
  AreDistinct nil = Unit
  AreDistinct (cons v xs) = IsDistinct v × AreDistinct xs

  pub HasDistinct : JsonObject → Type 0
  HasDistinct end = Unit
  HasDistinct (item k v rest) = IsDistinct v × HasDistinct rest

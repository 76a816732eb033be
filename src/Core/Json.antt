-- ===== src/Core/Json.antt =====
-- `JsonValue` of pydantic, as Python's `json` reads it. Floats are left out: no value that the
-- program itself puts into a JSON document is one. An object is the list of its items in order.
pub mod Equality
use rift_reliability_injecti.Prelude.{
  ℕ, String, Bool, true, false, Option, none, some, List, [], ◌∷◌, string_eq,
}
use rift_reliability_injecti.Prelude.Int.{ℤ, pos}

mutual
  pub data JsonValue : Type 0 where
    null : JsonValue
    boolean : Bool → JsonValue
    integer : ℤ → JsonValue
    text : String → JsonValue
    array : JsonItems → JsonValue
    object : JsonObject → JsonValue

  pub data JsonItems : Type 0 where
    nil : JsonItems
    cons : JsonValue → JsonItems → JsonItems

  pub data JsonObject : Type 0 where
    end : JsonObject
    item : String → JsonValue → JsonObject → JsonObject

-- `value is None`
abbrev pub is_null : JsonValue → Bool
is_null null = true
is_null _ = false

abbrev pub items : List JsonValue → JsonItems
items [] = nil
items (v ∷ vs) = cons v (items vs)

abbrev pub optional_text : Option String → JsonValue
optional_text none = null
optional_text (some s) = text s

abbrev pub optional_number : Option ℕ → JsonValue
optional_number none = null
optional_number (some n) = integer (pos n)

-- ===== src/Invariants/Values.antt =====
-- packages/rift_invariant_engine/src/rift_invariant_engine/invariants.py: the values that an invariant
-- compares and reports, `_to_json_value` and `_require_exact_number`. Floats are left out, as in the
-- JSON documents; `decimal_text` stands for `str` of a `Decimal`.
use rift_reliability_injecti.Prelude.{suc, String, Bool, true, false, if◌then◌else◌}
use rift_reliability_injecti.Prelude.Int.{ℤ, pos, negsuc, eq_ℤ}
use rift_reliability_injecti.Prelude.Result.{Result, ok, err, ◌>>=◌}
use rift_reliability_injecti.Prelude.Text.{◌&◌}
use rift_reliability_injecti.Core.Json.{
  JsonValue, JsonItems, JsonObject, null, boolean, integer, text, array, object, nil, cons, end,
  item,
}
use rift_reliability_injecti.Commerce.Money.{Decimal, finite, is_finite, eq_decimal}
use rift_reliability_injecti.Engine.Exceptions.{Exception, raised}

-- Python values by their classes. An enum member is its value, a model what `model_dump` makes of it,
-- and `opaque` an instance of any class that is none of these, by the class's name.
mutual
  pub data Value : Type 0 where
    none_value : Value
    bool_value : Bool → Value
    int_value : ℤ → Value
    text_value : String → Value
    decimal_value : Decimal → Value
    enum_value : Value → Value
    model_value : JsonValue → Value
    mapping_value : Entries → Value
    sequence_value : Elements → Value
    opaque : String → Value

  pub data Entries : Type 0 where
    no_entry : Entries
    entry : String → Value → Entries → Entries

  pub data Elements : Type 0 where
    no_element : Elements
    element : Value → Elements → Elements

abbrev pub not_json : String → Exception
not_json name = raised "TypeError" ("value is not JSON-compatible evidence: " & name)

module _ (decimal_text : Decimal → String) where
  unfoldable mutual
    -- `_to_json_value`
    pub to_json_value : Value → Result Exception JsonValue
    to_json_value none_value = ok null
    to_json_value (bool_value b) = ok (boolean b)
    to_json_value (int_value n) = ok (integer n)
    to_json_value (text_value s) = ok (text s)
    to_json_value (decimal_value d) = ok (text (decimal_text d))
    to_json_value (enum_value v) = to_json_value v
    to_json_value (model_value j) = ok j
    to_json_value (mapping_value es) = to_json_entries es >>= λ o. ok (object o)
    to_json_value (sequence_value es) = to_json_elements es >>= λ xs. ok (array xs)
    to_json_value (opaque name) = err (not_json name)

    pub to_json_entries : Entries → Result Exception JsonObject
    to_json_entries no_entry = ok end
    to_json_entries (entry k v es) =
        to_json_value v >>= λ j. to_json_entries es >>= λ o. ok (item k j o)

    pub to_json_elements : Elements → Result Exception JsonItems
    to_json_elements no_element = ok nil
    to_json_elements (element v es) =
        to_json_value v >>= λ j. to_json_elements es >>= λ xs. ok (cons j xs)

-- `_require_exact_number`
unfoldable pub require_exact_number : Value → Result Exception Unit
require_exact_number (int_value n) = ok tt
require_exact_number (decimal_value d) =
    if is_finite d
    then ok tt
    else err (raised "ValueError" "numeric invariant Decimal values must be finite")
require_exact_number v = err (raised "TypeError" "numeric invariant values must be int or Decimal")

abbrev pub decimal_of : ℤ → Decimal
decimal_of (pos n) = finite false n (pos 0)
decimal_of (negsuc n) = finite true (suc n) (pos 0)

-- `a == b` of exact numbers
unfoldable pub eq_number : Value → Value → Bool
eq_number (int_value m) (int_value n) = eq_ℤ m n
eq_number (int_value m) (decimal_value d) = eq_decimal (decimal_of m) d
eq_number (decimal_value d) (int_value n) = eq_decimal d (decimal_of n)
eq_number (decimal_value d) (decimal_value f) = eq_decimal d f
eq_number v w = false

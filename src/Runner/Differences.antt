-- ===== src/Runner/Differences.antt =====
-- packages/rift_experiment_runner/src/rift_experiment_runner/evaluation.py: `diff_states` and `_diff`.
-- The loop over the sorted union of the keys is a pass over the items of each side, whose differences
-- are then put in the order of the keys: no dict has a key twice, so each key gets its one place.
pub mod Agreement
use rift_reliability_injecti.Prelude.{
  ℕ, suc, ◌+◌, String, Bool, true, false, Option, none, some, List, [], ◌∷◌, ◌++◌, contains,
  string_eq, if◌then◌else◌,
}
use rift_reliability_injecti.Prelude.Dict.{sort, values_of}
use rift_reliability_injecti.Prelude.Text.{◌&◌, show, is_empty}
use rift_reliability_injecti.Core.Json.{
  JsonValue, JsonItems, JsonObject, null, boolean, integer, text, array, object, nil, cons, end,
  item,
}
use rift_reliability_injecti.Core.Json.Equality.{get_key, keys, scalar_eq}

pub data Change : Type 0 where
  added removed changed : Change

pub record StateDifference : Type 0 where
  pub path : String
  pub change : Change
  pub baseline : JsonValue
  pub faulted : JsonValue

-- f"{path}.{key}" if path else str(key)
unfoldable pub child_of : String → String → String
child_of path key = if is_empty path then key else path & "." & key

-- f"{path}[{index}]"
unfoldable pub element_of : String → ℕ → String
element_of path index = path & "[" & show index & "]"

abbrev pub difference : Change → String → JsonValue → JsonValue → StateDifference
difference change path left right = record {
  path = path;
  change = change;
  baseline = left;
  faulted = right;
}

unfoldable pub flatten : List (List StateDifference) → List StateDifference
flatten [] = []
flatten (ds ∷ rest) = ds ++ flatten rest

-- The keys of `r` that are not among `known`.
unfoldable pub added_keys : List String → JsonObject → String → List (String × List StateDifference)
added_keys known end path = []
added_keys known (item k w rest) path =
    let more = added_keys known rest path in
    if contains k known then more else (k, difference added (child_of path k) null w ∷ []) ∷ more

-- The elements of a list past the end of the other.
unfoldable pub all_removed : JsonItems → String → ℕ → List StateDifference
all_removed nil path index = []
all_removed (cons v xs) path index =
    difference removed (element_of path index) v null ∷ all_removed xs path (suc index)

unfoldable pub all_added : JsonItems → String → ℕ → List StateDifference
all_added nil path index = []
all_added (cons w ys) path index =
    difference added (element_of path index) null w ∷ all_added ys path (suc index)

unfoldable mutual
  -- `_diff`, with what it appends to `out` as its result
  pub diff : JsonValue → JsonValue → String → List StateDifference
  diff (object l) (object r) path =
      flatten (values_of (sort (diff_keys l r path ++ added_keys (keys l) r path)))
  diff (array xs) (array ys) path = diff_items xs ys path 0
  diff v w path = if scalar_eq v w then [] else difference changed path v w ∷ []

  -- The keys of `l`, each with its differences.
  pub diff_keys : JsonObject → JsonObject → String → List (String × List StateDifference)
  diff_keys end r path = []
  diff_keys (item k v rest) r path =
      (
        k,
        elim (get_key k r) [
          | none ↦ difference removed (child_of path k) v null ∷ []
          | some w ↦ diff v w (child_of path k)
        ],
      )
      ∷ diff_keys rest r path

  pub diff_items : JsonItems → JsonItems → String → ℕ → List StateDifference
  diff_items nil ys path index = all_added ys path index
  diff_items (cons v xs) nil path index = all_removed (cons v xs) path index
  diff_items (cons v xs) (cons w ys) path index =
      diff v w (element_of path index) ++ diff_items xs ys path (suc index)

-- `diff_states`
unfoldable pub diff_states : JsonObject → JsonObject → List StateDifference
unfolding diff
diff_states baseline faulted = diff (object baseline) (object faulted) ""

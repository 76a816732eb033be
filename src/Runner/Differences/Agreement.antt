-- ===== src/Runner/Differences/Agreement.antt =====
-- `diff_states` of evaluation.py reports nothing exactly when the documents are equal.
use rift_reliability_injecti.Prelude.{
  ℕ, suc, ◌≡◌, ◌≢◌, ◌↔◌, inl, inr, refl, String, Bool, true, ◌&&◌, some, List, [], ◌∷◌, ◌++◌, All,
  length, contains, is_unique, IsWithin, IsWithin-length, IsWithin-back, subst, eqb, string_eq,
  ◌==◌, ==-iff, arith, Bool-cases, Option-cases, if◌then◌else◌,
}
use rift_reliability_injecti.Prelude.Dict.{sort, values_of, All-sort}
use rift_reliability_injecti.Core.Json.{
  JsonValue, JsonItems, JsonObject, array, object, nil, cons, end, item,
}
use rift_reliability_injecti.Core.Json.Equality.{
  get_key, keys, scalar_eq, py_eq, eq_items, each_in, IsDistinct, AreDistinct, HasDistinct,
}
use rift_reliability_injecti.Runner.Differences.{
  StateDifference, changed, difference, child_of, element_of, flatten, added_keys, all_removed,
  all_added, diff, diff_keys, diff_items, diff_states,
}

-- No differences at a key.
abbrev IsQuiet : String × List StateDifference → Type 0
IsQuiet e = e.1 ≡ []

append-nil_inv : {A : Type 0} (xs ys : List A) → xs ++ ys ≡ [] → (xs ≡ []) × (ys ≡ [])
append-nil_inv [] ys h = (refl, h)
append-nil_inv (x ∷ xs) ys h = cc

flatten-IsQuiet :
    (l : List (String × List StateDifference)) → (flatten (values_of l) ≡ []) ↔ All IsQuiet l
unfolding flatten values_of
flatten-IsQuiet [] = (λ h. tt, λ h. refl)
flatten-IsQuiet ((k, ds) ∷ l) =
    let ih = flatten-IsQuiet l in
    (
      λ h. let q = append-nil_inv ds (flatten (values_of l)) h in (q.0, ih.0 q.1),
      λ h. let q = ih.1 h.1 in ground (arith, h.0),
    )

All-append :
    (l m : List (String × List StateDifference))
    → All IsQuiet (l ++ m) ↔ (All IsQuiet l × All IsQuiet m)
All-append [] m = (λ h. (tt, h), λ h. h.1)
All-append (e ∷ l) m =
    let ih = All-append l m in
    (λ h. let q = ih.0 h.1 in ((h.0, q.0), q.1), λ h. (h.0.0, ih.1 (h.0.1, h.1)))

-- The union of both sides' keys has no difference exactly if neither side has one.
union-IsQuiet :
    (l r : JsonObject) (path : String)
    → (diff (object l) (object r) path ≡ [])
      ↔ (All IsQuiet (diff_keys l r path) × All IsQuiet (added_keys (keys l) r path))
unfolding diff
union-IsQuiet l r path =
    let both = diff_keys l r path ++ added_keys (keys l) r path in
    let f = flatten-IsQuiet (sort both) in
    let s = All-sort IsQuiet both in
    let a = All-append (diff_keys l r path) (added_keys (keys l) r path) in
    (λ h. a.0 (s.0 (f.0 h)), λ h. f.1 (s.1 (a.1 h)))

added-IsQuiet :
    (known : List String) (r : JsonObject) (path : String)
    → All IsQuiet (added_keys known r path) ↔ IsWithin (keys r) known
unfolding added_keys keys
added-IsQuiet known end path = (λ h. tt, λ h. tt)
added-IsQuiet known (item k w rest) path =
    let ih = added-IsQuiet known rest path in
    elim (Bool-cases (contains k known)) [
      | inl t ↦ (λ h. (t, ih.0 (rw t at h)), λ h. rw t (ih.1 h.1))
      | inr f ↦ (λ h. let q = rw f at h in absurd (ground arith), λ h. absurd (ground arith))
    ]

get_key-contains :
    (k : String) (r : JsonObject) (w : JsonValue)
    → get_key k r ≡ some w
    → contains k (keys r) ≡ true
unfolding get_key keys
get_key-contains k end w h = cc
get_key-contains k (item j v rest) w h =
    ground (arith, get_key-contains k rest w, ==-iff j k, ==-iff k j)

get_key-HasDistinct :
    (k : String) (r : JsonObject) (w : JsonValue)
    → get_key k r ≡ some w
    → HasDistinct r
    → IsDistinct w
unfolding get_key
get_key-HasDistinct k end w h d = absurd (ground arith)
get_key-HasDistinct k (item j v rest) w h d = elim (Bool-cases (j == k)) [
  | inl t ↦ let same : v ≡ w = ground arith in subst IsDistinct same d.0
  | inr f ↦ get_key-HasDistinct k rest w (ground arith) d.1
]

each_in-IsWithin : (l r : JsonObject) → each_in l r ≡ true → IsWithin (keys l) (keys r)
unfolding py_eq keys
each_in-IsWithin end r h = tt
each_in-IsWithin (item k v rest) r h = elim (Option-cases (get_key k r)) [
  | inl missing ↦ absurd (ground arith)
  | inr (w, found) ↦ (get_key-contains k r w found, each_in-IsWithin rest r (ground arith))
]

-- Two dicts have the same keys exactly if one's are the other's and they are as many.
same_keys :
    (l r : JsonObject)
    → is_unique (keys l) ≡ true
    → is_unique (keys r) ≡ true
    → ((each_in l r ≡ true) × IsWithin (keys r) (keys l))
      ↔ (eqb (length (keys l)) (length (keys r)) && each_in l r ≡ true)
same_keys l r u v = (
  λ h.
      let there = IsWithin-length (keys l) (keys r) u (each_in-IsWithin l r h.0) in
      let back = IsWithin-length (keys r) (keys l) v h.1 in ground (arith, h.0, there, back),
  λ h.
      let each : each_in l r ≡ true = ground arith in
      (each, IsWithin-back (keys l) (keys r) u (each_in-IsWithin l r each) (ground arith)),
)

all_added-IsQuiet :
    (w : JsonValue) (ys : JsonItems) (path : String) (n : ℕ) → all_added (cons w ys) path n ≢ []
unfolding all_added
all_added-IsQuiet w ys path n h = cc

all_removed_quiet :
    (v : JsonValue) (xs : JsonItems) (path : String) (n : ℕ) → all_removed (cons v xs) path n ≢ []
unfolding all_removed
all_removed_quiet v xs path n h = cc

scalar_quiet :
    (v w : JsonValue) (path : String)
    → ((if scalar_eq v w then [] else difference changed path v w ∷ []) ≡ [])
      ↔ (scalar_eq v w ≡ true)
scalar_quiet v w path = (λ h. ground arith, λ h. ground arith)

and_true : (a b : Bool) → a && b ≡ true → (a ≡ true) × (b ≡ true)
and_true a b h = (ground arith, ground arith)

mutual
  unfolding diff py_eq all_added

  diff-nil :
      (v w : JsonValue) (path : String)
      → IsDistinct v
      → IsDistinct w
      → (diff v w path ≡ []) ↔ (py_eq v w ≡ true)
  diff-nil (object l) (object r) path d e =
      let u = union-IsQuiet l r path in
      let k = diff_keys-nil l r path d.1 e.1 in
      let a = added-IsQuiet (keys l) r path in
      let s = same_keys l r d.0 e.0 in
      (λ h. let q = u.0 h in s.0 (k.0 q.0, a.0 q.1), λ h. let q = s.1 h in u.1 (k.1 q.0, a.1 q.1))
  diff-nil (array xs) (array ys) path d e = diff_items-nil xs ys path 0 d e
  diff-nil v w path d e = scalar_quiet v w path

  diff_keys-nil :
      (l r : JsonObject) (path : String)
      → HasDistinct l
      → HasDistinct r
      → All IsQuiet (diff_keys l r path) ↔ (each_in l r ≡ true)
  diff_keys-nil end r path d e = (λ h. refl, λ h. tt)
  diff_keys-nil (item k v rest) r path d e =
      let more = diff_keys-nil rest r path d.1 e in
      elim (Option-cases (get_key k r)) [
        | inl missing ↦
            (λ h. let q = rw missing at h.0 in absurd (ground arith), λ h. absurd (ground arith))
        | inr (w, found) ↦
            let same = diff-nil v w (child_of path k) d.0 (get_key-HasDistinct k r w found e) in
            (
              λ h.
                  let q = rw found at h.0 in
                  let t = same.0 q in let m = more.0 h.1 in rw found (ground (arith, t, m)),
              λ h. let t = and_true _ _ (rw found at h) in (rw found (same.1 t.0), more.1 t.1),
            )
      ]

  diff_items-nil :
      (xs ys : JsonItems) (path : String) (n : ℕ)
      → AreDistinct xs
      → AreDistinct ys
      → (diff_items xs ys path n ≡ []) ↔ (eq_items xs ys ≡ true)
  diff_items-nil nil nil path n d e = (λ h. refl, λ h. refl)
  diff_items-nil nil (cons w ys) path n d e =
      (λ h. absurd (all_added-IsQuiet w ys path n h), λ h. cc)
  diff_items-nil (cons v xs) nil path n d e =
      (λ h. absurd (all_removed_quiet v xs path n h), λ h. cc)
  diff_items-nil (cons v xs) (cons w ys) path n d e =
      let same = diff-nil v w (element_of path n) d.0 e.0 in
      let more = diff_items-nil xs ys path (suc n) d.1 e.1 in
      (
        λ h.
            let q = append-nil_inv (diff v w (element_of path n)) _ h in
            let t = same.0 q.0 in let m = more.0 q.1 in ground arith,
        λ h. let t = same.1 (ground arith) in let m = more.1 (ground arith) in ground arith,
      )

-- For documents in which no object has a key twice, `diff_states` reports no difference exactly when
-- Python's `==` calls the documents equal, whatever the order of their keys.
pub diff_states-nil_iff :
    (baseline faulted : JsonObject)
    → IsDistinct (object baseline)
    → IsDistinct (object faulted)
    → (diff_states baseline faulted ≡ []) ↔ (py_eq (object baseline) (object faulted) ≡ true)
unfolding diff_states
diff_states-nil_iff baseline faulted d e = diff-nil (object baseline) (object faulted) "" d e

-- ===== src/Engine/Overlap/History.antt =====
-- What happened to the calls of a run of executor.py, and how it grows.
use mathlib.Core.List.{append_assoc}
use rift_reliability_injecti.Prelude.{
  ℕ, suc, String, ◌≡◌, refl, sym, ap, ◌∙◌, some, List, [], ◌∷◌, ◌++◌, length, All, string_eq,
  nat_eq, pair_eq,
}
use rift_reliability_injecti.Prelude.Text.{◌&◌, show}
use rift_reliability_injecti.Core.Invocation.{ToolInvocation}
use rift_reliability_injecti.Engine.State.{Call, EvidenceKey, evidence_key, invocation_id}
use rift_reliability_injecti.Engine.Overlap.{
  Event, started, recorded, starts_in, records_in, IsTraced,
}
use rift_reliability_injecti.Engine.Overlap.Inversion.{IsBuilt}

pub starts_in-started :
    (h : List Event) (c : Call) → starts_in (h ++ started c ∷ []) ≡ suc (starts_in h)
starts_in-started [] c = refl
starts_in-started (started d ∷ h) c = ap suc (starts_in-started h c)
starts_in-started (recorded i ∷ h) c = starts_in-started h c

pub starts_in-recorded :
    (h : List Event) (i : ToolInvocation) → starts_in (h ++ recorded i ∷ []) ≡ starts_in h
starts_in-recorded [] i = refl
starts_in-recorded (started d ∷ h) i = ap suc (starts_in-recorded h i)
starts_in-recorded (recorded j ∷ h) i = starts_in-recorded h i

pub records_in-append : (h g : List Event) → records_in (h ++ g) ≡ records_in h ++ records_in g
records_in-append [] g = refl
records_in-append (started d ∷ h) g = records_in-append h g
records_in-append (recorded j ∷ h) g = ap (◌∷◌ j) (records_in-append h g)

pub records_in-started :
    (h : List Event) (c : Call) → records_in (h ++ started c ∷ []) ≡ records_in h
records_in-started [] c = refl
records_in-started (started d ∷ h) c = records_in-started h c
records_in-started (recorded j ∷ h) c = ap (◌∷◌ j) (records_in-started h c)

-- Evidence that is held: the place of a start in `h`.
pub record IsOpened (h : List Event) (key : EvidenceKey) (place count : ℕ) : Type 0 where
  pub call : Call
  pub earlier : List Event
  pub later : List Event
  pub split : h ≡ earlier ++ started call ∷ later
  pub keyed : evidence_key call ≡ key
  pub sequence : place ≡ suc (starts_in earlier)
  pub before : count ≡ length (records_in earlier)

pub split_longer :
    (h earlier later : List Event) (c : Call) (e : Event)
    → h ≡ earlier ++ started c ∷ later
    → h ++ e ∷ [] ≡ earlier ++ started c ∷ (later ++ e ∷ [])
split_longer h earlier later c e s =
    ap (λ g. g ++ e ∷ []) s ∙ append_assoc earlier (started c ∷ later) (e ∷ [])

pub IsOpened-longer :
    (h : List Event) (e : Event) (key : EvidenceKey) (seq before : ℕ)
    → IsOpened h key seq before
    → IsOpened (h ++ e ∷ []) key seq before
IsOpened-longer h e key seq before o = record {
  call = o.call;
  earlier = o.earlier;
  later = o.later ++ e ∷ [];
  split = split_longer h o.earlier o.later o.call e o.split;
  keyed = o.keyed;
  sequence = o.sequence;
  before = o.before;
}

pub IsTraced-longer :
    (h : List Event) (e : Event) (i : ToolInvocation) → IsTraced h i → IsTraced (h ++ e ∷ []) i
IsTraced-longer h e i t =
    let (l, r, s) = t.own in
    record {
      call = t.call;
      earlier = t.earlier;
      later = t.later ++ e ∷ [];
      split = split_longer h t.earlier t.later t.call e t.split;
      named = t.named;
      sequence = t.sequence;
      before = t.before;
      own = (
        l,
        r ++ records_in (e ∷ []),
        records_in-append t.later (e ∷ [])
            ∙ ap (λ is. is ++ records_in (e ∷ [])) s
            ∙ append_assoc l (i ∷ r) (records_in (e ∷ [])),
      );
    }

pub all_longer :
    (h : List Event) (e : Event) (is : List ToolInvocation)
    → All (IsTraced h) is
    → All (IsTraced (h ++ e ∷ [])) is
all_longer h e [] a = tt
all_longer h e (i ∷ is) a = (IsTraced-longer h e i a.0, all_longer h e is a.1)

pub all_one_more :
    (h : List Event) (is : List ToolInvocation) (i : ToolInvocation)
    → All (IsTraced h) is
    → IsTraced h i
    → All (IsTraced h) (is ++ i ∷ [])
all_one_more h [] i a t = (t, tt)
all_one_more h (j ∷ is) i a t = (a.0, all_one_more h is i a.1 t)

-- The name of a call is made from its key.
abbrev name_of_key : EvidenceKey → String
name_of_key (((experiment, run), tool), n) = run & ":" & tool & ":" & show n

pub same_name : (c d : Call) → evidence_key c ≡ evidence_key d → invocation_id c ≡ invocation_id d
unfolding invocation_id
same_name c d h = ap name_of_key h

-- The record of a call whose evidence was held is traced once it is written.
pub new-IsTraced :
    (h : List Event) (c : Call) (i : ToolInvocation) (seq before : ℕ)
    → IsOpened h (evidence_key c) seq before
    → IsBuilt c seq before i
    → IsTraced (h ++ recorded i ∷ []) i
new-IsTraced h c i seq before o b = record {
  call = o.call;
  earlier = o.earlier;
  later = o.later ++ recorded i ∷ [];
  split = split_longer h o.earlier o.later o.call (recorded i) o.split;
  named = b.0 ∙ sym (same_name o.call c o.keyed);
  sequence = b.1 ∙ ap some o.sequence;
  before = b.2 ∙ ap some o.before;
  own = (records_in o.later, [], records_in-append o.later (recorded i ∷ []));
}

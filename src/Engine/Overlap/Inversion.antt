-- ===== src/Engine/Overlap/Inversion.antt =====
-- What `_record` of executor.py did, from what it returned.
use rift_reliability_injecti.Prelude.{
  ℕ, suc, String, ◌≡◌, refl, sym, ap, ◌∙◌, Option, none, some, arith, Bool-cases, inl, inr,
  string_eq, nat_eq, pair_eq, ◌==◌,
}
use rift_reliability_injecti.Prelude.Dict
use rift_reliability_injecti.Prelude.Result.{Result, ok, err}
use rift_reliability_injecti.Core.Invocation.{ToolInvocation, validate_outcomes}
use rift_reliability_injecti.Core.Invocation.Evidence.{validate_outcomes_sound}
use rift_reliability_injecti.Engine.Exceptions.{Exception}
use rift_reliability_injecti.Engine.State.{
  Clock, Call, Start, Observation, Executor, EvidenceKey, evidence_key, invocation_id,
  build_invocation, commit_record, record_popped, record_invocation,
}
use rift_reliability_injecti.Engine.Record.{after_record}

-- A record as it follows from the evidence `(seq, before)` of its call.
abbrev pub IsBuilt : Call → ℕ → ℕ → ToolInvocation → Type 0
IsBuilt c seq before i =
    (i.invocation_id ≡ invocation_id c)
    × (i.sequence_number ≡ some seq)
    × (i.completed_before_start ≡ some before)

built :
    (c : Call) (b : Start) (o : Observation) (t u seq before : ℕ) (i : ToolInvocation)
    → validate_outcomes (build_invocation c b o t u (seq, before)) ≡ ok i
    → IsBuilt c seq before i
unfolding build_invocation
built c b o t u seq before i h =
    let kept = (validate_outcomes_sound _ h).1 in
    (
      ap (λ j. j.invocation_id) kept,
      ap (λ j. j.sequence_number) kept,
      ap (λ j. j.completed_before_start) kept,
    )

commit_inv :
    (c : Call) (y : Executor) (r : Result String ToolInvocation) (i : ToolInvocation)
    → (commit_record c y r).0 ≡ ok i
    → (r ≡ ok i) × ((commit_record c y r).1 ≡ (commit_record c y (ok i)).1)
unfolding commit_record
commit_inv c y (err e) i h = cc
commit_inv c y (ok j) i h =
    let same : j ≡ i = cc in (ap ok same, ap (λ m. (commit_record c y (ok m)).1) same)

popped_inv :
    (k : Clock) (c : Call) (b : Start) (o : Observation) (t : ℕ) (e : Option (ℕ × ℕ)) (y : Executor)
    (i : ToolInvocation)
    → (record_popped k c b o t e y).0 ≡ ok i
    → (seq before : ℕ) × (e ≡ some (seq, before))
      × IsBuilt c seq before i
      × ((record_popped k c b o t e y).1
          ≡ (commit_record c
              (record y { start_evidence = Dict.remove y.start_evidence (evidence_key c) })
              (ok i)).1)
unfolding record_popped
popped_inv k c b o t none y i h = cc
popped_inv k c b o t (some (seq, before)) y i h =
    let (made, left) = commit_inv c _ _ i h in
    (seq, before, refl, built c b o _ _ seq before i made, left)

-- A record that was returned was appended and counted, and the evidence of its call spent.
pub record_invocation-inv :
    (k : Clock) (c : Call) (b : Start) (o : Observation) (x : Executor) (i : ToolInvocation)
    → (record_invocation k c b o x).0 ≡ ok i
    → (seq before : ℕ) × (Dict.get x.start_evidence (evidence_key c) ≡ some (seq, before))
      × IsBuilt c seq before i
      × ((record_invocation k c b o x).1 ≡ after_record c i x)
unfolding record_invocation commit_record
record_invocation-inv k c b o x i h =
    popped_inv k c b o x.readings (Dict.get x.start_evidence (evidence_key c))
      (record x { readings = suc (suc x.readings) }) i h

-- What is still held after a removal was held before it.
pub held_before :
    (d : Dict.Dict EvidenceKey (ℕ × ℕ)) (key j : EvidenceKey) (v : ℕ × ℕ)
    → Dict.get (Dict.remove d key) j ≡ some v
    → Dict.get d j ≡ some v
held_before d key j v h =
    let r = sym (Dict.get-remove d key j) ∙ h in
    elim (Bool-cases (key == j)) [
      | inl t ↦ absurd (let n = rw t at r in ground arith)
      | inr f ↦ rw f at r
    ]

-- What a refused record leaves: the counts, the records, and no evidence that was not there.
abbrev pub IsRefused : Executor → Executor → Type 0
IsRefused x y =
    (y.started ≡ x.started)
    × (y.completed ≡ x.completed)
    × (y.records ≡ x.records)
    × ((j : EvidenceKey) (v : ℕ × ℕ)
        → Dict.get y.start_evidence j ≡ some v
        → Dict.get x.start_evidence j ≡ some v)

commit_refused :
    (c : Call) (y : Executor) (r : Result String ToolInvocation) (e : Exception)
    → (commit_record c y r).0 ≡ err e
    → (commit_record c y r).1 ≡ y
unfolding commit_record
commit_refused c y (err m) e h = refl
commit_refused c y (ok i) e h = cc

popped-IsRefused :
    (k : Clock) (c : Call) (b : Start) (o : Observation) (t : ℕ) (p : Option (ℕ × ℕ)) (y : Executor)
    (e : Exception)
    → (record_popped k c b o t p y).0 ≡ err e
    → IsRefused y (record_popped k c b o t p y).1
unfolding record_popped
popped-IsRefused k c b o t none y e h = (refl, refl, refl, λ j v g. g)
popped-IsRefused k c b o t (some p) y e h =
    rw (commit_refused c _ _ e h)
      (refl, refl, refl, λ j v g. held_before y.start_evidence (evidence_key c) j v g)

pub record_invocation-IsRefused :
    (k : Clock) (c : Call) (b : Start) (o : Observation) (x : Executor) (e : Exception)
    → (record_invocation k c b o x).0 ≡ err e
    → IsRefused x (record_invocation k c b o x).1
unfolding record_invocation
record_invocation-IsRefused k c b o x e h =
    popped-IsRefused k c b o x.readings (Dict.get x.start_evidence (evidence_key c))
      (record x { readings = suc (suc x.readings) }) e h

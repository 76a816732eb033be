-- ===== src/Agent/Scripted/Honest.antt =====
-- What the claims of scripted.py's agent rest on.
use rift_reliability_injecti.Prelude.{
  ℕ, zero, suc, ◌≡◌, ◌≢◌, refl, Bool, true, false, Option, none, some, List, [], ◌∷◌, ◌++◌, String,
  is_some, arith, Bool-cases, Option-cases, inl, inr,
}
use rift_reliability_injecti.Core.Json.{JsonValue, JsonObject}
use rift_reliability_injecti.Core.Contracts.{ToolCallOutcome, AgentRunOutput, claims_success}
use rift_reliability_injecti.Agent.Script.{ScriptStep, Script}
use rift_reliability_injecti.Agent.Scripted.{
  StepOutcome, Progress, Verdict, finish, again, crash, first_probe, probe_if_needed, judge,
  attempt_once, attempts, resume, run_step, run_steps, failed_after, failed_entry, is_nil, report,
  run,
}

-- A gateway whose failures name their kind, as the contract's validator demands.
abbrev pub NamesFailures : {G : Type 0} → (String → JsonObject → G → ToolCallOutcome × G) → Type 0
NamesFailures {G} call =
    (tool : String) (args : JsonObject) (g : G)
    → (call tool args g).0.succeeded ≡ false
    → is_some (call tool args g).0.error_kind ≡ true

is_nil_sound : (xs : List String) → is_nil xs ≡ true → xs ≡ []
is_nil_sound [] h = refl
is_nil_sound (x ∷ xs) h = cc

append-nil_inv : (xs ys : List String) → xs ++ ys ≡ [] → (xs ≡ []) × (ys ≡ [])
append-nil_inv [] ys h = (refl, h)
append-nil_inv (x ∷ xs) ys h = cc

append-ne-nil : (xs : List String) (x : String) → xs ++ x ∷ [] ≢ []
append-ne-nil xs x h = let q = append-nil_inv xs (x ∷ []) h in cc (q.1)

module _ {G : Type 0} (call : String → JsonObject → G → ToolCallOutcome × G) where
  judge-ne-crash :
      (s : ScriptStep) (o : ToolCallOutcome)
      → (o.succeeded ≡ false → is_some o.error_kind ≡ true)
      → judge s o ≢ crash
  unfolding judge
  judge-ne-crash s o h = ground arith

  attempt_once-ne-crash :
      (index : ℕ) (s : ScriptStep) (attempt : ℕ) (before : JsonValue) (p : Progress G)
      → NamesFailures call
      → (attempt_once call index s attempt before p).0 ≢ crash
  unfolding attempt_once
  attempt_once-ne-crash index s attempt before p n =
      let g = (probe_if_needed call index s attempt before p).1.gateway in
      let o = (call s.tool_name s.arguments g).0 in
      let sound : judge s o ≢ crash = judge-ne-crash s o (n s.tool_name s.arguments g) in
      λ e. elim (Bool-cases (probe_if_needed call index s attempt before p).0) [
        | inl t ↦ let q = rw t at e in cc q
        | inr f ↦ let q = rw f at e in sound q
      ]

  resume-returns :
      (v : Verdict) (next : String → Option StepOutcome × Progress G) (p : Progress G)
      → v ≢ crash
      → ((r : String) → is_some (next r).0 ≡ true)
      → is_some (resume call v next p).0 ≡ true
  resume-returns (finish o) next p n k = refl
  resume-returns (again r) next p n k = k r
  resume-returns crash next p n k = absurd (n refl)

  attempts-returns :
      (left index : ℕ) (s : ScriptStep) (attempt : ℕ) (reason : String) (before : JsonValue)
      (p : Progress G)
      → NamesFailures call
      → is_some (attempts call left index s attempt reason before p).0 ≡ true
  unfolding attempts
  attempts-returns zero index s attempt reason before p n = refl
  attempts-returns (suc left) index s attempt reason before p n =
      let p' = (attempt_once call index s attempt before p).1 in
      resume-returns (attempt_once call index s attempt before p).0 _ p'
        (attempt_once-ne-crash index s attempt before p n)
        (λ r. attempts-returns left index s (suc attempt) r before p' n)

  run_step-returns :
      (index : ℕ) (s : ScriptStep) (p : Progress G)
      → NamesFailures call
      → is_some (run_step call index s p).0 ≡ true
  unfolding run_step
  run_step-returns index s p n =
      attempts-returns s.retry.max_attempts index s 1 "not attempted"
        (first_probe call index s.reconcile p).0 (first_probe call index s.reconcile p).1 n

  run_steps-returns :
      (aborts : Bool) (index : ℕ) (steps : List ScriptStep) (failed : List String) (p : Progress G)
      → NamesFailures call
      → is_some (run_steps call aborts index steps failed p).0 ≡ true
  unfolding run_steps
  run_steps-returns aborts index [] failed p n = refl
  run_steps-returns aborts index (s ∷ rest) failed p n =
      let r = run_step call index s p in
      ground (
        arith,
        run_step-returns index s p n,
        run_steps-returns aborts (suc index) rest (failed ++ failed_after index s r.0) r.1 n,
      )

  -- With a gateway whose failures name their kind the agent never fails its assertion: every run
  -- ends with an output.
  pub run-returns : (s : Script) (g : G) → NamesFailures call → is_some (run call s g).0 ≡ true
  unfolding run
  run-returns s g n = ground (
    arith,
    run_steps-returns s.aborts 1 s.steps [] (record { gateway = g; calls = 0; transcript = [] }) n,
  )

  -- Every step from the `index`-th on succeeded, each run from where the one before it stopped.
  abbrev pub Succeed : ℕ → List ScriptStep → Progress G → Type 0
  Succeed index [] p = Unit
  Succeed index (s ∷ rest) p =
      ((o : StepOutcome) × ((run_step call index s p).0 ≡ some o) × (o.succeeded ≡ true))
      × Succeed (suc index) rest (run_step call index s p).1

  no_failures :
      (aborts : Bool) (index : ℕ) (steps : List ScriptStep) (failed : List String) (p : Progress G)
      → (run_steps call aborts index steps failed p).0 ≡ some []
      → (failed ≡ []) × Succeed index steps p
  unfolding run_steps
  no_failures aborts index [] failed p h = (ground arith, tt)
  no_failures aborts index (s ∷ rest) failed p h =
      let r = run_step call index s p in
      let more = no_failures aborts (suc index) rest (failed ++ failed_after index s r.0) r.1 in
      elim (Option-cases r.0) [
        | inl crashed ↦ let q = rw crashed at h in cc q
        | inr (o, e) ↦ elim (Bool-cases o.succeeded) [
          | inl t ↦
              let ih = more (ground arith) in ((append-nil_inv failed _ ih.0).0, ((o, e, t), ih.1))
          | inr f ↦
              let ih : failed ++ failed_entry index s o ∷ [] ≡ [] = ground (arith, more) in
              absurd (append-ne-nil failed (failed_entry index s o) ih)
        ]
      ]

  none-failed :
      (s : Script) (r : Option (List String)) (calls : ℕ) (transcript : List JsonValue)
      (out : AgentRunOutput)
      → s.honest_reporting ≡ true
      → elim r [ none ↦ none | some failed ↦ some (report s failed calls transcript) ] ≡ some out
      → claims_success out.status ≡ true
      → r ≡ some []
  unfolding report
  none-failed s none calls transcript out honest e claimed = cc
  none-failed s (some []) calls transcript out honest e claimed = refl
  none-failed s (some (x ∷ xs)) calls transcript out honest e claimed = ground arith

  -- If the run of an agent with honest reporting ends with an output that claims success, every
  -- step of its script succeeded, each run from where the one before it stopped.
  pub run-honest :
      (s : Script) (g : G) (out : AgentRunOutput)
      → s.honest_reporting ≡ true
      → (run call s g).0 ≡ some out
      → claims_success out.status ≡ true
      → Succeed 1 s.steps (record { gateway = g; calls = 0; transcript = [] })
  unfolding run
  run-honest s g out honest e claimed =
      let p : Progress G = record { gateway = g; calls = 0; transcript = [] } in
      let r = run_steps call s.aborts 1 s.steps [] p in
      let ended = none-failed s r.0 r.1.calls r.1.transcript out honest e claimed in
      (no_failures s.aborts 1 s.steps [] p ended).1

-- ===== src/Engine/Action.antt =====
-- Actions of an executor over a scenario's world: what they return or raise, and the state that
-- they leave, which stays as written when they raise.
use rift_reliability_injecti.Prelude.{ℕ, suc, [], ◌∷◌, ◌++◌}
use rift_reliability_injecti.Prelude.Result.{Result, ok, err}
use rift_reliability_injecti.Core.Json.{JsonValue}
use rift_reliability_injecti.Core.Invocation.{ToolInvocation}
use rift_reliability_injecti.Engine.Exceptions.{Exception}
use rift_reliability_injecti.Engine.State.{
  Clock, Call, Start, Observation, Executor, record_invocation,
}

pub record Running (W : Type 0) : Type 0 where
  pub executor : Executor
  pub world : W

abbrev pub Action : Type 0 → Type 0 → Type 0
Action W A = Running W → Result Exception A × Running W

-- `ToolOperation`: one run of a scenario's tool on its world.
abbrev pub Operation : Type 0 → Type 0
Operation W = W → Result Exception JsonValue × W

module _ {W A B : Type 0} where
  abbrev pub continue : Result Exception A → (A → Action W B) → Action W B
  continue (ok a) f s = f a s
  continue (err e) f s = (err e, s)

  infixl 5 ◌>>=◌ ◌>>◌
  abbrev pub ◌>>=◌ : Action W A → (A → Action W B) → Action W B
  ◌>>=◌ m f s = let (r, s') = m s in continue r f s'

  abbrev pub ◌>>◌ : Action W A → Action W B → Action W B
  m >> n = m >>= λ _. n

module _ {W A : Type 0} where
  abbrev pub pure : A → Action W A
  pure a s = (ok a, s)

  abbrev pub raise : Exception → Action W A
  raise e s = (err e, s)

  abbrev pub lift : Result Exception A → Action W A
  lift r s = (r, s)

module _ {W : Type 0} where
  -- `await operation()` under `try`: how it ended, as a value.
  abbrev pub attempt : Operation W → Action W (Result Exception JsonValue)
  attempt op s = let (r, w) = op s.world in (ok r, record s { world = w })

  -- `started_at = now()` and `started_monotonic = monotonic()`
  abbrev pub read_clock : Clock → Action W Start
  read_clock k s =
      let t = s.executor.readings in
      (
        ok (record { started_at = k.now t; started_monotonic = k.monotonic (suc t) }),
        record s { executor = record s.executor { readings = suc (suc t) } },
      )

  -- `await sleeper.sleep(delay_ms / 1000)`
  abbrev pub sleep : ℕ → Action W Unit
  sleep d s =
      (ok tt, record s { executor = record s.executor { sleeps = s.executor.sleeps ++ d ∷ [] } })

  -- `self._record(...)`
  unfoldable pub record_call : Clock → Call → Start → Observation → Action W ToolInvocation
  record_call k c b o s =
      let (r, x) = record_invocation k c b o s.executor in (r, record s { executor = x })

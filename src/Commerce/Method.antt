-- ===== src/Commerce/Method.antt =====
-- The methods of examples/commerce_demo/src/commerce_demo/sandbox.py, as functions on the store.
use rift_reliability_injecti.Prelude.{Bool, true, false, Option, none, some}
use rift_reliability_injecti.Prelude.Result.{Result, ok, err}
use rift_reliability_injecti.Commerce.Models.{CommerceError}
use rift_reliability_injecti.Commerce.Repository.{Repository}

-- A method of the sandbox: it may raise, and keeps what it wrote before that.
abbrev pub Method : Type 0 → Type 0
Method A = Repository → Result CommerceError A × Repository

module _ {A B : Type 0} where
  abbrev pub continue : Result CommerceError A → (A → Method B) → Method B
  continue (ok a) f r = f a r
  continue (err e) f r = (err e, r)

  infixl 5 ◌>>=◌ ◌>>◌
  abbrev pub ◌>>=◌ : Method A → (A → Method B) → Method B
  ◌>>=◌ m f r = let (a, r') = m r in continue a f r'

  abbrev pub ◌>>◌ : Method A → Method B → Method B
  m >> n = m >>= λ _. n

module _ {A : Type 0} where
  abbrev pub pure : A → Method A
  pure a r = (ok a, r)

  abbrev pub raise : CommerceError → Method A
  raise e r = (err e, r)

  abbrev pub gets : (Repository → A) → Method A
  gets f r = (ok (f r), r)

  abbrev pub or_raise : Option A → CommerceError → Method A
  or_raise none e = raise e
  or_raise (some a) e = pure a

abbrev pub modify : (Repository → Repository) → Method Unit
modify f r = (ok tt, f r)

abbrev pub raise_if : Bool → CommerceError → Method Unit
raise_if true e = raise e
raise_if false e = pure tt

-- ===== src/Prelude/Exec.antt =====
-- A request handler over the database: reads and writes go to the transaction's view, `commit` makes
-- the view durable, and a raised `ApiError` leaves what was committed before it.
pub mod After
use mathlib.Core.Bool.{Bool, true, false}
use mathlib.Core.Option.{Option, none, some}
use adhikar_ai.Prelude.Result.{ApiError, Result, ok, err}

-- The state of an SQLAlchemy session: what its queries see, and what is committed.
pub record Session (S : Type 0) : Type 0 where
  pub view : S
  pub durable : S

abbrev pub Exec : Type 0 → Type 0 → Type 0
Exec S A = Session S → Result A × Session S

-- The session that a request begins with.
abbrev pub begin : {S : Type 0} → S → Session S
begin db = record { view = db; durable = db }

module _ {S A : Type 0} where
  abbrev pub pure : A → Exec S A
  pure a s = (ok a, s)

  abbrev pub raise : ApiError → Exec S A
  raise e s = (err e, s)

  -- A query.
  abbrev pub gets : (S → A) → Exec S A
  gets f s = (ok (f s.view), s)

  -- A pure function that may raise.
  abbrev pub lift : Result A → Exec S A
  lift r s = (r, s)

  abbrev pub or_raise : Option A → ApiError → Exec S A
  or_raise none e = raise e
  or_raise (some a) _ = pure a

module _ {S : Type 0} where
  -- `db.add`, an assignment to a row's attribute, an UPDATE or a DELETE.
  abbrev pub modify : (S → S) → Exec S (Unit {0})
  modify f s = (ok tt, record s { view = f s.view })

  abbrev pub commit : Exec S (Unit {0})
  commit s = (ok tt, record s { durable = s.view })

  abbrev pub raise_if : Bool → ApiError → Exec S (Unit {0})
  raise_if true e = raise e
  raise_if false e = pure tt

infixl 5 ◌>>=◌ ◌>>◌
abbrev pub ◌>>=◌ : {S A B : Type 0} → Exec S A → (A → Exec S B) → Exec S B
◌>>=◌ m f s = let (r, s') = m s in elim r [ ok a ↦ f a s' | err e ↦ (err e, s') ]

abbrev pub ◌>>◌ : {S A B : Type 0} → Exec S A → Exec S B → Exec S B
m >> k = m >>= λ _. k

-- The reply and the committed database of a request.
abbrev pub run : {S A : Type 0} → Exec S A → S → Result A × S
run m db = let (r, s) = m (begin db) in (r, s.durable)

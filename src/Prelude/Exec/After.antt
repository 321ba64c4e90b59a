-- ===== src/Prelude/Exec/After.antt =====
-- What holds after a handler, whether it returns or raises, with a rule for each way to build one.
use mathlib.Core.Path.{◌≡◌, refl, ap}
use mathlib.Core.Bool.{Bool, true, false}
use mathlib.Core.Option.{Option, none, some}
use adhikar_ai.Prelude.Result.{ApiError, Result, ok, err}
use adhikar_ai.Prelude.Exec.{lift, raise_if, ◌>>◌, Session, Exec, or_raise, ◌>>=◌}

module _ {S A : Type 0} (Q : A → Session S → Type 0) (E : Session S → Type 0) where
  -- `Q` after a return, and `E` after an exception.
  abbrev pub After : Result A × Session S → Type 0
  After (ok a, s) = Q a s
  After (err e, s) = E s

  pub After-or_raise :
      (o : Option A) (e : ApiError) (s : Session S)
      → ((a : A) → o ≡ some a → Q a s)
      → E s
      → After (or_raise o e s)
  After-or_raise none e s q h = h
  After-or_raise (some a) e s q h = q a refl

module _ {S A B : Type 0} (Q : B → Session S → Type 0) (E : Session S → Type 0) where
  After-continue :
      (r : Result A × Session S) (f : A → Exec S B)
      → After (λ a s. After Q E (f a s)) E r
      → After Q E (elim r.0 [ ok a ↦ f a r.1 | err e ↦ (err e, r.1) ])
  After-continue (ok a, s) f h = h
  After-continue (err e, s) f h = h

  -- The rest of a block is judged where the first part returns.
  pub After-bind :
      (m : Exec S A) (f : A → Exec S B) (s : Session S)
      → After (λ a t. After Q E (f a t)) E (m s)
      → After Q E ((m >>= f) s)
  After-bind m f s h = After-continue (m s) f h

module _ {S A : Type 0} {Q R : A → Session S → Type 0} {E F : Session S → Type 0} where
  -- A weaker conclusion.
  pub After-weaken :
      (r : Result A × Session S)
      → ((a : A) (s : Session S) → Q a s → R a s)
      → ((s : Session S) → E s → F s)
      → After Q E r
      → After R F r
  After-weaken (ok a, s) q e h = q a s h
  After-weaken (err x, s) q e h = e s h

module _ {S A : Type 0} (Q : A → Session S → Type 0) (E : Session S → Type 0) where
  -- The value that is returned is that of the handler.
  pub After-known :
      (r : Result A × Session S) → After Q E r → After (λ a s. Q a s × (r.0 ≡ ok a)) E r
  After-known (ok a, s) h = (h, refl)
  After-known (err x, s) h = h

module _ {S B : Type 0} (Q : B → Session S → Type 0) (E : Session S → Type 0) where
  -- After a check that may raise.
  pub After-lift :
      (r : Result (Unit {0})) (k : Exec S B) (s : Session S)
      → (r ≡ ok tt → After Q E (k s))
      → E s
      → After Q E ((lift r >> k) s)
  After-lift (ok tt) k s q h = q refl
  After-lift (err e) k s q h = h

  pub After-raise_if :
      (b : Bool) (e : ApiError) (k : Exec S B) (s : Session S)
      → (b ≡ false → After Q E (k s))
      → E s
      → After Q E ((raise_if b e >> k) s)
  After-raise_if true e k s q h = h
  After-raise_if false e k s q h = q refl

-- A block whose first part is known to return.
pub bind-known :
    {S A B : Type 0} (m : Exec S A) (f : A → Exec S B) (s t : Session S) (a : A)
    → m s ≡ (ok a, t)
    → (m >>= f) s ≡ f a t
bind-known m f s t a h = ap (λ r. elim r.0 [ ok b ↦ f b r.1 | err e ↦ (err e, r.1) ]) h

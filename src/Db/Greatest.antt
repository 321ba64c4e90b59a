-- ===== src/Db/Greatest.antt =====
-- The first row of a query that is ordered by a key, `ORDER BY key DESC LIMIT 1`.
use adhikar_ai.Prelude.{
  ℕ, ◌≤◌, ◌≡◌, refl, inl, inr, none, some, List, [], ◌∷◌, Member, here, next, All, All-of_Member,
  All-Member, Option-cases, Bool-cases, ltb, arith,
}
use adhikar_ai.Db.Tables.{greatest}

module _ {A : Type 0} (key : A → ℕ) where
  pub greatest-bounds :
      (row : A) (rows : List A)
      → greatest key rows ≡ some row
      → All (λ other. key other ≤ key row) rows
  greatest-bounds row [] h = tt
  greatest-bounds row (x ∷ rows) h = elim (Option-cases (greatest key rows)) [
    | inl e ↦ (ground arith, rw (empty_of_none rows e) tt)
    | inr (best, e) ↦ (
      ground arith,
      All-of_Member _ rows λ other m.
          let bound : key other ≤ key best = All-Member _ rows (greatest-bounds best rows e) m in
          ground arith,
    )
  ]
    where
      empty_of_none : (ys : List A) → greatest key ys ≡ none → ys ≡ []
      empty_of_none [] e = refl
      empty_of_none (y ∷ ys) e = absurd (ground arith)

  pub greatest-Member : (row : A) (rows : List A) → greatest key rows ≡ some row → Member row rows
  greatest-Member row [] h = absurd (ground (arith, h))
  greatest-Member row (x ∷ rows) h = elim (Option-cases (greatest key rows)) [
    | inl e ↦ here (ground (arith, h, e))
    | inr (best, e) ↦ elim (Bool-cases (ltb (key x) (key best))) [
      | inl l ↦
          let same : greatest key rows ≡ some row = ground (arith, h, e, l) in
          next (greatest-Member row rows same)
      | inr l ↦ here (ground (arith, h, e, l))
    ]
  ]

-- ===== src/Accounts/Saved/Again.antt =====
-- Saving a scheme twice, by `save_scheme` of services/phase4.py.
use adhikar_ai.Prelude.{
  ℕ, String, true, ◌+◌, ◌≡◌, ◌++◌, refl, inl, inr, none, List, [], ◌∷◌, nat_eq, string_eq, eq_iff,
  find, is_some, Option-cases, arith,
}
use adhikar_ai.Prelude.Result.{ok}
use adhikar_ai.Prelude.Exec.{run}
use adhikar_ai.Db.Tables.{update_rows}
use adhikar_ai.Accounts.{User}
use adhikar_ai.Accounts.Saved.{
  SavedScheme, SavedTables, is_saved, keep_reminder, new_saved, week, save_scheme,
}

module _ (user : User) (profile_id : ℕ) (scheme_id : String) where
  abbrev rows_after : ℕ → List SavedScheme → List SavedScheme
  rows_after reminder rows =
      update_rows (is_saved user profile_id scheme_id) (keep_reminder reminder) rows

  rows_after-rows_after :
      (later first : ℕ) (rows : List SavedScheme)
      → rows_after later (rows_after first rows) ≡ rows_after first rows
  rows_after-rows_after later first [] = refl
  rows_after-rows_after later first (row ∷ rows) =
      ground (arith, rows_after-rows_after later first rows)

  find-rows_after :
      (first : ℕ) (rows : List SavedScheme)
      → is_some (find (is_saved user profile_id scheme_id) rows) ≡ true
      → is_some (find (is_saved user profile_id scheme_id) (rows_after first rows)) ≡ true
  find-rows_after first [] h = h
  find-rows_after first (row ∷ rows) h = ground (arith, find-rows_after first rows)

  rows_after-new_saved :
      (later first : ℕ) (rows : List SavedScheme)
      → find (is_saved user profile_id scheme_id) rows ≡ none
      → rows_after later (rows ++ new_saved user profile_id scheme_id first ∷ [])
        ≡ rows ++ new_saved user profile_id scheme_id first ∷ []
  rows_after-new_saved later first [] h = ground arith
  rows_after-new_saved later first (row ∷ rows) h =
      ground (arith, rows_after-new_saved later first rows)

  find-new_saved :
      (first : ℕ) (rows : List SavedScheme)
      → is_some (
          find
            (is_saved user profile_id scheme_id)
            (rows ++ new_saved user profile_id scheme_id first ∷ []))
        ≡ true
  find-new_saved first [] = ground (
    arith,
    nat_eq.test_iff user.organisation_id user.organisation_id,
    nat_eq.test_iff user.id user.id,
    nat_eq.test_iff profile_id profile_id,
    eq_iff scheme_id scheme_id,
  )
  find-new_saved first (row ∷ rows) = ground (arith, find-new_saved first rows)

  -- Saving a saved scheme again succeeds and changes nothing: no second row, no second reminder. The
  -- reply nevertheless names a reminder a week from now.
  pub save_scheme_again :
      (now later reminder : ℕ) (t after : SavedTables)
      → run (save_scheme now user profile_id scheme_id) t ≡ (ok reminder, after)
      → run (save_scheme later user profile_id scheme_id) after ≡ (ok (later + week), after)
  unfolding save_scheme
  save_scheme_again now later reminder t after h =
      elim (Option-cases (find (is_saved user profile_id scheme_id) t.saved_schemes)) [
        | inl e ↦ ground (
          arith,
          find-new_saved (now + week) t.saved_schemes,
          rows_after-new_saved (later + week) (now + week) t.saved_schemes e,
        )
        | inr (row, e) ↦ ground (
          arith,
          find-rows_after (now + week) t.saved_schemes,
          rows_after-rows_after (later + week) (now + week) t.saved_schemes,
        )
      ]

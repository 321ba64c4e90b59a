-- ===== src/Accounts/Saved/Status.antt =====
-- The status of an application, by `update_application_status` of services/phase4.py.
use adhikar_ai.Prelude.{
  ℕ, String, ◌≡◌, ◌++◌, refl, inl, inr, Option, none, some, List, [], ◌∷◌, ◌==◌, nat_eq, string_eq,
  eq_iff, find, Option-cases, arith,
}
use adhikar_ai.Prelude.Result.{ok}
use adhikar_ai.Prelude.Exec.{run}
use adhikar_ai.Db.Tables.{update_rows}
use adhikar_ai.Accounts.{User}
use adhikar_ai.Accounts.Saved.{
  SavedTables, ApplicationStatus, UpdateApplicationStatusRequest, is_application, new_application,
  status_event, update_application_status,
}

abbrev pub status_of : Option ApplicationStatus → Option String
status_of none = none
status_of (some row) = some row.status

module _ (user : User) (request : UpdateApplicationStatusRequest) where
  abbrev with_status : ApplicationStatus → ApplicationStatus
  with_status a = record a { status = request.status; notes = request.notes }

  find-update_rows :
      (row : ApplicationStatus) (rows : List ApplicationStatus)
      → find (is_application user request) rows ≡ some row
      → find
          (is_application user request)
          (update_rows (λ (a : ApplicationStatus). a.id == row.id) with_status rows)
        ≡ some (with_status row)
  find-update_rows row [] h = absurd (ground arith)
  find-update_rows row (x ∷ rows) h =
      ground (arith, find-update_rows row rows, nat_eq.test_iff x.id row.id)

  find-new_application :
      (fresh : ℕ) (rows : List ApplicationStatus)
      → find (is_application user request) rows ≡ none
      → find (is_application user request) (rows ++ new_application fresh user request ∷ [])
        ≡ some (new_application fresh user request)
  find-new_application fresh [] h = ground (
    arith,
    nat_eq.test_iff user.organisation_id user.organisation_id,
    nat_eq.test_iff user.id user.id,
    nat_eq.test_iff request.profile_id request.profile_id,
    eq_iff request.scheme_id request.scheme_id,
  )
  find-new_application fresh (row ∷ rows) h = ground (arith, find-new_application fresh rows)

  -- After an update the citizen's application for the scheme has the status and the notes of the
  -- request, and one event is recorded, which names the application and the status that it had.
  pub update_application_status_recorded :
      (now fresh : ℕ) (t after : SavedTables) (reminder : Option ℕ)
      → run (update_application_status now fresh user request) t ≡ (ok reminder, after)
      → (row : ApplicationStatus) × (find (is_application user request) after.application_statuses
          ≡ some row)
        × (row.status ≡ request.status)
        × (row.notes ≡ request.notes)
        × (after.application_status_events
            ≡ t.application_status_events
              ++ status_event user request row.id
                  (status_of (find (is_application user request) t.application_statuses))
                ∷ [])
  unfolding update_application_status
  update_application_status_recorded now fresh t after reminder h =
      elim (Option-cases (find (is_application user request) t.application_statuses)) [
        | inl e ↦ (
          new_application fresh user request,
          ground (arith, find-new_application fresh t.application_statuses e),
          refl,
          refl,
          ground arith,
        )
        | inr (row, e) ↦ (
          with_status row,
          ground (arith, find-update_rows row t.application_statuses e),
          refl,
          refl,
          ground arith,
        )
      ]

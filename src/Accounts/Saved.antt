-- ===== src/Accounts/Saved.antt =====
-- services/phase4.py: the schemes that a citizen saves, and the status of the citizen's applications.
pub mod Again
pub mod Status
use adhikar_ai.Prelude.{
  ℕ, String, Bool, true, false, not, ◌+◌, ◌*◌, ◌&&◌, Option, none, some, List, [], ◌∷◌, ◌++◌, ◌==◌,
  nat_eq, string_eq, find, filter, if◌then◌else◌,
}
use adhikar_ai.Prelude.Result.{ApiError, api_error}
use adhikar_ai.Prelude.Exec.{Exec, pure, gets, modify, commit, raise_if, ◌>>=◌, ◌>>◌}
use adhikar_ai.Db.Tables.{update_rows}
use adhikar_ai.Accounts.{User, Profile}

pub record SavedScheme : Type 0 where
  pub organisation_id : ℕ
  pub user_id : ℕ
  pub profile_id : ℕ
  pub scheme_id : String
  pub reminder_scheduled_at : Option ℕ

-- The body is for display; the payload is the id of the scheme.
pub record NotificationJob : Type 0 where
  pub organisation_id : ℕ
  pub user_id : ℕ
  pub notification_type : String
  pub title : String
  pub scheme_id : String
  pub scheduled_for : ℕ

pub record ApplicationStatus : Type 0 where
  pub id : ℕ
  pub organisation_id : ℕ
  pub user_id : ℕ
  pub profile_id : ℕ
  pub scheme_id : String
  pub status : String
  pub notes : Option String
  pub source : String

pub record ApplicationStatusEvent : Type 0 where
  pub organisation_id : ℕ
  pub application_status_id : ℕ
  pub old_status : Option String
  pub new_status : String
  pub source : String
  pub notes : Option String

-- Of the schemes, the id and the organisation.
pub record SavedTables : Type 0 where
  pub profiles : List Profile
  pub schemes : List (String × ℕ)
  pub saved_schemes : List SavedScheme
  pub notification_jobs : List NotificationJob
  pub application_statuses : List ApplicationStatus
  pub application_status_events : List ApplicationStatusEvent

abbrev pub SavedDb : Type 0 → Type 0
SavedDb A = Exec SavedTables A

abbrev pub profile_is_foreign : User → Option Profile → Bool
profile_is_foreign user none = true
profile_is_foreign user (some profile) = not (profile.organisation_id == user.organisation_id)

-- `_require_profile`
abbrev pub require_profile : User → ℕ → SavedDb (Unit {0})
require_profile user profile_id = do
  profile ← gets λ (t : SavedTables). find (λ (p : Profile). p.id == profile_id) t.profiles
  raise_if (profile_is_foreign user profile) (api_error 404 "PROFILE_NOT_FOUND" "profile_id")

abbrev pub scheme_is_foreign : User → Option (String × ℕ) → Bool
scheme_is_foreign user none = true
scheme_is_foreign user (some (_, org)) = not (org == user.organisation_id)

-- The condition of the query for a saved scheme.
abbrev pub is_saved : User → ℕ → String → SavedScheme → Bool
is_saved user profile_id scheme_id row =
    (row.organisation_id == user.organisation_id && row.user_id == user.id)
    && (row.profile_id == profile_id && row.scheme_id == scheme_id)

-- `existing.reminder_scheduled_at or reminder`
abbrev pub keep_reminder : ℕ → SavedScheme → SavedScheme
keep_reminder reminder row = record row {
  reminder_scheduled_at = elim row.reminder_scheduled_at [
    | none ↦ some reminder
    | some at ↦ some at
  ];
}

abbrev pub new_saved : User → ℕ → String → ℕ → SavedScheme
new_saved user profile_id scheme_id reminder = record {
  organisation_id = user.organisation_id;
  user_id = user.id;
  profile_id = profile_id;
  scheme_id = scheme_id;
  reminder_scheduled_at = some reminder;
}

abbrev pub job : User → String → String → String → ℕ → NotificationJob
job user notification_type title scheme_id scheduled_for = record {
  organisation_id = user.organisation_id;
  user_id = user.id;
  notification_type = notification_type;
  title = title;
  scheme_id = scheme_id;
  scheduled_for = scheduled_for;
}

abbrev pub week : ℕ
week = 604800

-- The reminder of the reply.
unfoldable pub save_scheme : ℕ → User → ℕ → String → SavedDb ℕ
save_scheme now user profile_id scheme_id = do
  require_profile user profile_id
  scheme ← gets λ (t : SavedTables). find (λ (s : String × ℕ). s.0 == scheme_id) t.schemes
  raise_if (scheme_is_foreign user scheme) (api_error 404 "SCHEME_NOT_FOUND" "scheme_id")
  let reminder = now + week
  existing ← gets λ (t : SavedTables). find (is_saved user profile_id scheme_id) t.saved_schemes
  modify λ (t : SavedTables). elim existing [
    | some _ ↦ record t {
      saved_schemes =
          update_rows (is_saved user profile_id scheme_id) (keep_reminder reminder) t.saved_schemes;
    }
    | none ↦ record t {
      saved_schemes = t.saved_schemes ++ new_saved user profile_id scheme_id reminder ∷ [];
      notification_jobs =
          t.notification_jobs
          ++ job user "saved_scheme_reminder" "Scheme reminder" scheme_id reminder ∷ [];
    }
  ]
  commit
  pure reminder

unfoldable pub delete_saved_scheme : User → String → SavedDb Bool
delete_saved_scheme user scheme_id = do
  modify λ (t : SavedTables). record t {
    saved_schemes =
        filter
          (λ (row : SavedScheme). not (
            (row.organisation_id == user.organisation_id && row.user_id == user.id)
            && row.scheme_id == scheme_id))
          t.saved_schemes;
  }
  commit
  pure true

pub record UpdateApplicationStatusRequest : Type 0 where
  pub profile_id : ℕ
  pub scheme_id : String
  pub status : String
  pub notes : Option String

abbrev pub is_application : User → UpdateApplicationStatusRequest → ApplicationStatus → Bool
is_application user request row =
    (row.organisation_id == user.organisation_id && row.user_id == user.id)
    && (row.profile_id == request.profile_id && row.scheme_id == request.scheme_id)

abbrev pub new_application : ℕ → User → UpdateApplicationStatusRequest → ApplicationStatus
new_application id user request = record {
  id = id;
  organisation_id = user.organisation_id;
  user_id = user.id;
  profile_id = request.profile_id;
  scheme_id = request.scheme_id;
  status = request.status;
  notes = request.notes;
  source = "user";
}

abbrev pub status_event :
    User → UpdateApplicationStatusRequest → ℕ → Option String → ApplicationStatusEvent
status_event user request id old = record {
  organisation_id = user.organisation_id;
  application_status_id = id;
  old_status = old;
  new_status = request.status;
  source = "user";
  notes = request.notes;
}

-- `fresh` is the id of a new row; the reply is the reminder's time.
unfoldable pub update_application_status :
    ℕ → ℕ → User → UpdateApplicationStatusRequest → SavedDb (Option ℕ)
update_application_status now fresh user request = do
  require_profile user request.profile_id
  row ← gets λ (t : SavedTables). find (is_application user request) t.application_statuses
  modify λ (t : SavedTables). elim row [
    | some r ↦ record t {
      application_statuses =
          update_rows (λ (a : ApplicationStatus). a.id == r.id)
            (λ (a : ApplicationStatus). record a { status = request.status; notes = request.notes })
            t.application_statuses;
      application_status_events =
          t.application_status_events ++ status_event user request r.id (some r.status) ∷ [];
    }
    | none ↦ record t {
      application_statuses = t.application_statuses ++ new_application fresh user request ∷ [];
      application_status_events =
          t.application_status_events ++ status_event user request fresh none ∷ [];
    }
  ]
  let submitted = request.status == "submitted"
  let reminder = now + 2 * week
  modify λ (t : SavedTables).
      if submitted
      then record t {
        notification_jobs =
            t.notification_jobs
            ++ job user "application_status_reminder" "Application update" request.scheme_id
                reminder
              ∷ [];
      }
      else t
  commit
  pure (if submitted then some reminder else none)

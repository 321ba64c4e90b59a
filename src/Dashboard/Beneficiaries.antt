-- ===== src/Dashboard/Beneficiaries.antt =====
-- dashboard/beneficiaries.py: the tables of an NGO's beneficiaries (db/models/phase5.py), who sees them, and
-- the audit log of dashboard/audit.py. The columns created_at and updated_at, which the database sets, are
-- parameters, by the id of the row.
pub mod Queries
pub mod Detail
pub mod Writes
pub mod Casework
pub mod Requests
pub mod Tests
use adhikar_ai.Prelude.{
  ℕ, String, Bool, true, not, ◌&&◌, ◌||◌, Option, none, some, List, [], ◌∷◌, ◌++◌, ◌==◌, nat_eq,
  string_eq, option_eq, find, is_some, if◌then◌else◌,
}
use adhikar_ai.Prelude.Result.{api_error}
use adhikar_ai.Prelude.Exec.{Exec, pure, gets, lift, or_raise, modify, raise_if, ◌>>=◌, ◌>>◌}
use adhikar_ai.Value.{Value}
use adhikar_ai.Db.Rows.{Scheme}
use adhikar_ai.Db.Tables.{update_rows}
use adhikar_ai.Accounts.Saved.{ApplicationStatus, ApplicationStatusEvent}
use adhikar_ai.Accounts.Checklist.{DocumentChecklistItem}
use adhikar_ai.Sessions.{ProfileRow}
use adhikar_ai.Dashboard.Rbac.{
  DashboardActor, is_super_admin, is_operator, assert_beneficiary_access,
}

pub record Beneficiary : Type 0 where
  pub id : ℕ
  pub organisation_id : ℕ
  pub profile_id : ℕ
  pub assigned_operator_id : Option ℕ
  pub name : String
  pub phone_e164 : Option String
  pub state_code : String
  pub language_code : String
  pub village : Option String
  pub district : Option String
  pub source : String
  pub deleted_at : Option ℕ

pub record BeneficiaryNote : Type 0 where
  pub id : ℕ
  pub organisation_id : ℕ
  pub beneficiary_id : ℕ
  pub author_member_id : ℕ
  pub note : String

pub record BeneficiaryFollowup : Type 0 where
  pub id : ℕ
  pub organisation_id : ℕ
  pub beneficiary_id : ℕ
  pub assigned_operator_id : Option ℕ
  pub due_date : ℕ
  pub reason : Option String
  pub status : String
  pub completed_at : Option ℕ

pub record BeneficiarySchemeAssignment : Type 0 where
  pub id : ℕ
  pub beneficiary_id : ℕ
  pub scheme_id : String
  pub assignment_source : String

pub record AuditLog : Type 0 where
  pub organisation_id : ℕ
  pub actor_member_id : ℕ
  pub actor_user_id : Option ℕ
  pub action : String
  pub resource_type : String
  pub resource_id : ℕ
  pub before_snapshot : List (String × Value)
  pub after_snapshot : List (String × Value)

pub record BeneficiaryTables : Type 0 where
  pub profiles : List ProfileRow
  pub beneficiaries : List Beneficiary
  pub notes : List BeneficiaryNote
  pub followups : List BeneficiaryFollowup
  pub assignments : List BeneficiarySchemeAssignment
  pub application_statuses : List ApplicationStatus
  pub application_status_events : List ApplicationStatusEvent
  pub checklist_items : List DocumentChecklistItem
  pub schemes : List Scheme
  pub audit_logs : List AuditLog

abbrev pub Desk : Type 0 → Type 0
Desk A = Exec BeneficiaryTables A

-- What a request takes from outside: the clock, fresh ids, the times that the database keeps, and its `LIKE`
-- on a column in lower case and its collation.
pub record DeskEnv : Type 0 where
  pub now : ℕ
  pub today : ℕ
  pub profile_id : ℕ
  pub row_id : ℕ
  pub created_at : ℕ → ℕ
  pub updated_at : ℕ → ℕ
  pub like : String → String → Bool
  pub name_le : String → String → Bool

-- `add_audit_log`; an absent snapshot is an empty one.
abbrev pub add_audit_log :
    DashboardActor
    → String
    → String
    → ℕ
    → List (String × Value)
    → List (String × Value)
    → BeneficiaryTables
    → BeneficiaryTables
add_audit_log actor action resource_type resource_id before after t = record t {
  audit_logs =
      t.audit_logs
      ++ record {
        organisation_id = actor.organisation_id;
        actor_member_id = actor.member_id;
        actor_user_id = actor.user_id;
        action = action;
        resource_type = resource_type;
        resource_id = resource_id;
        before_snapshot = before;
        after_snapshot = after;
      }
        ∷ [];
}

abbrev pub beneficiary_not_found : Option Beneficiary → Bool
beneficiary_not_found none = true
beneficiary_not_found (some row) = is_some row.deleted_at

abbrev pub beneficiary_by_id : ℕ → BeneficiaryTables → Option Beneficiary
beneficiary_by_id id t = find (λ (b : Beneficiary). b.id == id) t.beneficiaries

-- `_get_beneficiary`
unfoldable pub get_beneficiary : DashboardActor → ℕ → Desk Beneficiary
get_beneficiary actor id = do
  let not_found = api_error 404 "BENEFICIARY_NOT_FOUND" "beneficiary_id"
  found ← gets (beneficiary_by_id id)
  raise_if (beneficiary_not_found found) not_found
  row ← or_raise found not_found
  lift (assert_beneficiary_access actor row.organisation_id row.assigned_operator_id)
  pure row

-- The conditions of `_scope_stmt`.
abbrev pub in_scope : DashboardActor → Beneficiary → Bool
in_scope actor row =
    (is_super_admin actor.role || row.organisation_id == actor.organisation_id)
    && ((not (is_operator actor.role) || row.assigned_operator_id == some actor.member_id)
        && not (is_some row.deleted_at))

abbrev pub set_beneficiary : ℕ → (Beneficiary → Beneficiary) → BeneficiaryTables → BeneficiaryTables
set_beneficiary id f t = record t {
  beneficiaries = update_rows (λ (row : Beneficiary). row.id == id) f t.beneficiaries;
}

abbrev pub set_profile : ℕ → (ProfileRow → ProfileRow) → BeneficiaryTables → BeneficiaryTables
set_profile id f t = record t {
  profiles = update_rows (λ (row : ProfileRow). row.id == id) f t.profiles;
}

-- ===== src/Dashboard/Beneficiaries/Detail.antt =====
-- dashboard/beneficiaries.py: one beneficiary in detail, the board of applications and the guide.
use adhikar_ai.Prelude.{
  ℕ, String, Bool, true, false, ◌&&◌, ◌||◌, Option, none, some, List, [], ◌∷◌, ◌++◌, map, ◌==◌,
  nat_eq, string_eq, option_eq, find, filter, leb, if◌then◌else◌,
}
use adhikar_ai.Prelude.Sorting.{sort}
use adhikar_ai.Prelude.Exec.{gets, lift, ◌>>=◌, ◌>>◌}
use adhikar_ai.Db.Rows.{Lifecycle, active, Scheme}
use adhikar_ai.Accounts.Saved.{ApplicationStatus}
use adhikar_ai.Accounts.Checklist.{DocumentChecklistItem}
use adhikar_ai.Agent.{ProfileDict}
use adhikar_ai.Sessions.{ProfileRow}
use adhikar_ai.Sessions.State.{column}
use adhikar_ai.Dashboard.Rbac.{DashboardActor, is_super_admin, require_actor_permission}
use adhikar_ai.Dashboard.Beneficiaries.{
  Beneficiary, BeneficiaryNote, BeneficiaryFollowup, BeneficiarySchemeAssignment, BeneficiaryTables,
  Desk, DeskEnv, get_beneficiary, in_scope,
}
use adhikar_ai.Dashboard.Beneficiaries.Queries.{
  FollowupEntry, BeneficiaryResponse, followup_entry, by_due_date, beneficiary_response, is_blank,
  or_empty,
}

-- The set `PROFILE_FIELDS`
abbrev pub profile_fields : List String
profile_fields =
    "age" ∷ "gender" ∷ "caste_category" ∷ "annual_income" ∷ "land_holding_acres" ∷ "occupation_type"
    ∷ "marital_status" ∷ "state_code" ∷ "district" ∷ "existing_scheme_ids" ∷ "custom_attributes"
    ∷ []

-- `_profile_payload`
abbrev profile_payload : Option ProfileRow → ProfileDict
profile_payload none = []
profile_payload (some profile) = map (λ name. (name, column profile name)) profile_fields

abbrev pub items_of_profile : Beneficiary → BeneficiaryTables → List (String × String)
items_of_profile row t =
    map (λ (item : DocumentChecklistItem). (item.document_name, item.status))
      (filter
        (λ (item : DocumentChecklistItem).
          item.organisation_id == row.organisation_id && item.profile_id == row.profile_id)
        t.checklist_items)

-- The names and the statuses of the items.
unfoldable pub document_review_items : DashboardActor → ℕ → Desk (List (String × String))
document_review_items actor beneficiary_id = do
  row ← get_beneficiary actor beneficiary_id
  gets (items_of_profile row)

pub record BeneficiaryDetail : Type 0 where
  pub base : BeneficiaryResponse
  pub profile : ProfileDict
  pub notes : List (ℕ × String)
  pub followups : List FollowupEntry
  pub assigned_schemes : List (ℕ × (String × String))
  pub document_checklist : List (String × String)

abbrev latest_note : DeskEnv → BeneficiaryNote → BeneficiaryNote → Bool
latest_note env a b = leb (env.created_at b.id) (env.created_at a.id)

abbrev pub detail_of :
    DeskEnv → Beneficiary → List (String × String) → BeneficiaryTables → BeneficiaryDetail
detail_of env row checklist t = record {
  base = beneficiary_response row t;
  profile = profile_payload (find (λ (p : ProfileRow). p.id == row.profile_id) t.profiles);
  notes =
      map (λ (n : BeneficiaryNote). (n.id, n.note))
        (sort (latest_note env)
          (filter (λ (n : BeneficiaryNote). n.beneficiary_id == row.id) t.notes));
  followups = map followup_entry (
      sort by_due_date
        (filter (λ (u : BeneficiaryFollowup). u.beneficiary_id == row.id) t.followups));
  assigned_schemes =
      map (λ (a : BeneficiarySchemeAssignment). (a.id, (a.scheme_id, a.assignment_source)))
        (filter (λ (a : BeneficiarySchemeAssignment). a.beneficiary_id == row.id) t.assignments);
  document_checklist = checklist;
}

unfoldable pub get_beneficiary_detail : DeskEnv → DashboardActor → ℕ → Desk BeneficiaryDetail
get_beneficiary_detail env actor beneficiary_id = do
  lift (require_actor_permission actor "beneficiary:read")
  row ← get_beneficiary actor beneficiary_id
  checklist ← document_review_items actor row.id
  gets (detail_of env row checklist)

pub record BoardEntry : Type 0 where
  pub status_id : ℕ
  pub beneficiary_id : ℕ
  pub name : String
  pub scheme_id : String
  pub status : String

abbrev board_entry : Beneficiary → ApplicationStatus → BoardEntry
board_entry row s = record {
  status_id = s.id;
  beneficiary_id = row.id;
  name = row.name;
  scheme_id = s.scheme_id;
  status = s.status;
}

-- The column that a status is shown in.
abbrev board_column : String → String
board_column status = if status == "pending" then "submitted" else status

abbrev board_of : List Beneficiary → BeneficiaryTables → List BoardEntry
board_of [] t = []
board_of (row ∷ rows) t =
    map (board_entry row)
      (filter (λ (s : ApplicationStatus). s.profile_id == row.profile_id) t.application_statuses)
    ++ board_of rows t

abbrev in_column : String → List BoardEntry → List BoardEntry
in_column name entries = filter (λ (e : BoardEntry). board_column e.status == name) entries

pub record StatusBoard : Type 0 where
  pub not_started : List BoardEntry
  pub documents_gathering : List BoardEntry
  pub submitted : List BoardEntry
  pub approved : List BoardEntry

abbrev columns_of : List BoardEntry → StatusBoard
columns_of entries = record {
  not_started = in_column "not_started" entries;
  documents_gathering = in_column "documents_gathering" entries;
  submitted = in_column "submitted" entries;
  approved = in_column "approved" entries;
}

unfoldable pub status_board : DashboardActor → Option String → Desk StatusBoard
status_board actor state_code = do
  lift (require_actor_permission actor "beneficiary:read")
  gets λ (t : BeneficiaryTables). columns_of (
      board_of
        (filter
          (λ (row : Beneficiary).
            in_scope actor row && (is_blank state_code || row.state_code == or_empty state_code))
          t.beneficiaries)
        t)

pub record GuideEntry : Type 0 where
  pub id : String
  pub name : String
  pub plain_language_summary : String
  pub state_code : Option String
  pub benefit_amount : String
  pub application_url : Option String

abbrev guide_entry : Scheme → GuideEntry
guide_entry s = record {
  id = s.id;
  name = s.name;
  plain_language_summary = s.plain_language_summary;
  state_code = s.state_code;
  benefit_amount = s.benefit_amount;
  application_url = s.application_url;
}

abbrev is_active_status : Lifecycle → Bool
is_active_status active = true
is_active_status _ = false

abbrev in_guide : DashboardActor → Scheme → Bool
in_guide actor s =
    (s.is_active && is_active_status s.status)
    && (is_super_admin actor.role || s.organisation_id == actor.organisation_id)

unfoldable pub scheme_guide : DeskEnv → DashboardActor → Desk (List GuideEntry)
scheme_guide env actor = do
  lift (require_actor_permission actor "scheme:read")
  gets λ (t : BeneficiaryTables).
      map guide_entry
        (sort (λ (a b : Scheme). env.name_le a.name b.name) (filter (in_guide actor) t.schemes))

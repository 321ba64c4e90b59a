-- ===== src/Dashboard/Beneficiaries/Queries.antt =====
-- dashboard/beneficiaries.py: what is shown of a beneficiary, and the list of them.
use adhikar_ai.Prelude.{
  ℕ, String, Bool, true, false, not, ◌&&◌, ◌||◌, Option, none, some, List, [], ◌∷◌, ◌++◌, map, ◌==◌,
  nat_eq, string_eq, option_eq, filter, length, take, ltb, leb, contains, if◌then◌else◌,
}
use adhikar_ai.Prelude.Sorting.{sort}
use adhikar_ai.Prelude.Text.{is_empty, lower, prepend}
use adhikar_ai.Prelude.Exec.{gets, lift, ◌>>◌}
use adhikar_ai.Schemes.Catalogue.{skip}
use adhikar_ai.Accounts.Saved.{ApplicationStatus}
use adhikar_ai.Dashboard.Rbac.{DashboardActor, is_operator, require_actor_permission}
use adhikar_ai.Dashboard.Beneficiaries.{
  Beneficiary, BeneficiaryFollowup, BeneficiaryTables, Desk, DeskEnv, in_scope,
}

pub record StatusEntry : Type 0 where
  pub id : ℕ
  pub scheme_id : String
  pub status : String

pub record FollowupEntry : Type 0 where
  pub id : ℕ
  pub due_date : ℕ
  pub reason : Option String
  pub status : String

pub record BeneficiaryResponse : Type 0 where
  pub id : ℕ
  pub name : String
  pub phone_e164 : Option String
  pub state_code : String
  pub language_code : String
  pub village : Option String
  pub district : Option String
  pub profile_id : ℕ
  pub assigned_operator_id : Option ℕ
  pub application_statuses : List StatusEntry
  pub follow_up : Option FollowupEntry

abbrev status_entry : ApplicationStatus → StatusEntry
status_entry row = record { id = row.id; scheme_id = row.scheme_id; status = row.status }

abbrev pub followup_entry : BeneficiaryFollowup → FollowupEntry
followup_entry row = record {
  id = row.id;
  due_date = row.due_date;
  reason = row.reason;
  status = row.status;
}

-- `_status_rows`
unfoldable pub status_rows : ℕ → ℕ → BeneficiaryTables → List StatusEntry
status_rows organisation_id profile_id t = map status_entry (
    filter
      (λ (row : ApplicationStatus).
        row.organisation_id == organisation_id && row.profile_id == profile_id)
      t.application_statuses)

abbrev pub by_due_date : BeneficiaryFollowup → BeneficiaryFollowup → Bool
by_due_date a b = leb a.due_date b.due_date

abbrev first {ℓ} : {A : Type ℓ} → List A → Option A
first [] = none
first (a ∷ _) = some a

abbrev first_entry : Option BeneficiaryFollowup → Option FollowupEntry
first_entry none = none
first_entry (some row) = some (followup_entry row)

-- `_open_followup`
unfoldable pub open_followup : ℕ → ℕ → BeneficiaryTables → Option FollowupEntry
open_followup organisation_id beneficiary_id t = first_entry (
    first (
      sort by_due_date (
        filter
          (λ (row : BeneficiaryFollowup).
            (row.organisation_id == organisation_id && row.beneficiary_id == beneficiary_id)
            && row.status == "open")
          t.followups)))

-- `beneficiary_response`
unfoldable pub beneficiary_response : Beneficiary → BeneficiaryTables → BeneficiaryResponse
beneficiary_response row t = record {
  id = row.id;
  name = row.name;
  phone_e164 = row.phone_e164;
  state_code = row.state_code;
  language_code = row.language_code;
  village = row.village;
  district = row.district;
  profile_id = row.profile_id;
  assigned_operator_id = row.assigned_operator_id;
  application_statuses = status_rows row.organisation_id row.profile_id t;
  follow_up = open_followup row.organisation_id row.id t;
}

pub record BeneficiaryFilters : Type 0 where
  pub q : Option String
  pub state_code : Option String
  pub status : Option String
  pub assigned_operator_id : Option ℕ
  pub followup_due : Option String
  pub limit : ℕ
  pub offset : ℕ

-- `value is None or value == ""`
abbrev pub is_blank : Option String → Bool
is_blank none = true
is_blank (some s) = is_empty s

abbrev pub or_empty : Option String → String
or_empty none = ""
or_empty (some s) = s

-- A NULL is like nothing.
abbrev is_like : DeskEnv → String → Option String → Bool
is_like env pattern none = false
is_like env pattern (some s) = env.like pattern s

abbrev pub passes_filters : DeskEnv → DashboardActor → BeneficiaryFilters → Beneficiary → Bool
passes_filters env actor f row =
    let pattern = prepend "%" (prepend (lower (or_empty f.q)) "%") in
    (is_blank f.q
      || (env.like pattern row.name
          || (is_like env pattern row.phone_e164 || is_like env pattern row.village)))
    && ((is_blank f.state_code || row.state_code == or_empty f.state_code)
        && (f.assigned_operator_id == none
            || (is_operator actor.role || row.assigned_operator_id == f.assigned_operator_id)))

-- A row of the join for each match; where there is no join, the row itself.
abbrev pub joined : {A B : Type 0} → Bool → (A → List B) → List A → List A
joined on matches [] = []
joined on matches (a ∷ rows) =
    (if on then map (λ _. a) (matches a) else a ∷ []) ++ joined on matches rows

abbrev statuses_of : BeneficiaryFilters → BeneficiaryTables → Beneficiary → List ApplicationStatus
statuses_of f t row =
    filter
      (λ (s : ApplicationStatus). s.profile_id == row.profile_id && s.status == or_empty f.status)
      t.application_statuses

abbrev is_due : DeskEnv → BeneficiaryFilters → BeneficiaryFollowup → Bool
is_due env f row =
    (not (f.followup_due == some "today") || row.due_date == env.today)
    && (not (f.followup_due == some "overdue") || ltb row.due_date env.today)

abbrev followups_of :
    DeskEnv → BeneficiaryFilters → BeneficiaryTables → Beneficiary → List BeneficiaryFollowup
followups_of env f t row =
    filter
      (λ (u : BeneficiaryFollowup).
        (u.beneficiary_id == row.id && u.status == "open") && is_due env f u)
      t.followups

abbrev asks_followups : BeneficiaryFilters → Bool
asks_followups f = contains (or_empty f.followup_due) ("today" ∷ "overdue" ∷ "all" ∷ [])

-- The statement that `list_beneficiaries` builds.
unfoldable pub selected :
    DeskEnv → DashboardActor → BeneficiaryFilters → BeneficiaryTables → List Beneficiary
selected env actor f t = joined (asks_followups f) (followups_of env f t) (
    joined (not (is_blank f.status)) (statuses_of f t) (
      filter (λ (row : Beneficiary). in_scope actor row && passes_filters env actor f row)
        t.beneficiaries))

abbrev pub newest_first : DeskEnv → Beneficiary → Beneficiary → Bool
newest_first env a b = leb (env.updated_at b.id) (env.updated_at a.id)

pub record BeneficiaryListResponse : Type 0 where
  pub items : List BeneficiaryResponse
  pub total : ℕ

abbrev pub page_of : DeskEnv → BeneficiaryFilters → List Beneficiary → List Beneficiary
page_of env f rows = take f.limit (skip f.offset (sort (newest_first env) rows))

abbrev pub listed :
    DeskEnv → DashboardActor → BeneficiaryFilters → BeneficiaryTables → BeneficiaryListResponse
listed env actor f t =
    let rows = selected env actor f t in
    record {
      items = map (λ row. beneficiary_response row t) (page_of env f rows);
      total = length rows;
    }

unfoldable pub list_beneficiaries :
    DeskEnv → DashboardActor → BeneficiaryFilters → Desk BeneficiaryListResponse
list_beneficiaries env actor f = do
  lift (require_actor_permission actor "beneficiary:read")
  gets (listed env actor f)

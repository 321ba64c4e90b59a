-- ===== src/Dashboard/Beneficiaries/Writes.antt =====
-- dashboard/beneficiaries.py: adding and changing a beneficiary, each with its entry in the audit log.
use adhikar_ai.Prelude.{
  ℕ, String, Bool, false, not, ◌&&◌, ◌||◌, Option, none, some, [], ◌∷◌, ◌++◌, ◌==◌, nat_eq,
  string_eq, option_eq, filter, contains, any, if◌then◌else◌,
}
use adhikar_ai.Prelude.Text.{str_nat}
use adhikar_ai.Prelude.Result.{ApiError, api_error}
use adhikar_ai.Prelude.Exec.{gets, lift, modify, commit, raise_if, ◌>>=◌, ◌>>◌}
use adhikar_ai.Value.{
  Value, Items, Fields, null, text, array, object, end, field, of_text, fields_of,
}
use adhikar_ai.Accounts.Sync.{assert_no_aadhaar_payload}
use adhikar_ai.Agent.{ProfileDict}
use adhikar_ai.Sessions.{ProfileRow, internal_error}
use adhikar_ai.Sessions.State.{new_profile, with_columns}
use adhikar_ai.Dashboard.Rbac.{DashboardActor, is_operator, require_actor_permission}
use adhikar_ai.Dashboard.Beneficiaries.{
  Beneficiary, BeneficiaryTables, Desk, DeskEnv, add_audit_log, get_beneficiary, set_beneficiary,
  set_profile,
}
use adhikar_ai.Dashboard.Beneficiaries.Queries.{BeneficiaryResponse, beneficiary_response}
use adhikar_ai.Dashboard.Beneficiaries.Detail.{profile_fields}

pub record CreateBeneficiaryRequest : Type 0 where
  pub name : String
  pub phone_e164 : Option String
  pub state_code : String
  pub language_code : String
  pub village : Option String
  pub district : Option String
  pub assigned_operator_id : Option ℕ
  pub profile : ProfileDict
  pub household_members : Items

abbrev id_value : Option ℕ → Value
id_value none = null
id_value (some id) = text (str_nat id)

-- `request.model_dump`
abbrev pub create_payload : CreateBeneficiaryRequest → Value
create_payload r = object (
    fields_of (
      ("name", text r.name)
      ∷ ("phone_e164", of_text r.phone_e164)
      ∷ ("state_code", text r.state_code)
      ∷ ("language_code", text r.language_code)
      ∷ ("village", of_text r.village)
      ∷ ("district", of_text r.district)
      ∷ ("assigned_operator_id", id_value r.assigned_operator_id)
      ∷ ("profile", object (fields_of r.profile))
      ∷ ("household_members", array r.household_members)
      ∷ []))

abbrev pub of_profile : ProfileDict → ProfileDict
of_profile d = filter (λ (e : String × Value). contains e.0 profile_fields) d

-- The request's operator, or the operator who makes it.
abbrev pub operator_for : DashboardActor → Option ℕ → Option ℕ
operator_for actor (some id) = some id
operator_for actor none = if is_operator actor.role then some actor.member_id else none

-- A keyword that the call of `Profile` already has is a TypeError.
abbrev pub names_a_column_twice : ProfileDict → Bool
names_a_column_twice d =
    any (λ (e : String × Value). e.0 == "state_code" || e.0 == "district") (of_profile d)

abbrev pub assignment_denied : DashboardActor → Option ℕ → Bool
assignment_denied actor operator = is_operator actor.role && not (operator == some actor.member_id)

abbrev pub new_row : DeskEnv → DashboardActor → CreateBeneficiaryRequest → Beneficiary
new_row env actor r = record {
  id = env.row_id;
  organisation_id = actor.organisation_id;
  profile_id = env.profile_id;
  assigned_operator_id = operator_for actor r.assigned_operator_id;
  name = r.name;
  phone_e164 = r.phone_e164;
  state_code = r.state_code;
  language_code = r.language_code;
  village = r.village;
  district = r.district;
  source = "operator";
  deleted_at = none;
}

abbrev new_columns : CreateBeneficiaryRequest → ProfileDict
new_columns r =
    ("display_name", text r.name)
    ∷ ("state_code", text r.state_code)
    ∷ ("district", of_text r.district)
    ∷ of_profile r.profile

abbrev pub assignment_error : ApiError
assignment_error = api_error 403 "ASSIGNMENT_DENIED" "assigned_operator_id"

-- The profile, its beneficiary and the entry of the log.
abbrev pub store_beneficiary :
    DeskEnv → DashboardActor → CreateBeneficiaryRequest → Desk BeneficiaryResponse
store_beneficiary env actor r = do
  modify λ (t : BeneficiaryTables). record t {
    profiles =
        t.profiles ++ new_profile env.profile_id actor.organisation_id none (new_columns r) ∷ [];
    beneficiaries = t.beneficiaries ++ new_row env actor r ∷ [];
  }
  modify (
      add_audit_log actor "beneficiary.create" "beneficiary" env.row_id []
        (("name", text r.name) ∷ ("profile_id", text (str_nat env.profile_id)) ∷ []))
  commit
  gets (beneficiary_response (new_row env actor r))

unfoldable pub create_beneficiary :
    DeskEnv → DashboardActor → CreateBeneficiaryRequest → Desk BeneficiaryResponse
create_beneficiary env actor r = do
  lift (require_actor_permission actor "beneficiary:write")
  lift (assert_no_aadhaar_payload (create_payload r))
  raise_if (assignment_denied actor (operator_for actor r.assigned_operator_id)) assignment_error
  raise_if (names_a_column_twice r.profile) internal_error
  store_beneficiary env actor r

pub record UpdateBeneficiaryRequest : Type 0 where
  pub name : Option String
  pub phone_e164 : Option String
  pub state_code : Option String
  pub language_code : Option String
  pub village : Option String
  pub district : Option String
  pub assigned_operator_id : Option ℕ
  pub profile : Option ProfileDict

-- The text under the key, if it is given.
abbrev given_text : String → Option String → Fields → Fields
given_text key none fs = fs
given_text key (some s) fs = field key (text s) fs

abbrev given_profile : Option ProfileDict → Fields
given_profile none = end
given_profile (some d) = field "profile" (object (fields_of d)) end

abbrev given_operator : Option ℕ → Fields → Fields
given_operator none fs = fs
given_operator (some id) fs = field "assigned_operator_id" (text (str_nat id)) fs

-- `request.model_dump`, without what is None
abbrev pub update_payload : UpdateBeneficiaryRequest → Value
update_payload r = object (
    given_text "name" r.name (
      given_text "phone_e164" r.phone_e164 (
        given_text "state_code" r.state_code (
          given_text "language_code" r.language_code (
            given_text "village" r.village (
              given_text "district" r.district
                (given_operator r.assigned_operator_id (given_profile r.profile))))))))

-- The value that is given, or else the old one.
abbrev or_old {ℓ} : {A : Type ℓ} → Option A → A → A
or_old none old = old
or_old (some a) old = a

abbrev or_old_column {ℓ} : {A : Type ℓ} → Option A → Option A → Option A
or_old_column none old = old
or_old_column (some a) old = some a

abbrev pub with_given : UpdateBeneficiaryRequest → Beneficiary → Beneficiary
with_given r row = record row {
  name = or_old r.name row.name;
  phone_e164 = or_old_column r.phone_e164 row.phone_e164;
  state_code = or_old r.state_code row.state_code;
  language_code = or_old r.language_code row.language_code;
  village = or_old_column r.village row.village;
  district = or_old_column r.district row.district;
}

abbrev pub with_operator : UpdateBeneficiaryRequest → Beneficiary → Beneficiary
with_operator r row = record row {
  assigned_operator_id = or_old_column r.assigned_operator_id row.assigned_operator_id;
}

abbrev pub assigns_elsewhere : DashboardActor → Option ℕ → Bool
assigns_elsewhere actor none = false
assigns_elsewhere actor (some id) = assignment_denied actor (some id)

abbrev profile_updates : Option ProfileDict → ProfileDict
profile_updates none = []
profile_updates (some d) = of_profile d

abbrev update_columns : UpdateBeneficiaryRequest → ProfileRow → ProfileRow
update_columns r p = record p { columns = with_columns (profile_updates r.profile) p.columns }

-- The last column, the profile and the entry of the log.
abbrev pub store_update :
    DashboardActor → UpdateBeneficiaryRequest → Beneficiary → Desk BeneficiaryResponse
store_update actor r row = do
  modify (set_beneficiary row.id (with_operator r))
  modify (set_profile row.profile_id (update_columns r))
  let updated = with_operator r (with_given r row)
  modify (
      add_audit_log actor "beneficiary.update" "beneficiary" row.id
        (("name", text row.name) ∷ ("assigned_operator_id", id_value row.assigned_operator_id) ∷ [])
        (("name", text updated.name) ∷ []))
  commit
  gets (beneficiary_response updated)

-- The assignments to the row, one after another.
abbrev pub change_row :
    DashboardActor → UpdateBeneficiaryRequest → Beneficiary → Desk BeneficiaryResponse
change_row actor r row = do
  modify (set_beneficiary row.id (with_given r))
  raise_if (assigns_elsewhere actor r.assigned_operator_id) assignment_error
  store_update actor r row

unfoldable pub update_beneficiary :
    DashboardActor → ℕ → UpdateBeneficiaryRequest → Desk BeneficiaryResponse
update_beneficiary actor beneficiary_id r = do
  lift (require_actor_permission actor "beneficiary:write")
  lift (assert_no_aadhaar_payload (update_payload r))
  row ← get_beneficiary actor beneficiary_id
  change_row actor r row

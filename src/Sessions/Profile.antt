-- ===== src/Sessions/Profile.antt =====
-- services/sessions/session_service.py: how a turn stores the profile that it has gathered, and how that
-- profile is matched.
use adhikar_ai.Prelude.{
  ℕ, String, Bool, true, false, not, ◌&&◌, Option, none, some, List, [], ◌∷◌, ◌++◌, ◌==◌, nat_eq,
  string_eq, if◌then◌else◌,
}
use adhikar_ai.Prelude.Dict.{lookup, insert}
use adhikar_ai.Prelude.Result.{api_error}
use adhikar_ai.Prelude.Exec.{pure, gets, or_raise, modify, raise_if, ◌>>=◌, ◌>>◌}
use adhikar_ai.Value.{Value, null, array, object, nil, end, equal}
use adhikar_ai.Eligibility.Engine.{SchemeWithRule}
use adhikar_ai.Eligibility.Matcher.{evaluate_profile_against_rules}
use adhikar_ai.Agent.{ProfileDict, is_present}
use adhikar_ai.Sessions.State.{or_default}
use adhikar_ai.Sessions.{
  MatchSnapshot, ProfileRow, ProfileEvent, values, ConversationTables, Chat, Env, internal_error,
  get_profile, set_profile, add_profile_event,
}

abbrev persisted_fields : List String
persisted_fields =
    "display_name" ∷ "age" ∷ "gender" ∷ "caste_category" ∷ "annual_income" ∷ "land_holding_acres"
    ∷ "occupation_type" ∷ "marital_status" ∷ "state_code" ∷ "district" ∷ "existing_scheme_ids"
    ∷ "custom_attributes" ∷ "profile_completeness" ∷ []

-- The columns, and what the loop has recorded of their changes.
pub record Changes : Type 0 where
  pub columns : ProfileDict
  pub changed : List String
  pub previous : ProfileDict
  pub new_values : ProfileDict

abbrev pub value_or_null : Option Value → Value
value_or_null none = null
value_or_null (some v) = v

abbrev differs : Option Value → Option Value → Bool
differs old new = is_present new && not (equal (value_or_null old) (value_or_null new))

abbrev pub record_change : String → Value → Value → Changes → Changes
record_change field old new c = record {
  columns = insert field new c.columns;
  changed = c.changed ++ field ∷ [];
  previous = insert field old c.previous;
  new_values = insert field new c.new_values;
}

-- The loop over the fields.
unfoldable pub change_fields : ProfileDict → List String → Changes → Changes
change_fields profile_data [] c = c
change_fields profile_data (field ∷ fields) c =
    let new = lookup field profile_data in
    let old = lookup field c.columns in
    change_fields profile_data fields
      (if differs old new then record_change field (value_or_null old) (value_or_null new) c else c)

abbrev pub unchanged : ProfileRow → Changes
unchanged row = record { columns = row.columns; changed = []; previous = []; new_values = [] }

abbrev pub changes_to : ProfileDict → ProfileRow → Changes
changes_to profile_data row = change_fields profile_data persisted_fields (unchanged row)

abbrev pub profile_update : ℕ → ProfileRow → String → Changes → ProfileEvent
profile_update organisation_id row source c = record {
  organisation_id = organisation_id;
  profile_id = row.id;
  event_type = "profile_update";
  source = source;
  changed_fields = c.changed;
  previous_values = values c.previous;
  new_values = values c.new_values;
}

abbrev pub has_changes : List String → Bool
has_changes [] = false
has_changes (_ ∷ _) = true

unfoldable pub apply_changes :
    ℕ → ProfileRow → String → Changes → ConversationTables → ConversationTables
apply_changes organisation_id row source c t =
    let updated = set_profile row.id (λ (p : ProfileRow). record p { columns = c.columns }) t in
    if has_changes c.changed
    then add_profile_event (profile_update organisation_id row source c) updated
    else updated

abbrev pub is_foreign : ℕ → Option ProfileRow → Bool
is_foreign organisation_id none = true
is_foreign organisation_id (some row) = not (row.organisation_id == organisation_id)

-- `_persist_profile`; the row as it is afterwards.
unfoldable pub persist_profile : ℕ → ProfileDict → ℕ → String → Chat ProfileRow
unfolding change_fields
persist_profile profile_id profile_data organisation_id source = do
  let not_found = api_error 404 "PROFILE_NOT_FOUND" "profile_id"
  found ← gets (get_profile (some profile_id))
  raise_if (is_foreign organisation_id found) not_found
  row ← or_raise found not_found
  modify (apply_changes organisation_id row source (changes_to profile_data row))
  pure (record row { columns = (changes_to profile_data row).columns })

abbrev field_of : ProfileDict → String → Value
field_of profile name = value_or_null (lookup name profile)

-- `_profile_input`, before the validation.
abbrev pub profile_input : ProfileDict → ProfileDict
profile_input profile =
    ("age", field_of profile "age")
    ∷ ("gender", field_of profile "gender")
    ∷ ("caste_category", field_of profile "caste_category")
    ∷ ("annual_income", field_of profile "annual_income")
    ∷ ("land_holding_acres", field_of profile "land_holding_acres")
    ∷ ("occupation_type", field_of profile "occupation_type")
    ∷ ("marital_status", field_of profile "marital_status")
    ∷ ("state_code", field_of profile "state_code")
    ∷ ("district", field_of profile "district")
    ∷ ("existing_scheme_ids", or_default (field_of profile "existing_scheme_ids") (array nil))
    ∷ ("custom_attributes", or_default (field_of profile "custom_attributes") (object end))
    ∷ []

-- `_run_match`, on the rules that were retrieved.
unfoldable pub run_match :
    Env → ℕ → ProfileDict → List SchemeWithRule → List String → String → Chat MatchSnapshot
run_match env organisation_id profile_data rules candidate_ids search_mode = do
  input ← or_raise (env.validate_input (profile_input profile_data)) internal_error
  pure (record {
    request_id = env.request_id;
    result =
        evaluate_profile_against_rules
          (record {
            organisation_id = organisation_id;
            profile = input;
            include_incomplete = true;
            limit = 10;
          })
          rules;
    candidate_scheme_ids = candidate_ids;
    candidate_search_mode = search_mode;
  })

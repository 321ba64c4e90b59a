-- ===== src/Sessions/Households.antt =====
-- services/households.py: the members of a household, added and removed from the outside of a conversation.
use adhikar_ai.Prelude.{
  ℕ, String, Bool, true, not, ◌&&◌, Option, none, some, List, [], ◌∷◌, ◌==◌, nat_eq, option_eq,
  find, filter, any, if◌then◌else◌,
}
use adhikar_ai.Prelude.Text.{is_empty}
use adhikar_ai.Prelude.Result.{api_error}
use adhikar_ai.Prelude.Exec.{pure, gets, or_raise, modify, commit, raise_if, ◌>>=◌, ◌>>◌}
use adhikar_ai.Value.{Value, text, array, object, of_text, hundredths, items_of, fields_of}
use adhikar_ai.Agent.{HouseholdMemberProfile, whole}
use adhikar_ai.Sessions.{
  Household, ProfileRow, ConversationTables, Chat, Env, internal_error, add_profile,
}
use adhikar_ai.Sessions.State.{profile_model, new_profile}

-- The fields of a member, with the organisation.
pub record CreateHouseholdMemberRequest : Type 0 where
  pub organisation_id : ℕ
  pub member : HouseholdMemberProfile

-- `a or b`
abbrev or_text : Option String → Option String → Option String
or_text none b = b
or_text (some s) b = if is_empty s then b else some s

abbrev member_columns : HouseholdMemberProfile → Household → List (String × Value)
member_columns m household =
    ("display_name", of_text m.display_name)
    ∷ ("relationship_to_primary", text m.relationship_to_primary)
    ∷ ("age", whole m.age)
    ∷ ("gender", of_text m.gender)
    ∷ ("caste_category", of_text m.caste_category)
    ∷ ("annual_income", whole m.annual_income)
    ∷ ("land_holding_acres", hundredths m.land_holding_acres)
    ∷ ("occupation_type", of_text m.occupation_type)
    ∷ ("marital_status", of_text m.marital_status)
    ∷ ("state_code", of_text (or_text m.state_code household.state_code))
    ∷ ("district", of_text (or_text m.district household.district))
    ∷ ("existing_scheme_ids", array (items_of m.existing_scheme_ids))
    ∷ ("custom_attributes", object (fields_of m.custom_attributes))
    ∷ ("profile_completeness", whole (some m.profile_completeness))
    ∷ []

abbrev household_by_id : ℕ → ConversationTables → Option Household
household_by_id id t = find (λ (h : Household). h.id == id) t.households

abbrev is_foreign : ℕ → Option Household → Bool
is_foreign organisation_id none = true
is_foreign organisation_id (some h) = not (h.organisation_id == organisation_id)

abbrev new_row : Env → ℕ → CreateHouseholdMemberRequest → Household → ProfileRow
new_row env household_id request household =
    new_profile env.profile_id request.organisation_id (some household_id)
      (member_columns request.member household)

abbrev store_member : Env → ProfileRow → Chat HouseholdMemberProfile
store_member env row = do
  modify (add_profile row)
  commit
  or_raise (profile_model env.validate (some row)) internal_error

unfoldable pub create_household_member :
    Env → ℕ → CreateHouseholdMemberRequest → Chat HouseholdMemberProfile
create_household_member env household_id request = do
  let not_found = api_error 404 "HOUSEHOLD_NOT_FOUND" "household_id"
  found ← gets (household_by_id household_id)
  raise_if (is_foreign request.organisation_id found) not_found
  household ← or_raise found not_found
  store_member env (new_row env household_id request household)

abbrev is_deleted : ℕ → ℕ → ℕ → ProfileRow → Bool
is_deleted household_id profile_id organisation_id p =
    p.id == profile_id
    && (p.household_id == some household_id && p.organisation_id == organisation_id)

-- The id of the profile; what refers to the profile is left to the database.
unfoldable pub delete_household_member : ℕ → ℕ → ℕ → Chat ℕ
delete_household_member household_id profile_id organisation_id = do
  let gone = is_deleted household_id profile_id organisation_id
  deletes ← gets λ (t : ConversationTables). any gone t.profiles
  modify λ (t : ConversationTables). record t {
    profiles = filter (λ (p : ProfileRow). not (gone p)) t.profiles;
  }
  raise_if (not deletes) (api_error 404 "PROFILE_NOT_FOUND" "profile_id")
  commit
  pure profile_id

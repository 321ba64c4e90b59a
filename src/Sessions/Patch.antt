-- ===== src/Sessions/Patch.antt =====
-- services/profiles.py: a patch of a profile from the outside of a conversation.
use adhikar_ai.Prelude.{
  ℕ, String, true, not, Option, none, some, List, [], ◌∷◌, ◌==◌, nat_eq, string_eq, map, filter,
  contains, if◌then◌else◌,
}
use adhikar_ai.Prelude.Dict.{lookup, insert}
use adhikar_ai.Prelude.Sorting.{sort}
use adhikar_ai.Prelude.Text.{str_leb}
use adhikar_ai.Prelude.Result.{api_error}
use adhikar_ai.Prelude.Exec.{pure, raise, gets, or_raise, modify, commit, raise_if, ◌>>=◌, ◌>>◌}
use adhikar_ai.Value.{Value, Fields, null, object, end, field, put, equal}
use adhikar_ai.Schema.{UserProfileInput}
use adhikar_ai.Eligibility.Engine.{SchemeWithRule}
use adhikar_ai.Eligibility.Matcher.{evaluate_profile_against_rules}
use adhikar_ai.Schemes.Listing.{active_scheme_rules}
use adhikar_ai.Agent.{
  ProfileDict, HouseholdMemberProfile, profile_dump, compute_profile_completeness,
}
use adhikar_ai.Agent.Extraction.{integer}
use adhikar_ai.Agent.Extraction.Payload.{is_truthy}
use adhikar_ai.Sessions.{
  MatchSnapshot, ProfileRow, ConversationTables, Chat, Env, internal_error, reading, get_profile,
  set_profile, add_profile_event,
}
use adhikar_ai.Sessions.State.{profile_model}
use adhikar_ai.Sessions.Profile.{
  Changes, record_change, unchanged, is_foreign, has_changes, profile_update, profile_input,
}

abbrev patchable_fields : List String
patchable_fields =
    "display_name" ∷ "age" ∷ "gender" ∷ "caste_category" ∷ "annual_income" ∷ "land_holding_acres"
    ∷ "occupation_type" ∷ "marital_status" ∷ "state_code" ∷ "district" ∷ "existing_scheme_ids"
    ∷ "custom_attributes" ∷ []

pub record PatchProfileRequest : Type 0 where
  pub organisation_id : ℕ
  pub fields : ProfileDict
  pub source : String

-- `sorted(set(request.fields) - PATCHABLE_FIELDS)`
abbrev unknown_fields : ProfileDict → List String
unknown_fields d =
    sort str_leb
      (filter (λ name. not (contains name patchable_fields)) (map (λ (e : String × Value). e.0) d))

abbrev refuse_unknown : List String → Chat (Unit {0})
refuse_unknown [] = pure tt
refuse_unknown (name ∷ _) = raise (api_error 422 "INVALID_PROFILE_PATCH" name)

-- `{**old, **new}`
abbrev put_all : Fields → Fields → Fields
put_all end old = old
put_all (field k v fs) old = put_all fs (put k v old)

-- What a field is set to: a dictionary of attributes is merged into the old one; `none` is a TypeError.
abbrev patched_value : String → Value → Value → Option Value
patched_value name old (object new) =
    if not (name == "custom_attributes")
    then some (object new)
    else if not (is_truthy old)
    then some (object (put_all new end))
    else elim old [ object fs ↦ some (object (put_all new fs)) | _ ↦ none ]
patched_value name old new = some new

abbrev old_value : String → Changes → Value
old_value name c = elim (lookup name c.columns) [ none ↦ null | some v ↦ v ]

abbrev patch_field : String → Option Value → Changes → Option Changes
patch_field name none c = none
patch_field name (some new) c =
    some (if equal (old_value name c) new then c else record_change name (old_value name c) new c)

-- The loop over the fields of the request.
unfoldable pub patch_fields : ProfileDict → Changes → Option Changes
patch_fields [] c = some c
patch_fields ((name, value) ∷ fields) c =
    elim (patch_field name (patched_value name (old_value name c) value) c) [
      | none ↦ none
      | some d ↦ patch_fields fields d
    ]

pub record PatchProfileResponse : Type 0 where
  pub profile : HouseholdMemberProfile
  pub changed_fields : List String
  pub profile_completeness : ℕ
  pub match_snapshot : MatchSnapshot

-- The dump of the matcher's answer, which names no candidates.
abbrev changed_snapshot : Env → ℕ → UserProfileInput → List SchemeWithRule → MatchSnapshot
changed_snapshot env organisation_id input rules = record {
  request_id = env.request_id;
  result =
      evaluate_profile_against_rules
        (record {
          organisation_id = organisation_id;
          profile = input;
          include_incomplete = true;
          limit = 10;
        })
        rules;
  candidate_scheme_ids = [];
  candidate_search_mode = "";
}

abbrev patched_row : ProfileRow → Changes → ℕ → MatchSnapshot → ProfileRow
patched_row row c completeness m = record row {
  columns = insert "profile_completeness" (integer completeness) c.columns;
  last_match_snapshot = some m;
}

abbrev store_patch :
    PatchProfileRequest
    → ProfileRow
    → Changes
    → ProfileRow
    → ConversationTables
    → ConversationTables
store_patch request row c updated t =
    let stored = set_profile row.id (λ (_ : ProfileRow). updated) t in
    if has_changes c.changed
    then add_profile_event (profile_update request.organisation_id row request.source c) stored
    else stored

abbrev pub finish_patch :
    Env → PatchProfileRequest → ProfileRow → Changes → ℕ → MatchSnapshot → Chat PatchProfileResponse
finish_patch env request row c completeness m = do
  let updated = patched_row row c completeness m
  modify (store_patch request row c updated)
  commit
  profile ← or_raise (profile_model env.validate (some updated)) internal_error
  pure (record {
    profile = profile;
    changed_fields = c.changed;
    profile_completeness = completeness;
    match_snapshot = m;
  })

-- The completeness and the match of the profile as it is patched.
abbrev pub apply_patch :
    Env → PatchProfileRequest → ProfileRow → Changes → Chat PatchProfileResponse
apply_patch env request row c = do
  rules ← reading (active_scheme_rules env.name_le env.today request.organisation_id)
  profile ←
      or_raise (profile_model env.validate (some (record row { columns = c.columns })))
        internal_error
  let completeness =
      compute_profile_completeness (profile_dump profile)
        (map (λ (item : SchemeWithRule). item.rule) rules)
  input ← or_raise (env.validate_input (profile_input c.columns)) internal_error
  finish_patch env request row c completeness
      (changed_snapshot env request.organisation_id input rules)

unfoldable pub patch_profile : Env → ℕ → PatchProfileRequest → Chat PatchProfileResponse
patch_profile env profile_id request = do
  let not_found = api_error 404 "PROFILE_NOT_FOUND" "profile_id"
  found ← gets (get_profile (some profile_id))
  raise_if (is_foreign request.organisation_id found) not_found
  row ← or_raise found not_found
  refuse_unknown (unknown_fields request.fields)
  changes ← or_raise (patch_fields request.fields (unchanged row)) internal_error
  apply_patch env request row changes

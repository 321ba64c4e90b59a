-- ===== src/Sessions/State.antt =====
-- services/sessions/session_service.py: how a conversation is found again and read.
use adhikar_ai.Prelude.{
  ℕ, String, ◌&&◌, Option, none, some, List, [], ◌∷◌, map, ◌==◌, nat_eq, string_eq, option_eq, find,
  filter, leb, if◌then◌else◌,
}
use adhikar_ai.Prelude.Dict.{lookup, insert}
use adhikar_ai.Prelude.Result.{api_error}
use adhikar_ai.Prelude.Exec.{pure, raise, gets, or_raise, raise_if, ◌>>=◌, ◌>>◌}
use adhikar_ai.Prelude.Text.{str_nat}
use adhikar_ai.Prelude.Int.{pos}
use adhikar_ai.Value.{Value, null, text, number, array, object, nil, end}
use adhikar_ai.Agent.{ProfileDict, HouseholdMemberProfile}
use adhikar_ai.Agent.Confidence.{is_nan}
use adhikar_ai.Agent.Question.{AgentState}
use adhikar_ai.Agent.Extraction.Payload.{is_truthy}
use adhikar_ai.Sessions.{
  ProfileRow, ConversationSession, ConversationMessage, ConversationTables, Chat, Env,
  internal_error, session_redis_key, read_state, write_state, get_profile,
}

abbrev pub column : ProfileRow → String → Value
column row name = elim (lookup name row.columns) [ none ↦ null | some v ↦ v ]

-- `value or default`
abbrev pub or_default : Value → Value → Value
or_default value default = if is_truthy value then value else default

abbrev model_fields : ProfileRow → ProfileDict
model_fields row =
    ("id", text (str_nat row.id))
    ∷ ("display_name", column row "display_name")
    ∷ ("relationship_to_primary", column row "relationship_to_primary")
    ∷ ("age", column row "age")
    ∷ ("gender", column row "gender")
    ∷ ("caste_category", column row "caste_category")
    ∷ ("annual_income", column row "annual_income")
    ∷ ("land_holding_acres", column row "land_holding_acres")
    ∷ ("occupation_type", column row "occupation_type")
    ∷ ("marital_status", column row "marital_status")
    ∷ ("state_code", column row "state_code")
    ∷ ("district", column row "district")
    ∷ ("existing_scheme_ids", or_default (column row "existing_scheme_ids") (array nil))
    ∷ ("custom_attributes", or_default (column row "custom_attributes") (object end))
    ∷ ("profile_completeness", column row "profile_completeness")
    ∷ []

-- `HouseholdMemberProfileModel(id="self")`
abbrev unknown_member : HouseholdMemberProfile
unknown_member = record {
  id = some "self";
  display_name = none;
  relationship_to_primary = "self";
  age = none;
  gender = none;
  caste_category = none;
  annual_income = none;
  land_holding_acres = none;
  occupation_type = none;
  marital_status = none;
  state_code = none;
  district = none;
  existing_scheme_ids = [];
  custom_attributes = [];
  profile_completeness = 0;
}

-- `_profile_model`; `none` is a ValidationError.
unfoldable pub profile_model :
    (ProfileDict → Option HouseholdMemberProfile)
    → Option ProfileRow
    → Option HouseholdMemberProfile
profile_model validate none = some unknown_member
profile_model validate (some row) = validate (model_fields row)

unfoldable pub profile_models :
    (ProfileDict → Option HouseholdMemberProfile)
    → List ProfileRow
    → Option (List HouseholdMemberProfile)
unfolding profile_model
profile_models validate [] = some []
profile_models validate (row ∷ rows) = elim (profile_model validate (some row)) [
  | none ↦ none
  | some member ↦ elim (profile_models validate rows) [
    | none ↦ none
    | some members ↦ some (member ∷ members)
  ]
]

-- The columns of a new row: those given, and the defaults of the others.
abbrev pub default_columns : ProfileDict
default_columns =
    ("relationship_to_primary", text "self")
    ∷ ("existing_scheme_ids", array nil)
    ∷ ("custom_attributes", object end)
    ∷ ("profile_completeness", number (pos 0))
    ∷ []

abbrev pub with_columns : List (String × Value) → ProfileDict → ProfileDict
with_columns [] columns = columns
with_columns ((name, value) ∷ given) columns = with_columns given (insert name value columns)

abbrev pub new_profile : ℕ → ℕ → Option ℕ → List (String × Value) → ProfileRow
new_profile id organisation_id household_id given = record {
  id = id;
  organisation_id = organisation_id;
  household_id = household_id;
  columns = with_columns given default_columns;
  last_match_snapshot = none;
}

abbrev pub find_session : ℕ → String → ConversationTables → Option ConversationSession
find_session organisation_id session_id t =
    find
      (λ (row : ConversationSession).
        row.organisation_id == organisation_id && row.session_id == session_id)
      t.sessions

-- `_session_row`
abbrev pub session_row : ℕ → String → Chat (Option ConversationSession)
session_row organisation_id session_id = gets (find_session organisation_id session_id)

abbrev sole_organisation : List ConversationSession → Chat ℕ
sole_organisation [] = raise (api_error 404 "SESSION_NOT_FOUND" "session_id")
sole_organisation (row ∷ []) = pure row.organisation_id
sole_organisation (_ ∷ _ ∷ _) = raise (api_error 422 "ORGANISATION_REQUIRED" "organisation_id")

unfoldable pub resolve_organisation_id : String → Option ℕ → Chat ℕ
resolve_organisation_id session_id (some organisation_id) = pure organisation_id
resolve_organisation_id session_id none = do
  matches ← gets λ (t : ConversationTables).
      filter (λ (row : ConversationSession). row.session_id == session_id) t.sessions
  sole_organisation matches

-- `a or b` of two ids.
abbrev or_id : Option ℕ → Option ℕ → Option ℕ
or_id (some a) b = some a
or_id none b = b

abbrev pub members_of : ConversationSession → ConversationTables → List ProfileRow
members_of row t = elim row.household_id [
  | none ↦ []
  | some household ↦
      filter
        (λ (p : ProfileRow).
          p.organisation_id == row.organisation_id && p.household_id == some household)
        t.profiles
]

abbrev pub messages_of : ConversationSession → ConversationTables → List (String × String)
messages_of row t =
    map (λ (m : ConversationMessage). (m.role, m.content))
      (filter
        (λ (m : ConversationMessage).
          m.organisation_id == row.organisation_id && m.conversation_session_id == row.id)
        t.messages)

abbrev member_id_of : Option ProfileRow → String
member_id_of none = "self"
member_id_of (some row) = str_nat row.id

-- `_state_from_db`: nothing is pending in it, and the turns are counted anew. `AgentStateModel` refuses a
-- confidence score that is not a number.
unfoldable pub state_from_db : Env → ConversationSession → Chat AgentState
state_from_db env row = do
  profile ← gets (get_profile (or_id row.active_profile_id row.primary_profile_id))
  member_rows ← gets (members_of row)
  members ← or_raise (profile_models env.validate member_rows) internal_error
  messages ← gets (messages_of row)
  user_profile ← or_raise (profile_model env.validate profile) internal_error
  raise_if (is_nan row.confidence_score) internal_error
  pure (record {
    session_id = row.session_id;
    organisation_id = row.organisation_id;
    messages = messages;
    user_profile = user_profile;
    household_id = row.household_id;
    members = members;
    active_member_id = member_id_of profile;
    asked_fields = row.asked_fields;
    remaining_required_fields = row.remaining_required_fields;
    profile_completeness = row.profile_completeness;
    language_code = row.language_code;
    turn_count_since_result = 0;
    pending_confirmation = none;
  })

abbrev pub keep_state : String → AgentState → Chat AgentState
keep_state key state = do write_state key state; pure state

abbrev pub load_row : Env → String → ConversationSession → Chat AgentState
load_row env key row = do
  raise_if (leb row.expires_at env.now) (api_error 410 "SESSION_EXPIRED" "session_id")
  state ← state_from_db env row
  keep_state key state

abbrev pub or_state : Env → String → ℕ → String → Option AgentState → Chat AgentState
or_state env key organisation_id session_id (some state) = pure state
or_state env key organisation_id session_id none = do
  found ← session_row organisation_id session_id
  row ← or_raise found (api_error 404 "SESSION_NOT_FOUND" "session_id")
  load_row env key row

unfoldable pub get_session_state : Env → String → ℕ → Chat AgentState
get_session_state env session_id organisation_id = do
  let key = session_redis_key organisation_id session_id
  cached ← read_state key
  or_state env key organisation_id session_id cached

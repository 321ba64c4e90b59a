-- ===== src/Sessions/Begin.antt =====
-- services/sessions/session_service.py: how a conversation is begun, or resumed.
use adhikar_ai.Prelude.{
  ℕ, String, ◌+◌, Option, none, some, [], ◌∷◌, ◌++◌, nat_eq, string_eq, option_eq, leb,
  if◌then◌else◌,
}
use adhikar_ai.Prelude.Result.{api_error}
use adhikar_ai.Prelude.Exec.{pure, gets, or_raise, modify, commit, raise_if, ◌>>=◌, ◌>>◌}
use adhikar_ai.Prelude.Text.{is_empty, prepend, str_nat}
use adhikar_ai.Value.{Value, null, text}
use adhikar_ai.Schemes.{ensure_organisation}
use adhikar_ai.Agent.Confidence.{percent}
use adhikar_ai.Agent.Question.{AgentState}
use adhikar_ai.Sessions.{
  Household, ProfileRow, ConversationSession, ConversationTables, Chat, Env, internal_error,
  session_ttl_seconds, session_redis_key, write_state, reading, get_profile, add_profile,
}
use adhikar_ai.Sessions.State.{column, profile_model, new_profile, session_row, state_from_db}

pub record CreateSessionRequest : Type 0 where
  pub organisation_id : ℕ
  pub session_id : Option String
  pub language_code : String

pub record CreateSessionResponse : Type 0 where
  pub session_id : String
  pub profile_id : Option ℕ
  pub household_id : Option ℕ
  pub greeting : String
  pub profile_completeness : ℕ

-- `request.session_id or f"sess_…"`
abbrev pub or_fresh : Env → Option String → String
or_fresh env none = env.session_id
or_fresh env (some id) = if is_empty id then env.session_id else id

abbrev name_of : Option ProfileRow → Value
name_of none = null
name_of (some row) = column row "display_name"

abbrev greeting_for : Value → String
greeting_for (text name) =
    if is_empty name
    then "Namaste. I remember your previous answers."
    else prepend "Namaste " (
        prepend name
          ". I remember your profile. Do you want to continue checking schemes for you or someone in your family?")
greeting_for _ = "Namaste. I remember your previous answers."

abbrev pub resumed : String → String → ConversationSession → AgentState → Chat CreateSessionResponse
resumed key session_id row state = do
  write_state key state
  profile ← gets (get_profile row.primary_profile_id)
  pure (record {
    session_id = session_id;
    profile_id = row.primary_profile_id;
    household_id = row.household_id;
    greeting = greeting_for (name_of profile);
    profile_completeness = row.profile_completeness;
  })

abbrev pub resume_session : Env → String → String → ConversationSession → Chat CreateSessionResponse
resume_session env key session_id row = do
  raise_if (leb row.expires_at env.now) (api_error 410 "SESSION_EXPIRED" "session_id")
  state ← state_from_db env row
  resumed key session_id row state

abbrev pub new_session : Env → CreateSessionRequest → String → String → ConversationSession
new_session env request session_id key = record {
  id = env.row_id;
  organisation_id = request.organisation_id;
  session_id = session_id;
  household_id = some env.household_id;
  primary_profile_id = some env.profile_id;
  active_profile_id = some env.profile_id;
  language_code = request.language_code;
  confidence_score = percent 0;
  profile_completeness = 0;
  asked_fields = [];
  remaining_required_fields = [];
  redis_key = key;
  expires_at = env.now + session_ttl_seconds;
}

abbrev new_household : Env → CreateSessionRequest → Household
new_household env request = record {
  id = env.household_id;
  organisation_id = request.organisation_id;
  state_code = none;
  district = none;
}

abbrev pub begin_session : Env → CreateSessionRequest → String → String → Chat CreateSessionResponse
begin_session env request key session_id = do
  let profile = new_profile env.profile_id request.organisation_id (some env.household_id) []
  modify λ (t : ConversationTables). record t {
    households = t.households ++ new_household env request ∷ [];
  }
  modify (add_profile profile)
  modify λ (t : ConversationTables). record t {
    sessions = t.sessions ++ new_session env request session_id key ∷ [];
  }
  commit
  user_profile ← or_raise (profile_model env.validate (some profile)) internal_error
  write_state key (record {
    session_id = session_id;
    organisation_id = request.organisation_id;
    messages = [];
    user_profile = user_profile;
    household_id = some env.household_id;
    members = user_profile ∷ [];
    active_member_id = str_nat env.profile_id;
    asked_fields = [];
    remaining_required_fields = [];
    profile_completeness = 0;
    language_code = request.language_code;
    turn_count_since_result = 0;
    pending_confirmation = none;
  })
  pure (record {
    session_id = session_id;
    profile_id = some env.profile_id;
    household_id = some env.household_id;
    greeting = "Namaste. Tell me about your situation, and I will check schemes for you.";
    profile_completeness = 0;
  })

unfoldable pub get_or_create_session : Env → CreateSessionRequest → Chat CreateSessionResponse
get_or_create_session env request = do
  reading (ensure_organisation request.organisation_id)
  let session_id = or_fresh env request.session_id
  let key = session_redis_key request.organisation_id session_id
  row ← session_row request.organisation_id session_id
  elim row [
    | some found ↦ resume_session env key session_id found
    | none ↦ begin_session env request key session_id
  ]

-- ===== src/Sessions.antt =====
-- The conversations of citizens: db/models/conversation.py, profile.py, profile_event.py and household.py,
-- and the store of services/sessions/redis_store.py. UUIDs are numbers, times are in seconds.
pub mod State
pub mod Begin
pub mod Profile
pub mod Patch
pub mod Households
pub mod Turn
pub mod Members
pub mod Reply
pub mod Pipeline
pub mod Requests
pub mod Tests
use adhikar_ai.Prelude.{
  ℕ, String, Bool, Option, none, some, List, [], ◌∷◌, ◌++◌, string_eq, find, nat_eq, ◌==◌,
}
use adhikar_ai.Prelude.Dict.{lookup, insert}
use adhikar_ai.Prelude.Result.{ApiError, ok}
use adhikar_ai.Prelude.Exec.{Exec, gets, modify, begin}
use adhikar_ai.Prelude.Text.{prepend, str_nat}
use adhikar_ai.Value.{Value}
use adhikar_ai.Schema.{UserProfileInput}
use adhikar_ai.Db.Tables.{Tables, update_rows}
use adhikar_ai.Eligibility.Matcher.{MatchProfileResponse}
use adhikar_ai.Agent.{ProfileDict, HouseholdMemberProfile}
use adhikar_ai.Agent.Confidence.{Confidence}
use adhikar_ai.Agent.Question.{PendingFact, AgentState}
use adhikar_ai.Agent.Extraction.Payload.{ModelSettings}

-- The answer of the matcher with the candidates that it was given.
pub record MatchSnapshot : Type 0 where
  pub request_id : String
  pub result : MatchProfileResponse
  pub candidate_scheme_ids : List String
  pub candidate_search_mode : String

pub record Household : Type 0 where
  pub id : ℕ
  pub organisation_id : ℕ
  pub state_code : Option String
  pub district : Option String

-- The columns that `_profile_model` reads are kept by their names.
pub record ProfileRow : Type 0 where
  pub id : ℕ
  pub organisation_id : ℕ
  pub household_id : Option ℕ
  pub columns : ProfileDict
  pub last_match_snapshot : Option MatchSnapshot

pub record ConversationSession : Type 0 where
  pub id : ℕ
  pub organisation_id : ℕ
  pub session_id : String
  pub household_id : Option ℕ
  pub primary_profile_id : Option ℕ
  pub active_profile_id : Option ℕ
  pub language_code : String
  pub confidence_score : Confidence
  pub profile_completeness : ℕ
  pub asked_fields : List String
  pub remaining_required_fields : List String
  pub redis_key : String
  pub expires_at : ℕ

-- `payload` of a reply, which is also kept with the message.
pub data ReplyPayload : Type 0 where
  no_payload : ReplyPayload
  error_code : String → ReplyPayload
  clarified : PendingFact → List String → String → ReplyPayload
  asked : String → List String → String → ReplyPayload
  matched : MatchSnapshot → ReplyPayload

pub record ConversationMessage : Type 0 where
  pub organisation_id : ℕ
  pub conversation_session_id : ℕ
  pub role : String
  pub content : String
  pub language_code : String
  pub structured_payload : ReplyPayload

-- The values before or after a change: of columns, or of the snapshot.
pub data EventValues : Type 0 where
  values : List (String × Value) → EventValues
  snapshot : Option MatchSnapshot → EventValues

pub record ProfileEvent : Type 0 where
  pub organisation_id : ℕ
  pub profile_id : ℕ
  pub event_type : String
  pub source : String
  pub changed_fields : List String
  pub previous_values : EventValues
  pub new_values : EventValues

pub record ZeroMatchEvent : Type 0 where
  pub organisation_id : ℕ
  pub conversation_session_id : ℕ
  pub profile_id : Option ℕ
  pub original_query_text : String
  pub language_code : String
  pub profile_snapshot : ProfileDict

-- The store holds the state that is encoded in it; an entry that has expired is absent.
pub record ConversationTables : Type 0 where
  pub schemes : Tables
  pub households : List Household
  pub profiles : List ProfileRow
  pub sessions : List ConversationSession
  pub messages : List ConversationMessage
  pub profile_events : List ProfileEvent
  pub zero_match_events : List ZeroMatchEvent
  pub redis : List (String × AgentState)

abbrev pub Chat : Type 0 → Type 0
Chat A = Exec ConversationTables A

-- What a request takes from outside: the clock, fresh ids, the settings, pydantic's validation of the two
-- models of a profile, the order of the database's collation, and the answers of the language model and of
-- the semantic search. A search that finds no index of the schemes, or a broken one, rebuilds it, and the
-- rebuild commits the session that it is given. The store may fail where a turn writes its last state.
pub record Env : Type 0 where
  pub now : ℕ
  pub today : ℕ
  pub session_id : String
  pub household_id : ℕ
  pub profile_id : ℕ
  pub row_id : ℕ
  pub member_id : ℕ
  pub child_id : ℕ
  pub request_id : String
  pub max_questions : ℕ
  pub model : ModelSettings
  pub validate : ProfileDict → Option HouseholdMemberProfile
  pub validate_input : ProfileDict → Option UserProfileInput
  pub name_le : String → String → Bool
  pub answers : ℕ → Option Value
  pub search_results : List (String × String)
  pub index_rebuilt : Bool
  pub last_write_fails : Bool

-- An exception that is no ApiError.
abbrev pub internal_error : ApiError
internal_error = record { status_code = 500; code = "INTERNAL_SERVER_ERROR"; field = none }

abbrev pub session_ttl_seconds : ℕ
session_ttl_seconds = 2592000

abbrev pub session_redis_key : ℕ → String → String
session_redis_key organisation_id session_id =
    prepend "session:" (prepend (str_nat organisation_id) (prepend ":" session_id))

-- `RedisSessionStore.read_state`, of the state.
abbrev pub read_state : String → Chat (Option AgentState)
read_state key = gets λ (t : ConversationTables). lookup key t.redis

abbrev pub put_state : String → AgentState → ConversationTables → ConversationTables
put_state key state t = record t { redis = insert key state t.redis }

-- `write_state`: the store is outside of the transaction.
abbrev pub write_state : String → AgentState → Chat (Unit {0})
write_state key state s =
    (ok tt, record { view = put_state key state s.view; durable = put_state key state s.durable })

-- A query of services/schemes.py, which changes nothing.
abbrev pub reading : {A : Type 0} → Exec Tables A → Chat A
reading m s = ((m (begin s.view.schemes)).0, s)

abbrev pub get_profile : Option ℕ → ConversationTables → Option ProfileRow
get_profile none t = none
get_profile (some id) t = find (λ (p : ProfileRow). p.id == id) t.profiles

abbrev pub add_profile : ProfileRow → ConversationTables → ConversationTables
add_profile row t = record t { profiles = t.profiles ++ row ∷ [] }

abbrev pub add_profile_event : ProfileEvent → ConversationTables → ConversationTables
add_profile_event event t = record t { profile_events = t.profile_events ++ event ∷ [] }

abbrev pub add_message : ConversationMessage → ConversationTables → ConversationTables
add_message message t = record t { messages = t.messages ++ message ∷ [] }

-- Assignments to the attributes of a row.
abbrev pub set_session :
    ℕ → (ConversationSession → ConversationSession) → ConversationTables → ConversationTables
set_session id f t = record t {
  sessions = update_rows (λ (row : ConversationSession). row.id == id) f t.sessions;
}

abbrev pub set_profile : ℕ → (ProfileRow → ProfileRow) → ConversationTables → ConversationTables
set_profile id f t = record t {
  profiles = update_rows (λ (row : ProfileRow). row.id == id) f t.profiles;
}

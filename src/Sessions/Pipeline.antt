-- ===== src/Sessions/Pipeline.antt =====
-- services/sessions/session_service.py: the node of a turn that stores it, and the turn as a whole, with the
-- order of agent/graph.py.
pub mod Steps
pub mod Loading
pub mod Search
pub mod Ending
pub mod Whole
use adhikar_ai.Prelude.{
  ℕ, String, ◌+◌, Option, none, some, List, [], ◌∷◌, ◌==◌, nat_eq, string_eq, ltb, find,
  if◌then◌else◌,
}
use adhikar_ai.Prelude.Result.{api_error}
use adhikar_ai.Prelude.Exec.{pure, gets, or_raise, modify, commit, raise_if, ◌>>=◌, ◌>>◌}
use adhikar_ai.Prelude.Text.{str_nat}
use adhikar_ai.Agent.Confidence.{Confidence, percent, exceeds}
use adhikar_ai.Agent.Question.{AgentState}
use adhikar_ai.Agent.Facts.{ExtractedFact}
use adhikar_ai.Sessions.{
  MatchSnapshot, ProfileRow, ConversationSession, ConversationMessage, ReplyPayload, error_code,
  snapshot, ConversationTables, Chat, Env, internal_error, session_ttl_seconds, write_state,
  set_profile, set_session, add_profile_event, add_message,
}
use adhikar_ai.Sessions.State.{resolve_organisation_id}
use adhikar_ai.Sessions.Profile.{persist_profile, run_match}
use adhikar_ai.Sessions.Turn.{
  ChatInput, Context, message_of, add_to_messages, is_too_long, load_session, retrieve_candidates,
  process_pending, merge_profile_update, measure_completeness,
}
use adhikar_ai.Sessions.Members.{detect_event}
use adhikar_ai.Sessions.Reply.{OutputType, error, Choice, choose_response}

pub record ChatOutput : Type 0 where
  pub output_type : OutputType
  pub content : String
  pub profile_completeness : ℕ
  pub session_id : String
  pub payload : ReplyPayload

-- `max(...)`, which keeps what it has unless the next is greater: a NaN stays if it comes first.
abbrev highest_from : Confidence → List ExtractedFact → Confidence
highest_from best [] = best
highest_from best (fact ∷ facts) =
    highest_from (if exceeds fact.confidence best then fact.confidence else best) facts

abbrev highest_confidence : List ExtractedFact → Confidence
highest_confidence [] = percent 0
highest_confidence (fact ∷ facts) = highest_from fact.confidence facts

-- The profile whose id the text stands for.
abbrev pub profile_named : String → ConversationTables → Option ℕ
profile_named id t = elim (find (λ (p : ProfileRow). str_nat p.id == id) t.profiles) [
  | none ↦ none
  | some row ↦ some row.id
]

-- The snapshot of the profile, with an event. Every match has a request id of its own, so that a snapshot
-- never equals the one before it.
abbrev pub store_snapshot : ℕ → ProfileRow → MatchSnapshot → ConversationTables → ConversationTables
store_snapshot organisation_id row m t =
    add_profile_event
      (record {
        organisation_id = organisation_id;
        profile_id = row.id;
        event_type = "match_snapshot_update";
        source = "conversation";
        changed_fields = "last_match_snapshot" ∷ [];
        previous_values = snapshot row.last_match_snapshot;
        new_values = snapshot (some m);
      })
      (set_profile row.id (λ (p : ProfileRow). record p { last_match_snapshot = some m }) t)

abbrev pub updated_session :
    Env → ChatInput → Context → AgentState → ConversationSession → ConversationSession
updated_session env input c state row = record row {
  profile_completeness = state.profile_completeness;
  confidence_score = highest_confidence c.extracted.facts;
  asked_fields = state.asked_fields;
  remaining_required_fields = state.remaining_required_fields;
  language_code = input.language_code;
  expires_at = env.now + session_ttl_seconds;
}

abbrev pub reply_message : ChatInput → Context → Choice → ConversationMessage
reply_message input c choice = record (message_of input c.row "assistant" choice.content) {
  structured_payload = choice.payload;
}

abbrev pub turn_output : ChatInput → Choice → AgentState → ChatOutput
turn_output input choice state = record {
  output_type = choice.output_type;
  content = choice.content;
  profile_completeness = state.profile_completeness;
  session_id = input.session_id;
  payload = choice.payload;
}

-- The rows and the entry of the store that the turn ends with.
abbrev pub store_turn :
    Env → ChatInput → Context → MatchSnapshot → Choice → AgentState → ProfileRow → Chat ChatOutput
store_turn env input c m choice state profile = do
  modify (store_snapshot c.organisation_id profile m)
  modify (set_session c.row.id (updated_session env input c state))
  modify (add_message (reply_message input c choice))
  commit
  raise_if env.last_write_fails internal_error
  write_state c.row.redis_key state
  pure (turn_output input choice state)

abbrev pub persist_member :
    Env → ChatInput → Context → MatchSnapshot → Choice → AgentState → ℕ → Chat ChatOutput
persist_member env input c m choice state member = do
  profile ← persist_profile member c.profile_data c.organisation_id "conversation"
  store_turn env input c m choice state profile

-- `_node_persist_session`; "self" is no UUID.
unfoldable pub persist_session :
    Env → ChatInput → Context → MatchSnapshot → Choice → Chat ChatOutput
persist_session env input c m choice = do
  let state = add_to_messages "assistant" choice.content choice.state
  raise_if (state.active_member_id == "self") internal_error
  found ← gets (profile_named state.active_member_id)
  member ← or_raise found (api_error 404 "PROFILE_NOT_FOUND" "profile_id")
  persist_member env input c m choice state member

abbrev pub too_long : ChatInput → ChatOutput
too_long input = record {
  output_type = error;
  content = "Please send a shorter message.";
  profile_completeness = 0;
  session_id = input.session_id;
  payload = error_code "MESSAGE_TOO_LONG";
}

-- The nodes after `load_session`, in the order of `NODE_ORDER` of agent/graph.py.
unfoldable pub take_turn : Env → ChatInput → Context → Chat ChatOutput
take_turn env input loaded = do
  found ← detect_event env input loaded
  (confirmed, confirmation) ← process_pending input found
  candidates ← retrieve_candidates env input loaded.organisation_id
  (merged, pending) ← merge_profile_update confirmed confirmation
  c ← measure_completeness env candidates merged
  m ←
      run_match env c.organisation_id c.profile_data candidates.rules candidates.ids
        candidates.search_mode
  choice ← choose_response env input c candidates m pending
  persist_session env input c m choice

-- `handle_chat_turn`
unfoldable pub handle_chat_turn : Env → ChatInput → Chat ChatOutput
handle_chat_turn env input =
    let answered : ℕ → Chat ChatOutput = λ organisation_id. do
      loaded ← load_session env input organisation_id
      take_turn env input loaded
    in do
      organisation_id ← resolve_organisation_id input.session_id input.organisation_id
      if is_too_long input then pure (too_long input) else answered organisation_id

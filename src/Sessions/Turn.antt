-- ===== src/Sessions/Turn.antt =====
-- services/sessions/session_service.py: the nodes of a turn, up to the match, that are not in Sessions.Members. A node
-- that finds an output in the context returns it unchanged; here only `load_session` ends the turn early.
use adhikar_ai.Prelude.{
  ℕ, suc, String, Bool, Option, none, some, List, [], ◌∷◌, ◌++◌, map, nat_eq, string_eq, option_eq,
  filter, length, ltb, leb, if◌then◌else◌,
}
use adhikar_ai.Prelude.Dict.{insert}
use adhikar_ai.Prelude.Result.{api_error}
use adhikar_ai.Prelude.Exec.{pure, or_raise, modify, commit, ◌>>=◌, ◌>>◌}
use adhikar_ai.Prelude.Text.{text_length}
use adhikar_ai.Eligibility.Engine.{SchemeWithRule}
use adhikar_ai.Schemes.Listing.{active_scheme_rules, active_scheme_rules_for_ids}
use adhikar_ai.Agent.{ProfileDict, profile_dump, compute_profile_completeness}
use adhikar_ai.Agent.Confidence.{at_least}
use adhikar_ai.Agent.Question.{PendingFact, AgentState}
use adhikar_ai.Agent.Facts.{
  ExtractedFact, ExtractedFacts, is_medium, merge_facts, prepare_pending_confirmation,
  merge_confirmed_pending_fact,
}
use adhikar_ai.Agent.Extraction.{integer}
use adhikar_ai.Agent.Extraction.Structured.{is_structured}
use adhikar_ai.Agent.Extraction.Payload.{extract_facts}
use adhikar_ai.Sessions.{
  ConversationSession, ConversationMessage, no_payload, Chat, Env, internal_error, reading,
  add_message,
}
use adhikar_ai.Sessions.State.{session_row, get_session_state}

pub record ChatInput : Type 0 where
  pub organisation_id : Option ℕ
  pub session_id : String
  pub message : String
  pub language_code : String

-- What the nodes hand on.
pub record Context : Type 0 where
  pub organisation_id : ℕ
  pub state : AgentState
  pub row : ConversationSession
  pub extracted : ExtractedFacts
  pub profile_data : ProfileDict

abbrev pub message_of : ChatInput → ConversationSession → String → String → ConversationMessage
message_of input row role content = record {
  organisation_id = row.organisation_id;
  conversation_session_id = row.id;
  role = role;
  content = content;
  language_code = input.language_code;
  structured_payload = no_payload;
}

abbrev pub add_to_messages : String → String → AgentState → AgentState
add_to_messages role content state = record state {
  messages = state.messages ++ (role, content) ∷ [];
}

abbrev pub is_too_long : ChatInput → Bool
is_too_long input = ltb 2000 (text_length input.message)

-- What the first nodes put into the context.
abbrev pub context_of : Env → ChatInput → ℕ → AgentState → ConversationSession → Context
context_of env input organisation_id state row =
    let loaded = add_to_messages "user" input.message state in
    record {
      organisation_id = organisation_id;
      state = loaded;
      row = row;
      extracted = extract_facts env.model env.answers input.message;
      profile_data = profile_dump loaded.user_profile;
    }

abbrev pub load_context : Env → ChatInput → ℕ → AgentState → Chat Context
load_context env input organisation_id state = do
  found ← session_row organisation_id input.session_id
  row ← or_raise found (api_error 404 "SESSION_NOT_FOUND" "session_id")
  modify (add_message (message_of input row "user" input.message))
  pure (context_of env input organisation_id state row)

-- `_node_load_session` for a message that is not too long, and `_node_extract_profile_facts`.
unfoldable pub load_session : Env → ChatInput → ℕ → Chat Context
load_session env input organisation_id = do
  state ← get_session_state env input.session_id organisation_id
  load_context env input organisation_id state

-- The rules that the turn looks at.
pub record Candidates : Type 0 where
  pub rules : List SchemeWithRule
  pub ids : List String
  pub search_mode : String

abbrev scheme_ids : List SchemeWithRule → List String
scheme_ids rules = map (λ (item : SchemeWithRule). item.scheme.id) rules

abbrev pub all_active : List SchemeWithRule → Candidates
all_active rules = record { rules = rules; ids = scheme_ids rules; search_mode = "all_active" }

abbrev first_mode : List (String × String) → String
first_mode [] = "none"
first_mode ((_, mode) ∷ _) = mode

-- `search_schemes` of services/search/faiss_index.py: the results are given, and a rebuild of the index commits
-- what the turn has changed so far; the rows of the index itself are in no table here.
abbrev pub search_schemes : Env → Chat (List (String × String))
search_schemes env = do if env.index_rebuilt then commit else pure tt; pure env.search_results

-- The rules of the schemes that the search finds, or all rules when it finds fewer than three.
abbrev pub found_rules : Env → ℕ → List SchemeWithRule → List (String × String) → Chat Candidates
found_rules env organisation_id all_rules results =
    let ids = map (λ (r : String × String). r.0) results in
    let found : Chat Candidates = do
      rules ← reading (active_scheme_rules_for_ids env.name_le env.today organisation_id ids)
      pure (record { rules = rules; ids = ids; search_mode = first_mode results })
    in if leb 3 (length ids) then found else pure (all_active all_rules)

abbrev pub searched_rules : Env → ℕ → List SchemeWithRule → Chat Candidates
searched_rules env organisation_id all_rules = do
  results ← search_schemes env
  found_rules env organisation_id all_rules results

-- `_node_retrieve_semantic_candidates`
unfoldable pub retrieve_candidates : Env → ChatInput → ℕ → Chat Candidates
retrieve_candidates env input organisation_id = do
  all_rules ← reading (active_scheme_rules env.name_le env.today organisation_id)
  if is_structured input.message
      then pure (all_active all_rules)
      else searched_rules env organisation_id all_rules

abbrev is_sure : ExtractedFact → Bool
is_sure fact = at_least 75 fact.confidence

-- `_node_process_pending_confirmation`: whether the message was a yes or a no to a pending fact.
unfoldable pub process_pending : ChatInput → Context → Chat (Context × Option Bool)
process_pending input c = do
  answer ←
      or_raise (merge_confirmed_pending_fact c.state input.message c.profile_data) internal_error
  pure (record c { state = answer.state; profile_data = answer.profile }, answer.result)

abbrev with_pending : Option PendingFact → Context → Context
with_pending pending c = record c { state = record c.state { pending_confirmation = pending } }

-- `_node_merge_profile_update`: the context, and the fact that the turn asks about.
unfoldable pub merge_profile_update : Context → Option Bool → Chat (Context × Option PendingFact)
merge_profile_update c (some _) = pure (c, none)
merge_profile_update c none = do
  merged ← or_raise (merge_facts c.profile_data (filter is_sure c.extracted.facts)) internal_error
  let pending = prepare_pending_confirmation c.state (filter is_medium c.extracted.facts)
  pure (with_pending pending (record c { profile_data = merged }), pending)

-- `_node_compute_profile_completeness`
unfoldable pub measure_completeness : Env → Candidates → Context → Chat Context
measure_completeness env candidates c = do
  let completeness =
      compute_profile_completeness c.profile_data
        (map (λ (item : SchemeWithRule). item.rule) candidates.rules)
  let profile_data = insert "profile_completeness" (integer completeness) c.profile_data
  profile ← or_raise (env.validate profile_data) internal_error
  pure (record c {
    profile_data = profile_data;
    state = record c.state {
      profile_completeness = completeness;
      user_profile = profile;
      turn_count_since_result = suc c.state.turn_count_since_result;
    };
  })

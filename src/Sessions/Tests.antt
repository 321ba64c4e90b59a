-- ===== src/Sessions/Tests.antt =====
-- Conversations of a concrete citizen.
use adhikar_ai.Prelude.{
  ℕ, ◌/◌, ◌++◌, String, Option, none, some, List, [], ◌∷◌, true, false, string_eq, refl, ◌≡◌, inr,
  length,
}
use adhikar_ai.Prelude.Dict.{lookup}
use adhikar_ai.Prelude.Int.{pos}
use adhikar_ai.Prelude.Text.{str_leb, text_length}
use adhikar_ai.Prelude.Result.{Result, ok, err}
use adhikar_ai.Prelude.Exec.{run}
use adhikar_ai.Value.{Value, Fields, text, number, object, end, field}
use adhikar_ai.Schema.{UserProfileInput}
use adhikar_ai.Schemes.Tests.{one_scheme}
use adhikar_ai.Agent.{ProfileDict, HouseholdMemberProfile}
use adhikar_ai.Sessions.{ConversationTables, Env, internal_error}
use adhikar_ai.Sessions.State.{get_session_state}
use adhikar_ai.Sessions.Begin.{CreateSessionRequest, CreateSessionResponse, get_or_create_session}
use adhikar_ai.Sessions.Turn.{ChatInput}
use adhikar_ai.Agent.Question.{AgentState}
use adhikar_ai.Sessions.Reply.{question}
use adhikar_ai.Sessions.Requests.{start_session, Reachable, no_sessions, then_request}
use adhikar_ai.Sessions.Requests.Progress.{handle_chat_turn_raises, handle_chat_turn_remembers}
use adhikar_ai.Sessions.Pipeline.{ChatOutput, too_long, handle_chat_turn}

abbrev text_of : Option Value → Option String
text_of (some (text s)) = some s
text_of _ = none

abbrev amount_of : Option Value → Option ℕ
amount_of (some (number (pos n))) = some n
amount_of _ = none

abbrev count_of : Option Value → Option ℕ
count_of (some (number (pos n))) = some (n / 100)
count_of _ = none

abbrev entries : Fields → List (String × Value)
entries end = []
entries (field k v fs) = (k, v) ∷ entries fs

abbrev attributes_of : Option Value → List (String × Value)
attributes_of (some (object fs)) = entries fs
attributes_of _ = []

abbrev or_else {ℓ} : {A : Type ℓ} → Option A → A → A
or_else none d = d
or_else (some a) d = a

-- A validation that accepts every dictionary.
abbrev member_model : ProfileDict → Option HouseholdMemberProfile
member_model d = some (record {
  id = text_of (lookup "id" d);
  display_name = text_of (lookup "display_name" d);
  relationship_to_primary = or_else (text_of (lookup "relationship_to_primary" d)) "self";
  age = count_of (lookup "age" d);
  gender = text_of (lookup "gender" d);
  caste_category = text_of (lookup "caste_category" d);
  annual_income = count_of (lookup "annual_income" d);
  land_holding_acres = amount_of (lookup "land_holding_acres" d);
  occupation_type = text_of (lookup "occupation_type" d);
  marital_status = text_of (lookup "marital_status" d);
  state_code = text_of (lookup "state_code" d);
  district = text_of (lookup "district" d);
  existing_scheme_ids = [];
  custom_attributes = attributes_of (lookup "custom_attributes" d);
  profile_completeness = or_else (count_of (lookup "profile_completeness" d)) 0;
})

abbrev input_model : ProfileDict → Option UserProfileInput
input_model d = some (record {
  age = count_of (lookup "age" d);
  gender = text_of (lookup "gender" d);
  caste_category = text_of (lookup "caste_category" d);
  annual_income = count_of (lookup "annual_income" d);
  land_holding_acres = amount_of (lookup "land_holding_acres" d);
  occupation_type = text_of (lookup "occupation_type" d);
  marital_status = text_of (lookup "marital_status" d);
  state_code = text_of (lookup "state_code" d);
  district = text_of (lookup "district" d);
  existing_scheme_ids = [];
  custom_attributes = attributes_of (lookup "custom_attributes" d);
})

abbrev env : Env
env = record {
  now = 1000;
  today = 9;
  session_id = "sess_1";
  household_id = 5;
  profile_id = 6;
  row_id = 7;
  member_id = 8;
  child_id = 9;
  request_id = "req_1";
  max_questions = 8;
  model = record { llm_provider = "none"; agent_json_repair_retries = 1 };
  validate = member_model;
  validate_input = input_model;
  name_le = str_leb;
  answers = λ n. none;
  search_results = [];
  index_rebuilt = false;
  last_write_fails = false;
}

abbrev empty_tables : ConversationTables
empty_tables = record {
  schemes = one_scheme;
  households = [];
  profiles = [];
  sessions = [];
  messages = [];
  profile_events = [];
  zero_match_events = [];
  redis = [];
}

abbrev begin_request : CreateSessionRequest
begin_request = record { organisation_id = 1; session_id = none; language_code = "hi" }

abbrev begun : ConversationTables
begun = (run (get_or_create_session env begin_request) empty_tables).1

abbrev says : String → ChatInput
says message = record {
  organisation_id = some 1;
  session_id = "sess_1";
  message = message;
  language_code = "hi";
}

abbrev after_facts : Result ChatOutput × ConversationTables
after_facts =
    run
      (handle_chat_turn env (says "I am a widow from Bihar, 45 years old. I earn around Rs 50000."))
      begun

abbrev after_mother : Result ChatOutput × ConversationTables
after_mother = run (handle_chat_turn env (says "My mother is 70")) after_facts.1

abbrev strict : Env
strict = record env { validate_input = λ d. none }

abbrev refused_mother : Result ChatOutput × ConversationTables
refused_mother = run (handle_chat_turn strict (says "My mother is 70")) begun

-- The same turn where the search rebuilds the index first: the message stays.
abbrev rebuilt_mother : Result ChatOutput × ConversationTables
rebuilt_mother =
    run (handle_chat_turn (record strict { index_rebuilt = true }) (says "My mother is 70")) begun

abbrev greets : Result ChatOutput × ConversationTables
greets = run (handle_chat_turn env (says "hello")) begun

abbrev reply_of : Result ChatOutput → ChatOutput
reply_of (ok out) = out
reply_of (err _) = too_long (says "")

runs_lem :
    (greets.0 ≡ ok (reply_of greets.0))
    × (((reply_of greets.0).output_type ≡ question)
        × ((refused_mother.0 ≡ err internal_error) × (length rebuilt_mother.1.messages ≡ 1)))
unfolding adhikar_ai.Agent.has_value adhikar_ai.Agent.compute_profile_completeness
    adhikar_ai.Schemes.Listing.with_rules adhikar_ai.Schemes.Listing.active_scheme_rules
    adhikar_ai.Prelude.Dict.lookup adhikar_ai.Prelude.Dict.insert
    adhikar_ai.Prelude.Text.strip_prefix adhikar_ai.Prelude.Text.digits_from
    adhikar_ai.Prelude.Sorting.sort adhikar_ai.Sessions.Profile.persist_profile
    adhikar_ai.Sessions.Profile.run_match adhikar_ai.Sessions.Turn.load_session
    adhikar_ai.Sessions.Members.switch_member adhikar_ai.Sessions.Members.detect_event
    adhikar_ai.Sessions.Turn.retrieve_candidates adhikar_ai.Sessions.Turn.process_pending
    adhikar_ai.Sessions.Turn.merge_profile_update adhikar_ai.Sessions.Turn.measure_completeness
    adhikar_ai.Sessions.State.profile_models adhikar_ai.Sessions.State.resolve_organisation_id
    adhikar_ai.Sessions.State.get_session_state adhikar_ai.Sessions.Begin.get_or_create_session
    adhikar_ai.Sessions.Pipeline.persist_session adhikar_ai.Sessions.Pipeline.take_turn
    adhikar_ai.Sessions.Pipeline.handle_chat_turn adhikar_ai.Sessions.Reply.choose_response
    adhikar_ai.Agent.Facts.merge_facts adhikar_ai.Agent.Facts.prepare_pending_confirmation
    adhikar_ai.Agent.Facts.merge_confirmed_pending_fact
    adhikar_ai.Agent.LifeEvents.detect_life_event adhikar_ai.Agent.Extraction.member_reference
    adhikar_ai.Agent.Extraction.age_facts adhikar_ai.Agent.Extraction.state_facts
    adhikar_ai.Agent.Extraction.occupation_facts adhikar_ai.Agent.Extraction.marital_facts
    adhikar_ai.Agent.Extraction.gender_facts adhikar_ai.Agent.Extraction.income_facts
    adhikar_ai.Agent.Extraction.land_facts adhikar_ai.Agent.Extraction.Payload.extract_facts
    adhikar_ai.Agent.Extraction.Structured.extract
runs_lem = (refl, (refl, (refl, refl)))

begun-Reachable : Reachable begun
begun-Reachable =
    then_request (no_sessions empty_tables refl) env (start_session begin_request) refl

handle_chat_turn_raises_example :
    let after = (run (handle_chat_turn strict (says "My mother is 70")) begun).1 in
    record begun { redis = after.redis } ≡ after
handle_chat_turn_raises_example =
    handle_chat_turn_raises strict (says "My mother is 70") begun internal_error begun-Reachable
      (record { no_rebuild = inr refl; last_written = refl }) runs_lem.1.1.0

-- A month later.
abbrev later : Env
later = record env { now = 9000000 }

handle_chat_turn_remembers_example :
    (before state : AgentState) × (((run (get_session_state env "sess_1" 1) begun).0 ≡ ok before)
      × (((run (get_session_state later "sess_1" 1) greets.1).0 ≡ ok state)
          × ((state.messages
                ≡ before.messages
                  ++ ("user", "hello") ∷ ("assistant", (reply_of greets.0).content) ∷ [])
              × ((reply_of greets.0).profile_completeness ≡ state.profile_completeness))))
unfolding text_length
handle_chat_turn_remembers_example =
    handle_chat_turn_remembers env later (says "hello") 1 begun (reply_of greets.0) begun-Reachable
      refl refl runs_lem.0

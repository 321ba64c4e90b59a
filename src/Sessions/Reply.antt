-- ===== src/Sessions/Reply.antt =====
-- services/sessions/session_service.py: the node of a turn that chooses the reply.
use adhikar_ai.Prelude.{
  ℕ, zero, suc, String, Bool, true, false, not, ◌-◌, ◌&&◌, ◌||◌, Option, none, some, List, [], ◌∷◌,
  ◌++◌, map, nat_eq, string_eq, contains, length, leb, nat_beq, is_some, if◌then◌else◌,
}
use Prim.Native.Char.{code}
use adhikar_ai.Prelude.Exec.{pure, modify, ◌>>◌}
use adhikar_ai.Prelude.Text.{prepend, strip_prefix, str_nat, text_length}
use adhikar_ai.Eligibility.Engine.{SchemeWithRule}
use adhikar_ai.Eligibility.Matcher.{MatchedScheme, NearMissScheme, MatchProfileResponse}
use adhikar_ai.Agent.Question.{PendingFact, AgentState, Question, select_next_question}
use adhikar_ai.Agent.Extraction.Payload.{str}
use adhikar_ai.Sessions.{
  MatchSnapshot, ReplyPayload, clarified, asked, matched, ZeroMatchEvent, ConversationTables, Chat,
  Env,
}
use adhikar_ai.Sessions.Turn.{ChatInput, Context, Candidates}

-- `s.replace(p, "")`; the number says how many characters are still to be dropped.
unfoldable pub remove_from : ℕ → String → String → String
remove_from n p String.[] = String.[]
remove_from (suc n) p (String.◌∷◌ c s) = remove_from n p s
remove_from zero p (String.◌∷◌ c s) =
    let dropped = remove_from (text_length p - 1) p s in
    let kept = String.◌∷◌ c (remove_from zero p s) in
    if is_some (strip_prefix p (String.◌∷◌ c s)) then dropped else kept

-- `s.replace("_", " ")`
unfoldable pub spaced : String → String
spaced String.[] = String.[]
spaced (String.◌∷◌ c s) = String.◌∷◌ (if nat_beq (code c) 95 then " " else c) (spaced s)

abbrev clarification : PendingFact → String
clarification pending = prepend "Should I use " (
    prepend (spaced (remove_from 0 "custom_attributes." pending.field))
      (prepend " as " (prepend (str pending.value) "?")))

abbrev plural : ℕ → String
plural n = if nat_beq n 1 then "" else "s"

-- `_format_snapshot`, and `format_match_result` of agent/result_formatter.py
abbrev format_lists : List MatchedScheme → List NearMissScheme → String
format_lists (first ∷ others) near =
    let count = length (first ∷ others) in
    prepend "You appear eligible for " (
      prepend (str_nat count) (
        prepend " scheme" (
          prepend (plural count)
            (prepend ". The strongest match is " (prepend first.scheme.name ".")))))
format_lists [] (first ∷ others) =
    prepend "You are close to qualifying for "
      (prepend first.scheme.name ". I will show what is missing.")
format_lists [] [] =
    "I could not find a matching scheme from the current list. You can try again after adding income, caste, disability, or pregnancy details."

unfoldable pub format_snapshot : MatchProfileResponse → String
format_snapshot result = format_lists result.matched_schemes result.near_miss_schemes

pub data OutputType : Type 0 where
  question result clarification_needed error : OutputType

-- What `_node_choose_response` puts into the context, with the state that it has changed.
pub record Choice : Type 0 where
  pub content : String
  pub output_type : OutputType
  pub payload : ReplyPayload
  pub state : AgentState

abbrev pub has_entries {ℓ} : {A : Type ℓ} → List A → Bool
has_entries [] = false
has_entries (_ ∷ _) = true

abbrev pub should_return_result : Env → AgentState → MatchProfileResponse → Bool
should_return_result env state r =
    (leb 75 state.profile_completeness
      && (has_entries r.matched_schemes
          || (has_entries r.near_miss_schemes || not (has_entries r.incomplete_schemes))))
    || leb env.max_questions state.turn_count_since_result

abbrev is_zero_match : MatchProfileResponse → Bool
is_zero_match r = not (has_entries r.matched_schemes) && not (has_entries r.near_miss_schemes)

abbrev zero_match : ChatInput → Context → ZeroMatchEvent
zero_match input c = record {
  organisation_id = c.organisation_id;
  conversation_session_id = c.row.id;
  profile_id = c.row.active_profile_id;
  original_query_text = input.message;
  language_code = input.language_code;
  profile_snapshot = c.profile_data;
}

abbrev add_zero_match :
    ChatInput → Context → MatchSnapshot → ConversationTables → ConversationTables
add_zero_match input c m t =
    if is_zero_match m.result
    then record t { zero_match_events = t.zero_match_events ++ zero_match input c ∷ [] }
    else t

abbrev add_asked : String → List String → List String
add_asked key fields = if contains key fields then fields else fields ++ key ∷ []

abbrev result_choice : Context → MatchSnapshot → Choice
result_choice c m = record {
  content = format_snapshot m.result;
  output_type = result;
  payload = matched m;
  state = record c.state { turn_count_since_result = 0 };
}

abbrev question_choice : Context → Candidates → Question → Choice
question_choice c candidates q = record {
  content = q.text;
  output_type = question;
  payload = asked q.asked_key candidates.ids candidates.search_mode;
  state = record c.state { asked_fields = add_asked q.asked_key c.state.asked_fields };
}

abbrev clarification_choice : Context → Candidates → PendingFact → Choice
clarification_choice c candidates pending = record {
  content = clarification pending;
  output_type = clarification_needed;
  payload = clarified pending candidates.ids candidates.search_mode;
  state = c.state;
}

abbrev next_question : Context → Candidates → Question
next_question c candidates =
    select_next_question c.state (map (λ (item : SchemeWithRule). item.rule) candidates.rules)

-- `_node_choose_response`
unfoldable pub choose_response :
    Env → ChatInput → Context → Candidates → MatchSnapshot → Option PendingFact → Chat Choice
choose_response env input c candidates m (some pending) =
    pure (clarification_choice c candidates pending)
choose_response env input c candidates m none =
    let returned : Chat Choice = do modify (add_zero_match input c m); pure (result_choice c m)
    in if should_return_result env c.state m.result
      then returned
      else pure (question_choice c candidates (next_question c candidates))

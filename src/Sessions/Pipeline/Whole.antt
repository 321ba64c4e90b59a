-- ===== src/Sessions/Pipeline/Whole.antt =====
-- A turn from its first node to its last, by services/sessions/session_service.py.
use adhikar_ai.Prelude.{
  suc, Bool, ◌≡◌, ◌<◌, refl, Option, some, [], ◌∷◌, ◌++◌, string_eq, All, arith,
}
use adhikar_ai.Prelude.Dict.{lookup}
use adhikar_ai.Prelude.Exec.{Session, ◌>>=◌}
use adhikar_ai.Prelude.Exec.After.{After, After-bind, After-weaken}
use adhikar_ai.Agent.Question.{PendingFact, AgentState}
use adhikar_ai.Sessions.{MatchSnapshot, ConversationTables, Chat, Env}
use adhikar_ai.Sessions.Profile.{run_match}
use adhikar_ai.Sessions.Turn.{
  ChatInput, Context, Candidates, process_pending, retrieve_candidates, merge_profile_update,
  measure_completeness,
}
use adhikar_ai.Sessions.Members.{detect_event}
use adhikar_ai.Sessions.Reply.{question, Choice, choose_response}
use adhikar_ai.Sessions.Pipeline.{ChatOutput, persist_session, take_turn}
use adhikar_ai.Sessions.Pipeline.Steps.{
  HasKey, InTurn, Q, detect_event-After, process_pending-After,
}
use adhikar_ai.Sessions.Pipeline.Search.{
  Kept, R, untouched-Kept, retrieve_candidates-After, merge_profile_update-After,
}
use adhikar_ai.Sessions.Pipeline.Ending.{
  Counted, Chosen, Stored, C, measure_completeness-After, choose_response-After,
  persist_session-After,
}

-- What a turn that has been answered leaves of the conversation that it began with.
pub record Answered (env : Env) (loaded : Context) (out : ChatOutput)
    (s : Session ConversationTables) : Type 0 where
  pub state : AgentState
  pub keys_right : All HasKey s.durable.sessions
  pub stored : lookup loaded.row.redis_key s.durable.redis ≡ some state
  pub messages : state.messages ≡ loaded.state.messages ++ ("assistant", out.content) ∷ []
  pub question_early :
      out.output_type ≡ question
      → (state.turn_count_since_result ≡ suc loaded.state.turn_count_since_result)
        × (state.turn_count_since_result < env.max_questions)
  pub completeness : out.profile_completeness ≡ state.profile_completeness

module _ (start : ConversationTables) (env : Env) (input : ChatInput) (loaded : Context) where
  abbrev A : ChatOutput → Session ConversationTables → Type 0
  A out s = Answered env loaded out s

  abbrev E : Session ConversationTables → Type 0
  E s = Kept start env input s

  stored-Answered :
      (c : Context) (choice : Choice) (out : ChatOutput) (t : Session ConversationTables)
      → Counted loaded c
      → Chosen env c choice
      → Stored c.row.redis_key choice out t
      → A out t
  stored-Answered c choice out t counted chosen stored = record {
    state = stored.state;
    keys_right = stored.keys_right;
    stored = ground (arith, stored.stored, counted.same_row);
    messages = ground (arith, stored.messages, chosen.same_messages, counted.same_messages);
    question_early = λ e.
        ground (arith, stored.same_type, stored.turns, counted.next_turn, chosen.question_early);
    completeness = stored.completeness;
  }

  choosing-After :
      (c : Context) (candidates : Candidates) (pending : Option PendingFact) (m : MatchSnapshot)
      (s : Session ConversationTables)
      → C start env input loaded c s
      → After A E
          ((choose_response env input c candidates m pending >>= persist_session env input c m) s)
  choosing-After c candidates pending m s h =
      After-bind A E (choose_response env input c candidates m pending)
        (persist_session env input c m) s
        (After-weaken (choose_response env input c candidates m pending s)
          (λ choice t k.
            After-weaken (persist_session env input c m choice t)
              (λ out u stored. stored-Answered c choice out u k.0.1 k.1 stored) (λ u z. z)
              (persist_session-After start env input c m choice t k.0.0))
          (λ t k. k) (choose_response-After start env input loaded c candidates m pending s h))

  -- The parts of `take_turn`, from the last to the first.
  abbrev matching : Candidates → Option PendingFact → Context → Chat ChatOutput
  matching candidates pending c = do
    m ←
        run_match env c.organisation_id c.profile_data candidates.rules candidates.ids
          candidates.search_mode
    choice ← choose_response env input c candidates m pending
    persist_session env input c m choice

  abbrev measuring : Candidates → Context × Option PendingFact → Chat ChatOutput
  measuring candidates (merged, pending) = do
    c ← measure_completeness env candidates merged
    matching candidates pending c

  abbrev merging : Context × Option Bool → Candidates → Chat ChatOutput
  merging (confirmed, confirmation) candidates = do
    merged ← merge_profile_update confirmed confirmation
    measuring candidates merged

  abbrev retrieving : Context × Option Bool → Chat ChatOutput
  retrieving answer = do
    candidates ← retrieve_candidates env input loaded.organisation_id
    merging answer candidates

  abbrev confirming : Context → Chat ChatOutput
  confirming found = do answer ← process_pending input found; retrieving answer

  run_match-After :
      (candidates : Candidates) (c : Context) (s : Session ConversationTables)
      → C start env input loaded c s
      → After
          (λ (_ : MatchSnapshot) t. C start env input loaded c t)
          E
          (run_match env c.organisation_id c.profile_data candidates.rules candidates.ids
            candidates.search_mode s)
  unfolding run_match
  run_match-After candidates c s h = ground arith

  matching-After :
      (candidates : Candidates) (pending : Option PendingFact) (c : Context)
      (s : Session ConversationTables)
      → C start env input loaded c s
      → After A E (matching candidates pending c s)
  matching-After candidates pending c s h =
      let match =
        run_match env c.organisation_id c.profile_data candidates.rules candidates.ids
          candidates.search_mode in
      After-bind A E match
        (λ m. choose_response env input c candidates m pending >>= persist_session env input c m) s
        (After-weaken (match s) (λ m t k. choosing-After c candidates pending m t k) (λ t k. k)
          (run_match-After candidates c s h))

  measuring-After :
      (candidates : Candidates) (merged : Context × Option PendingFact)
      (s : Session ConversationTables)
      → R start env input loaded merged.0 s
      → After A E (measuring candidates merged s)
  measuring-After candidates (merged, pending) s h =
      After-bind A E (measure_completeness env candidates merged) (matching candidates pending) s (
        After-weaken (measure_completeness env candidates merged s)
          (λ c t k. matching-After candidates pending c t k) (λ t k. k)
          (measure_completeness-After start env input loaded candidates merged s h))

  merging-After :
      (answer : Context × Option Bool) (candidates : Candidates) (s : Session ConversationTables)
      → R start env input loaded answer.0 s
      → After A E (merging answer candidates s)
  merging-After (confirmed, confirmation) candidates s h =
      After-bind A E (merge_profile_update confirmed confirmation) (measuring candidates) s (
        After-weaken (merge_profile_update confirmed confirmation s)
          (λ merged t k. measuring-After candidates merged t k) (λ t k. k)
          (merge_profile_update-After start env input loaded confirmed confirmation s h))

  retrieving-After :
      (answer : Context × Option Bool) (s : Session ConversationTables)
      → All HasKey start.sessions
      → Q start env input loaded answer.0 s
      → After A E (retrieving answer s)
  retrieving-After answer s keyed h =
      After-bind A E (retrieve_candidates env input loaded.organisation_id) (merging answer) s (
        After-weaken (retrieve_candidates env input loaded.organisation_id s)
          (λ candidates t k. merging-After answer candidates t k) (λ t k. k)
          (retrieve_candidates-After start env input loaded loaded.organisation_id answer.0 s keyed
            h))

  confirming-After :
      (found : Context) (s : Session ConversationTables)
      → All HasKey start.sessions
      → Q start env input loaded found s
      → After A E (confirming found s)
  confirming-After found s keyed h = After-bind A E (process_pending input found) retrieving s (
      After-weaken (process_pending input found s) (λ answer t k. retrieving-After answer t keyed k)
        (λ t k. untouched-Kept start env input loaded t keyed k)
        (process_pending-After start env input loaded found s h))

  pub take_turn-After :
      (s : Session ConversationTables)
      → All HasKey start.sessions
      → InTurn start s
      → After A E (take_turn env input loaded s)
  unfolding take_turn
  take_turn-After s keyed h = After-bind A E (detect_event env input loaded) confirming s (
      After-weaken (detect_event env input loaded s) (λ found t k. confirming-After found t keyed k)
        (λ t k. untouched-Kept start env input loaded t keyed k)
        (detect_event-After start env input loaded loaded s
          (h, record { same_turns = refl; same_messages = refl; same_row = refl })))

-- ===== src/Sessions/Pipeline/Ending.antt =====
-- What the last nodes of a turn make of it, by services/sessions/session_service.py.
use adhikar_ai.Prelude.{
  ℕ, suc, String, Bool, true, false, ◌≡◌, ◌<◌, refl, inl, inr, Option, none, some, [], ◌∷◌, ◌++◌,
  ◌==◌, nat_eq, string_eq, All, Bool-cases, eq_iff, Option-cases, arith,
}
use adhikar_ai.Prelude.Dict.{lookup, insert, lookup-insert}
use adhikar_ai.Prelude.Result.{api_error}
use adhikar_ai.Prelude.Exec.{Session, begin, pure, or_raise, raise_if, ◌>>◌}
use adhikar_ai.Prelude.Exec.After.{After, After-bind, After-or_raise, After-weaken}
use adhikar_ai.Agent.{ProfileDict}
use adhikar_ai.Agent.Question.{PendingFact, AgentState}
use adhikar_ai.Sessions.{
  MatchSnapshot, ProfileRow, ConversationTables, Env, get_profile, internal_error, put_state,
  write_state, add_message, set_session,
}
use adhikar_ai.Sessions.Profile.{Changes, changes_to, apply_changes, persist_profile}
use adhikar_ai.Sessions.Turn.{add_to_messages, ChatInput, Context, Candidates, measure_completeness}
use adhikar_ai.Sessions.Reply.{question, Choice, choose_response, should_return_result}
use adhikar_ai.Sessions.Pipeline.{
  ChatOutput, reply_message, store_snapshot, turn_output, persist_member, store_turn, profile_named,
  persist_session, updated_session,
}
use adhikar_ai.Sessions.Pipeline.Steps.{HasKey, update_rows-HasKey}
use adhikar_ai.Sessions.Pipeline.Search.{Kept, InReply, R}

-- A turn more than was loaded.
pub record Counted (loaded c : Context) : Type 0 where
  pub next_turn : c.state.turn_count_since_result ≡ suc loaded.state.turn_count_since_result
  pub same_messages : c.state.messages ≡ loaded.state.messages
  pub same_row : c.row.redis_key ≡ loaded.row.redis_key

-- What the reply makes of the state.
pub record Chosen (env : Env) (c : Context) (choice : Choice) : Type 0 where
  pub same_messages : choice.state.messages ≡ c.state.messages
  pub question_early :
      choice.output_type ≡ question
      → (choice.state.turn_count_since_result ≡ c.state.turn_count_since_result)
        × (choice.state.turn_count_since_result < env.max_questions)

module _ (start : ConversationTables) (env : Env) (input : ChatInput) (loaded : Context) where
  abbrev pub C : Context → Session ConversationTables → Type 0
  C c s = InReply start env input s × Counted loaded c

  pub measure_completeness-After :
      (candidates : Candidates) (c : Context) (s : Session ConversationTables)
      → R start env input loaded c s
      → After C (Kept start env input) (measure_completeness env candidates c s)
  unfolding measure_completeness
  measure_completeness-After candidates c s h = ground arith

  pub choose_response-After :
      (c : Context) (candidates : Candidates) (m : MatchSnapshot) (pending : Option PendingFact)
      (s : Session ConversationTables)
      → C c s
      → After
          (λ choice t. C c t × Chosen env c choice)
          (Kept start env input)
          (choose_response env input c candidates m pending s)
  unfolding choose_response
  choose_response-After c candidates m (some pending) s h = ground arith
  choose_response-After c candidates m none s h =
      elim (Bool-cases (should_return_result env c.state m.result)) [
        | inl e ↦ rw e (ground arith)
        | inr e ↦ rw e (ground arith)
      ]

-- What a turn leaves when it has been stored.
pub record Stored (key : String) (choice : Choice) (out : ChatOutput)
    (s : Session ConversationTables) : Type 0 where
  pub state : AgentState
  pub keys_right : All HasKey s.durable.sessions
  pub stored : lookup key s.durable.redis ≡ some state
  pub messages : state.messages ≡ choice.state.messages ++ ("assistant", out.content) ∷ []
  pub turns : state.turn_count_since_result ≡ choice.state.turn_count_since_result
  pub same_type : out.output_type ≡ choice.output_type
  pub completeness : out.profile_completeness ≡ state.profile_completeness

apply_changes-sessions :
    (organisation_id : ℕ) (row : ProfileRow) (source : String) (c : Changes)
    (t : ConversationTables)
    → (apply_changes organisation_id row source c t).sessions ≡ t.sessions
unfolding apply_changes
apply_changes-sessions organisation_id row source c t = ground arith

persist_profile-After :
    (start : ConversationTables) (env : Env) (input : ChatInput) (id : ℕ)
    (profile_data : ProfileDict) (organisation_id : ℕ) (source : String)
    (s : Session ConversationTables)
    → InReply start env input s
    → After
        (λ (_ : ProfileRow) t. InReply start env input t)
        (Kept start env input)
        (persist_profile id profile_data organisation_id source s)
unfolding persist_profile
persist_profile-After start env input id profile_data organisation_id source s h =
    elim (Option-cases (get_profile (some id) s.view)) [
      | inl e ↦ rw (e, raise_if) h.kept
      | inr (row, e) ↦ elim (Bool-cases (row.organisation_id == organisation_id)) [
        | inl f ↦
            rw (e, f, raise_if, or_raise)
              (ground (
                arith,
                apply_changes-sessions organisation_id row source (changes_to profile_data row)
                    s.view,
              ))
        | inr f ↦ rw (e, f, raise_if) h.kept
      ]
    ]

module _ (start : ConversationTables) (env : Env) (input : ChatInput) (c : Context)
    (m : MatchSnapshot) (choice : Choice) where
  abbrev Ends : ChatOutput → Session ConversationTables → Type 0
  Ends out s = Stored c.row.redis_key choice out s

  -- The write to the store, after the commit of what the view has.
  write_state-After :
      (fails : Bool) (state : AgentState) (out : ChatOutput) (s : Session ConversationTables)
      → env.last_write_fails ≡ fails
      → All HasKey s.durable.sessions
      → (lookup c.row.redis_key (insert c.row.redis_key state s.durable.redis) ≡ some state
          → Stored c.row.redis_key choice out (record s {
            view = put_state c.row.redis_key state s.view;
            durable = put_state c.row.redis_key state s.durable;
          }))
      → After Ends
          (Kept start env input)
          ((raise_if fails internal_error >> (write_state c.row.redis_key state >> pure out)) s)
  write_state-After true state out s fails keyed ends = record {
    untouched = λ calm. absurd (ground (arith, fails, calm.last_written));
    durable_keys = keyed;
  }
  write_state-After false state out s fails keyed ends = ends (
      ground (
        arith,
        lookup-insert c.row.redis_key c.row.redis_key state s.durable.redis,
        eq_iff c.row.redis_key c.row.redis_key,
      ))

  store_turn-After :
      (profile : ProfileRow) (s : Session ConversationTables)
      → InReply start env input s
      → After Ends (Kept start env input) (
          store_turn env input c m choice
            (add_to_messages "assistant" choice.content choice.state)
            profile
            s)
  store_turn-After profile s h =
      let state = add_to_messages "assistant" choice.content choice.state in
      let keyed =
        update_rows-HasKey (updated_session env input c state) c.row.id s.view.sessions (λ row k. k)
          h.keys_right in
      let stored = add_message (reply_message input c choice) (
        set_session c.row.id (updated_session env input c state)
          (store_snapshot c.organisation_id profile m s.view)) in
      write_state-After env.last_write_fails state (turn_output input choice state) (begin stored)
        refl keyed
        (λ found. record {
          state = state;
          keys_right = keyed;
          stored = found;
          messages = refl;
          turns = refl;
          same_type = refl;
          completeness = refl;
        })

  abbrev replied : AgentState
  replied = add_to_messages "assistant" choice.content choice.state

  persist_member-After :
      (member : ℕ) (s : Session ConversationTables)
      → InReply start env input s
      → After Ends (Kept start env input) (persist_member env input c m choice replied member s)
  persist_member-After member s h =
      After-bind Ends (Kept start env input)
        (persist_profile member c.profile_data c.organisation_id "conversation")
        (store_turn env input c m choice replied) s
        (After-weaken (persist_profile member c.profile_data c.organisation_id "conversation" s)
          (λ profile t k. store_turn-After profile t k) (λ t k. k)
          (persist_profile-After start env input member c.profile_data c.organisation_id
            "conversation" s h))

  pub persist_session-After :
      (s : Session ConversationTables)
      → InReply start env input s
      → After Ends (Kept start env input) (persist_session env input c m choice s)
  unfolding persist_session
  persist_session-After s h =
      let found = profile_named choice.state.active_member_id s.view in
      let not_found = api_error 404 "PROFILE_NOT_FOUND" "profile_id" in
      let persist = persist_member env input c m choice replied in
      elim (Bool-cases (choice.state.active_member_id == "self")) [
        | inl e ↦ rw e h.kept
        | inr e ↦ rw e (
            After-bind Ends (Kept start env input) (or_raise found not_found) persist s (
              After-or_raise (λ member t. After Ends (Kept start env input) (persist member t))
                (Kept start env input) found not_found s
                (λ member _. persist_member-After member s h) h.kept))
      ]

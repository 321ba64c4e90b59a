-- ===== src/Sessions/Pipeline/Steps.antt =====
-- What each node of a turn leaves alone, by services/sessions/session_service.py.
use adhikar_ai.Prelude.{
  ℕ, String, Bool, ◌≡◌, inl, inr, Option, none, some, List, [], ◌∷◌, ◌==◌, nat_eq, string_eq, All,
  Bool-cases, Option-cases, arith,
}
use adhikar_ai.Prelude.Exec.{Session, or_raise}
use adhikar_ai.Prelude.Exec.After.{After, After-bind, After-weaken}
use adhikar_ai.Db.Tables.{update_rows}
use adhikar_ai.Agent.Question.{AgentState}
use adhikar_ai.Agent.Facts.{Confirmation, merge_confirmed_pending_fact}
use adhikar_ai.Agent.{ProfileDict}
use adhikar_ai.Agent.LifeEvents.{LifeEvent, detect_life_event}
use adhikar_ai.Sessions.{
  ProfileRow, ConversationSession, ConversationTables, Env, session_redis_key,
}
use adhikar_ai.Sessions.Turn.{ChatInput, Context, process_pending}
use adhikar_ai.Sessions.Members.{
  apply_event, find_member, activate, with_active, switch_member, detect_event,
}

abbrev pub HasKey : ConversationSession → Type 0
HasKey row = row.redis_key ≡ session_redis_key row.organisation_id row.session_id

module _ (f : ConversationSession → ConversationSession) where
  pub update_rows-HasKey :
      (id : ℕ) (rows : List ConversationSession)
      → ((row : ConversationSession) → HasKey row → HasKey (f row))
      → All HasKey rows
      → All HasKey (update_rows (λ (row : ConversationSession). row.id == id) f rows)
  update_rows-HasKey id [] keep h = tt
  update_rows-HasKey id (row ∷ rows) keep (k, h) =
      ground (arith, keep row, update_rows-HasKey id rows keep h)

merge_confirmed_pending_fact-keeps :
    (state : AgentState) (message : String) (profile : ProfileDict) (answer : Confirmation)
    → merge_confirmed_pending_fact state message profile ≡ some answer
    → (answer.state.turn_count_since_result ≡ state.turn_count_since_result)
      × (answer.state.messages ≡ state.messages)
unfolding merge_confirmed_pending_fact
merge_confirmed_pending_fact-keeps state message profile answer h = ground arith

-- Nothing is committed, but for the store.
abbrev pub IsUntouched : ConversationTables → Session ConversationTables → Type 0
IsUntouched start s = record start { redis = s.durable.redis } ≡ s.durable

pub record InTurn (start : ConversationTables) (s : Session ConversationTables) : Type 0 where
  pub untouched : IsUntouched start s
  pub keys_right : All HasKey s.view.sessions

-- The conversation as it was loaded, before the reply.
pub record Follows (loaded c : Context) : Type 0 where
  pub same_turns : c.state.turn_count_since_result ≡ loaded.state.turn_count_since_result
  pub same_messages : c.state.messages ≡ loaded.state.messages
  pub same_row : c.row.redis_key ≡ loaded.row.redis_key

module _ (start : ConversationTables) (env : Env) (input : ChatInput) (loaded : Context) where
  abbrev pub Q : Context → Session ConversationTables → Type 0
  Q c s = InTurn start s × Follows loaded c

  activate-After :
      (c : Context) (member : ProfileRow) (s : Session ConversationTables)
      → Q c s
      → After Q (IsUntouched start) (activate env c member s)
  activate-After c member s (turn, follows) = ground (
    arith,
    update_rows-HasKey (with_active member.id) c.row.id s.view.sessions (λ row k. k)
        turn.keys_right,
  )

  find_member-After :
      (c : Context) (reference : String) (s : Session ConversationTables)
      → Q c s
      → After (λ member t. Q c t) (IsUntouched start) (find_member env c reference s)
  find_member-After c reference s (turn, follows) = ground arith

  pub switch_member-After :
      (c : Context) (s : Session ConversationTables)
      → Q c s
      → After Q (IsUntouched start) (switch_member env c s)
  unfolding switch_member
  switch_member-After c s h =
      let reference = c.extracted.active_member_reference in
      elim (Bool-cases (reference == "self")) [
        | inl e ↦ rw e h
        | inr e ↦ rw e (
            After-bind Q (IsUntouched start) (find_member env c reference) (activate env c) s (
              After-weaken (find_member env c reference s)
                (λ member t k. activate-After c member t k) (λ t k. k)
                (find_member-After c reference s h)))
      ]

  apply_event-After :
      (c : Context) (event : Option LifeEvent) (s : Session ConversationTables)
      → Q c s
      → After Q (IsUntouched start) (apply_event env c event s)
  apply_event-After c none s h = h
  apply_event-After c (some event) s h = ground arith

  pub detect_event-After :
      (c : Context) (s : Session ConversationTables)
      → Q c s
      → After Q (IsUntouched start) (detect_event env input c s)
  unfolding detect_event
  detect_event-After c s h =
      let event = detect_life_event input.message in
      After-bind Q (IsUntouched start) (switch_member env c) (λ d. apply_event env d event) s
        (After-weaken (switch_member env c s) (λ d t k. apply_event-After d event t k) (λ t k. k)
          (switch_member-After c s h))

  pub process_pending-After :
      (c : Context) (s : Session ConversationTables)
      → Q c s
      → After
          (λ (answer : Context × Option Bool) t. Q answer.0 t)
          (IsUntouched start)
          (process_pending input c s)
  unfolding process_pending
  process_pending-After c s h =
      elim (Option-cases (merge_confirmed_pending_fact c.state input.message c.profile_data)) [
        | inl e ↦ rw (e, or_raise) h.0.untouched
        | inr (answer, e) ↦
            let same =
              merge_confirmed_pending_fact-keeps c.state input.message c.profile_data answer e in
            rw (e, or_raise) (ground (arith, same))
      ]

-- ===== src/Sessions/Requests/Progress.antt =====
-- What a citizen can rely on in a conversation, by services/sessions/session_service.py.
use mathlib.Core.Path.{subst}
use adhikar_ai.Prelude.{
  ℕ, suc, String, true, false, ◌≡◌, refl, sym, inl, inr, some, [], ◌∷◌, ◌++◌, string_eq, arith,
}
use mathlib.Core.List.{append_assoc}
use adhikar_ai.Prelude.Dict.{lookup}
use adhikar_ai.Prelude.Result.{ApiError, Result, ok, err}
use adhikar_ai.Prelude.Exec.{Session, run, begin}
use adhikar_ai.Prelude.Exec.After.{After}
use adhikar_ai.Agent.Question.{AgentState}
use adhikar_ai.Sessions.{ConversationTables, Env, session_redis_key}
use adhikar_ai.Sessions.State.{get_session_state}
use adhikar_ai.Sessions.Turn.{ChatInput, is_too_long}
use adhikar_ai.Sessions.Reply.{question}
use adhikar_ai.Sessions.Pipeline.{ChatOutput, too_long, handle_chat_turn}
use adhikar_ai.Sessions.Pipeline.Search.{IsCalm, Kept}
use adhikar_ai.Sessions.Requests.{Reachable}
use adhikar_ai.Sessions.Requests.Turns.{IsGiven, Replied, Outcome, handle_chat_turn-After}
use adhikar_ai.Sessions.Requests.Keys.{Reachable-HasKey}

module _ {S A : Type 0} (Q : A → Session S → Type 0) (E : Session S → Type 0) where
  After-err : (r : Result A × Session S) (e : ApiError) → r.0 ≡ err e → After Q E r → E r.1
  After-err (ok a, s) e h k = absurd (ground arith)
  After-err (err x, s) e h k = k

  After-ok : (r : Result A × Session S) (a : A) → r.0 ≡ ok a → After Q E r → Q a r.1
  After-ok (ok b, s) a h k = subst (λ x. Q x s) (ground arith) k
  After-ok (err x, s) a h k = absurd (ground arith)

-- A turn that raises changes nothing in the database, whatever it had already added or assigned, if it
-- rebuilds no index and the store takes its last state; only the store may have got the state that was read
-- from the database.
pub handle_chat_turn_raises :
    (env : Env) (input : ChatInput) (t : ConversationTables) (e : ApiError)
    → Reachable t
    → IsCalm env input
    → (run (handle_chat_turn env input) t).0 ≡ err e
    → let after = (run (handle_chat_turn env input) t).1 in record t { redis = after.redis } ≡ after
handle_chat_turn_raises env input t e reached calm h =
    let keyed = Reachable-HasKey reached in
    let kept =
      After-err (Outcome t env input keyed) (Kept t env input)
        (handle_chat_turn env input (begin t)) e h (handle_chat_turn-After t env input keyed) in
    kept.untouched calm

module _ (env : Env) (input : ChatInput) (t : ConversationTables) (out : ChatOutput)
    (reached : Reachable t) (replied : (run (handle_chat_turn env input) t).0 ≡ ok out) where
  outcome :
      Outcome t env input (Reachable-HasKey reached) out (handle_chat_turn env input (begin t)).1
  outcome =
      let keyed = Reachable-HasKey reached in
      After-ok (Outcome t env input keyed) (Kept t env input) (handle_chat_turn env input (begin t))
        out replied (handle_chat_turn-After t env input keyed)

  -- What the turn leaves in an organisation that the request names.
  given_outcome :
      (organisation_id : ℕ)
      → input.organisation_id ≡ some organisation_id
      → ¬ ((is_too_long input ≡ true) × (out ≡ too_long input))
      → Replied t env input organisation_id out (handle_chat_turn env input (begin t)).1
  given_outcome organisation_id named not_refused = elim outcome [
    | inl (long, (refused, _)) ↦ absurd (not_refused (long, refused))
    | inr (id, (given, replied_there)) ↦
        let given' : IsGiven (some organisation_id) id = subst (λ o. IsGiven o id) named given in
        subst (λ i. Replied t env input i out (handle_chat_turn env input (begin t)).1) (sym given')
          replied_there
  ]

-- A state that the store has is the state of the conversation.
recalled :
    (env : Env) (session_id : String) (organisation_id : ℕ) (t : ConversationTables)
    (state : AgentState)
    → lookup (session_redis_key organisation_id session_id) t.redis ≡ some state
    → (run (get_session_state env session_id organisation_id) t).0 ≡ ok state
unfolding get_session_state
recalled env session_id organisation_id t state h = rw h refl

-- After a reply to a message of usual length, the state of the conversation, for whoever reads it from the
-- store that the turn leaves, is the one before with the message and the reply at the end of its messages,
-- and it has the completeness that the reply states.
pub handle_chat_turn_remembers :
    (env later : Env) (input : ChatInput) (organisation_id : ℕ) (t : ConversationTables)
    (out : ChatOutput)
    → Reachable t
    → input.organisation_id ≡ some organisation_id
    → is_too_long input ≡ false
    → (run (handle_chat_turn env input) t).0 ≡ ok out
    → let after = (run (handle_chat_turn env input) t).1 in
      (before state : AgentState) × (((run
            (get_session_state env input.session_id organisation_id)
            t).0
          ≡ ok before)
        × (((run (get_session_state later input.session_id organisation_id) after).0 ≡ ok state)
            × ((state.messages
                  ≡ before.messages ++ ("user", input.message) ∷ ("assistant", out.content) ∷ [])
                × (out.profile_completeness ≡ state.profile_completeness))))
handle_chat_turn_remembers env later input organisation_id t out reached named short replied =
    let r =
      given_outcome env input t out reached replied organisation_id named
        (λ (long, _). ground (arith, short, long)) in
    let after = (run (handle_chat_turn env input) t).1 in
    let found =
      subst (λ k. lookup k after.redis ≡ some r.answered.state) r.is_loaded.right_key
        r.answered.stored in
    let messages : r.answered.state.messages
        ≡ r.is_loaded.earlier.messages
          ++ ("user", input.message) ∷ ("assistant", out.content) ∷ [] =
      rw (r.answered.messages, r.is_loaded.messages)
        (append_assoc r.is_loaded.earlier.messages (("user", input.message) ∷ [])
          (("assistant", out.content) ∷ [])) in
    (
      r.is_loaded.earlier,
      r.answered.state,
      (
        r.is_loaded.read,
        (
          recalled later input.session_id organisation_id after r.answered.state found,
          (messages, r.answered.completeness),
        ),
      ),
    )

module _ (organisation_id : ℕ) (session_id : String) (max_questions : ℕ) where
  abbrev conversation : String
  conversation = session_redis_key organisation_id session_id

  -- So many turns of the conversation, one after another, that are all answered with a question; each finds the
  -- store as the one before left it.
  pub data OnlyQuestions : ℕ → ConversationTables → ConversationTables → Type 0 where
    no_turn : {t : ConversationTables} → OnlyQuestions 0 t t
    then_question :
        {n : ℕ} {t u after : ConversationTables}
        → OnlyQuestions n t u
        → (env : Env) (input : ChatInput) (out : ChatOutput) → env.max_questions ≡ max_questions
        → input.organisation_id ≡ some organisation_id
        → input.session_id ≡ session_id
        → run (handle_chat_turn env input) u ≡ (ok out, after)
        → out.output_type ≡ question
        → OnlyQuestions (suc n) t after

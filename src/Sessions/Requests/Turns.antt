-- ===== src/Sessions/Requests/Turns.antt =====
-- The turns of a conversation: what each leaves, whether it succeeds or raises.
use mathlib.Core.Path.{subst}
use adhikar_ai.Prelude.{
  ℕ, String, true, ◌≡◌, ◌⊎◌, refl, sym, ap, inl, inr, Option, none, some, nat_eq, string_eq, All,
  if◌then◌else◌, Bool-cases, arith,
}
use adhikar_ai.Prelude.Dict.{lookup}
use adhikar_ai.Prelude.Exec.{Session, begin, pure, ◌>>=◌}
use adhikar_ai.Prelude.Exec.After.{After, After-bind, After-weaken}
use adhikar_ai.Sessions.{ConversationTables, Chat, Env, session_redis_key}
use adhikar_ai.Sessions.State.{resolve_organisation_id}
use adhikar_ai.Sessions.Turn.{ChatInput, Context, is_too_long, load_session}
use adhikar_ai.Sessions.Pipeline.{ChatOutput, take_turn, too_long, handle_chat_turn}
use adhikar_ai.Sessions.Pipeline.Steps.{HasKey, IsUntouched, InTurn}
use adhikar_ai.Sessions.Pipeline.Search.{Kept}
use adhikar_ai.Sessions.Pipeline.Loading.{IsLoaded, load_session-After}
use adhikar_ai.Sessions.Pipeline.Whole.{Answered, take_turn-After}

-- What a reply other than the refusal of a long message leaves.
pub record Replied (start : ConversationTables) (env : Env) (input : ChatInput)
    (organisation_id : ℕ) (out : ChatOutput) (s : Session ConversationTables) : Type 0 where
  pub loaded : Context
  pub is_loaded :
      IsLoaded start env input organisation_id
        (lookup (session_redis_key organisation_id input.session_id) start.redis)
        loaded
  pub answered : Answered env loaded out s

-- The organisation is the one that the request names, if it names one.
abbrev pub IsGiven : Option ℕ → ℕ → Type 0
IsGiven none organisation_id = Unit
IsGiven (some given) organisation_id = given ≡ organisation_id

module _ (start : ConversationTables) (env : Env) (input : ChatInput)
    (keyed : All HasKey start.sessions) where
  begin-InTurn : InTurn start (begin start)
  begin-InTurn = record { untouched = refl; keys_right = keyed }

  abbrev P : ℕ → ChatOutput → Session ConversationTables → Type 0
  P organisation_id out s = Replied start env input organisation_id out s

  abbrev pub turn : ℕ → Chat ChatOutput
  turn organisation_id = do
    loaded ← load_session env input organisation_id
    take_turn env input loaded

  kept : (s : Session ConversationTables) → IsUntouched start s → Kept start env input s
  kept s h = record {
    untouched = λ _. h;
    durable_keys = subst (All HasKey) (ap (λ (u : ConversationTables). u.sessions) h) keyed;
  }

  pub turn-After :
      (organisation_id : ℕ)
      → After (P organisation_id) (Kept start env input) (turn organisation_id (begin start))
  turn-After organisation_id =
      After-bind (P organisation_id) (Kept start env input) (load_session env input organisation_id)
        (take_turn env input) (begin start)
        (After-weaken (load_session env input organisation_id (begin start))
          (λ loaded s k.
            After-weaken (take_turn env input loaded s)
              (λ out t answered. record { loaded = loaded; is_loaded = k.1; answered = answered })
              (λ t u. u) (take_turn-After start env input loaded s keyed k.0))
          (λ s k. kept s k) (load_session-After start env input organisation_id begin-InTurn))

  -- A long message is refused, and any other is replied to in the organisation of the conversation.
  abbrev pub Outcome : ChatOutput → Session ConversationTables → Type 0
  Outcome out s =
      ((is_too_long input ≡ true) × ((out ≡ too_long input) × (s.durable ≡ start)))
      ⊎ ((organisation_id : ℕ) × (IsGiven input.organisation_id organisation_id
            × Replied start env input organisation_id out s))

  abbrev judged : ℕ → Chat ChatOutput
  judged organisation_id = if is_too_long input then pure (too_long input) else turn organisation_id

  judged-After :
      (organisation_id : ℕ)
      → IsGiven input.organisation_id organisation_id
      → After Outcome (Kept start env input) (judged organisation_id (begin start))
  judged-After organisation_id given = elim (Bool-cases (is_too_long input)) [
    | inl e ↦ rw e (inl (e, (refl, refl)))
    | inr e ↦ rw e (
        After-weaken (turn organisation_id (begin start))
          (λ out s k. inr (organisation_id, (given, k))) (λ s k. k) (turn-After organisation_id))
  ]

  resolve-After :
      (session_id : String) (organisation_id : Option ℕ)
      → After
          (λ id s. IsGiven organisation_id id × (s ≡ begin start))
          (IsUntouched start)
          (resolve_organisation_id session_id organisation_id (begin start))
  unfolding resolve_organisation_id
  resolve-After session_id none = ground arith
  resolve-After session_id (some given) = (refl, refl)

  pub handle_chat_turn-After :
      After Outcome (Kept start env input) (handle_chat_turn env input (begin start))
  unfolding handle_chat_turn
  handle_chat_turn-After =
      let resolve = resolve_organisation_id input.session_id input.organisation_id in
      After-bind Outcome (Kept start env input) resolve judged (begin start) (
        After-weaken (resolve (begin start))
          (λ organisation_id s k.
            subst (λ s'. After Outcome (Kept start env input) (judged organisation_id s')) (sym k.1)
              (judged-After organisation_id k.0))
          (λ s k. kept s k) (resolve-After input.session_id input.organisation_id))

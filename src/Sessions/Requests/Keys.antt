-- ===== src/Sessions/Requests/Keys.antt =====
-- Every conversation is stored under its own key, by services/sessions/session_service.py.
use adhikar_ai.Prelude.{
  String, refl, sym, ap, inl, inr, [], ◌∷◌, string_eq, All, All-append, leb, contains, nat_eq,
  Bool-cases, Option-cases, arith,
}
use mathlib.Core.Path.{subst}
use adhikar_ai.Prelude.Result.{Result, ok, err}
use adhikar_ai.Prelude.Exec.{Session, begin}
use adhikar_ai.Prelude.Exec.After.{After, After-bind, After-weaken}
use adhikar_ai.Sessions.{ConversationSession, ConversationTables, Env, session_redis_key}
use adhikar_ai.Sessions.State.{find_session, state_from_db}
use adhikar_ai.Sessions.Begin.{
  CreateSessionRequest, CreateSessionResponse, or_fresh, new_session, resumed, resume_session,
  begin_session, get_or_create_session,
}
use adhikar_ai.Sessions.Patch.{patch_profile}
use adhikar_ai.Sessions.Households.{create_household_member, delete_household_member}
use adhikar_ai.Sessions.Requests.Profiles.{
  patch_profile-After, create_household_member-After, delete_household_member-After, Same-IsKeyed,
}
use adhikar_ai.Sessions.Turn.{ChatInput}
use adhikar_ai.Sessions.Pipeline.{ChatOutput, handle_chat_turn}
use adhikar_ai.Sessions.Pipeline.Steps.{HasKey, IsUntouched}
use adhikar_ai.Sessions.Pipeline.Loading.{state_from_db-After}
use adhikar_ai.Sessions.Requests.Turns.{Outcome, handle_chat_turn-After}
use adhikar_ai.Sessions.Requests.{
  start_session, say, patch, add_member, remove_member, Reachable, no_sessions, then_request,
}

abbrev IsKeyed : Session ConversationTables → Type 0
IsKeyed s = All HasKey s.durable.sessions

module _ (t : ConversationTables) (keyed : All HasKey t.sessions) (env : Env) where
  abbrev D : CreateSessionResponse → Session ConversationTables → Type 0
  D _ s = IsKeyed s

  untouched-IsKeyed : (s : Session ConversationTables) → IsUntouched t s → IsKeyed s
  untouched-IsKeyed s h = subst (All HasKey) (ap (λ (u : ConversationTables). u.sessions) h) keyed

  resume_session-After :
      (key session_id : String) (row : ConversationSession)
      → After D IsKeyed (resume_session env key session_id row (begin t))
  resume_session-After key session_id row = elim (Bool-cases (leb row.expires_at env.now)) [
    | inl e ↦ rw e keyed
    | inr e ↦ rw e (
        After-bind D IsKeyed (state_from_db env row) (resumed key session_id row) (begin t) (
          After-weaken (state_from_db env row (begin t))
            (λ state s k. untouched-IsKeyed s k.0.untouched) (λ s k. untouched-IsKeyed s k)
            (state_from_db-After t env row (begin t)
              (record { untouched = refl; keys_right = keyed }))))
  ]

  begin_session-After :
      (request : CreateSessionRequest) (session_id : String)
      → After D IsKeyed (
          begin_session env request
            (session_redis_key request.organisation_id session_id)
            session_id
            (begin t))
  begin_session-After request session_id =
      let key = session_redis_key request.organisation_id session_id in
      ground (
        arith,
        All-append HasKey t.sessions (new_session env request session_id key ∷ []) keyed (refl, tt),
      )

  get_or_create_session-After :
      (request : CreateSessionRequest)
      → After D IsKeyed (get_or_create_session env request (begin t))
  unfolding get_or_create_session
  get_or_create_session-After request =
      let session_id = or_fresh env request.session_id in
      let key = session_redis_key request.organisation_id session_id in
      elim (Bool-cases (contains request.organisation_id t.schemes.organisations)) [
        | inr e ↦ rw e keyed
        | inl e ↦ elim (Option-cases (find_session request.organisation_id session_id t)) [
          | inl f ↦ rw (e, f) (begin_session-After request session_id)
          | inr (row, f) ↦ rw (e, f) (resume_session-After key session_id row)
        ]
      ]

  Outcome-IsKeyed :
      (input : ChatInput) (out : ChatOutput) (s : Session ConversationTables)
      → Outcome t env input keyed out s
      → IsKeyed s
  Outcome-IsKeyed input out s (inl (_, (_, same))) =
      subst (λ u. All HasKey u.sessions) (sym same) keyed
  Outcome-IsKeyed input out s (inr (_, (_, replied))) = replied.answered.keys_right

After-IsKeyed :
    {A : Type 0} (r : Result A × Session ConversationTables)
    → After (λ _ s. IsKeyed s) IsKeyed r
    → IsKeyed r.1
After-IsKeyed (ok a, s) h = h
After-IsKeyed (err e, s) h = h

-- Whatever requests a database has seen, each conversation has the key of its organisation and id.
pub Reachable-HasKey : {t : ConversationTables} → Reachable t → All HasKey t.sessions
Reachable-HasKey (no_sessions t none_yet) = rw none_yet tt
Reachable-HasKey (then_request {t} reached env (start_session request) e) =
    let keyed = Reachable-HasKey reached in
    rw e (
      After-IsKeyed (get_or_create_session env request (begin t))
        (get_or_create_session-After t keyed env request))
Reachable-HasKey (then_request {t} reached env (say input) e) =
    let keyed = Reachable-HasKey reached in
    rw e (
      After-IsKeyed (handle_chat_turn env input (begin t)) (
        After-weaken (handle_chat_turn env input (begin t))
          (λ out s k. Outcome-IsKeyed t keyed env input out s k) (λ s k. k.durable_keys)
          (handle_chat_turn-After t env input keyed)))
Reachable-HasKey (then_request {t} reached env (patch id request) e) = rw e (
    Same-IsKeyed t (patch_profile env id request (begin t)) (Reachable-HasKey reached)
      (patch_profile-After t env id request))
Reachable-HasKey (then_request {t} reached env (add_member id request) e) = rw e (
    Same-IsKeyed t (create_household_member env id request (begin t)) (Reachable-HasKey reached)
      (create_household_member-After t env id request))
Reachable-HasKey (then_request {t} reached env (remove_member household profile organisation) e) =
    rw e (
      Same-IsKeyed t (delete_household_member household profile organisation (begin t))
        (Reachable-HasKey reached) (delete_household_member-After t household profile organisation))

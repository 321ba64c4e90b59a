-- ===== src/Sessions/Pipeline/Loading.antt =====
-- What a turn begins with, by services/sessions/session_service.py.
use adhikar_ai.Prelude.{
  ℕ, String, ◌≡◌, refl, ap, inl, inr, Option, none, some, [], ◌∷◌, ◌++◌, nat_eq, string_eq, eq_iff,
  All-Member, find-some, Bool-cases, Option-cases, leb, arith,
}
use adhikar_ai.Prelude.Dict.{lookup}
use adhikar_ai.Prelude.Result.{ok, api_error}
use adhikar_ai.Prelude.Exec.{Session, run, begin, or_raise}
use adhikar_ai.Prelude.Exec.After.{After, After-bind, After-or_raise, After-weaken, After-known}
use adhikar_ai.Agent.Question.{AgentState}
use adhikar_ai.Sessions.{ConversationSession, ConversationTables, Env, session_redis_key}
use adhikar_ai.Sessions.State.{
  find_session, state_from_db, keep_state, load_row, or_state, get_session_state,
}
use adhikar_ai.Sessions.Turn.{ChatInput, Context, context_of, load_context, load_session}
use adhikar_ai.Sessions.Pipeline.Steps.{HasKey, IsUntouched, InTurn}

abbrev pub turns_of : Option AgentState → ℕ
turns_of none = 0
turns_of (some state) = state.turn_count_since_result

-- The turns since the last result, by the store.
abbrev pub turns_in : String → ConversationTables → ℕ
turns_in key t = turns_of (lookup key t.redis)

abbrev From : Option AgentState → AgentState → Type 0
From none state = state.turn_count_since_result ≡ 0
From (some before) state = state ≡ before

module _ (start : ConversationTables) (env : Env) where
  abbrev pub Fresh : AgentState → Session ConversationTables → Type 0
  Fresh state t = InTurn start t × (state.turn_count_since_result ≡ 0)

  pub state_from_db-After :
      (row : ConversationSession) (s : Session ConversationTables)
      → InTurn start s
      → After Fresh (IsUntouched start) (state_from_db env row s)
  unfolding state_from_db
  state_from_db-After row s h = ground arith

  load_row-After :
      (key : String) (row : ConversationSession) (s : Session ConversationTables)
      → InTurn start s
      → After Fresh (IsUntouched start) (load_row env key row s)
  load_row-After key row s h = elim (Bool-cases (leb row.expires_at env.now)) [
    | inl e ↦ rw e h.untouched
    | inr e ↦ rw e (
        After-bind Fresh (IsUntouched start) (state_from_db env row) (keep_state key) s (
          After-weaken (state_from_db env row s) (λ state t k. ground arith) (λ t k. k)
            (state_from_db-After row s h)))
  ]

  module _ (input : ChatInput) (organisation_id : ℕ) where
    abbrev key : String
    key = session_redis_key organisation_id input.session_id

    abbrev Has : Option AgentState → AgentState → Session ConversationTables → Type 0
    Has before state t = InTurn start t × From before state

    or_state-After :
        (cached : Option AgentState) (s : Session ConversationTables)
        → InTurn start s
        → After
            (Has cached)
            (IsUntouched start)
            (or_state env key organisation_id input.session_id cached s)
    or_state-After (some state) s h = (h, refl)
    or_state-After none s h =
        let found = find_session organisation_id input.session_id s.view in
        let not_found = api_error 404 "SESSION_NOT_FOUND" "session_id" in
        After-bind (Has none) (IsUntouched start) (or_raise found not_found) (load_row env key) s (
          After-or_raise (λ row t. After (Has none) (IsUntouched start) (load_row env key row t))
            (IsUntouched start) found not_found s (λ row _. load_row-After key row s h) h.untouched)

    -- What the first nodes hand on.
    pub record IsLoaded (before : Option AgentState) (c : Context) : Type 0 where
      pub turns : c.state.turn_count_since_result ≡ turns_of before
      pub earlier : AgentState
      pub read : (run (get_session_state env input.session_id organisation_id) start).0 ≡ ok earlier
      pub messages : c.state.messages ≡ earlier.messages ++ ("user", input.message) ∷ []
      pub right_key : c.row.redis_key ≡ key

    abbrev Loads : Option AgentState → Context → Session ConversationTables → Type 0
    Loads before c t = InTurn start t × IsLoaded before c

    found-HasKey :
        (row : ConversationSession) (s : Session ConversationTables)
        → InTurn start s
        → find_session organisation_id input.session_id s.view ≡ some row
        → row.redis_key ≡ key
    found-HasKey row s h found =
        let (m, same) = find-some _ row s.view.sessions found in
        let has_key : HasKey row = All-Member HasKey s.view.sessions h.keys_right m in
        ground (
          arith,
          same,
          has_key,
          nat_eq.test_iff row.organisation_id organisation_id,
          eq_iff row.session_id input.session_id,
        )

    abbrev Reads : AgentState → Type 0
    Reads state = (run (get_session_state env input.session_id organisation_id) start).0 ≡ ok state

    context-IsLoaded :
        (before : Option AgentState) (state : AgentState) (row : ConversationSession)
        → From before state
        → Reads state
        → row.redis_key ≡ key
        → IsLoaded before (context_of env input organisation_id state row)
    context-IsLoaded none state row from read right = record {
      turns = from;
      earlier = state;
      read = read;
      messages = refl;
      right_key = right;
    }
    context-IsLoaded (some before) state row from read right = record {
      turns = ap (λ (a : AgentState). a.turn_count_since_result) from;
      earlier = state;
      read = read;
      messages = refl;
      right_key = right;
    }

    load_context-After :
        (before : Option AgentState) (state : AgentState) (s : Session ConversationTables)
        → Has before state s
        → Reads state
        → After (Loads before) (IsUntouched start) (load_context env input organisation_id state s)
    load_context-After before state s (h, from) read =
        elim (Option-cases (find_session organisation_id input.session_id s.view)) [
          | inl e ↦ rw (e, or_raise) h.untouched
          | inr (row, e) ↦
              let loaded = context-IsLoaded before state row from read (found-HasKey row s h e) in
              rw (e, or_raise)
                (record { untouched = h.untouched; keys_right = h.keys_right }, loaded)
        ]

    get_session_state-After :
        InTurn start (begin start)
        → After
            (Has (lookup key start.redis))
            (IsUntouched start)
            (get_session_state env input.session_id organisation_id (begin start))
    unfolding get_session_state
    get_session_state-After h = or_state-After (lookup key start.redis) (begin start) h

    pub load_session-After :
        InTurn start (begin start)
        → After
            (Loads (lookup key start.redis))
            (IsUntouched start)
            (load_session env input organisation_id (begin start))
    unfolding load_session
    load_session-After h =
        let cached = lookup key start.redis in
        let get = get_session_state env input.session_id organisation_id in
        After-bind (Loads cached) (IsUntouched start) get (load_context env input organisation_id)
          (begin start)
          (After-weaken (get (begin start)) (λ state t k. load_context-After cached state t k.0 k.1)
            (λ t k. k)
            (After-known (Has cached) (IsUntouched start) (get (begin start))
              (get_session_state-After h)))

-- ===== src/Sessions/Pipeline/Search.antt =====
-- What the search of a turn may commit, and the merge that follows it, by services/sessions/session_service.py
-- and services/search/faiss_index.py.
use mathlib.Core.Path.{subst}
use adhikar_ai.Prelude.{
  ℕ, String, Bool, true, false, refl, ap, if◌then◌else◌, ◌⊎◌, ◌≡◌, inl, inr, Option, none, some,
  List, nat_eq, string_eq, All, Bool-cases, arith,
}
use adhikar_ai.Prelude.Result.{Result, ok, err}
use adhikar_ai.Prelude.Exec.{Session, Exec, begin, pure, commit, ◌>>=◌, ◌>>◌}
use adhikar_ai.Eligibility.Engine.{SchemeWithRule}
use adhikar_ai.Schemes.Listing.{active_scheme_rules}
use adhikar_ai.Prelude.Exec.After.{After, After-bind, After-weaken}
use adhikar_ai.Db.Tables.{Tables}
use adhikar_ai.Agent.Question.{PendingFact}
use adhikar_ai.Agent.Extraction.Structured.{is_structured}
use adhikar_ai.Sessions.{ConversationTables, Chat, Env, reading}
use adhikar_ai.Sessions.Turn.{
  ChatInput, Context, Candidates, all_active, search_schemes, found_rules, searched_rules,
  retrieve_candidates, merge_profile_update,
}
use adhikar_ai.Sessions.Pipeline.Steps.{HasKey, IsUntouched, InTurn, Follows, Q}

-- The turn rebuilds no index, and the store takes its last state.
pub record IsCalm (env : Env) (input : ChatInput) : Type 0 where
  pub no_rebuild : (is_structured input.message ≡ true) ⊎ (env.index_rebuilt ≡ false)
  pub last_written : env.last_write_fails ≡ false

-- What is committed after a rebuild has perhaps committed some of it.
pub record Kept (start : ConversationTables) (env : Env) (input : ChatInput)
    (s : Session ConversationTables) : Type 0 where
  pub untouched : IsCalm env input → IsUntouched start s
  pub durable_keys : All HasKey s.durable.sessions

pub record InReply (start : ConversationTables) (env : Env) (input : ChatInput)
    (s : Session ConversationTables) : Type 0 where
  pub kept : Kept start env input s
  pub keys_right : All HasKey s.view.sessions

module _ {B : Type 0} (Q : B → Session ConversationTables → Type 0)
    (E : Session ConversationTables → Type 0) where
  After-reading :
      {A : Type 0} (m : Exec Tables A) (f : A → Chat B) (s : Session ConversationTables)
      → ((a : A) → After Q E (f a s))
      → E s
      → After Q E ((reading m >>= f) s)
  After-reading {A} m f s k h = go (m (begin s.view.schemes)).0
    where
      go : (r : Result A) → After Q E (elim r [ ok a ↦ f a s | err e ↦ (err e, s) ])
      go (ok a) = k a
      go (err e) = h

  After-commit_if :
      (b : Bool) (k : Chat B) (s : Session ConversationTables)
      → (b ≡ true → After Q E (k (record s { durable = s.view })))
      → (b ≡ false → After Q E (k s))
      → After Q E (((if b then commit else pure tt) >> k) s)
  After-commit_if true k s committed not_committed = committed refl
  After-commit_if false k s committed not_committed = not_committed refl

module _ (start : ConversationTables) (env : Env) (input : ChatInput) (loaded : Context) where
  -- The rest of a turn, after the search.
  abbrev pub R : Context → Session ConversationTables → Type 0
  R c s = InReply start env input s × Follows loaded c

  pub untouched-Kept :
      (s : Session ConversationTables)
      → All HasKey start.sessions
      → IsUntouched start s
      → Kept start env input s
  untouched-Kept s keyed h = record {
    untouched = λ _. h;
    durable_keys = subst (All HasKey) (ap (λ (u : ConversationTables). u.sessions) h) keyed;
  }

  turn-InReply :
      (s : Session ConversationTables)
      → All HasKey start.sessions
      → InTurn start s
      → InReply start env input s
  turn-InReply s keyed h = record {
    kept = untouched-Kept s keyed h.untouched;
    keys_right = h.keys_right;
  }

  found_rules-After :
      (organisation_id : ℕ) (all_rules : List SchemeWithRule) (results : List (String × String))
      (c : Context) (s : Session ConversationTables)
      → R c s
      → After
          (λ (_ : Candidates) t. R c t)
          (Kept start env input)
          (found_rules env organisation_id all_rules results s)
  found_rules-After organisation_id all_rules results c s h = ground arith

  rebuilt-InReply :
      (s : Session ConversationTables)
      → is_structured input.message ≡ false
      → env.index_rebuilt ≡ true
      → All HasKey s.view.sessions
      → InReply start env input (record s { durable = s.view })
  rebuilt-InReply s asked rebuilt keyed = record {
    kept = record {
      untouched = λ calm. absurd (ground (arith, calm.no_rebuild, asked, rebuilt));
      durable_keys = keyed;
    };
    keys_right = keyed;
  }

  search_schemes-After :
      (s : Session ConversationTables)
      → is_structured input.message ≡ false
      → All HasKey start.sessions
      → InTurn start s
      → After
          (λ (_ : List (String × String)) t. InReply start env input t)
          (Kept start env input)
          (search_schemes env s)
  search_schemes-After s asked keyed h =
      After-commit_if (λ (_ : List (String × String)) t. InReply start env input t)
        (Kept start env input) env.index_rebuilt (pure env.search_results) s
        (λ e. rebuilt-InReply s asked e h.keys_right) (λ e. turn-InReply s keyed h)

  searched_rules-After :
      (organisation_id : ℕ) (all_rules : List SchemeWithRule) (c : Context)
      (s : Session ConversationTables)
      → is_structured input.message ≡ false
      → All HasKey start.sessions
      → Q start env input loaded c s
      → After
          (λ (_ : Candidates) t. R c t)
          (Kept start env input)
          (searched_rules env organisation_id all_rules s)
  searched_rules-After organisation_id all_rules c s asked keyed (turn, follows) =
      After-bind (λ (_ : Candidates) t. R c t) (Kept start env input) (search_schemes env)
        (found_rules env organisation_id all_rules) s
        (After-weaken (search_schemes env s)
          (λ results t k. found_rules-After organisation_id all_rules results c t (k, follows))
          (λ t k. k) (search_schemes-After s asked keyed turn))

  pub retrieve_candidates-After :
      (organisation_id : ℕ) (c : Context) (s : Session ConversationTables)
      → All HasKey start.sessions
      → Q start env input loaded c s
      → After
          (λ (_ : Candidates) t. R c t)
          (Kept start env input)
          (retrieve_candidates env input organisation_id s)
  unfolding retrieve_candidates
  retrieve_candidates-After organisation_id c s keyed (turn, follows) =
      let kept = turn-InReply s keyed turn in
      After-reading (λ (_ : Candidates) t. R c t) (Kept start env input)
        (active_scheme_rules env.name_le env.today organisation_id)
        (λ all_rules.
          if is_structured input.message
          then pure (all_active all_rules)
          else searched_rules env organisation_id all_rules)
        s
        (λ all_rules. elim (Bool-cases (is_structured input.message)) [
          | inl e ↦ rw e (kept, follows)
          | inr e ↦
              rw e (searched_rules-After organisation_id all_rules c s e keyed (turn, follows))
        ])
        kept.kept

  pub merge_profile_update-After :
      (c : Context) (answer : Option Bool) (s : Session ConversationTables)
      → R c s
      → After
          (λ (merged : Context × Option PendingFact) t. R merged.0 t)
          (Kept start env input)
          (merge_profile_update c answer s)
  unfolding merge_profile_update
  merge_profile_update-After c (some b) s h = h
  merge_profile_update-After c none s h = ground arith

-- ===== src/Sessions/Requests.antt =====
-- The requests of conversations and profiles, one after another, and the states of the database that they reach.
pub mod Turns
pub mod Profiles
pub mod Keys
pub mod Progress
use adhikar_ai.Prelude.{ℕ, ◌≡◌, List, []}
use adhikar_ai.Prelude.Exec.{run}
use adhikar_ai.Sessions.{ConversationTables, Env}
use adhikar_ai.Sessions.Begin.{CreateSessionRequest, get_or_create_session}
use adhikar_ai.Sessions.Turn.{ChatInput}
use adhikar_ai.Sessions.Patch.{PatchProfileRequest, patch_profile}
use adhikar_ai.Sessions.Households.{
  CreateHouseholdMemberRequest, create_household_member, delete_household_member,
}
use adhikar_ai.Sessions.Pipeline.{handle_chat_turn}

pub data ChatRequest : Type 0 where
  start_session : CreateSessionRequest → ChatRequest
  say : ChatInput → ChatRequest
  patch : ℕ → PatchProfileRequest → ChatRequest
  add_member : ℕ → CreateHouseholdMemberRequest → ChatRequest
  remove_member : ℕ → ℕ → ℕ → ChatRequest

-- What is committed, and what the store has, after the request.
abbrev pub after_request : Env → ChatRequest → ConversationTables → ConversationTables
after_request env (start_session request) t = (run (get_or_create_session env request) t).1
after_request env (say input) t = (run (handle_chat_turn env input) t).1
after_request env (patch profile_id request) t = (run (patch_profile env profile_id request) t).1
after_request env (add_member household_id request) t =
    (run (create_household_member env household_id request) t).1
after_request env (remove_member household_id profile_id organisation_id) t =
    (run (delete_household_member household_id profile_id organisation_id) t).1

-- What requests make of a database that has no conversation yet.
pub data Reachable : ConversationTables → Type 0 where
  no_sessions : (t : ConversationTables) → t.sessions ≡ [] → Reachable t
  then_request :
      {t after : ConversationTables}
      → Reachable t
      → (env : Env) (request : ChatRequest) → after ≡ after_request env request t
      → Reachable after

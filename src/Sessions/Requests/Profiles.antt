-- ===== src/Sessions/Requests/Profiles.antt =====
-- What patches and changes of a household leave alone: services/profiles.py and services/households.py.
use mathlib.Core.Path.{subst}
use adhikar_ai.Prelude.{ℕ, ◌≡◌, sym, All, arith}
use adhikar_ai.Prelude.Result.{Result, ok, err}
use adhikar_ai.Prelude.Exec.{Session, begin}
use adhikar_ai.Prelude.Exec.After.{After}
use adhikar_ai.Sessions.{MatchSnapshot, ProfileRow, ConversationTables, Env}
use adhikar_ai.Sessions.Profile.{Changes}
use adhikar_ai.Sessions.Patch.{PatchProfileRequest, finish_patch, apply_patch, patch_profile}
use adhikar_ai.Sessions.Households.{
  CreateHouseholdMemberRequest, create_household_member, delete_household_member,
}
use adhikar_ai.Sessions.Pipeline.Steps.{HasKey}

module _ (t : ConversationTables) where
  -- The conversations are left alone, whatever becomes of the profiles.
  abbrev Same : Session ConversationTables → Type 0
  Same s = s.durable.sessions ≡ t.sessions

  abbrev G : {A : Type 0} → A → Session ConversationTables → Type 0
  G _ s = Same s

  finish_patch-After :
      (env : Env) (request : PatchProfileRequest) (row : ProfileRow) (c : Changes)
      (completeness : ℕ) (m : MatchSnapshot)
      → After G Same (finish_patch env request row c completeness m (begin t))
  finish_patch-After env request row c completeness m = ground arith

  apply_patch-After :
      (env : Env) (request : PatchProfileRequest) (row : ProfileRow) (c : Changes)
      → After G Same (apply_patch env request row c (begin t))
  apply_patch-After env request row c = ground arith

  pub patch_profile-After :
      (env : Env) (id : ℕ) (request : PatchProfileRequest)
      → After G Same (patch_profile env id request (begin t))
  unfolding patch_profile
  patch_profile-After env id request = ground arith

  pub create_household_member-After :
      (env : Env) (id : ℕ) (request : CreateHouseholdMemberRequest)
      → After G Same (create_household_member env id request (begin t))
  unfolding create_household_member
  create_household_member-After env id request = ground arith

  pub delete_household_member-After :
      (household_id profile_id organisation_id : ℕ)
      → After G Same (delete_household_member household_id profile_id organisation_id (begin t))
  unfolding delete_household_member
  delete_household_member-After household_id profile_id organisation_id = ground arith

  pub Same-IsKeyed :
      {A : Type 0} (r : Result A × Session ConversationTables)
      → All HasKey t.sessions
      → After G Same r
      → All HasKey r.1.durable.sessions
  Same-IsKeyed (ok a, s) keyed h = subst (All HasKey) (sym h) keyed
  Same-IsKeyed (err e, s) keyed h = subst (All HasKey) (sym h) keyed

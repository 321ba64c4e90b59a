-- ===== src/Core/Security/Members.antt =====
-- Whom require_dashboard_actor of core/security.py lets in.

use adhikar_ai.Prelude.{
  not, ◌||◌, ℕ, ◌+◌, ◌≡◌, ◌≢◌, refl, ap, ◌∙◌, String, true, false, Option, none, some, List, Member,
  find-some, Bool-cases, if◌then◌else◌, ltb, arith, inl, inr,
}
use adhikar_ai.Prelude.Int.{pos}
use adhikar_ai.Prelude.Result.{ok, err, raise_if, ◌>>=◌, bind-ok}
use adhikar_ai.Prelude.Text.{is_empty}
use adhikar_ai.Value.{Fields, get}
use adhikar_ai.Accounts.{User}
use adhikar_ai.Dashboard.Rbac.{DashboardActor}
use adhikar_ai.Core.Security.{
  is_dashboard, has_member, SecurityEnv, OrganisationMember, not_authenticated,
  dashboard_session_required, session_payload, create_session_jwt, dashboard_payload,
  create_dashboard_session_jwt, int_of, expiry_of, decode_session_jwt, uuid_at, or_internal,
  cookie_payload, actor_of, member_of, active_member, member_by_id, require_dashboard_actor,
}
use adhikar_ai.Core.Security.Tokens.{IsReadable, decode_session_jwt-sign}
use adhikar_ai.Core.Security.Access.{
  given-sign_payload, hundred, cookie_payload-session, IsAuthentic, cookie_payload-IsAuthentic,
}

module _ (env : SecurityEnv) (now : ℕ) (user : User)
    (readable : IsReadable env (session_payload env now user)) where
  -- The token of a citizen does not open the dashboard.
  pub require_dashboard_actor_citizen :
      (at : ℕ) (members : List OrganisationMember) (actor : DashboardActor)
      → require_dashboard_actor env at (some (create_session_jwt env now user)) members ≢ ok actor
  unfolding require_dashboard_actor get
  require_dashboard_actor_citizen at members actor h =
      let refused : member_of env members (session_payload env now user)
          ≡ err dashboard_session_required =
        refl in
      let step =
        ap (λ r. r >>= member_of env members) (cookie_payload-session env now user readable at) in
      ground (arith, h, step, refused)

module _ (env : SecurityEnv) (now : ℕ) (member : OrganisationMember)
    (readable : IsReadable env (dashboard_payload env now member)) where
  dashboard_expiry :
      expiry_of env (dashboard_payload env now member)
      ≡ some (pos (now + env.dashboard_session_idle_timeout_seconds))
  unfolding get int_of
  dashboard_expiry = rw (hundred (now + env.dashboard_session_idle_timeout_seconds))

  cookie_payload-dashboard :
      (at : ℕ)
      → cookie_payload env at (some (create_dashboard_session_jwt env now member)) ≡ (
          if ltb (now + env.dashboard_session_idle_timeout_seconds) at
          then err not_authenticated
          else ok (dashboard_payload env now member))
  unfolding create_dashboard_session_jwt
  cookie_payload-dashboard at =
      ap (λ r. r >>= decode_session_jwt env at)
        (given-sign_payload env (dashboard_payload env now member))
      ∙ decode_session_jwt-sign env (dashboard_payload env now member) readable at
          (now + env.dashboard_session_idle_timeout_seconds) dashboard_expiry

  -- The token of a member opens the dashboard until it expires, with the role, the organisation and the
  -- name that the member's row has at the time of the request, and only while that row is active.
  pub require_dashboard_actor_session :
      (at : ℕ) (members : List OrganisationMember) (row : OrganisationMember)
      → env.uuid (env.str_uuid member.id) ≡ some member.id
      → is_empty (env.str_uuid member.id) ≡ false
      → member_by_id member.id members ≡ some row
      → require_dashboard_actor env at (some (create_dashboard_session_jwt env now member)) members
        ≡ (if ltb (now + env.dashboard_session_idle_timeout_seconds) at
            then err not_authenticated
            else if row.is_active
            then ok (actor_of row)
            else err dashboard_session_required)
  unfolding require_dashboard_actor get
  require_dashboard_actor_session at members row id nonempty found =
      let opened : member_of env members (dashboard_payload env now member)
          ≡ (if row.is_active then ok (actor_of row) else err dashboard_session_required) =
        rw nonempty (rw id (rw found refl)) in
      ap (λ r. r >>= member_of env members) (cookie_payload-dashboard at) ∙ ground (arith, opened)

active_member-ok :
    (found : Option OrganisationMember) (actor : DashboardActor)
    → active_member found ≡ ok actor
    → (row : OrganisationMember) × (found ≡ some row)
      × (row.is_active ≡ true)
      × (actor ≡ actor_of row)
active_member-ok none actor h = absurd (ground (arith, h))
active_member-ok (some row) actor h = elim (Bool-cases row.is_active) [
  | inl e ↦ (row, refl, e, ground (arith, h, e))
  | inr e ↦ absurd (ground (arith, h, e))
]

member_of-ok :
    (env : SecurityEnv) (members : List OrganisationMember) (payload : Fields)
    (actor : DashboardActor)
    → member_of env members payload ≡ ok actor
    → (row : OrganisationMember) × Member row members
      × (row.is_active ≡ true)
      × (actor ≡ actor_of row)
member_of-ok env members payload actor h =
    let (_, _, rest) =
      bind-ok
        (raise_if
          (not (is_dashboard (get "typ" payload)) || not (has_member (get "member_id" payload)))
          dashboard_session_required)
        (λ _. or_internal (uuid_at env "member_id" payload) >>= λ id.
          active_member (member_by_id id members))
        actor h in
    let (id, _, opened) =
      bind-ok (or_internal (uuid_at env "member_id" payload))
        (λ id. active_member (member_by_id id members)) actor rest in
    let (row, found, active, same) = active_member-ok (member_by_id id members) actor opened in
    (row, (find-some _ row members found).0, active, same)

-- Whoever is let in to the dashboard has a signed token and an active member's row, and acts with the
-- role, the organisation and the name of that row.
pub require_dashboard_actor_sound :
    (env : SecurityEnv) (now : ℕ) (cookie : Option String) (members : List OrganisationMember)
    (actor : DashboardActor)
    → require_dashboard_actor env now cookie members ≡ ok actor
    → IsAuthentic env cookie
      × ((row : OrganisationMember) × Member row members
          × (row.is_active ≡ true)
          × (actor ≡ actor_of row))
unfolding require_dashboard_actor
require_dashboard_actor_sound env now cookie members actor h =
    let (payload, read, rest) =
      bind-ok (cookie_payload env now cookie) (member_of env members) actor h in
    (
      cookie_payload-IsAuthentic env now cookie payload read,
      member_of-ok env members payload actor rest,
    )

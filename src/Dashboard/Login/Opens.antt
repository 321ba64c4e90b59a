-- ===== src/Dashboard/Login/Opens.antt =====
-- The session that the login of api/routes/dashboard.py begins.
use adhikar_ai.Prelude.{
  ℕ, ◌+◌, ◌≡◌, refl, sym, ap, ◌∙◌, String, false, true, some, List, [], ◌∷◌, Member, here, filter,
  find-some, find-none, Member-filter, Option-cases, nat_eq, arith, inl, inr, if◌then◌else◌, ltb,
}
use adhikar_ai.Prelude.Result.{ok, err, ◌>>=◌, bind-ok}
use adhikar_ai.Prelude.Text.{is_empty, lower, strip}
use adhikar_ai.Dashboard.Rbac.{DashboardActor}
use adhikar_ai.Core.Security.{
  SecurityEnv, OrganisationMember, actor_of, create_dashboard_session_jwt, dashboard_payload,
  member_by_id, require_dashboard_actor, not_authenticated,
}
use adhikar_ai.Core.Security.Tokens.{IsReadable}
use adhikar_ai.Core.Security.Members.{require_dashboard_actor_session}
use adhikar_ai.Dashboard.Login.{
  LoginSettings, DashboardMeResponse, DashboardLoginRequest, dashboard_me,
  assert_dev_dashboard_login_enabled, has_email, only_member, dashboard_login,
}

only_member-ok :
    (rows : List OrganisationMember) (member : OrganisationMember)
    → only_member rows ≡ ok member
    → Member member rows
unfolding only_member
only_member-ok [] member h = absurd (ground (arith, h))
only_member-ok (row ∷ []) member h = here (ground (arith, h))
only_member-ok (_ ∷ _ ∷ _) member h = absurd (ground (arith, h))

has_email-active :
    (email : String) (member : OrganisationMember)
    → has_email email member ≡ true
    → member.is_active ≡ true
has_email-active email member h = elim (Option-cases member.email) [
  | inl e ↦ absurd (ground (arith, h, e))
  | inr (address, e) ↦ ground (arith, h, e)
]

-- Ids are keys of the members, and UUIDs have texts that are read back.
pub record IsRoster (env : SecurityEnv) (members : List OrganisationMember) : Type 0 where
  pub keys : (a b : OrganisationMember) → Member a members → Member b members → a.id ≡ b.id → a ≡ b
  pub uuid : (m : OrganisationMember) → Member m members → env.uuid (env.str_uuid m.id) ≡ some m.id
  pub nonempty : (m : OrganisationMember) → Member m members → is_empty (env.str_uuid m.id) ≡ false

member_by_id-keys :
    (env : SecurityEnv) (members : List OrganisationMember) (member : OrganisationMember)
    → IsRoster env members
    → Member member members
    → member_by_id member.id members ≡ some member
member_by_id-keys env members member roster m =
    elim (Option-cases (member_by_id member.id members)) [
      | inl e ↦
          absurd
            (ground (arith, find-none _ member members e m, nat_eq.test_iff member.id member.id))
      | inr (other, e) ↦
          let (k, same_id) = find-some _ other members e in
          let same : other ≡ member =
            roster.keys other member k m
              (ground (arith, same_id, nat_eq.test_iff other.id member.id)) in
          e ∙ ap some same
    ]

-- A login that succeeds gives a cookie which, until it expires, opens the dashboard as the member whom the
-- reply describes.
pub dashboard_login_opens :
    (env : SecurityEnv) (settings : LoginSettings) (now at : ℕ) (request : DashboardLoginRequest)
    (members : List OrganisationMember) (me : DashboardMeResponse) (cookie : String)
    → ((m : OrganisationMember) → Member m members → IsReadable env (dashboard_payload env now m))
    → IsRoster env members
    → dashboard_login env settings now request members ≡ ok (me, cookie)
    → (actor : DashboardActor) × (me ≡ dashboard_me actor)
      × (require_dashboard_actor env at (some cookie) members ≡ (
          if ltb (now + env.dashboard_session_idle_timeout_seconds) at
          then err not_authenticated
          else ok actor))
unfolding dashboard_login
dashboard_login_opens env settings now at request members me cookie readable roster h =
    let rows = filter (has_email (lower (strip request.email))) members in
    let (_, _, rest) =
      bind-ok (assert_dev_dashboard_login_enabled settings request.login_code)
        (λ _. only_member rows >>= λ member.
          ok (dashboard_me (actor_of member), create_dashboard_session_jwt env now member))
        (me, cookie) h in
    let (member, only, replied) =
      bind-ok (only_member rows)
        (λ member. ok (dashboard_me (actor_of member), create_dashboard_session_jwt env now member))
        (me, cookie) rest in
    let pair : ◌≡◌ {A = DashboardMeResponse × String}
        (dashboard_me (actor_of member), create_dashboard_session_jwt env now member) (me, cookie) =
      ground (arith, replied) in
    let (m, found) = Member-filter _ member members (only_member-ok rows member only) in
    let active = has_email-active (lower (strip request.email)) member found in
    let opened =
      require_dashboard_actor_session env now member (readable member m) at members member
        (roster.uuid member m) (roster.nonempty member m)
        (member_by_id-keys env members member roster m) in
    (
      actor_of member,
      sym (ap (λ (p : DashboardMeResponse × String). p.0) pair),
      ap (λ (c : String). require_dashboard_actor env at (some c) members)
            (sym (ap (λ (p : DashboardMeResponse × String). p.1) pair))
          ∙ opened
          ∙ rw active refl,
    )

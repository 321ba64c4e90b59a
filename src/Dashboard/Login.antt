-- ===== src/Dashboard/Login.antt =====
-- api/routes/dashboard.py: the login of the dashboard for development, and what a member sees of itself.
pub mod Opens
pub mod Tests
use Prim.Native.Char.{code}
use adhikar_ai.Prelude.{
  ℕ, String, Bool, true, false, not, ◌&&◌, ◌||◌, Option, none, some, List, [], ◌∷◌, filter,
  contains, ◌==◌, nat_eq, string_eq, if◌then◌else◌, ltb,
}
use adhikar_ai.Prelude.Result.{Result, ok, err, api_error, raise_if, ◌>>=◌, ◌>>◌}
use adhikar_ai.Prelude.Sorting.{sort}
use adhikar_ai.Prelude.Text.{is_empty, lower, strip, all_chars, str_leb}
use adhikar_ai.Accounts.Login.{internal_error}
use adhikar_ai.Dashboard.Rbac.{DashboardRole, DashboardActor, role_permissions}
use adhikar_ai.Core.Security.{
  SecurityEnv, OrganisationMember, actor_of, create_dashboard_session_jwt,
}

-- The settings that the login reads.
pub record LoginSettings : Type 0 where
  pub app_env : String
  pub dashboard_auth_provider : String
  pub dashboard_dev_login_enabled : Bool
  pub dashboard_dev_login_code : String

pub record DashboardMeResponse : Type 0 where
  pub member_id : ℕ
  pub organisation_id : ℕ
  pub role : DashboardRole
  pub display_name : String
  pub permissions : List String

pub record DashboardLoginRequest : Type 0 where
  pub email : String
  pub login_code : String

-- `_dashboard_me`
unfoldable pub dashboard_me : DashboardActor → DashboardMeResponse
dashboard_me actor = record {
  member_id = actor.member_id;
  organisation_id = actor.organisation_id;
  role = actor.role;
  display_name = actor.display_name;
  permissions = sort str_leb (role_permissions actor.role);
}

abbrev pub is_local_like_env : LoginSettings → Bool
is_local_like_env settings = contains (lower settings.app_env) ("local" ∷ "dev" ∷ "test" ∷ [])

abbrev pub is_ascii : String → Bool
is_ascii s = all_chars (λ c. ltb (code c) 128) s

-- `hmac.compare_digest` on texts, which raises a TypeError where one is not ASCII.
abbrev pub compare_digest : String → String → Result Bool
compare_digest a b = if is_ascii a && is_ascii b then ok (a == b) else err internal_error

-- `_assert_dev_dashboard_login_enabled`
unfoldable pub assert_dev_dashboard_login_enabled : LoginSettings → String → Result (Unit {0})
assert_dev_dashboard_login_enabled settings login_code = do
  raise_if (settings.dashboard_auth_provider == "disabled")
      (api_error 503 "DASHBOARD_AUTH_NOT_CONFIGURED" "dashboard_auth_provider")
  raise_if
      ((not (is_local_like_env settings) || not (settings.dashboard_auth_provider == "dev"))
        || (not settings.dashboard_dev_login_enabled || is_empty settings.dashboard_dev_login_code))
      (api_error 403 "DASHBOARD_DEV_LOGIN_DISABLED" "dashboard_auth_provider")
  same ← compare_digest login_code settings.dashboard_dev_login_code
  raise_if (not same) (api_error 401 "DASHBOARD_INVALID_CREDENTIALS" "login_code")

-- The condition of the query for members; `func.lower` of the database, on ASCII.
abbrev pub has_email : String → OrganisationMember → Bool
has_email email member = elim member.email [
  | none ↦ false
  | some e ↦ lower e == email && member.is_active
]

-- The only row of the query.
unfoldable pub only_member : List OrganisationMember → Result OrganisationMember
only_member [] = err (api_error 401 "DASHBOARD_INVALID_CREDENTIALS" "email")
only_member (member ∷ []) = ok member
only_member _ = err (api_error 400 "DASHBOARD_MEMBER_AMBIGUOUS" "email")

-- The reply and the cookie.
unfoldable pub dashboard_login :
    SecurityEnv
    → LoginSettings
    → ℕ
    → DashboardLoginRequest
    → List OrganisationMember
    → Result (DashboardMeResponse × String)
unfolding assert_dev_dashboard_login_enabled only_member
dashboard_login env settings now request members = do
  assert_dev_dashboard_login_enabled settings request.login_code
  let email = lower (strip request.email)
  member ← only_member (filter (has_email email) members)
  ok (dashboard_me (actor_of member), create_dashboard_session_jwt env now member)

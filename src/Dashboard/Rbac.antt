-- ===== src/Dashboard/Rbac.antt =====
-- dashboard/rbac.py: the roles of the dashboard, their permissions, and the scope of an actor.
pub mod Laws
pub mod Tests
use adhikar_ai.Prelude.{
  ℕ, String, Bool, true, false, not, ◌&&◌, Option, some, List, [], ◌∷◌, ◌==◌, nat_eq, string_eq,
  option_eq, contains,
}
use adhikar_ai.Prelude.Result.{Result, api_error, raise_if, ◌>>◌}

pub data DashboardRole : Type 0 where
  super_admin ngo_admin operator : DashboardRole

abbrev pub is_super_admin : DashboardRole → Bool
is_super_admin super_admin = true
is_super_admin _ = false

abbrev pub is_operator : DashboardRole → Bool
is_operator operator = true
is_operator _ = false

-- `ROLE_PERMISSIONS`
abbrev pub role_permissions : DashboardRole → List String
role_permissions super_admin = "*" ∷ []
role_permissions ngo_admin =
    "beneficiary:read" ∷ "beneficiary:write" ∷ "beneficiary:export" ∷ "scheme:read"
    ∷ "analytics:read" ∷ []
role_permissions operator = "beneficiary:read" ∷ "beneficiary:write" ∷ "scheme:read" ∷ []

pub record DashboardActor : Type 0 where
  pub user_id : Option ℕ
  pub member_id : ℕ
  pub organisation_id : ℕ
  pub role : DashboardRole
  pub display_name : String

unfoldable pub require_actor_permission : DashboardActor → String → Result (Unit {0})
require_actor_permission actor permission =
    let allowed = role_permissions actor.role in
    raise_if (not (contains "*" allowed) && not (contains permission allowed))
      (api_error 403 "PERMISSION_DENIED" "permission")

unfoldable pub assert_organisation_scope : DashboardActor → ℕ → Result (Unit {0})
assert_organisation_scope actor organisation_id =
    raise_if (not (is_super_admin actor.role) && not (actor.organisation_id == organisation_id))
      (api_error 403 "ORG_SCOPE_DENIED" "organisation_id")

unfoldable pub assert_beneficiary_access : DashboardActor → ℕ → Option ℕ → Result (Unit {0})
unfolding assert_organisation_scope
assert_beneficiary_access actor beneficiary_organisation_id assigned_operator_id = do
  assert_organisation_scope actor beneficiary_organisation_id
  raise_if (is_operator actor.role && not (assigned_operator_id == some actor.member_id))
      (api_error 403 "BENEFICIARY_NOT_ASSIGNED" "beneficiary_id")

-- ===== src/Dashboard/Rbac/Laws.antt =====
-- Who may do what: the checks of rbac.py against the roles' description.
use adhikar_ai.Prelude.{ℕ, ◌≡◌, ◌↔◌, ◌≢◌, Option, some, arith}
use adhikar_ai.Prelude.Result.{err, api_error, done}
use adhikar_ai.Dashboard.Rbac.{
  DashboardRole, super_admin, ngo_admin, operator, DashboardActor, assert_beneficiary_access,
}

-- A super admin reaches every beneficiary, an NGO admin those of the own organisation, and an operator
-- those of the own organisation that are assigned to the operator.
abbrev pub MayReach : DashboardActor → ℕ → Option ℕ → DashboardRole → Type 0
MayReach actor organisation assigned super_admin = Unit
MayReach actor organisation assigned ngo_admin = actor.organisation_id ≡ organisation
MayReach actor organisation assigned operator =
    (actor.organisation_id ≡ organisation) × (assigned ≡ some actor.member_id)

module _ (actor : DashboardActor) where
  -- `assert_beneficiary_access` lets an actor pass to exactly the beneficiaries that the actor's role
  -- reaches.
  pub assert_beneficiary_access_iff :
      (organisation : ℕ) (assigned : Option ℕ)
      → (assert_beneficiary_access actor organisation assigned ≡ done)
        ↔ MayReach actor organisation assigned actor.role
  unfolding assert_beneficiary_access
  assert_beneficiary_access_iff organisation assigned = ground arith

  -- Outside the own organisation every actor but a super admin is refused with 403 ORG_SCOPE_DENIED,
  -- whoever the beneficiary is assigned to.
  pub cross_organisation_denied :
      (organisation : ℕ) (assigned : Option ℕ)
      → actor.role ≢ super_admin
      → actor.organisation_id ≢ organisation
      → assert_beneficiary_access actor organisation assigned
        ≡ err (api_error 403 "ORG_SCOPE_DENIED" "organisation_id")
  unfolding assert_beneficiary_access
  cross_organisation_denied organisation assigned role other = ground arith

-- ===== src/Dashboard/Rbac/Tests.antt =====
-- The access checks for concrete actors.
use adhikar_ai.Prelude.{◌≡◌, ◌≢◌, ◌↔◌, some, none, arith}
use adhikar_ai.Prelude.Result.{done}
use adhikar_ai.Dashboard.Rbac.{super_admin, operator, DashboardActor, assert_beneficiary_access}
use adhikar_ai.Dashboard.Rbac.Laws.{MayReach, assert_beneficiary_access_iff}

abbrev pub asha : DashboardActor
asha = record {
  user_id = none;
  member_id = 7;
  organisation_id = 1;
  role = operator;
  display_name = "Asha";
}

no_super_admin : asha.role ≢ super_admin
no_super_admin h = ground arith

other_organisation : asha.organisation_id ≢ 2
other_organisation h = ground arith

assert_beneficiary_access_iff_example :
    (assert_beneficiary_access asha 1 (some 7) ≡ done) ↔ MayReach asha 1 (some 7) operator
assert_beneficiary_access_iff_example = assert_beneficiary_access_iff asha 1 (some 7)

-- ===== src/Dashboard/Beneficiaries/Requests.antt =====
-- The requests of the dashboard that write.
pub mod Steps
pub mod RowWrites
pub mod CaseWrites
pub mod Reach
pub mod Views
use adhikar_ai.Prelude.{ℕ, String, Bool, Option}
use adhikar_ai.Prelude.Result.{Result, is_ok}
use adhikar_ai.Prelude.Exec.{run}
use adhikar_ai.Dashboard.Rbac.{DashboardActor}
use adhikar_ai.Dashboard.Beneficiaries.{BeneficiaryTables, Desk, DeskEnv}
use adhikar_ai.Dashboard.Beneficiaries.Writes.{
  CreateBeneficiaryRequest, create_beneficiary, UpdateBeneficiaryRequest, update_beneficiary,
}
use adhikar_ai.Dashboard.Beneficiaries.Casework.{
  add_note, add_followup, update_followup, update_application_status,
}

pub data WriteRequest : Type 0 where
  create_one : CreateBeneficiaryRequest → WriteRequest
  update_one : ℕ → UpdateBeneficiaryRequest → WriteRequest
  write_note : ℕ → String → WriteRequest
  plan_followup : ℕ → ℕ → Option String → WriteRequest
  close_followup : ℕ → String → WriteRequest
  change_status : ℕ → String → Option String → WriteRequest

-- Whether the request succeeds, and the database after it.
abbrev pub outcome : {A : Type 0} → Desk A → BeneficiaryTables → Bool × BeneficiaryTables
outcome m t = (is_ok (run m t).0, (run m t).1)

abbrev pub write :
    DeskEnv → DashboardActor → WriteRequest → BeneficiaryTables → Bool × BeneficiaryTables
write env actor (create_one r) t = outcome (create_beneficiary env actor r) t
write env actor (update_one id r) t = outcome (update_beneficiary actor id r) t
write env actor (write_note id s) t = outcome (add_note env actor id s) t
write env actor (plan_followup id due reason) t = outcome (add_followup env actor id due reason) t
write env actor (close_followup id status) t = outcome (update_followup env actor id status) t
write env actor (change_status id status notes) t =
    outcome (update_application_status actor id status notes) t

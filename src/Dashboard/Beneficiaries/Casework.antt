-- ===== src/Dashboard/Beneficiaries/Casework.antt =====
-- dashboard/beneficiaries.py: notes, follow-ups and the statuses of applications, each with its entry in the
-- audit log.
use adhikar_ai.Prelude.{
  ℕ, String, ◌&&◌, Option, none, some, [], ◌∷◌, ◌++◌, ◌==◌, nat_eq, string_eq, option_eq, find,
  if◌then◌else◌,
}
use adhikar_ai.Prelude.Text.{str_nat}
use adhikar_ai.Prelude.Result.{api_error}
use adhikar_ai.Prelude.Exec.{pure, gets, lift, or_raise, modify, commit, ◌>>=◌, ◌>>◌}
use adhikar_ai.Value.{text}
use adhikar_ai.Db.Tables.{update_rows}
use adhikar_ai.Accounts.Saved.{ApplicationStatus, ApplicationStatusEvent}
use adhikar_ai.Dashboard.Rbac.{DashboardActor, require_actor_permission, assert_beneficiary_access}
use adhikar_ai.Dashboard.Beneficiaries.{
  Beneficiary, BeneficiaryNote, BeneficiaryFollowup, BeneficiaryTables, Desk, DeskEnv,
  add_audit_log, get_beneficiary,
}

abbrev pub new_note : DeskEnv → DashboardActor → Beneficiary → String → BeneficiaryNote
new_note env actor row note = record {
  id = env.row_id;
  organisation_id = row.organisation_id;
  beneficiary_id = row.id;
  author_member_id = actor.member_id;
  note = note;
}

abbrev pub store_note : DeskEnv → DashboardActor → String → Beneficiary → Desk (ℕ × String)
store_note env actor note row = do
  modify λ (t : BeneficiaryTables). record t { notes = t.notes ++ new_note env actor row note ∷ [] }
  modify (
      add_audit_log actor "beneficiary.note.create" "beneficiary" row.id []
        (("note_id", text (str_nat env.row_id)) ∷ []))
  commit
  pure (env.row_id, note)

unfoldable pub add_note : DeskEnv → DashboardActor → ℕ → String → Desk (ℕ × String)
add_note env actor beneficiary_id note = do
  lift (require_actor_permission actor "beneficiary:write")
  row ← get_beneficiary actor beneficiary_id
  store_note env actor note row

abbrev pub new_followup : DeskEnv → Beneficiary → ℕ → Option String → BeneficiaryFollowup
new_followup env row due_date reason = record {
  id = env.row_id;
  organisation_id = row.organisation_id;
  beneficiary_id = row.id;
  assigned_operator_id = row.assigned_operator_id;
  due_date = due_date;
  reason = reason;
  status = "open";
  completed_at = none;
}

abbrev pub store_followup :
    DeskEnv → DashboardActor → ℕ → Option String → Beneficiary → Desk (ℕ × (ℕ × String))
store_followup env actor due_date reason row = do
  modify λ (t : BeneficiaryTables). record t {
    followups = t.followups ++ new_followup env row due_date reason ∷ [];
  }
  modify (
      add_audit_log actor "beneficiary.followup.create" "beneficiary" row.id []
        (("followup_id", text (str_nat env.row_id)) ∷ []))
  commit
  pure (env.row_id, (due_date, "open"))

unfoldable pub add_followup :
    DeskEnv → DashboardActor → ℕ → ℕ → Option String → Desk (ℕ × (ℕ × String))
add_followup env actor beneficiary_id due_date reason = do
  lift (require_actor_permission actor "beneficiary:write")
  row ← get_beneficiary actor beneficiary_id
  store_followup env actor due_date reason row

abbrev pub with_followup_status : DeskEnv → String → BeneficiaryFollowup → BeneficiaryFollowup
with_followup_status env status u = record u {
  status = status;
  completed_at = if status == "completed" then some env.now else none;
}

abbrev pub set_followup :
    ℕ → (BeneficiaryFollowup → BeneficiaryFollowup) → BeneficiaryTables → BeneficiaryTables
set_followup id f t = record t {
  followups = update_rows (λ (u : BeneficiaryFollowup). u.id == id) f t.followups;
}

abbrev pub store_followup_status :
    DeskEnv → DashboardActor → BeneficiaryFollowup → String → Beneficiary → Desk (ℕ × String)
store_followup_status env actor followup status row = do
  modify (set_followup followup.id (with_followup_status env status))
  modify (
      add_audit_log actor "beneficiary.followup.update" "beneficiary" row.id []
        (("followup_id", text (str_nat followup.id)) ∷ ("status", text status) ∷ []))
  commit
  pure (followup.id, status)

abbrev pub change_followup :
    DeskEnv → DashboardActor → String → BeneficiaryFollowup → Desk (ℕ × String)
change_followup env actor status followup = do
  row ← get_beneficiary actor followup.beneficiary_id
  store_followup_status env actor followup status row

abbrev pub followup_by_id : ℕ → BeneficiaryTables → Option BeneficiaryFollowup
followup_by_id id t = find (λ (u : BeneficiaryFollowup). u.id == id) t.followups

-- No permission is asked for.
unfoldable pub update_followup : DeskEnv → DashboardActor → ℕ → String → Desk (ℕ × String)
update_followup env actor followup_id status = do
  found ← gets (followup_by_id followup_id)
  followup ← or_raise found (api_error 404 "FOLLOWUP_NOT_FOUND" "followup_id")
  change_followup env actor status followup

abbrev with_application_status : String → Option String → ApplicationStatus → ApplicationStatus
with_application_status status notes s = record s {
  status = status;
  notes = notes;
  source = "operator";
}

abbrev operator_event : ApplicationStatus → String → Option String → ApplicationStatusEvent
operator_event s status notes = record {
  organisation_id = s.organisation_id;
  application_status_id = s.id;
  old_status = some s.status;
  new_status = status;
  source = "operator";
  notes = notes;
}

abbrev record_status :
    ApplicationStatus → String → Option String → BeneficiaryTables → BeneficiaryTables
record_status s status notes t = record t {
  application_statuses =
      update_rows (λ (other : ApplicationStatus). other.id == s.id)
        (with_application_status status notes) t.application_statuses;
  application_status_events = t.application_status_events ++ operator_event s status notes ∷ [];
}

abbrev pub application_by_id : ℕ → BeneficiaryTables → Option ApplicationStatus
application_by_id id t = find (λ (s : ApplicationStatus). s.id == id) t.application_statuses

-- The beneficiary whom the application is of; a deleted one too.
abbrev pub owner_of : ApplicationStatus → BeneficiaryTables → Option Beneficiary
owner_of s t =
    find
      (λ (b : Beneficiary). b.organisation_id == s.organisation_id && b.profile_id == s.profile_id)
      t.beneficiaries

abbrev pub store_application_status :
    DashboardActor → String → Option String → ApplicationStatus → Desk (ℕ × String)
store_application_status actor status notes application = do
  modify (record_status application status notes)
  modify (
      add_audit_log actor "application_status.update" "application_status" application.id
        (("status", text application.status) ∷ []) (("status", text status) ∷ []))
  commit
  pure (application.id, status)

abbrev pub change_for_owner :
    DashboardActor → String → Option String → ApplicationStatus → Beneficiary → Desk (ℕ × String)
change_for_owner actor status notes application row = do
  lift (assert_beneficiary_access actor row.organisation_id row.assigned_operator_id)
  store_application_status actor status notes application

abbrev pub change_application :
    DashboardActor → String → Option String → ApplicationStatus → Desk (ℕ × String)
change_application actor status notes application = do
  owner ← gets (owner_of application)
  row ← or_raise owner (api_error 404 "BENEFICIARY_NOT_FOUND" "beneficiary_id")
  change_for_owner actor status notes application row

-- No permission is asked for.
unfoldable pub update_application_status :
    DashboardActor → ℕ → String → Option String → Desk (ℕ × String)
update_application_status actor status_id status notes = do
  found ← gets (application_by_id status_id)
  application ← or_raise found (api_error 404 "APPLICATION_STATUS_NOT_FOUND" "status_id")
  change_application actor status notes application

-- ===== src/Dashboard/Beneficiaries/Requests/Reach.antt =====
-- What every request that writes keeps to, by dashboard/beneficiaries.py.
use adhikar_ai.Prelude.{Bool, true, false, ◌≡◌, ◌⊎◌, refl, inl, inr, [], ◌∷◌, ◌++◌, Member}
use adhikar_ai.Prelude.Result.{Result, ok, err, is_ok}
use adhikar_ai.Prelude.Exec.{Session, begin}
use adhikar_ai.Prelude.Exec.After.{After}
use adhikar_ai.Dashboard.Rbac.{DashboardActor}
use adhikar_ai.Dashboard.Beneficiaries.{Beneficiary, BeneficiaryTables, DeskEnv, AuditLog, Desk}
use adhikar_ai.Dashboard.Beneficiaries.Writes.{create_beneficiary, update_beneficiary}
use adhikar_ai.Dashboard.Beneficiaries.Casework.{
  add_note, add_followup, update_followup, update_application_status,
}
use adhikar_ai.Dashboard.Beneficiaries.Requests.{
  WriteRequest, create_one, update_one, write_note, plan_followup, close_followup, change_status,
  outcome, write,
}
use adhikar_ai.Dashboard.Beneficiaries.Requests.Steps.{IsKeyed, IsBarred, IsKept, Written}
use adhikar_ai.Dashboard.Beneficiaries.Requests.RowWrites.{
  Q, E, create_beneficiary-After, update_beneficiary-After,
}
use adhikar_ai.Dashboard.Beneficiaries.Requests.CaseWrites.{
  add_note-After, add_followup-After, update_followup-After, update_application_status-After,
}

-- A request that succeeds has written, and one that fails has left the database.
abbrev Wrote : DashboardActor → BeneficiaryTables → Bool × BeneficiaryTables → Type 0
Wrote actor t (succeeded, after) =
    ((succeeded ≡ true) × Written actor t after) ⊎ ((succeeded ≡ false) × (after ≡ t))

module _ (env : DeskEnv) (actor : DashboardActor) (t : BeneficiaryTables) where
  result-Wrote :
      {A : Type 0} (r : Result A × Session BeneficiaryTables)
      → After (Q env actor t) (E env actor t) r
      → Wrote actor t (is_ok r.0, r.1.durable)
  result-Wrote (ok a, s) h = inl (refl, h)
  result-Wrote (err e, s) h = inr (refl, h)

  outcome-Wrote :
      {A : Type 0} (m : Desk A)
      → After (Q env actor t) (E env actor t) (m (begin t))
      → Wrote actor t (outcome m t)
  outcome-Wrote m h = result-Wrote (m (begin t)) h

  write-Wrote : (request : WriteRequest) → Wrote actor t (write env actor request t)
  write-Wrote (create_one r) =
      outcome-Wrote (create_beneficiary env actor r) (create_beneficiary-After env actor t r)
  write-Wrote (update_one id r) =
      outcome-Wrote (update_beneficiary actor id r) (update_beneficiary-After env actor t id r)
  write-Wrote (write_note id s) =
      outcome-Wrote (add_note env actor id s) (add_note-After env actor t id s)
  write-Wrote (plan_followup id due reason) =
      outcome-Wrote (add_followup env actor id due reason)
        (add_followup-After env actor t id due reason)
  write-Wrote (close_followup id status) =
      outcome-Wrote (update_followup env actor id status)
        (update_followup-After env actor t id status)
  write-Wrote (change_status id status notes) =
      outcome-Wrote (update_application_status actor id status notes)
        (update_application_status-After env actor t id status notes)

-- A request that succeeds adds exactly one entry to the audit log, which names the member who made it and
-- the member's organisation; a request that fails leaves the database as it was.
pub write_audited :
    (env : DeskEnv) (actor : DashboardActor) (request : WriteRequest) (t : BeneficiaryTables)
    → let (succeeded, after) = write env actor request t in
      ((succeeded ≡ true)
        × ((entry : AuditLog) × ((after.audit_logs ≡ t.audit_logs ++ entry ∷ [])
              × ((entry.actor_member_id ≡ actor.member_id)
                  × (entry.organisation_id ≡ actor.organisation_id)))))
      ⊎ ((succeeded ≡ false) × (after ≡ t))
write_audited env actor request t = elim (write-Wrote env actor t request) [
  | inr k ↦ inr k
  | inl (done, w) ↦ inl (done, (w.entry, (w.logged, (w.by_member, w.in_organisation))))
]

-- Where ids are keys, a request leaves the row, the notes and the follow-ups of every beneficiary that the
-- role of its actor does not reach.
pub write_in_reach :
    (env : DeskEnv) (actor : DashboardActor) (request : WriteRequest) (t : BeneficiaryTables)
    (b : Beneficiary)
    → IsKeyed t
    → Member b t.beneficiaries
    → IsBarred actor b
    → IsKept b t (write env actor request t).1
write_in_reach env actor request t b keyed m barred = elim (write-Wrote env actor t request) [
  | inl (_, w) ↦ w.others keyed b m barred
  | inr (_, same) ↦ rw same (record { row = m; notes = refl; followups = refl })
]

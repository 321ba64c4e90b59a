-- ===== src/Dashboard/Beneficiaries/Requests/CaseWrites.antt =====
-- The operations on notes, follow-ups and applications, by their steps: dashboard/beneficiaries.py.
use adhikar_ai.Prelude.{
  filter-append_out, ℕ, String, false, ◌≡◌, ap, Member, find-some, refl, Option, ◌==◌, nat_eq,
  arith,
}
use adhikar_ai.Prelude.Result.{api_error}
use adhikar_ai.Prelude.Exec.{Session, begin, or_raise, ◌>>=◌}
use adhikar_ai.Prelude.Exec.After.{After, After-bind, After-or_raise, After-lift}
use adhikar_ai.Accounts.Saved.{ApplicationStatus}
use adhikar_ai.Dashboard.Rbac.{DashboardActor, require_actor_permission, assert_beneficiary_access}
use adhikar_ai.Dashboard.Beneficiaries.{
  Beneficiary, BeneficiaryNote, BeneficiaryFollowup, BeneficiaryTables, DeskEnv, get_beneficiary,
}
use adhikar_ai.Dashboard.Beneficiaries.Casework.{
  with_followup_status, set_followup, new_followup, store_note, store_followup,
  store_followup_status, change_followup, followup_by_id, store_application_status,
  change_for_owner, change_application, application_by_id, owner_of, new_note, add_note,
  add_followup, update_followup, update_application_status,
}
use adhikar_ai.Dashboard.Beneficiaries.Requests.Steps.{
  IsKeyed, IsBarred, followups_of, apart-barred, filter-update_out, Written, Found,
  get_beneficiary-After,
}

module _ (env : DeskEnv) (actor : DashboardActor) (t : BeneficiaryTables) where
  abbrev Q : {A : Type 0} → A → Session BeneficiaryTables → Type 0
  Q _ s = Written actor t s.durable

  abbrev E : Session BeneficiaryTables → Type 0
  E s = s.durable ≡ t

  store_note-After :
      (id : ℕ) (s : String) (row : Beneficiary)
      → Found actor id t row
      → After Q E (store_note env actor s row (begin t))
  store_note-After id s row found = record {
    entry = _;
    logged = refl;
    by_member = refl;
    in_organisation = refl;
    others = λ keyed b m barred. record {
      row = m;
      notes =
          filter-append_out (λ (n : BeneficiaryNote). n.beneficiary_id == b.id)
            (new_note env actor row s) t.notes (apart-barred actor t id row b keyed m barred found);
      followups = refl;
    };
  }

  pub add_note-After : (id : ℕ) (s : String) → After Q E (add_note env actor id s (begin t))
  unfolding add_note
  add_note-After id s =
      After-lift Q E (require_actor_permission actor "beneficiary:write")
        (get_beneficiary actor id >>= store_note env actor s) (begin t)
        (λ _.
          get_beneficiary-After actor t Q E id (store_note env actor s)
            (λ row found. store_note-After id s row found) refl)
        refl

  store_followup-After :
      (id due_date : ℕ) (reason : Option String) (row : Beneficiary)
      → Found actor id t row
      → After Q E (store_followup env actor due_date reason row (begin t))
  store_followup-After id due_date reason row found = record {
    entry = _;
    logged = refl;
    by_member = refl;
    in_organisation = refl;
    others = λ keyed b m barred. record {
      row = m;
      notes = refl;
      followups =
          filter-append_out (λ (u : BeneficiaryFollowup). u.beneficiary_id == b.id)
            (new_followup env row due_date reason) t.followups
            (apart-barred actor t id row b keyed m barred found);
    };
  }

  pub add_followup-After :
      (id due_date : ℕ) (reason : Option String)
      → After Q E (add_followup env actor id due_date reason (begin t))
  unfolding add_followup
  add_followup-After id due_date reason =
      After-lift Q E (require_actor_permission actor "beneficiary:write")
        (get_beneficiary actor id >>= store_followup env actor due_date reason) (begin t)
        (λ _.
          get_beneficiary-After actor t Q E id (store_followup env actor due_date reason)
            (λ row found. store_followup-After id due_date reason row found) refl)
        refl

  -- A follow-up of the beneficiary that was reached is none of a barred one.
  followups-kept :
      (followup : BeneficiaryFollowup) (status : String) (row b : Beneficiary)
      → IsKeyed t
      → Member b t.beneficiaries
      → IsBarred actor b
      → Member followup t.followups
      → Found actor followup.beneficiary_id t row
      → followups_of b (set_followup followup.id (with_followup_status env status) t)
        ≡ followups_of b t
  followups-kept followup status row b keyed m barred k found =
      filter-update_out (λ (u : BeneficiaryFollowup). u.beneficiary_id == b.id)
        (λ (u : BeneficiaryFollowup). u.id == followup.id) (with_followup_status env status)
        t.followups
        (λ u l e.
          let same : u ≡ followup =
            keyed.followups u followup l k (ground (arith, e, nat_eq.test_iff u.id followup.id)) in
          let (_, by_id) = find-some _ row t.beneficiaries found.by_id in
          let apart : (u.beneficiary_id == b.id) ≡ false = ground (
            arith,
            ap (λ (v : BeneficiaryFollowup). v.beneficiary_id) same,
            by_id,
            apart-barred actor t followup.beneficiary_id row b keyed m barred found,
            nat_eq.test_iff row.id followup.beneficiary_id,
          ) in
          (apart, apart))

  store_followup_status-After :
      (followup : BeneficiaryFollowup) (status : String) (row : Beneficiary)
      → Member followup t.followups
      → Found actor followup.beneficiary_id t row
      → After Q E (store_followup_status env actor followup status row (begin t))
  store_followup_status-After followup status row k found = record {
    entry = _;
    logged = refl;
    by_member = refl;
    in_organisation = refl;
    others = λ keyed b m barred. record {
      row = m;
      notes = refl;
      followups = followups-kept followup status row b keyed m barred k found;
    };
  }

  pub update_followup-After :
      (id : ℕ) (status : String) → After Q E (update_followup env actor id status (begin t))
  unfolding update_followup
  update_followup-After id status =
      let not_found = api_error 404 "FOLLOWUP_NOT_FOUND" "followup_id" in
      After-bind Q E (or_raise (followup_by_id id t) not_found) (change_followup env actor status)
        (begin t)
        (After-or_raise (λ u s. After Q E (change_followup env actor status u s)) E
          (followup_by_id id t) not_found (begin t)
          (λ followup e.
            get_beneficiary-After actor t Q E followup.beneficiary_id
              (store_followup_status env actor followup status)
              (λ row found.
                store_followup_status-After followup status row
                  (find-some (λ (u : BeneficiaryFollowup). u.id == id) followup t.followups e).0
                  found)
              refl)
          refl)

  change_for_owner-After :
      (status : String) (notes : Option String) (application : ApplicationStatus)
      (row : Beneficiary)
      → After Q E (change_for_owner actor status notes application row (begin t))
  change_for_owner-After status notes application row =
      let stored : After Q E (store_application_status actor status notes application (begin t)) =
        record {
          entry = _;
          logged = refl;
          by_member = refl;
          in_organisation = refl;
          others = λ keyed b m barred. record { row = m; notes = refl; followups = refl };
        } in
      After-lift Q E (assert_beneficiary_access actor row.organisation_id row.assigned_operator_id)
        (store_application_status actor status notes application) (begin t) (λ _. stored) refl

  change_application-After :
      (status : String) (notes : Option String) (application : ApplicationStatus)
      → After Q E (change_application actor status notes application (begin t))
  change_application-After status notes application =
      let not_found = api_error 404 "BENEFICIARY_NOT_FOUND" "beneficiary_id" in
      let change = change_for_owner actor status notes application in
      After-bind Q E (or_raise (owner_of application t) not_found) change (begin t) (
        After-or_raise (λ row s. After Q E (change row s)) E (owner_of application t) not_found
          (begin t) (λ row _. change_for_owner-After status notes application row) refl)

  pub update_application_status-After :
      (id : ℕ) (status : String) (notes : Option String)
      → After Q E (update_application_status actor id status notes (begin t))
  unfolding update_application_status
  update_application_status-After id status notes =
      let not_found = api_error 404 "APPLICATION_STATUS_NOT_FOUND" "status_id" in
      let change = change_application actor status notes in
      After-bind Q E (or_raise (application_by_id id t) not_found) change (begin t) (
        After-or_raise (λ a s. After Q E (change a s)) E (application_by_id id t) not_found
          (begin t) (λ application _. change_application-After status notes application) refl)

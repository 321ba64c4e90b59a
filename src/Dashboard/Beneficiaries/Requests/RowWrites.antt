-- ===== src/Dashboard/Beneficiaries/Requests/RowWrites.antt =====
-- The operations that write a row, by their steps: dashboard/beneficiaries.py.
use adhikar_ai.Prelude.{
  ℕ, ◌≡◌, refl, inl, inr, [], ◌∷◌, ◌==◌, nat_eq, Member-append_left, Bool-cases,
}
use adhikar_ai.Prelude.Exec.{Session, begin, raise_if, lift, ◌>>=◌, ◌>>◌}
use adhikar_ai.Prelude.Exec.After.{After, After-lift, After-raise_if}
use adhikar_ai.Sessions.{internal_error}
use adhikar_ai.Db.Tables.{update_rows}
use adhikar_ai.Accounts.Sync.{assert_no_aadhaar_payload}
use adhikar_ai.Dashboard.Rbac.{DashboardActor, require_actor_permission}
use adhikar_ai.Dashboard.Beneficiaries.{Beneficiary, BeneficiaryTables, DeskEnv, get_beneficiary}
use adhikar_ai.Dashboard.Beneficiaries.Writes.{
  names_a_column_twice, assignment_denied, operator_for, create_payload, update_payload,
  assigns_elsewhere, assignment_error, store_beneficiary, change_row, CreateBeneficiaryRequest,
  create_beneficiary, UpdateBeneficiaryRequest, with_given, with_operator, update_beneficiary,
  new_row,
}
use adhikar_ai.Dashboard.Beneficiaries.Requests.Steps.{
  Written, Found, barred-apart, get_beneficiary-After, update_rows-keeps,
}

module _ (env : DeskEnv) (actor : DashboardActor) (t : BeneficiaryTables) where
  abbrev pub Q : {A : Type 0} → A → Session BeneficiaryTables → Type 0
  Q _ s = Written actor t s.durable

  abbrev pub E : Session BeneficiaryTables → Type 0
  E s = s.durable ≡ t

  pub create_beneficiary-After :
      (r : CreateBeneficiaryRequest) → After Q E (create_beneficiary env actor r (begin t))
  unfolding create_beneficiary
  create_beneficiary-After r =
      let stored : After Q E (store_beneficiary env actor r (begin t)) = record {
        entry = _;
        logged = refl;
        by_member = refl;
        in_organisation = refl;
        others = λ keyed b m barred. record {
          row = Member-append_left b t.beneficiaries (new_row env actor r ∷ []) m;
          notes = refl;
          followups = refl;
        };
      } in
      let twice =
        raise_if (names_a_column_twice r.profile) internal_error >> store_beneficiary env actor r in
      let denied =
        raise_if (assignment_denied actor (operator_for actor r.assigned_operator_id))
          assignment_error
        >> twice in
      After-lift Q E (require_actor_permission actor "beneficiary:write")
        (lift (assert_no_aadhaar_payload (create_payload r)) >> denied) (begin t)
        (λ _.
          After-lift Q E (assert_no_aadhaar_payload (create_payload r)) denied (begin t)
            (λ _.
              After-raise_if Q E
                (assignment_denied actor (operator_for actor r.assigned_operator_id))
                assignment_error twice (begin t)
                (λ _.
                  After-raise_if Q E (names_a_column_twice r.profile) internal_error
                    (store_beneficiary env actor r) (begin t) (λ _. stored) refl)
                refl)
            refl)
        refl

  change_row-After :
      (id : ℕ) (r : UpdateBeneficiaryRequest) (row : Beneficiary)
      → Found actor id t row
      → After Q E (change_row actor r row (begin t))
  change_row-After id r row found =
      elim (Bool-cases (assigns_elsewhere actor r.assigned_operator_id)) [
        | inl e ↦ rw e refl
        | inr e ↦ rw e (record {
          entry = _;
          logged = refl;
          by_member = refl;
          in_organisation = refl;
          others = λ keyed b m barred.
              let apart = barred-apart actor t id row b keyed m barred found in
              record {
                row =
                    update_rows-keeps (λ (o : Beneficiary). o.id == row.id) (with_operator r) b
                      (update_rows (λ (o : Beneficiary). o.id == row.id) (with_given r)
                        t.beneficiaries)
                      apart
                      (update_rows-keeps (λ (o : Beneficiary). o.id == row.id) (with_given r) b
                        t.beneficiaries apart m);
                notes = refl;
                followups = refl;
              };
        })
      ]

  pub update_beneficiary-After :
      (id : ℕ) (r : UpdateBeneficiaryRequest) → After Q E (update_beneficiary actor id r (begin t))
  unfolding update_beneficiary
  update_beneficiary-After id r =
      let reach = get_beneficiary actor id >>= change_row actor r in
      After-lift Q E (require_actor_permission actor "beneficiary:write")
        (lift (assert_no_aadhaar_payload (update_payload r)) >> reach) (begin t)
        (λ _.
          After-lift Q E (assert_no_aadhaar_payload (update_payload r)) reach (begin t)
            (λ _.
              get_beneficiary-After actor t Q E id (change_row actor r)
                (λ row found. change_row-After id r row found) refl)
            refl)
        refl

-- ===== src/Dashboard/Beneficiaries/Requests/Steps.antt =====
-- What a request that writes may do, and the steps that its parts have in common: dashboard/beneficiaries.py.
use mathlib.Core.Path.{subst}
use adhikar_ai.Prelude.{
  true, ℕ, Bool, false, ◌≡◌, ◌≢◌, refl, sym, ◌⊎◌, inl, inr, none, some, List, [], ◌∷◌, ◌++◌, ◌==◌,
  nat_eq, find-some, filter, Member, here, next, Bool-cases, Option-cases, arith,
}
use adhikar_ai.Prelude.Result.{ApiError, ok, err, done, Result-cases, api_error}
use adhikar_ai.Prelude.Exec.{Session, Exec, begin, ◌>>=◌}
use adhikar_ai.Prelude.Exec.After.{After, After-bind}
use adhikar_ai.Db.Tables.{update_rows}
use adhikar_ai.Dashboard.Rbac.{DashboardActor, assert_beneficiary_access}
use adhikar_ai.Dashboard.Beneficiaries.{
  Beneficiary, BeneficiaryNote, BeneficiaryFollowup, AuditLog, BeneficiaryTables, beneficiary_by_id,
  get_beneficiary,
}

-- An id is the key of one beneficiary, and of one follow-up.
pub record IsKeyed (t : BeneficiaryTables) : Type 0 where
  pub beneficiaries :
      (a b : Beneficiary)
      → Member a t.beneficiaries
      → Member b t.beneficiaries
      → a.id ≡ b.id
      → a ≡ b
  pub followups :
      (a b : BeneficiaryFollowup)
      → Member a t.followups
      → Member b t.followups
      → a.id ≡ b.id
      → a ≡ b

-- The actor's role does not reach the beneficiary.
abbrev pub IsBarred : DashboardActor → Beneficiary → Type 0
IsBarred actor b = assert_beneficiary_access actor b.organisation_id b.assigned_operator_id ≢ done

abbrev pub notes_of : Beneficiary → BeneficiaryTables → List BeneficiaryNote
notes_of b t = filter (λ (n : BeneficiaryNote). n.beneficiary_id == b.id) t.notes

abbrev pub followups_of : Beneficiary → BeneficiaryTables → List BeneficiaryFollowup
followups_of b t = filter (λ (u : BeneficiaryFollowup). u.beneficiary_id == b.id) t.followups

-- The row, the notes and the follow-ups of a beneficiary are as they were.
pub record IsKept (b : Beneficiary) (t after : BeneficiaryTables) : Type 0 where
  pub row : Member b after.beneficiaries
  pub notes : notes_of b after ≡ notes_of b t
  pub followups : followups_of b after ≡ followups_of b t

-- One entry more, and what the actor may not reach as it was.
pub record Written (actor : DashboardActor) (t after : BeneficiaryTables) : Type 0 where
  pub entry : AuditLog
  pub logged : after.audit_logs ≡ t.audit_logs ++ entry ∷ []
  pub by_member : entry.actor_member_id ≡ actor.member_id
  pub in_organisation : entry.organisation_id ≡ actor.organisation_id
  pub others :
      IsKeyed t → (b : Beneficiary) → Member b t.beneficiaries → IsBarred actor b → IsKept b t after

-- The row that an id leads to.
pub record Found (actor : DashboardActor) (id : ℕ) (t : BeneficiaryTables) (row : Beneficiary)
    : Type 0 where
  pub by_id : beneficiary_by_id id t ≡ some row
  pub not_deleted : row.deleted_at ≡ none
  pub reached : assert_beneficiary_access actor row.organisation_id row.assigned_operator_id ≡ done

module _ (actor : DashboardActor) (t : BeneficiaryTables) where
  -- A beneficiary that is barred is not one that was reached.
  pub barred-apart :
      (id : ℕ) (row b : Beneficiary)
      → IsKeyed t
      → Member b t.beneficiaries
      → IsBarred actor b
      → Found actor id t row
      → (b.id == row.id) ≡ false
  barred-apart id row b keyed m barred found = elim (Bool-cases (b.id == row.id)) [
    | inr e ↦ e
    | inl e ↦
        let (m', _) = find-some _ row t.beneficiaries found.by_id in
        let same : b ≡ row =
          keyed.beneficiaries b row m m' (ground (arith, nat_eq.test_iff b.id row.id)) in
        absurd (barred (rw same found.reached))
  ]

  pub apart-barred :
      (id : ℕ) (row b : Beneficiary)
      → IsKeyed t
      → Member b t.beneficiaries
      → IsBarred actor b
      → Found actor id t row
      → (row.id == b.id) ≡ false
  apart-barred id row b keyed m barred found = ground (
    arith,
    barred-apart id row b keyed m barred found,
    nat_eq.test_iff row.id b.id,
    nat_eq.test_iff b.id row.id,
  )

  -- It reads, and raises unless the row is found and reached.
  pub get_beneficiary-cases :
      (id : ℕ)
      → ((row : Beneficiary) × (Found actor id t row
            × (get_beneficiary actor id (begin t) ≡ (ok row, begin t))))
        ⊎ ((e : ApiError) × (get_beneficiary actor id (begin t) ≡ (err e, begin t)))
  unfolding get_beneficiary
  get_beneficiary-cases id = elim (Option-cases (beneficiary_by_id id t)) [
    | inl e ↦ inr (api_error 404 "BENEFICIARY_NOT_FOUND" "beneficiary_id", ground arith)
    | inr (row, e) ↦ elim (Option-cases row.deleted_at) [
      | inr (at, deleted) ↦
          inr (api_error 404 "BENEFICIARY_NOT_FOUND" "beneficiary_id", ground arith)
      | inl present ↦
          elim (Result-cases
            (assert_beneficiary_access actor row.organisation_id row.assigned_operator_id)) [
              | inr (x, refused) ↦ inr (x, ground arith)
              | inl (a, passed) ↦ inl (
                row,
                (record { by_id = e; not_deleted = present; reached = passed }, ground arith),
              )
            ]
    ]
  ]

  pub get_beneficiary-After :
      {B : Type 0} (Q : B → Session BeneficiaryTables → Type 0)
      (E : Session BeneficiaryTables → Type 0) (id : ℕ) (k : Beneficiary → Exec BeneficiaryTables B)
      → ((row : Beneficiary) → Found actor id t row → After Q E (k row (begin t)))
      → E (begin t)
      → After Q E ((get_beneficiary actor id >>= k) (begin t))
  get_beneficiary-After Q E id k q h =
      let R = λ (row : Beneficiary) (s : Session BeneficiaryTables). After Q E (k row s) in
      After-bind Q E (get_beneficiary actor id) k (begin t) (elim (get_beneficiary-cases id) [
        | inl (row, (found, e)) ↦ subst (After R E) (sym e) (q row found)
        | inr (x, e) ↦ subst (After R E) (sym e) h
      ])

pub update_rows-keeps :
    {A : Type 0} (p : A → Bool) (f : A → A) (a : A) (rows : List A)
    → p a ≡ false
    → Member a rows
    → Member a (update_rows p f rows)
update_rows-keeps p f a [] e m = elim m [ ]
update_rows-keeps p f a (row ∷ rows) e (here same) = rw (← same, e) (here refl)
update_rows-keeps p f a (row ∷ rows) e (next m) = next (update_rows-keeps p f a rows e m)

-- A change of rows that a query leaves out, before and after.
pub filter-update_out :
    {A : Type 0} (q p : A → Bool) (f : A → A) (rows : List A)
    → ((row : A) → Member row rows → p row ≡ true → (q row ≡ false) × (q (f row) ≡ false))
    → filter q (update_rows p f rows) ≡ filter q rows
filter-update_out q p f [] out = refl
filter-update_out q p f (row ∷ rows) out =
    let ih = filter-update_out q p f rows (λ a m e. out a (next m) e) in
    elim (Bool-cases (p row)) [
      | inl e ↦ let (before, after) = out row (here refl) e in rw (e, before, after) ih
      | inr e ↦ rw e (elim (Bool-cases (q row)) [ inl k ↦ rw (k, ih) refl | inr k ↦ rw k ih ])
    ]

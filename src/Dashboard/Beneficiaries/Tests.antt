-- ===== src/Dashboard/Beneficiaries/Tests.antt =====
-- Beneficiaries of a concrete organisation.
use adhikar_ai.Prelude.{
  ℕ, String, true, false, ◌≡◌, ◌⊎◌, refl, none, some, [], ◌∷◌, ◌++◌, Member, here, next, string_eq,
  arith,
}
use adhikar_ai.Prelude.Text.{str_leb}
use adhikar_ai.Prelude.Result.{ok}
use adhikar_ai.Prelude.Exec.{run}
use adhikar_ai.Prelude.Sorting.{sort}
use adhikar_ai.Dashboard.Rbac.{require_actor_permission, assert_beneficiary_access}
use adhikar_ai.Dashboard.Rbac.Tests.{asha}
use adhikar_ai.Dashboard.Beneficiaries.{
  Beneficiary, BeneficiaryFollowup, BeneficiaryTables, DeskEnv, AuditLog,
}
use adhikar_ai.Dashboard.Beneficiaries.Queries.{
  BeneficiaryFilters, BeneficiaryListResponse, beneficiary_response, selected, list_beneficiaries,
}
use adhikar_ai.Dashboard.Beneficiaries.Detail.{BeneficiaryDetail, get_beneficiary_detail}
use adhikar_ai.Dashboard.Beneficiaries.Requests.{write_note, close_followup, write}
use adhikar_ai.Dashboard.Beneficiaries.Requests.Steps.{IsKeyed, IsBarred, IsKept}
use adhikar_ai.Dashboard.Beneficiaries.Requests.Reach.{write_audited, write_in_reach}
use adhikar_ai.Dashboard.Beneficiaries.Requests.Views.{list_beneficiaries_opens}

abbrev beneficiary : ℕ → ℕ → String → Beneficiary
beneficiary id operator_id name = record {
  id = id;
  organisation_id = 1;
  profile_id = id;
  assigned_operator_id = some operator_id;
  name = name;
  phone_e164 = none;
  state_code = "IN-BR";
  language_code = "hi";
  village = none;
  district = none;
  source = "operator";
  deleted_at = none;
}

abbrev meena : Beneficiary
meena = beneficiary 1 7 "Meena"

abbrev ravi : Beneficiary
ravi = beneficiary 2 8 "Ravi"

abbrev called : BeneficiaryFollowup
called = record {
  id = 3;
  organisation_id = 1;
  beneficiary_id = 1;
  assigned_operator_id = some 7;
  due_date = 12;
  reason = none;
  status = "open";
  completed_at = none;
}

abbrev tables : BeneficiaryTables
tables = record {
  profiles = [];
  beneficiaries = meena ∷ ravi ∷ [];
  notes = [];
  followups = called ∷ [];
  assignments = [];
  application_statuses = [];
  application_status_events = [];
  checklist_items = [];
  schemes = [];
  audit_logs = [];
}

abbrev desk : DeskEnv
desk = record {
  now = 1000;
  today = 9;
  profile_id = 10;
  row_id = 11;
  created_at = λ id. id;
  updated_at = λ id. id;
  like = λ pattern s. true;
  name_le = str_leb;
}

one_row :
    (a b : Beneficiary)
    → Member a tables.beneficiaries
    → Member b tables.beneficiaries
    → a.id ≡ b.id
    → a ≡ b
one_row a b (here e) (here f) same = ground (arith, e, f)
one_row a b (here e) (next (here f)) same = absurd (ground (arith, e, f, same))
one_row a b (next (here e)) (here f) same = absurd (ground (arith, e, f, same))
one_row a b (next (here e)) (next (here f)) same = ground (arith, e, f)
one_row a b (here e) (next (next m)) same = elim m [ ]
one_row a b (next (here e)) (next (next m)) same = elim m [ ]
one_row a b (next (next m)) k same = elim m [ ]

one_followup :
    (a b : BeneficiaryFollowup)
    → Member a tables.followups
    → Member b tables.followups
    → a.id ≡ b.id
    → a ≡ b
one_followup a b (here e) (here f) same = ground (arith, e, f)
one_followup a b (here e) (next m) same = elim m [ ]
one_followup a b (next m) k same = elim m [ ]

tables-IsKeyed : IsKeyed tables
tables-IsKeyed = record { beneficiaries = one_row; followups = one_followup }

-- Ravi is assigned to another operator.
ravi-IsBarred : IsBarred asha ravi
unfolding assert_beneficiary_access
ravi-IsBarred h = ground arith

write_audited_example :
    let (succeeded, after) = write desk asha (write_note 1 "Called.") tables in
    ((succeeded ≡ true)
      × ((entry : AuditLog) × ((after.audit_logs ≡ [] ++ entry ∷ [])
            × ((entry.actor_member_id ≡ 7) × (entry.organisation_id ≡ 1)))))
    ⊎ ((succeeded ≡ false) × (after ≡ tables))
write_audited_example = write_audited desk asha (write_note 1 "Called.") tables

write_in_reach_example :
    IsKept ravi tables (write desk asha (close_followup 3 "completed") tables).1
write_in_reach_example =
    write_in_reach desk asha (close_followup 3 "completed") tables ravi tables-IsKeyed
      (next (here refl)) ravi-IsBarred

abbrev no_filters : BeneficiaryFilters
no_filters = record {
  q = none;
  state_code = none;
  status = none;
  assigned_operator_id = none;
  followup_due = none;
  limit = 50;
  offset = 0;
}

abbrev mine : BeneficiaryListResponse
mine = record { items = beneficiary_response meena tables ∷ []; total = 1 }

mine_listed : (run (list_beneficiaries desk asha no_filters) tables).0 ≡ ok mine
unfolding list_beneficiaries require_actor_permission sort selected
mine_listed = refl

list_beneficiaries_opens_example :
    (detail : BeneficiaryDetail) × (((run (get_beneficiary_detail desk asha 1) tables).0
        ≡ ok detail)
      × (detail.base ≡ beneficiary_response meena tables))
unfolding beneficiary_response
list_beneficiaries_opens_example =
    list_beneficiaries_opens desk asha no_filters tables mine (beneficiary_response meena tables)
      tables-IsKeyed mine_listed (here refl)

-- ===== src/Dashboard/Beneficiaries/Requests/Views.antt =====
-- What is listed can be opened: dashboard/beneficiaries.py.
use mathlib.Core.Path.{subst}
use adhikar_ai.Prelude.{
  ℕ, String, ◌∙◌, zero, suc, Bool, true, false, ◌&&◌, ◌≡◌, refl, sym, ap, inl, inr, none, some,
  List, [], ◌∷◌, map, nat_eq, option_eq, find-some, find-none, Member, here, next, Member-append,
  Member-map, Member-filter, Member-take, Option-cases, arith,
}
use adhikar_ai.Prelude.Sorting.{sort, Member-sort}
use adhikar_ai.Prelude.Result.{ok, done, Result-cases}
use adhikar_ai.Prelude.Exec.{begin, run, gets, lift, ◌>>=◌}
use adhikar_ai.Prelude.Exec.After.{bind-known}
use adhikar_ai.Schemes.Catalogue.{skip}
use adhikar_ai.Dashboard.Rbac.{DashboardActor, require_actor_permission, assert_beneficiary_access}
use adhikar_ai.Dashboard.Beneficiaries.{
  Beneficiary, BeneficiaryTables, Desk, DeskEnv, beneficiary_by_id, get_beneficiary, in_scope,
}
use adhikar_ai.Dashboard.Beneficiaries.Queries.{
  BeneficiaryFilters, BeneficiaryListResponse, BeneficiaryResponse, beneficiary_response, joined,
  passes_filters, selected, page_of, listed, newest_first, list_beneficiaries,
}
use adhikar_ai.Dashboard.Beneficiaries.Detail.{
  BeneficiaryDetail, document_review_items, items_of_profile, detail_of, get_beneficiary_detail,
}
use adhikar_ai.Dashboard.Beneficiaries.Requests.Steps.{IsKeyed, Found}

Member-skip : {A : Type 0} (n : ℕ) (a : A) (rows : List A) → Member a (skip n rows) → Member a rows
Member-skip zero a rows m = m
Member-skip (suc n) a [] m = elim m [ ]
Member-skip (suc n) a (row ∷ rows) m = next (Member-skip n a rows m)

module _ {A B : Type 0} where
  -- A join adds no row that was not there.
  Member-repeated : (a b : A) (matches : List B) → Member a (map (λ _. b) matches) → a ≡ b
  Member-repeated a b [] m = elim m [ ]
  Member-repeated a b (_ ∷ matches) (here e) = e
  Member-repeated a b (_ ∷ matches) (next m) = Member-repeated a b matches m

  Member-joined :
      (on : Bool) (matches : A → List B) (a : A) (rows : List A)
      → Member a (joined on matches rows)
      → Member a rows
  Member-joined on matches a [] m = elim m [ ]
  Member-joined true matches a (row ∷ rows) m =
      elim (Member-append a (map (λ _. row) (matches row)) (joined true matches rows) m) [
        | inl k ↦ here (Member-repeated a row (matches row) k)
        | inr k ↦ next (Member-joined true matches a rows k)
      ]
  Member-joined false matches a (row ∷ rows) (here e) = here e
  Member-joined false matches a (row ∷ rows) (next m) = next (Member-joined false matches a rows m)

module _ (env : DeskEnv) (actor : DashboardActor) (t : BeneficiaryTables) where
  abbrev Opens : BeneficiaryResponse → Type 0
  Opens item =
      (detail : BeneficiaryDetail) × (((run (get_beneficiary_detail env actor item.id) t).0
          ≡ ok detail)
        × (detail.base ≡ item))

  -- The scope of the queries is the access to one.
  in_scope-reaches :
      (row : Beneficiary)
      → in_scope actor row ≡ true
      → (row.deleted_at ≡ none)
        × (assert_beneficiary_access actor row.organisation_id row.assigned_operator_id ≡ done)
  unfolding assert_beneficiary_access
  in_scope-reaches row h = ground arith

  scoped-Found :
      (row : Beneficiary)
      → IsKeyed t
      → Member row t.beneficiaries
      → in_scope actor row ≡ true
      → Found actor row.id t row
  scoped-Found row keyed m scoped =
      let (present, passed) = in_scope-reaches row scoped in
      let found : beneficiary_by_id row.id t ≡ some row =
        elim (Option-cases (beneficiary_by_id row.id t)) [
          | inl e ↦
              absurd
                (ground (arith, find-none _ row t.beneficiaries e m, nat_eq.test_iff row.id row.id))
          | inr (other, e) ↦
              let (k, same_id) = find-some _ other t.beneficiaries e in
              let same : other ≡ row =
                keyed.beneficiaries other row k m
                  (ground (arith, same_id, nat_eq.test_iff other.id row.id)) in
              subst (λ b. beneficiary_by_id row.id t ≡ some b) same e
        ] in
      record { by_id = found; not_deleted = present; reached = passed }

  get_beneficiary-Found :
      (id : ℕ) (row : Beneficiary)
      → Found actor id t row
      → get_beneficiary actor id (begin t) ≡ (ok row, begin t)
  unfolding get_beneficiary
  get_beneficiary-Found id row found = ground (arith, found.by_id, found.not_deleted, found.reached)

  document_review_items-Found :
      (row : Beneficiary)
      → Found actor row.id t row
      → document_review_items actor row.id (begin t) ≡ (ok (items_of_profile row t), begin t)
  unfolding document_review_items
  document_review_items-Found row found =
      bind-known (get_beneficiary actor row.id) (λ b. gets (items_of_profile b)) (begin t) (begin t)
        row (get_beneficiary-Found row.id row found)

  get_beneficiary_detail-Found :
      (row : Beneficiary)
      → Found actor row.id t row
      → require_actor_permission actor "beneficiary:read" ≡ done
      → (run (get_beneficiary_detail env actor row.id) t).0
        ≡ ok (detail_of env row (items_of_profile row t) t)
  unfolding get_beneficiary_detail
  get_beneficiary_detail-Found row found allowed =
      let shown : Beneficiary → List (String × String) → Desk BeneficiaryDetail =
        λ b checklist. gets (detail_of env b checklist) in
      let opened : Beneficiary → Desk BeneficiaryDetail =
        λ b. document_review_items actor b.id >>= shown b in
      ap (λ r. r.0)
        (bind-known (lift (require_actor_permission actor "beneficiary:read"))
            (λ _. get_beneficiary actor row.id >>= opened) (begin t) (begin t) tt
            (ap (λ r. (r, begin t)) allowed)
          ∙ bind-known (get_beneficiary actor row.id) opened (begin t) (begin t) row
              (get_beneficiary-Found row.id row found)
          ∙ bind-known (document_review_items actor row.id) (shown row) (begin t) (begin t)
              (items_of_profile row t) (document_review_items-Found row found))

  selected-scoped :
      (f : BeneficiaryFilters) (row : Beneficiary)
      → Member row (selected env actor f t)
      → Member row t.beneficiaries × (in_scope actor row ≡ true)
  unfolding selected
  selected-scoped f row m =
      let kept = Member-joined _ _ row _ (Member-joined _ _ row _ m) in
      let (k, both) =
        Member-filter (λ (b : Beneficiary). in_scope actor b && passes_filters env actor f b) row
          t.beneficiaries kept in
      (k, ground (arith, both))

  listed-Opens :
      (f : BeneficiaryFilters) (item : BeneficiaryResponse)
      → IsKeyed t
      → require_actor_permission actor "beneficiary:read" ≡ done
      → Member item (listed env actor f t).items
      → Opens item
  unfolding beneficiary_response
  listed-Opens f item keyed allowed m =
      let rows = selected env actor f t in
      let (row, shown, same) =
        Member-map (λ (b : Beneficiary). beneficiary_response b t) item (page_of env f rows) m in
      let sorted = sort (newest_first env) rows in
      let m' =
        Member-sort (newest_first env) row rows (
          Member-skip f.offset row sorted (Member-take f.limit row (skip f.offset sorted) shown)) in
      let (k, scoped) = selected-scoped f row m' in
      let detail = detail_of env row (items_of_profile row t) t in
      subst Opens (sym same)
        (detail, (get_beneficiary_detail-Found row (scoped-Found row keyed k scoped) allowed, refl))

-- Where ids are keys, every beneficiary that a list shows, whatever its filters, can be opened by its id, and
-- the detail begins with what the list showed.
pub list_beneficiaries_opens :
    (env : DeskEnv) (actor : DashboardActor) (f : BeneficiaryFilters) (t : BeneficiaryTables)
    (out : BeneficiaryListResponse) (item : BeneficiaryResponse)
    → IsKeyed t
    → (run (list_beneficiaries env actor f) t).0 ≡ ok out
    → Member item out.items
    → (detail : BeneficiaryDetail) × (((run (get_beneficiary_detail env actor item.id) t).0
          ≡ ok detail)
        × (detail.base ≡ item))
unfolding list_beneficiaries
list_beneficiaries_opens env actor f t out item keyed replied m =
    elim (Result-cases (require_actor_permission actor "beneficiary:read")) [
      | inl (a, allowed) ↦
          let same : out ≡ listed env actor f t = ground (arith, replied, allowed) in
          listed-Opens env actor t f item keyed allowed
            (subst (λ (o : BeneficiaryListResponse). Member item o.items) same m)
      | inr (e, refused) ↦ absurd (ground (arith, replied, refused))
    ]

-- ===== src/Schemes/Requests/Versions.antt =====
-- The versions of a scheme's rule: what `update_scheme` of services/schemes.py puts in force.
use adhikar_ai.Prelude.{
  ℕ, suc, String, true, false, ◌≡◌, ◌≤◌, ◌<◌, refl, inl, inr, some, List, [], ◌∷◌, ◌++◌, Member,
  here, All-Member, Member-filter_of, Member-append_right, filter, Option-cases, arith, nat_eq,
  string_eq,
}
use adhikar_ai.Prelude.Result.{ok}
use adhikar_ai.Prelude.Exec.{run}
use adhikar_ai.Schema.{EligibilityCriteria}
use adhikar_ai.Db.Rows.{EligibilityRule, Scheme}
use adhikar_ai.Db.Tables.{Tables, update_rows}
use adhikar_ai.Db.Greatest.{greatest-bounds}
use adhikar_ai.Schemes.{new_rule, get_scheme, AdminSchemeResponse}
use adhikar_ai.Schemes.Update.{
  UpdateSchemeRequest, is_rule_of, latest_of, or_kept, update_scheme, snapshot_of,
}

retired-silent :
    (org : ℕ) (id : String) (version : ℕ) (criteria : EligibilityCriteria)
    (rows : List EligibilityRule)
    → filter (is_rule_of org id true) (
        update_rows
          (is_rule_of org id false)
          (λ (rule : EligibilityRule). record rule { is_active = false })
          rows
        ++ new_rule org id version criteria ∷ [])
      ≡ new_rule org id version criteria ∷ []
retired-silent org id version criteria [] =
    ground (arith, nat_eq.test_iff org org, string_eq.test_iff id id)
retired-silent org id version criteria (row ∷ rows) =
    ground (arith, retired-silent org id version criteria rows)

-- When `update_scheme` succeeds, the only rule in force for the scheme is the one of the request, or else
-- that of the latest version; its version is one more than the latest, and the latest is kept in the
-- history with the scheme as it was.
pub update_scheme_in_force :
    (id : String) (request : UpdateSchemeRequest) (t after : Tables)
    (response : AdminSchemeResponse)
    → run (update_scheme id request) t ≡ (ok response, after)
    → (scheme : Scheme) × (latest : EligibilityRule) × (get_scheme id t ≡ some scheme)
      × (latest_of request.organisation_id id false t ≡ some latest)
      × (response.version ≡ suc latest.version)
      × (filter (is_rule_of request.organisation_id id true) after.eligibility_rules
          ≡ new_rule request.organisation_id id
              (suc latest.version)
              (or_kept request.eligibility_rule latest.criteria)
            ∷ [])
      × Member
          (snapshot_of request.organisation_id scheme latest
            (suc latest.version)
            request.change_summary)
          after.scheme_versions
unfolding update_scheme
update_scheme_in_force id request t after response h =
    let org = request.organisation_id in
    elim (Option-cases (get_scheme id t)) [
      | inl e ↦ absurd (ground arith)
      | inr (scheme, e) ↦ elim (Option-cases (latest_of org id false t)) [
        | inl f ↦ absurd (ground arith)
        | inr (latest, f) ↦
            let merged = or_kept request.eligibility_rule latest.criteria in
            let snapshot =
              snapshot_of org scheme latest (suc latest.version) request.change_summary in
            let rules : after.eligibility_rules ≡ (
                update_rows (is_rule_of org id false)
                  (λ (rule : EligibilityRule). record rule { is_active = false })
                  t.eligibility_rules
                ++ new_rule org id (suc latest.version) merged ∷ []) =
              ground arith in
            let versions : after.scheme_versions ≡ (t.scheme_versions ++ snapshot ∷ []) =
              ground arith in
            (
              scheme,
              latest,
              e,
              f,
              ground arith,
              rw rules (retired-silent org id (suc latest.version) merged t.eligibility_rules),
              rw versions
                  (Member-append_right snapshot t.scheme_versions (snapshot ∷ []) (here refl)),
            )
      ]
    ]

-- When `update_scheme` succeeds, the version that it gives the new rule is greater than that of every
-- rule that the scheme had.
pub update_scheme_version_is_new :
    (id : String) (request : UpdateSchemeRequest) (t after : Tables)
    (response : AdminSchemeResponse)
    → run (update_scheme id request) t ≡ (ok response, after)
    → (rule : EligibilityRule) → Member rule t.eligibility_rules
    → is_rule_of request.organisation_id id false rule ≡ true
    → rule.version < response.version
update_scheme_version_is_new id request t after response h rule m p =
    let (_, latest, _, f, next_version, _, _) =
      update_scheme_in_force id request t after response h in
    let of_scheme = is_rule_of request.organisation_id id false in
    let bound : rule.version ≤ latest.version =
      All-Member _ _
        (greatest-bounds (λ (r : EligibilityRule). r.version) latest
          (filter of_scheme t.eligibility_rules) f)
        (Member-filter_of of_scheme rule t.eligibility_rules m p) in
    omega (arith, next_version, bound)

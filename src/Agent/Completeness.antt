-- ===== src/Agent/Completeness.antt =====
-- The completeness that completeness.py reports for a profile.
use native.Mathlib.Nat.{mul_comm, mul-div_cancel, div-add-mod}
use adhikar_ai.Prelude.{
  ℕ, String, true, false, ◌≡◌, ◌≤◌, ◌*◌, ◌/◌, ◌%◌, refl, sym, ap, ◌∙◌, inl, inr, List, [], ◌∷◌, All,
  contains, ◌++◌, string_eq, ◌+◌, ◌<◌, take, if◌then◌else◌, nat_beq, Bool-cases, arith,
}
use adhikar_ai.Prelude.Dict.{lookup}
use adhikar_ai.Prelude.Text.{strip_prefix}
use adhikar_ai.Schema.{EligibilityCriteria}
use adhikar_ai.Agent.{
  fields_referenced_by_rule, ProfileDict, has_value, base_fields, add_field, union, share_of,
  measured_fields, relevant_fields, answered, total_weight, round_ratio, at_most,
  compute_profile_completeness,
}

answered-All :
    (profile : ProfileDict) (fields : List String)
    → All (λ f. has_value profile f ≡ true) fields
    → answered profile fields ≡ fields
answered-All profile [] h = refl
answered-All profile (f ∷ fields) (p, h) = rw (p, answered-All profile fields h) refl

module _ (share : ℕ) where
  add_field-grows :
      (f : String) (fields : List String)
      → total_weight share fields ≤ total_weight share (add_field f fields)
  add_field-grows f fields = elim (Bool-cases (contains f fields)) [
    | inl h ↦ rw h (omega arith)
    | inr h ↦ rw h (appended fields)
  ]
    where
      appended : (fs : List String) → total_weight share fs ≤ total_weight share (fs ++ f ∷ [])
      appended [] = omega arith
      appended (g ∷ fs) = omega (arith, appended fs)

  union-grows :
      (fields more : List String)
      → total_weight share fields ≤ total_weight share (union fields more)
  union-grows fields [] = omega arith
  union-grows fields (f ∷ more) =
      omega (arith, add_field-grows f fields, union-grows (add_field f fields) more)

  relevant_fields-grows :
      (rules : List EligibilityCriteria) (fields : List String)
      → total_weight share fields ≤ total_weight share (relevant_fields rules fields)
  unfolding relevant_fields
  relevant_fields-grows [] fields = omega arith
  relevant_fields-grows (rule ∷ rules) fields = omega (
    arith,
    union-grows fields (fields_referenced_by_rule rule),
    relevant_fields-grows rules (union fields (fields_referenced_by_rule rule)),
  )

  base_weight : total_weight share base_fields ≡ 70 * share
  unfolding lookup strip_prefix
  base_weight = omega arith

round_ratio-exact : (n m : ℕ) → 0 < m → round_ratio (m * n) m ≡ n
round_ratio-exact n m h =
    let whole : m * n / m ≡ n = rw (mul_comm m n) (mul-div_cancel n h) in
    let rest : m * n % m ≡ 0 =
      let split : m * n + m * n % m ≡ m * n =
        sym (ap (λ q. m * q + m * n % m) whole) ∙ div-add-mod (m * n) m in
      omega (arith, split) in
    ground (arith, whole, rest)

percent-full :
    (total part : ℕ)
    → 0 < total
    → part ≡ total
    → (if nat_beq total 0 then 0 else at_most 100 (round_ratio (part * 100) total)) ≡ 100
percent-full total part h e =
    let exact : round_ratio (part * 100) total ≡ 100 = rw e (round_ratio-exact 100 total h) in
    let positive : nat_beq total 0 ≡ false = ground arith in rw (positive, exact) refl

share-positive : (fields : List String) → 0 < share_of fields
share-positive fields = ground arith

-- A profile that has a value for every measured field is 100 percent complete.
pub compute_profile_completeness_full :
    (profile : ProfileDict) (candidate_rules : List EligibilityCriteria)
    → All (λ f. has_value profile f ≡ true) (measured_fields candidate_rules)
    → compute_profile_completeness profile candidate_rules ≡ 100
unfolding compute_profile_completeness
compute_profile_completeness_full profile rules h =
    let fields = measured_fields rules in
    let share = share_of fields in
    let positive : 0 < total_weight share fields = omega (
      arith,
      share-positive fields,
      base_weight share,
      relevant_fields-grows share (take 20 rules) base_fields,
    ) in
    percent-full (total_weight share fields) (total_weight share (answered profile fields)) positive
      (ap (total_weight share) (answered-All profile fields h))

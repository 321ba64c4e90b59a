-- ===== src/Eligibility/Criteria/Segments.antt =====
-- Each part of `criterion_results` (criteria.py) against what the rule asks in that part.
use adhikar_ai.Prelude.{
  ℕ, ◌≤◌, String, ◌≡◌, refl, ◌↔◌, inl, inr, Bool, true, false, Option, none, some, List, [], ◌∷◌,
  arith, All, contains, string_eq, eq_iff, any-Member, Member-any, Bool-cases, contains-Member,
  Member-contains, if◌then◌else◌,
}
use adhikar_ai.Value.{Value, null, text}
use adhikar_ai.Schema.{CustomCriterion, EligibilityCriteria, UserProfileInput}
use adhikar_ai.Eligibility.Criteria.{
  CriterionStatus, HowToQualify, is_unknown, check_in, check_lte, check_gte, if_some, if_listed,
  attribute, custom_results, evaluate_custom_criterion, custom_status, is_excluded, unknown, pass,
}
use adhikar_ai.Eligibility.Criteria.Results.{IsMatched}
use adhikar_ai.Eligibility.Criteria.Spec.{
  IsKnown, MeetsLimit, MeetsChoice, Holds, MeetsCustom, IsFree,
}

pub IsKnown-iff : (v : Value) → (is_unknown v ≡ false) ↔ IsKnown v
IsKnown-iff (text s) = ground (arith, eq_iff s "unknown", eq_iff s "UNKNOWN")
IsKnown-iff null = ground arith
IsKnown-iff _ = ground arith

module _ (id : String) (unit : ℕ) (how : ℕ → HowToQualify) where
  pub gte_iff :
      (limit actual : Option ℕ)
      → All IsMatched (if_some limit (λ n. check_gte id unit actual n (how n)))
        ↔ MeetsLimit (λ a n. n ≤ a) limit actual
  unfolding check_gte
  gte_iff none actual = ground arith
  gte_iff (some n) none = ground arith
  gte_iff (some n) (some a) = ground arith

  pub lte_iff :
      (limit actual : Option ℕ)
      → All IsMatched (if_some limit (λ n. check_lte id unit actual n (how n)))
        ↔ MeetsLimit (λ a n. a ≤ n) limit actual
  unfolding check_lte
  lte_iff none actual = ground arith
  lte_iff (some n) none = ground arith
  lte_iff (some n) (some a) = ground arith

pub guarded_iff :
    (u b : Bool)
    → ((if u then unknown else pass b) ≡ CriterionStatus.matched) ↔ ((u ≡ false) × (b ≡ true))
guarded_iff u b = ground arith

pub in_iff :
    (id : String) (how : List String → HowToQualify) (choice : Option (List String))
    (actual : Option String)
    → All IsMatched (if_listed choice (λ xs. check_in id actual xs (how xs)))
      ↔ MeetsChoice choice actual
unfolding check_in
in_iff id how none actual = ground arith
in_iff id how (some []) actual = ground arith
in_iff id how (some (x ∷ xs)) none = ground arith
in_iff id how (some (x ∷ xs)) (some a) = (
  (λ h.
      let (k, c) = (guarded_iff _ _).0 h.0 in
      (a, refl, (IsKnown-iff (text a)).0 k, contains-Member a (x ∷ xs) c)),
  (λ h.
      let same : a ≡ h.0 = ground arith in
      (
        (guarded_iff _ _).1
            (rw same ((IsKnown-iff (text h.0)).1 h.2), Member-contains a (x ∷ xs) (rw same h.3)),
        tt,
      )),
)

pub custom_sound :
    (operator : String) (actual expected : Value)
    → custom_status operator actual expected ≡ CriterionStatus.matched
    → IsKnown actual × Holds operator actual expected
unfolding custom_status
custom_sound operator actual expected = ground (
  arith,
  IsKnown-iff actual,
  eq_iff operator "equals",
  eq_iff operator "not_equals",
  eq_iff operator "in",
  eq_iff operator "lte",
  eq_iff operator "gte",
)

pub custom_complete :
    (operator : String) (actual expected : Value)
    → is_unknown actual ≡ false
    → Holds operator actual expected
    → custom_status operator actual expected ≡ CriterionStatus.matched
unfolding custom_status
custom_complete operator actual expected k (inl (e, h)) = rw (e, k, h)
custom_complete operator actual expected k (inr (inl (e, h))) = rw (e, k, h)
custom_complete operator actual expected k (inr (inr (inl (e, h)))) = rw (e, k, h)
custom_complete operator actual expected k (inr (inr (inr (inl (e, h))))) = rw (e, k, h)
custom_complete operator actual expected k (inr (inr (inr (inr (e, h))))) = rw (e, k, h)

pub custom_results_iff :
    (p : UserProfileInput) (ks : List CustomCriterion)
    → All IsMatched (custom_results p ks) ↔ All (MeetsCustom p) ks
unfolding evaluate_custom_criterion
custom_results_iff p [] = ground arith
custom_results_iff p (k ∷ ks) =
    let (to, from) = custom_results_iff p ks in
    let v = attribute p k.field in
    (
      (λ h. (custom_sound k.operator v k.value h.0, to h.1)),
      (λ h. (custom_complete k.operator v k.value ((IsKnown-iff v).1 h.0.0) h.0.1, from h.1)),
    )

pub excluded_iff :
    (c : EligibilityCriteria) (p : UserProfileInput) → (is_excluded c p ≡ false) ↔ IsFree c p
excluded_iff c p = (
  (λ h s m n.
      let hit =
        Member-any (λ s. contains s c.exclusion_scheme_ids) s p.existing_scheme_ids m
          (Member-contains s c.exclusion_scheme_ids n) in
      cc (hit, h)),
  (λ free. elim (Bool-cases (is_excluded c p)) [
    | inl hit ↦
        let (s, m, n) =
          any-Member (λ s. contains s c.exclusion_scheme_ids) p.existing_scheme_ids hit in
        absurd (free s m (contains-Member s c.exclusion_scheme_ids n))
    | inr free ↦ free
  ]),
)

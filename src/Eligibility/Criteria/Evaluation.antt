-- ===== src/Eligibility/Criteria/Evaluation.antt =====
-- `evaluate_scheme` of criteria.py against what the rule asks.
use adhikar_ai.Prelude.{
  ℕ, suc, ◌+◌, length, length-append, String, ◌≡◌, refl, ap, ◌∙◌, ◌↔◌, inl, inr, Option, none, some,
  List, [], ◌∷◌, arith, All, All-append, All-split, string_eq, Bool-cases,
}
use adhikar_ai.Schema.{CustomCriterion, EligibilityCriteria, UserProfileInput}
use adhikar_ai.Eligibility.Criteria.{
  SchemeStatus, near_miss, if_some, if_listed, custom_results, criterion_results, is_excluded,
  evaluate_scheme,
}
use adhikar_ai.Eligibility.Criteria.Results.{
  IsMatched, summarize_matched_iff, FailsOnlyAt, summarize_near_miss, length-partition,
}
use adhikar_ai.Eligibility.Criteria.{CriterionResult, summarize}
use adhikar_ai.Eligibility.Criteria.Spec.{
  IsFree, Meets, stated_limit, stated_choice, stated_criteria,
}
use adhikar_ai.Eligibility.Criteria.Segments.{
  gte_iff, lte_iff, in_iff, custom_results_iff, excluded_iff,
}

module _ (c : EligibilityCriteria) (p : UserProfileInput) where
  results_sound : All IsMatched (criterion_results c p) → Meets c p
  unfolding criterion_results
  results_sound h =
      let (min_age, h1) = All-split IsMatched _ _ h in
      let (max_age, h2) = All-split IsMatched _ _ h1 in
      let (gender, h3) = All-split IsMatched _ _ h2 in
      let (caste, h4) = All-split IsMatched _ _ h3 in
      let (income, h5) = All-split IsMatched _ _ h4 in
      let (land, h6) = All-split IsMatched _ _ h5 in
      let (occupation, h7) = All-split IsMatched _ _ h6 in
      let (marital, h8) = All-split IsMatched _ _ h7 in
      let (state, custom) = All-split IsMatched _ _ h8 in
      record {
        min_age = (gte_iff _ _ _ c.min_age p.age).0 min_age;
        max_age = (lte_iff _ _ _ c.max_age p.age).0 max_age;
        gender = (in_iff _ _ c.gender p.gender).0 gender;
        caste_category = (in_iff _ _ c.caste_categories p.caste_category).0 caste;
        annual_income = (lte_iff _ _ _ c.max_annual_income p.annual_income).0 income;
        land_holding = (lte_iff _ _ _ c.max_land_holding_acres p.land_holding_acres).0 land;
        occupation = (in_iff _ _ c.occupation_types p.occupation_type).0 occupation;
        marital_status = (in_iff _ _ c.marital_status p.marital_status).0 marital;
        state = (in_iff _ _ c.state_codes p.state_code).0 state;
        custom = (custom_results_iff p c.custom_criteria).0 custom;
      }

  results_complete : Meets c p → All IsMatched (criterion_results c p)
  unfolding criterion_results
  results_complete m = All-append IsMatched _ _ ((gte_iff _ _ _ c.min_age p.age).1 m.min_age) (
      All-append IsMatched _ _ ((lte_iff _ _ _ c.max_age p.age).1 m.max_age) (
        All-append IsMatched _ _ ((in_iff _ _ c.gender p.gender).1 m.gender) (
          All-append IsMatched _ _
            ((in_iff _ _ c.caste_categories p.caste_category).1 m.caste_category)
            (All-append IsMatched _ _
              ((lte_iff _ _ _ c.max_annual_income p.annual_income).1 m.annual_income)
              (All-append IsMatched _ _
                ((lte_iff _ _ _ c.max_land_holding_acres p.land_holding_acres).1 m.land_holding)
                (All-append IsMatched _ _
                  ((in_iff _ _ c.occupation_types p.occupation_type).1 m.occupation)
                  (All-append IsMatched _ _
                    ((in_iff _ _ c.marital_status p.marital_status).1 m.marital_status)
                    (All-append IsMatched _ _ ((in_iff _ _ c.state_codes p.state_code).1 m.state)
                      ((custom_results_iff p c.custom_criteria).1 m.custom)))))))))

-- `evaluate_scheme` says "matched" for exactly the profiles that receive no excluded scheme and meet
-- every criterion that the rule states.
pub evaluate_scheme_matched_iff :
    (id : String) (c : EligibilityCriteria) (p : UserProfileInput)
    → ((evaluate_scheme id c p).status ≡ SchemeStatus.matched) ↔ (IsFree c p × Meets c p)
unfolding evaluate_scheme
evaluate_scheme_matched_iff id c p = elim (Bool-cases (is_excluded c p)) [
  | inl hit ↦ rw hit ((λ h. cc), (λ h. cc ((excluded_iff c p).1 h.0, hit)))
  | inr free ↦
      let (to, from) = summarize_matched_iff id (criterion_results c p) in
      rw free (
        (λ h. ((excluded_iff c p).0 free, results_sound c p (to h))),
        (λ h. from (results_complete c p h.1)),
      )
]

-- A near miss is free of exclusions, and exactly one criterion fails while every other one is matched.
pub evaluate_scheme_near_miss :
    (id : String) (c : EligibilityCriteria) (p : UserProfileInput)
    → (evaluate_scheme id c p).status ≡ near_miss
    → IsFree c p
      × ((r : CriterionResult) × ((evaluate_scheme id c p).failed_criteria ≡ r ∷ [])
          × FailsOnlyAt (criterion_results c p) r)
unfolding evaluate_scheme
evaluate_scheme_near_miss id c p = elim (Bool-cases (is_excluded c p)) [
  | inl hit ↦ rw hit (λ h. cc)
  | inr free ↦
      rw free (λ h. ((excluded_iff c p).0 free, summarize_near_miss id (criterion_results c p) h))
]

stated_limit_lem : (o : Option ℕ) (f : ℕ → CriterionResult) → length (if_some o f) ≡ stated_limit o
stated_limit_lem none f = refl
stated_limit_lem (some n) f = refl

stated_choice_lem :
    (o : Option (List String)) (f : List String → CriterionResult)
    → length (if_listed o f) ≡ stated_choice o
stated_choice_lem none f = refl
stated_choice_lem (some []) f = refl
stated_choice_lem (some (x ∷ xs)) f = refl

length-custom_results :
    (p : UserProfileInput) (ks : List CustomCriterion) → length (custom_results p ks) ≡ length ks
length-custom_results p [] = refl
length-custom_results p (k ∷ ks) = ap suc (length-custom_results p ks)

length-criterion_results :
    (c : EligibilityCriteria) (p : UserProfileInput)
    → length (criterion_results c p) ≡ stated_criteria c
unfolding criterion_results
length-criterion_results c p =
    simp (length-append, stated_limit_lem, stated_choice_lem, length-custom_results) (omega arith)

-- Every criterion that the rule states is counted in exactly one of the three lists of the evaluation,
-- unless an excluded scheme is received.
pub evaluate_scheme_counts :
    (id : String) (c : EligibilityCriteria) (p : UserProfileInput)
    → IsFree c p
    → let e = evaluate_scheme id c p in
      length e.matched_criteria + length e.failed_criteria + length e.unknown_criteria
      ≡ stated_criteria c
unfolding evaluate_scheme summarize
evaluate_scheme_counts id c p free =
    rw ((excluded_iff c p).1 free)
      (length-partition (criterion_results c p) ∙ length-criterion_results c p)

-- ===== src/Eligibility/Criteria.antt =====
-- services/eligibility/criteria.py: one rule against one profile.
pub mod Results
pub mod Spec
pub mod Segments
pub mod Evaluation
use adhikar_ai.Prelude.{
  ℕ, ◌*◌, String, Bool, true, false, ◌||◌, not, Option, none, some, List, [], ◌∷◌, ◌++◌, map, ◌==◌,
  string_eq, contains, leb, length, filter, any, is_some, if◌then◌else◌,
}
use adhikar_ai.Prelude.Int.{pos}
use adhikar_ai.Prelude.Dict.{lookup}
use adhikar_ai.Value.{
  Value, null, number, text, array, of_text, hundredths, items_of, equal, less_equal, greater_equal,
  is_in,
}
use adhikar_ai.Schema.{CustomCriterion, EligibilityCriteria, UserProfileInput}

pub data CriterionStatus : Type 0 where
  matched failed unknown : CriterionStatus

-- The text of `how_to_qualify`: the f-string that makes it, with its arguments.
pub data HowToQualify : Type 0 where
  age_at_least : ℕ → HowToQualify
  age_at_most : ℕ → HowToQualify
  for_gender : List String → HowToQualify
  caste_category_in : List String → HowToQualify
  income_at_most : ℕ → HowToQualify
  land_at_most : ℕ → HowToQualify
  covered_occupation : HowToQualify
  matching_marital_status : HowToQualify
  selected_states : HowToQualify
  custom_text : String → HowToQualify

pub record CriterionResult : Type 0 where
  pub criterion_id : String
  pub status : CriterionStatus
  pub actual : Value
  pub expected : Value
  pub how_to_qualify : HowToQualify

pub data SchemeStatus : Type 0 where
  matched near_miss incomplete ineligible : SchemeStatus

pub record SchemeEvaluation : Type 0 where
  pub scheme_id : String
  pub status : SchemeStatus
  pub matched_criteria : List String
  pub failed_criteria : List CriterionResult
  pub unknown_criteria : List String
  pub reason : Option String

-- `_unknown`
abbrev pub is_unknown : Value → Bool
is_unknown null = true
is_unknown (text s) = s == "unknown" || s == "UNKNOWN"
is_unknown _ = false

abbrev pub pass : Bool → CriterionStatus
pass true = CriterionStatus.matched
pass false = failed

-- A comparison in the `try`: a TypeError fails the criterion.
abbrev pub pass_or_error : Option Bool → CriterionStatus
pass_or_error none = failed
pass_or_error (some b) = pass b

unfoldable pub custom_status : String → Value → Value → CriterionStatus
custom_status operator actual expected =
    if is_unknown actual
    then unknown
    else if operator == "equals"
    then pass (equal actual expected)
    else if operator == "not_equals"
    then pass (not (equal actual expected))
    else if operator == "in"
    then pass_or_error (is_in actual expected)
    else if operator == "lte"
    then pass_or_error (less_equal actual expected)
    else if operator == "gte"
    then pass_or_error (greater_equal actual expected)
    else failed

unfoldable pub evaluate_custom_criterion : CustomCriterion → Value → CriterionResult
unfolding custom_status
evaluate_custom_criterion criterion actual = record {
  criterion_id = criterion.field;
  status = custom_status criterion.operator actual criterion.value;
  actual = actual;
  expected = criterion.value;
  how_to_qualify = custom_text criterion.how_to_qualify;
}

-- `_in`
unfoldable pub check_in : String → Option String → List String → HowToQualify → CriterionResult
check_in criterion_id actual expected how = record {
  criterion_id = criterion_id;
  status =
      if is_unknown (of_text actual)
      then unknown
      else elim actual [ none ↦ failed | some a ↦ pass (contains a expected) ];
  actual = of_text actual;
  expected = array (items_of expected);
  how_to_qualify = how;
}

-- `_lte` and `_gte`; `unit` is how many hundredths the field counts as one.
abbrev scaled : ℕ → Option ℕ → Value
scaled unit none = null
scaled unit (some n) = number (pos (unit * n))

unfoldable pub check_lte : String → ℕ → Option ℕ → ℕ → HowToQualify → CriterionResult
check_lte criterion_id unit actual expected how = record {
  criterion_id = criterion_id;
  status = elim actual [ none ↦ unknown | some a ↦ pass (leb a expected) ];
  actual = scaled unit actual;
  expected = scaled unit (some expected);
  how_to_qualify = how;
}

unfoldable pub check_gte : String → ℕ → Option ℕ → ℕ → HowToQualify → CriterionResult
check_gte criterion_id unit actual expected how = record {
  criterion_id = criterion_id;
  status = elim actual [ none ↦ unknown | some a ↦ pass (leb expected a) ];
  actual = scaled unit actual;
  expected = scaled unit (some expected);
  how_to_qualify = how;
}

-- `if criteria.f is not None: results.append(…)`
abbrev pub if_some : {A : Type 0} → Option A → (A → CriterionResult) → List CriterionResult
if_some none f = []
if_some (some a) f = f a ∷ []

-- `if criteria.f: results.append(…)`, which skips an empty list too.
abbrev pub if_listed : Option (List String) → (List String → CriterionResult) → List CriterionResult
if_listed none f = []
if_listed (some []) f = []
if_listed (some (x ∷ xs)) f = f (x ∷ xs) ∷ []

abbrev pub attribute : UserProfileInput → String → Value
attribute profile field = elim (lookup field profile.custom_attributes) [ none ↦ null | some v ↦ v ]

abbrev pub custom_results : UserProfileInput → List CustomCriterion → List CriterionResult
custom_results profile [] = []
custom_results profile (k ∷ ks) =
    evaluate_custom_criterion k (attribute profile k.field) ∷ custom_results profile ks

-- The list `results`, in the order of the appends.
unfoldable pub criterion_results : EligibilityCriteria → UserProfileInput → List CriterionResult
criterion_results c p =
    if_some c.min_age (λ n. check_gte "age" 100 p.age n (age_at_least n))
    ++ (if_some c.max_age (λ n. check_lte "age" 100 p.age n (age_at_most n))
        ++ (if_listed c.gender (λ xs. check_in "gender" p.gender xs (for_gender xs))
            ++ (if_listed c.caste_categories
                  (λ xs. check_in "caste_category" p.caste_category xs (caste_category_in xs))
                ++ (if_some c.max_annual_income
                      (λ n. check_lte "annual_income" 100 p.annual_income n (income_at_most n))
                    ++ (if_some c.max_land_holding_acres (λ n.
                          check_lte "land_holding_acres" 1 p.land_holding_acres n (land_at_most n))
                        ++ (if_listed c.occupation_types (λ xs.
                              check_in "occupation_type" p.occupation_type xs covered_occupation)
                            ++ (if_listed c.marital_status (λ xs.
                                  check_in "marital_status" p.marital_status xs
                                    matching_marital_status)
                                ++ (if_listed c.state_codes
                                      (λ xs. check_in "state_code" p.state_code xs selected_states)
                                    ++ custom_results p c.custom_criteria))))))))

abbrev pub is_matched : CriterionResult → Bool
is_matched r = elim r.status [ CriterionStatus.matched ↦ true | _ ↦ false ]

abbrev pub is_failed : CriterionResult → Bool
is_failed r = elim r.status [ failed ↦ true | _ ↦ false ]

abbrev pub is_undecided : CriterionResult → Bool
is_undecided r = elim r.status [ unknown ↦ true | _ ↦ false ]

abbrev pub ids : List CriterionResult → List String
ids = map (λ r. r.criterion_id)

-- The status that the three lists lead to.
abbrev pub decide_status : List CriterionResult → List String → SchemeStatus
decide_status [] [] = SchemeStatus.matched
decide_status [] (u ∷ us) = incomplete
decide_status (f ∷ []) [] = near_miss
decide_status (f ∷ []) (u ∷ us) = ineligible
decide_status (f ∷ g ∷ fs) us = ineligible

unfoldable pub summarize : String → List CriterionResult → SchemeEvaluation
summarize scheme_id results =
    let failures = filter is_failed results in
    let undecided = ids (filter is_undecided results) in
    record {
      scheme_id = scheme_id;
      status = decide_status failures undecided;
      matched_criteria = ids (filter is_matched results);
      failed_criteria = failures;
      unknown_criteria = undecided;
      reason = none;
    }

abbrev pub is_excluded : EligibilityCriteria → UserProfileInput → Bool
is_excluded c p = any (λ s. contains s c.exclusion_scheme_ids) p.existing_scheme_ids

-- `CriterionEvaluator.evaluate_scheme`
unfoldable pub evaluate_scheme : String → EligibilityCriteria → UserProfileInput → SchemeEvaluation
unfolding criterion_results summarize
evaluate_scheme scheme_id c p =
    if is_excluded c p
    then record {
      scheme_id = scheme_id;
      status = ineligible;
      matched_criteria = [];
      failed_criteria = [];
      unknown_criteria = [];
      reason = some "already_receives_excluded_scheme";
    }
    else summarize scheme_id (criterion_results c p)

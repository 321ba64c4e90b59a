-- ===== src/Eligibility/Tests.antt =====
-- The rule engine on concrete rules and profiles.
use adhikar_ai.Prelude.{
  ℕ, ◌≤◌, true, ◌≡◌, ◌↔◌, ◌⊎◌, refl, sym, ◌∙◌, none, some, [], ◌∷◌, Member, here, next, length,
}
use adhikar_ai.Prelude.Dict.{lookup, insert}
use adhikar_ai.Prelude.Result.{done}
use adhikar_ai.Prelude.Sorting.{sort, insert_sorted}
use adhikar_ai.Schema.{EligibilityCriteria, UserProfileInput}
use adhikar_ai.Db.Rows.{Lifecycle, Scheme}
use adhikar_ai.Eligibility.Criteria
use adhikar_ai.Eligibility.Criteria.{
  SchemeStatus, near_miss, CriterionResult, SchemeEvaluation, age_at_least, criterion_results,
  summarize, check_gte, check_lte, check_in,
}
use adhikar_ai.Eligibility.Criteria.Results.{FailsOnlyAt}
use adhikar_ai.Eligibility.Criteria.Spec.{IsFree, Meets}
use adhikar_ai.Eligibility.Criteria.Evaluation.{evaluate_scheme_matched_iff}
use adhikar_ai.Eligibility.Engine.{SchemeWithRule, evaluate_scheme, evaluate, run_evaluation}
use adhikar_ai.Eligibility.Matcher.{
  MatchProfileRequest, MatchProfileResponse, MatchedScheme, NearMissScheme, matched_le,
  near_miss_le, near_miss_score, matched_entry, near_miss_entry, scheme_summary, collect,
  evaluate_profile_against_rules,
}
use adhikar_ai.Eligibility.Matcher.Origin.{HasUniqueIds}
use adhikar_ai.Eligibility.Matcher.Incomplete.{InOrderOf}
use adhikar_ai.Eligibility.Matcher.Order.{AreOrdered, IsMatchedBefore, IsNearMissBefore}
use adhikar_ai.Eligibility.Matcher.Sound.{
  matched_schemes_sound, matched_schemes_complete, near_miss_schemes_sound, response_bounds,
}
use adhikar_ai.Eligibility.Validation.{validate_rule, raise_first_rule_issue}
use adhikar_ai.Eligibility.Validation.Valid.{IsValidRule, validate_rule_iff}

-- Women from 18 years with at most 100,000 rupees a year.
abbrev pub women_rule : EligibilityCriteria
women_rule = record {
  min_age = some 18;
  max_age = none;
  gender = some ("female" ∷ []);
  caste_categories = none;
  max_annual_income = some 100000;
  max_land_holding_acres = none;
  occupation_types = none;
  marital_status = none;
  state_codes = some ("IN-BR" ∷ []);
  exclusion_scheme_ids = "old" ∷ [];
  required_documents = [];
  custom_criteria = [];
}

abbrev profile_of_age : ℕ → UserProfileInput
profile_of_age years = record {
  age = some years;
  gender = some "female";
  caste_category = none;
  annual_income = some 50000;
  land_holding_acres = none;
  occupation_type = none;
  marital_status = none;
  state_code = some "IN-BR";
  district = none;
  existing_scheme_ids = [];
  custom_attributes = [];
}

abbrev pub women_scheme : Scheme
women_scheme = record {
  id = "women";
  organisation_id = 1;
  category_id = none;
  name = "Women";
  description = "";
  plain_language_summary = "";
  ministry = "";
  state_code = none;
  benefit_type = "cash";
  benefit_amount = "";
  application_url = none;
  is_active = true;
  status = Lifecycle.active;
  valid_from = none;
  valid_until = none;
  source_url = none;
  external_source = none;
  external_id = none;
  verification_status = "verified";
  source_last_checked_at = none;
}

abbrev women : SchemeWithRule
women = record { scheme = women_scheme; rule = women_rule }

abbrev request_of_age : ℕ → MatchProfileRequest
request_of_age years = record {
  organisation_id = 1;
  profile = profile_of_age years;
  include_incomplete = true;
  limit = 5;
}

free : (years : ℕ) → IsFree women_rule (profile_of_age years)
free years s m = elim m [ ]

too_young : (Criteria.evaluate_scheme "women" women_rule (profile_of_age 16)).status ≡ near_miss
unfolding Criteria.evaluate_scheme criterion_results summarize check_gte check_lte check_in
too_young = refl

evaluate_scheme_matched_iff_example :
    ((Criteria.evaluate_scheme "women" women_rule (profile_of_age 30)).status
      ≡ SchemeStatus.matched)
    ↔ (IsFree women_rule (profile_of_age 30) × Meets women_rule (profile_of_age 30))
evaluate_scheme_matched_iff_example =
    evaluate_scheme_matched_iff "women" women_rule (profile_of_age 30)

only_one : HasUniqueIds (women ∷ [])
only_one = record { same = λ a b m k h. the_women a m ∙ sym (the_women b k) }
  where
    the_women : (a : SchemeWithRule) → Member a (women ∷ []) → a ≡ women
    the_women a (here e) = e
    the_women a (next m) = elim m [ ]

abbrev match_of_age : ℕ → MatchedScheme
match_of_age years = matched_entry women (evaluate_scheme (profile_of_age years) women)

abbrev replies_to : ℕ → MatchProfileResponse
replies_to years = evaluate_profile_against_rules (request_of_age years) (women ∷ [])

match_listed : Member (match_of_age 30) (replies_to 30).matched_schemes
unfolding evaluate_profile_against_rules run_evaluation evaluate evaluate_scheme
    Criteria.evaluate_scheme criterion_results summarize check_gte check_lte check_in collect sort
    insert_sorted matched_le lookup insert
match_listed = here refl

matched_schemes_sound_example :
    (item : SchemeWithRule) × Member item (women ∷ [])
    × ((match_of_age 30).scheme ≡ scheme_summary item.scheme item.rule)
    × IsFree item.rule (profile_of_age 30)
    × Meets item.rule (profile_of_age 30)
matched_schemes_sound_example =
    matched_schemes_sound (request_of_age 30) (women ∷ []) only_one (match_of_age 30) match_listed

thirty_matches :
    (Criteria.evaluate_scheme "women" women_rule (profile_of_age 30)).status ≡ SchemeStatus.matched
unfolding Criteria.evaluate_scheme criterion_results summarize check_gte check_lte check_in
thirty_matches = refl

meets : Meets women_rule (profile_of_age 30)
meets = ((evaluate_scheme_matched_iff "women" women_rule (profile_of_age 30)).0 thirty_matches).1

matched_schemes_complete_example :
    ((b : MatchedScheme) × Member b (replies_to 30).matched_schemes
      × (b.scheme ≡ scheme_summary women_scheme women_rule))
    ⊎ (length (replies_to 30).matched_schemes ≡ 5)
matched_schemes_complete_example =
    matched_schemes_complete (request_of_age 30) (women ∷ []) only_one women (here refl) (free 30)
      meets

abbrev young_evaluation : SchemeEvaluation
young_evaluation = evaluate_scheme (profile_of_age 16) women

abbrev young_failure : CriterionResult
young_failure = check_gte "age" 100 (some 16) 18 (age_at_least 18)

abbrev young_entry : NearMissScheme
young_entry = near_miss_entry women young_evaluation young_failure

young_listed : Member young_entry (replies_to 16).near_miss_schemes
unfolding evaluate_profile_against_rules run_evaluation evaluate evaluate_scheme
    Criteria.evaluate_scheme criterion_results summarize check_gte check_lte check_in collect sort
    insert_sorted near_miss_le lookup insert near_miss_score
young_listed = here refl

near_miss_schemes_sound_example :
    (item : SchemeWithRule) × (r : CriterionResult) × Member item (women ∷ [])
    × (young_entry ≡ near_miss_entry item (evaluate_scheme (profile_of_age 16) item) r)
    × FailsOnlyAt (criterion_results item.rule (profile_of_age 16)) r
    × (50 ≤ young_entry.eligibility_score)
    × (young_entry.eligibility_score ≤ 99)
near_miss_schemes_sound_example =
    near_miss_schemes_sound (request_of_age 16) (women ∷ []) only_one young_entry young_listed

response_bounds_example :
    (length (replies_to 30).matched_schemes ≤ 5)
    × (length (replies_to 30).near_miss_schemes ≤ 5)
    × (length (replies_to 30).incomplete_schemes ≤ 5)
    × AreOrdered IsMatchedBefore (replies_to 30).matched_schemes
    × AreOrdered IsNearMissBefore (replies_to 30).near_miss_schemes
    × InOrderOf (women ∷ []) (replies_to 30).incomplete_schemes
    × ((replies_to 30).evaluated_scheme_count ≡ 1)
response_bounds_example = response_bounds (request_of_age 30) (women ∷ [])

validate_rule_iff_example :
    ((validate_rule women_rule ("old" ∷ []) ≡ []) ↔ IsValidRule women_rule ("old" ∷ []))
    × ((raise_first_rule_issue women_rule ("old" ∷ []) ≡ done)
        ↔ IsValidRule women_rule ("old" ∷ []))
validate_rule_iff_example = validate_rule_iff women_rule ("old" ∷ [])

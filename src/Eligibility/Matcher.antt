-- ===== src/Eligibility/Matcher.antt =====
-- services/eligibility/matcher.py: the evaluations of all schemes, sorted into the three lists of the
-- response.
pub mod Order
pub mod Origin
pub mod Incomplete
pub mod Sound
use Prim.Native.Nat.{min, max}
use adhikar_ai.Prelude.{
  ℕ, ◌+◌, ◌*◌, ◌/◌, String, Bool, ◌&&◌, Option, none, some, List, [], ◌∷◌, ◌++◌, ◌==◌, string_eq,
  nat_eq, length, take, ltb, if◌then◌else◌,
}
use adhikar_ai.Prelude.Dict.{lookup, insert}
use adhikar_ai.Prelude.Sorting.{sort}
use adhikar_ai.Prelude.Text.{prepend, str_leb}
use adhikar_ai.Value.{Value}
use adhikar_ai.Schema.{RequiredDocument, EligibilityCriteria, UserProfileInput}
use adhikar_ai.Db.Rows.{Scheme}
use adhikar_ai.Eligibility.Criteria.{
  CriterionResult, HowToQualify, SchemeEvaluation, SchemeStatus, near_miss, incomplete, ineligible,
}
use adhikar_ai.Eligibility.Engine.{SchemeWithRule, run_evaluation}

pub record MatchProfileRequest : Type 0 where
  pub organisation_id : ℕ
  pub profile : UserProfileInput
  pub include_incomplete : Bool
  pub limit : ℕ

pub record SchemeSummary : Type 0 where
  pub id : String
  pub name : String
  pub description : String
  pub ministry : String
  pub state_code : Option String
  pub benefit_type : String
  pub benefit_amount : String
  pub application_url : Option String
  pub is_active : Bool
  pub valid_until : Option ℕ
  pub required_documents : List RequiredDocument

-- `scheme_summary` of services/schemes.py
abbrev pub scheme_summary : Scheme → EligibilityCriteria → SchemeSummary
scheme_summary scheme criteria = record {
  id = scheme.id;
  name = scheme.name;
  description = scheme.description;
  ministry = scheme.ministry;
  state_code = scheme.state_code;
  benefit_type = scheme.benefit_type;
  benefit_amount = scheme.benefit_amount;
  application_url = scheme.application_url;
  is_active = scheme.is_active;
  valid_until = scheme.valid_until;
  required_documents = criteria.required_documents;
}

pub record MatchedScheme : Type 0 where
  pub scheme : SchemeSummary
  pub eligibility_score : ℕ
  pub matched_criteria : List String
  pub explanation : String

pub record NearMissScheme : Type 0 where
  pub scheme : SchemeSummary
  pub eligibility_score : ℕ
  pub failed_criterion : String
  pub failed_value : Value
  pub required_value : Value
  pub how_to_qualify : HowToQualify

pub record IncompleteScheme : Type 0 where
  pub scheme : SchemeSummary
  pub unknown_criteria : List String
  pub explanation : String

pub record MatchProfileResponse : Type 0 where
  pub matched_schemes : List MatchedScheme
  pub near_miss_schemes : List NearMissScheme
  pub incomplete_schemes : List IncompleteScheme
  pub evaluated_scheme_count : ℕ

-- The key (benefit_type, -eligibility_score, name) of the first sort.
unfoldable pub matched_le : MatchedScheme → MatchedScheme → Bool
matched_le a b =
    if a.scheme.benefit_type == b.scheme.benefit_type
    then (if a.eligibility_score == b.eligibility_score
        then str_leb a.scheme.name b.scheme.name
        else ltb b.eligibility_score a.eligibility_score)
    else str_leb a.scheme.benefit_type b.scheme.benefit_type

-- The key (-eligibility_score, name) of the second.
unfoldable pub near_miss_le : NearMissScheme → NearMissScheme → Bool
near_miss_le a b =
    if a.eligibility_score == b.eligibility_score
    then str_leb a.scheme.name b.scheme.name
    else ltb b.eligibility_score a.eligibility_score

-- `by_id`: of two items with one id the later is kept.
abbrev pub index_from :
    List (String × SchemeWithRule) → List SchemeWithRule → List (String × SchemeWithRule)
index_from d [] = d
index_from d (item ∷ items) = index_from (insert item.scheme.id item d) items

unfoldable pub near_miss_score : ℕ → ℕ
near_miss_score matched = max 50 (min 99 (100 * matched / (matched + 1)))

abbrev pub matched_entry : SchemeWithRule → SchemeEvaluation → MatchedScheme
matched_entry item evaluation = record {
  scheme = scheme_summary item.scheme item.rule;
  eligibility_score = 100;
  matched_criteria = evaluation.matched_criteria;
  explanation = prepend "You appear eligible for " (prepend item.scheme.name ".");
}

abbrev pub near_miss_entry : SchemeWithRule → SchemeEvaluation → CriterionResult → NearMissScheme
near_miss_entry item evaluation failed = record {
  scheme = scheme_summary item.scheme item.rule;
  eligibility_score = near_miss_score (length evaluation.matched_criteria);
  failed_criterion = failed.criterion_id;
  failed_value = failed.actual;
  required_value = failed.expected;
  how_to_qualify = failed.how_to_qualify;
}

abbrev pub incomplete_entry : SchemeWithRule → SchemeEvaluation → IncompleteScheme
incomplete_entry item evaluation = record {
  scheme = scheme_summary item.scheme item.rule;
  unknown_criteria = evaluation.unknown_criteria;
  explanation = "More information is needed before this scheme can be checked.";
}

-- What one round of the loop appends to each list. `failed_criteria[0]` and `by_id[…]` would raise on
-- an empty list or a missing id; the theorems show that neither happens.
abbrev pub matched_of : Option SchemeWithRule → SchemeEvaluation → List MatchedScheme
matched_of none evaluation = []
matched_of (some item) evaluation = elim evaluation.status [
  | SchemeStatus.matched ↦ matched_entry item evaluation ∷ []
  | _ ↦ []
]

abbrev pub first_failure :
    SchemeWithRule → SchemeEvaluation → List CriterionResult → List NearMissScheme
first_failure item evaluation [] = []
first_failure item evaluation (failed ∷ _) = near_miss_entry item evaluation failed ∷ []

abbrev pub near_miss_of : Option SchemeWithRule → SchemeEvaluation → List NearMissScheme
near_miss_of none evaluation = []
near_miss_of (some item) evaluation = elim evaluation.status [
  | near_miss ↦ first_failure item evaluation evaluation.failed_criteria
  | _ ↦ []
]

abbrev pub incomplete_of : Bool → Option SchemeWithRule → SchemeEvaluation → List IncompleteScheme
incomplete_of include none evaluation = []
incomplete_of include (some item) evaluation = elim evaluation.status [
  | incomplete ↦ if include then incomplete_entry item evaluation ∷ [] else []
  | _ ↦ []
]

-- The loop, one list at a time.
module _ {B : Type 0} (f : Option SchemeWithRule → SchemeEvaluation → List B) where
  unfoldable pub collect : List (String × SchemeWithRule) → List SchemeEvaluation → List B
  collect by_id [] = []
  collect by_id (e ∷ es) = f (lookup e.scheme_id by_id) e ++ collect by_id es

unfoldable pub evaluate_profile_against_rules :
    MatchProfileRequest → List SchemeWithRule → MatchProfileResponse
unfolding run_evaluation collect
evaluate_profile_against_rules request scheme_rules =
    let evaluations = run_evaluation request.profile scheme_rules in
    let by_id = index_from [] scheme_rules in
    record {
      matched_schemes = take request.limit (sort matched_le (collect matched_of by_id evaluations));
      near_miss_schemes =
          take request.limit (sort near_miss_le (collect near_miss_of by_id evaluations));
      incomplete_schemes =
          if request.include_incomplete
          then take request.limit
              (collect (incomplete_of request.include_incomplete) by_id evaluations)
          else [];
      evaluated_scheme_count = length evaluations;
    }

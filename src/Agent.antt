-- ===== src/Agent.antt =====
-- agent/completeness.py and schemas/agent.py: what the conversation knows about a citizen, and which
-- fields of the profile the candidate rules depend on.
pub mod Confidence
pub mod Completeness
pub mod Tests
pub mod Question
pub mod Facts
pub mod LifeEvents
pub mod Extraction
use adhikar_ai.Prelude.{
  ℕ, suc, String, Bool, true, false, ◌+◌, ◌*◌, ◌/◌, ◌%◌, ◌||◌, Option, none, some, List, [], ◌∷◌,
  ◌++◌, string_eq, contains, filter, length, take, is_some, if◌then◌else◌, ltb, nat_beq,
}
use adhikar_ai.Prelude.Dict.{lookup}
use adhikar_ai.Prelude.Text.{prepend, strip_prefix}
use adhikar_ai.Value.{
  Value, null, text, array, object, of_text, hundredths, items_of, fields_of, get,
}
use adhikar_ai.Schema.{CustomCriterion, EligibilityCriteria}

-- `custom_attributes` is a dictionary; ages and incomes are counted in hundredths by `Value`.
pub record HouseholdMemberProfile : Type 0 where
  pub id : Option String
  pub display_name : Option String
  pub relationship_to_primary : String
  pub age : Option ℕ
  pub gender : Option String
  pub caste_category : Option String
  pub annual_income : Option ℕ
  pub land_holding_acres : Option ℕ
  pub occupation_type : Option String
  pub marital_status : Option String
  pub state_code : Option String
  pub district : Option String
  pub existing_scheme_ids : List String
  pub custom_attributes : List (String × Value)
  pub profile_completeness : ℕ

-- A profile as `dict[str, Any]`.
abbrev pub ProfileDict : Type 0
ProfileDict = List (String × Value)

abbrev pub whole : Option ℕ → Value
whole none = null
whole (some n) = hundredths (some (n * 100))

-- `profile.model_dump(mode="json")`
abbrev pub profile_dump : HouseholdMemberProfile → ProfileDict
profile_dump p =
    ("id", of_text p.id)
    ∷ ("display_name", of_text p.display_name)
    ∷ ("relationship_to_primary", text p.relationship_to_primary)
    ∷ ("age", whole p.age)
    ∷ ("gender", of_text p.gender)
    ∷ ("caste_category", of_text p.caste_category)
    ∷ ("annual_income", whole p.annual_income)
    ∷ ("land_holding_acres", hundredths p.land_holding_acres)
    ∷ ("occupation_type", of_text p.occupation_type)
    ∷ ("marital_status", of_text p.marital_status)
    ∷ ("state_code", of_text p.state_code)
    ∷ ("district", of_text p.district)
    ∷ ("existing_scheme_ids", array (items_of p.existing_scheme_ids))
    ∷ ("custom_attributes", object (fields_of p.custom_attributes))
    ∷ ("profile_completeness", whole (some p.profile_completeness))
    ∷ []

abbrev pub is_present : Option Value → Bool
is_present none = false
is_present (some null) = false
is_present (some _) = true

-- On custom attributes that are no dictionary the source raises, here or in the validation that follows.
abbrev custom_present : String → Option Value → Bool
custom_present key (some (object fs)) = is_present (get key fs)
custom_present key _ = false

-- `_has_value`, and `_profile_value(...) is not None`
unfoldable pub has_value : ProfileDict → String → Bool
unfolding get
has_value profile field = elim (strip_prefix "custom_attributes." field) [
  | some key ↦ custom_present key (lookup "custom_attributes" profile)
  | none ↦ is_present (lookup field profile)
]

abbrev is_custom : String → Bool
is_custom field = is_some (strip_prefix "custom_attributes." field)

-- `set.add`: a set is a list without repetitions.
abbrev pub add_field : String → List String → List String
add_field field fields = if contains field fields then fields else fields ++ field ∷ []

abbrev add_if : Bool → String → List String → List String
add_if b field fields = if b then add_field field fields else fields

abbrev lists : Option (List String) → Bool
lists none = false
lists (some []) = false
lists (some (_ ∷ _)) = true

abbrev add_custom : List CustomCriterion → List String → List String
add_custom [] fields = fields
add_custom (c ∷ criteria) fields =
    add_custom criteria (add_field (prepend "custom_attributes." c.field) fields)

unfoldable pub fields_referenced_by_rule : EligibilityCriteria → List String
fields_referenced_by_rule rule = add_custom rule.custom_criteria (
    add_if (lists rule.state_codes) "state_code" (
      add_if (lists rule.marital_status) "marital_status" (
        add_if (lists rule.occupation_types) "occupation_type" (
          add_if (is_some rule.max_land_holding_acres) "land_holding_acres" (
            add_if (is_some rule.max_annual_income) "annual_income" (
              add_if (lists rule.caste_categories) "caste_category" (
                add_if (lists rule.gender) "gender"
                  (add_if (is_some rule.min_age || is_some rule.max_age) "age" []))))))))

-- `FIELD_WEIGHTS` and `BASE_FIELDS`
abbrev field_weights : List (String × ℕ)
field_weights =
    ("state_code", 15)
    ∷ ("age", 15)
    ∷ ("gender", 10)
    ∷ ("annual_income", 15)
    ∷ ("occupation_type", 15)
    ∷ ("caste_category", 8)
    ∷ ("marital_status", 8)
    ∷ ("land_holding_acres", 8)
    ∷ []

abbrev pub base_fields : List String
base_fields = "state_code" ∷ "age" ∷ "gender" ∷ "occupation_type" ∷ "annual_income" ∷ []

abbrev pub union : List String → List String → List String
union fields [] = fields
union fields (f ∷ fs) = union (add_field f fields) fs

unfoldable pub relevant_fields : List EligibilityCriteria → List String → List String
unfolding fields_referenced_by_rule
relevant_fields [] fields = fields
relevant_fields (rule ∷ rules) fields =
    relevant_fields rules (union fields (fields_referenced_by_rule rule))

-- The fields that the completeness is measured by.
abbrev pub measured_fields : List EligibilityCriteria → List String
measured_fields candidate_rules = relevant_fields (take 20 candidate_rules) base_fields

-- The weight of a field, times the number of custom fields, which share a weight of 6. The source adds
-- these weights as floats; here they are exact.
abbrev pub weight_of : ℕ → String → ℕ
weight_of custom_count field =
    if is_custom field
    then 6
    else elim (lookup field field_weights) [ none ↦ 0 | some w ↦ w * custom_count ]

abbrev pub total_weight : ℕ → List String → ℕ
total_weight custom_count [] = 0
total_weight custom_count (f ∷ fs) = weight_of custom_count f + total_weight custom_count fs

abbrev pub answered : ProfileDict → List String → List String
answered profile fields = filter (has_value profile) fields

-- The number of custom fields, or 1.
abbrev pub share_of : List String → ℕ
share_of fields =
    let custom_count = length (filter is_custom fields) in
    if nat_beq custom_count 0 then 1 else custom_count

-- `round(a / b)`: to the nearest, and to the even one of two that are equally near.
abbrev pub round_ratio : ℕ → ℕ → ℕ
round_ratio a b =
    let q = a / b in
    let twice = 2 * (a % b) in
    if ltb twice b then q else if ltb b twice then suc q else if nat_beq (q % 2) 0 then q else suc q

abbrev pub at_most : ℕ → ℕ → ℕ
at_most limit n = if ltb limit n then limit else n

unfoldable pub compute_profile_completeness : ProfileDict → List EligibilityCriteria → ℕ
unfolding relevant_fields
compute_profile_completeness profile candidate_rules =
    let fields = measured_fields candidate_rules in
    let share = share_of fields in
    let total = total_weight share fields in
    if nat_beq total 0
    then 0
    else at_most 100 (round_ratio (total_weight share (answered profile fields) * 100) total)

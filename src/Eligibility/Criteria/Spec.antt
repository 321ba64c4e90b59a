-- ===== src/Eligibility/Criteria/Spec.antt =====
-- What a rule asks of a profile, read off the rule (schemas/scheme.py) and not off the evaluator.
use adhikar_ai.Prelude.{
  ℕ, ◌+◌, ◌≤◌, length, String, ◌≡◌, ◌≢◌, ◌⊎◌, true, false, Option, none, some, List, [], ◌∷◌, All,
  Member, string_eq,
}
use adhikar_ai.Value.{Value, null, text, equal, less_equal, is_in}
use adhikar_ai.Schema.{CustomCriterion, EligibilityCriteria, UserProfileInput}
use adhikar_ai.Eligibility.Criteria.{attribute}

-- The value is there and is not the word for an unknown value.
abbrev pub IsKnown : Value → Type 0
IsKnown v = (v ≢ null) × (v ≢ text "unknown") × (v ≢ text "UNKNOWN")

-- The limit, where the rule states one, is met by a value that the profile states.
abbrev pub MeetsLimit : (ℕ → ℕ → Type 0) → Option ℕ → Option ℕ → Type 0
MeetsLimit Within none actual = Unit
MeetsLimit Within (some limit) actual = (a : ℕ) × (actual ≡ some a) × Within a limit

-- The list, where the rule states one that is not empty, names the value that the profile states.
abbrev pub MeetsChoice : Option (List String) → Option String → Type 0
MeetsChoice none actual = Unit
MeetsChoice (some []) actual = Unit
MeetsChoice (some (x ∷ xs)) actual =
    (a : String) × (actual ≡ some a) × IsKnown (text a) × Member a (x ∷ xs)

-- The operators of a custom criterion.
abbrev pub Holds : String → Value → Value → Type 0
Holds operator actual expected =
    ((operator ≡ "equals") × (equal actual expected ≡ true))
    ⊎ (((operator ≡ "not_equals") × (equal actual expected ≡ false))
        ⊎ (((operator ≡ "in") × (is_in actual expected ≡ some true))
            ⊎ (((operator ≡ "lte") × (less_equal actual expected ≡ some true))
                ⊎ ((operator ≡ "gte") × (less_equal expected actual ≡ some true)))))

abbrev pub MeetsCustom : UserProfileInput → CustomCriterion → Type 0
MeetsCustom p k = IsKnown (attribute p k.field) × Holds k.operator (attribute p k.field) k.value

-- The profile receives no scheme that the rule excludes.
abbrev pub IsFree : EligibilityCriteria → UserProfileInput → Type 0
IsFree c p = (s : String) → Member s p.existing_scheme_ids → ¬ Member s c.exclusion_scheme_ids

pub record Meets (c : EligibilityCriteria) (p : UserProfileInput) : Type 0 where
  pub min_age : MeetsLimit (λ a n. n ≤ a) c.min_age p.age
  pub max_age : MeetsLimit (λ a n. a ≤ n) c.max_age p.age
  pub gender : MeetsChoice c.gender p.gender
  pub caste_category : MeetsChoice c.caste_categories p.caste_category
  pub annual_income : MeetsLimit (λ a n. a ≤ n) c.max_annual_income p.annual_income
  pub land_holding : MeetsLimit (λ a n. a ≤ n) c.max_land_holding_acres p.land_holding_acres
  pub occupation : MeetsChoice c.occupation_types p.occupation_type
  pub marital_status : MeetsChoice c.marital_status p.marital_status
  pub state : MeetsChoice c.state_codes p.state_code
  pub custom : All (MeetsCustom p) c.custom_criteria

abbrev pub stated_limit : Option ℕ → ℕ
stated_limit none = 0
stated_limit (some _) = 1

abbrev pub stated_choice : Option (List String) → ℕ
stated_choice none = 0
stated_choice (some []) = 0
stated_choice (some (_ ∷ _)) = 1

-- How many criteria the rule states.
abbrev pub stated_criteria : EligibilityCriteria → ℕ
stated_criteria c =
    stated_limit c.min_age
    + stated_limit c.max_age
    + stated_choice c.gender
    + stated_choice c.caste_categories
    + stated_limit c.max_annual_income
    + stated_limit c.max_land_holding_acres
    + stated_choice c.occupation_types
    + stated_choice c.marital_status
    + stated_choice c.state_codes
    + length c.custom_criteria

-- ===== src/Schema.antt =====
-- schemas/scheme.py and schemas/profile.py: the eligibility rule of a scheme and the profile that it is
-- checked against. The literal types (gender, caste, marital status, operator) are kept as the texts
-- that the code compares; amounts of land are counted in hundredths of an acre.
use adhikar_ai.Prelude.{ℕ, String, Bool, Option, List}
use adhikar_ai.Value.{Value}

pub record DocumentSubstitute : Type 0 where
  pub name : String
  pub instructions : String
  pub estimated_cost_inr : ℕ
  pub estimated_time_days : ℕ
  pub issuing_authority : String

pub record RequiredDocument : Type 0 where
  pub name : String
  pub is_mandatory : Bool
  pub accepted_substitutes : List DocumentSubstitute

pub record CustomCriterion : Type 0 where
  pub field : String
  pub operator : String
  pub value : Value
  pub how_to_qualify : String

pub record EligibilityCriteria : Type 0 where
  pub min_age : Option ℕ
  pub max_age : Option ℕ
  pub gender : Option (List String)
  pub caste_categories : Option (List String)
  pub max_annual_income : Option ℕ
  pub max_land_holding_acres : Option ℕ
  pub occupation_types : Option (List String)
  pub marital_status : Option (List String)
  pub state_codes : Option (List String)
  pub exclusion_scheme_ids : List String
  pub required_documents : List RequiredDocument
  pub custom_criteria : List CustomCriterion

pub record UserProfileInput : Type 0 where
  pub age : Option ℕ
  pub gender : Option String
  pub caste_category : Option String
  pub annual_income : Option ℕ
  pub land_holding_acres : Option ℕ
  pub occupation_type : Option String
  pub marital_status : Option String
  pub state_code : Option String
  pub district : Option String
  pub existing_scheme_ids : List String
  pub custom_attributes : List (String × Value)

-- ===== src/Documents/Tests.antt =====
-- Documents of concrete citizens.
use adhikar_ai.Prelude.{◌≡◌, ◌↔◌, String, true, none, List, [], ◌∷◌, All}
use adhikar_ai.Schema.{RequiredDocument, EligibilityCriteria}
use adhikar_ai.Documents.{check_document_sufficiency}
use adhikar_ai.Documents.Reports.{Reports, check_document_sufficiency-Reports}
use adhikar_ai.Documents.Sufficiency.{IsCovered, check_document_sufficiency_iff}

abbrev identity : RequiredDocument
identity = record { name = "Aadhaar Card"; is_mandatory = true; accepted_substitutes = [] }

abbrev identity_rule : EligibilityCriteria
identity_rule = record {
  min_age = none;
  max_age = none;
  gender = none;
  caste_categories = none;
  max_annual_income = none;
  max_land_holding_acres = none;
  occupation_types = none;
  marital_status = none;
  state_codes = none;
  exclusion_scheme_ids = [];
  required_documents = identity ∷ [];
  custom_criteria = [];
}

abbrev held : List String
held = "  aadhar " ∷ " " ∷ []

check_document_sufficiency_iff_example :
    ((check_document_sufficiency identity_rule held).is_sufficient ≡ true)
    ↔ All (IsCovered held) (identity ∷ [])
check_document_sufficiency_iff_example = check_document_sufficiency_iff held identity_rule

check_document_sufficiency-Reports_example :
    let response = check_document_sufficiency identity_rule held in
    Reports held (identity ∷ []) response.missing response.matched_documents
check_document_sufficiency-Reports_example = check_document_sufficiency-Reports held identity_rule

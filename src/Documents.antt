-- ===== src/Documents.antt =====
-- services/documents: which of a scheme's mandatory documents a citizen holds, directly, by a substitute
-- or under another name of theirs.
pub mod Sufficiency
pub mod Reports
pub mod Check
pub mod Tests
use adhikar_ai.Prelude.{
  String, Bool, true, false, not, Option, none, some, List, [], ◌∷◌, ◌==◌, string_eq, contains,
  filter, find, if◌then◌else◌,
}
use adhikar_ai.Prelude.Dict.{lookup}
use adhikar_ai.Prelude.Text.{collapse_from, is_empty, lower, prepend, strip}
use adhikar_ai.Schema.{DocumentSubstitute, EligibilityCriteria, RequiredDocument}

-- `ALIASES`
abbrev aliases : List (String × List String)
aliases =
    ("aadhaar", "aadhaar" ∷ "aadhar" ∷ "aadhaar card" ∷ "aadhar card" ∷ [])
    ∷ ("bank passbook", "bank passbook" ∷ "passbook" ∷ "bank statement" ∷ "account statement" ∷ [])
    ∷ ("ration card", "ration card" ∷ "pds card" ∷ "bpl card" ∷ [])
    ∷ []

unfoldable canonical_name : List (String × List String) → String → String
canonical_name [] cleaned = cleaned
canonical_name ((canonical, names) ∷ rest) cleaned =
    if contains cleaned names then canonical else canonical_name rest cleaned

unfoldable pub normalize_document_name : String → String
unfolding canonical_name
normalize_document_name value = canonical_name aliases (collapse_from false (lower (strip value)))

-- `_matches`
unfoldable pub matches : String → List String → Option String
matches required_name available =
    find (λ item. normalize_document_name item == normalize_document_name required_name) available

-- `_exact_match`
unfoldable pub exact_match : String → List String → Option String
exact_match required_name available =
    find (λ item. lower (strip item) == lower (strip required_name)) available

-- `if matched:` for a text or None.
abbrev pub truthy : Option String → Option String
truthy none = none
truthy (some s) = if is_empty s then none else some s

-- `_substitute_match` on the substitutes of a document: the substitute's name and the item.
unfoldable pub substitute_match : List DocumentSubstitute → List String → Option (String × String)
unfolding matches
substitute_match [] available = none
substitute_match (substitute ∷ substitutes) available =
    let rest = substitute_match substitutes available in
    elim (truthy (matches substitute.name available)) [
      | none ↦ rest
      | some matched ↦ some (substitute.name, matched)
    ]

-- `DEFAULT_ORIGINAL_DOCUMENT_INSTRUCTIONS`
abbrev default_original_document_instructions : List (String × String)
default_original_document_instructions =
    (
      "income certificate",
      "Visit the tehsil, revenue office, or state e-district portal to apply for an income certificate. Expected time: 7 to 21 days. Expected cost: INR 0 to 50 depending on state.",
    )
    ∷ (
      "aadhaar",
      "Visit an Aadhaar Seva Kendra or authorised enrolment centre to update or obtain Aadhaar details.",
    )
    ∷ (
      "bank passbook",
      "Visit your bank branch and ask for an updated passbook or account statement.",
    )
    ∷ (
      "ration card",
      "Visit the Food and Civil Supplies office or state ration card portal to apply for a ration card.",
    )
    ∷ []

unfoldable pub original_document_instructions : String → String
original_document_instructions document_name =
    elim (lookup (lower (strip document_name)) default_original_document_instructions) [
      | none ↦
          prepend "Visit the issuing office for "
            (prepend document_name " and ask how to obtain the original document.")
      | some instructions ↦ instructions
    ]

pub record MissingDocument : Type 0 where
  pub name : String
  pub accepted_substitutes : List DocumentSubstitute
  pub original_document_instructions : String

pub record DocumentCheckResponse : Type 0 where
  pub is_sufficient : Bool
  pub missing : List MissingDocument
  pub substitutes_available : List (String × String)
  pub matched_documents : List String

-- The three lists of the loop over the documents.
pub record Findings : Type 0 where
  pub missing : List MissingDocument
  pub substitutes_available : List (String × String)
  pub matched_documents : List String

abbrev pub missing_document : RequiredDocument → MissingDocument
missing_document document = record {
  name = document.name;
  accepted_substitutes = document.accepted_substitutes;
  original_document_instructions = original_document_instructions document.name;
}

-- One turn of the loop, in front of what the later turns append.
unfoldable pub check_document : RequiredDocument → List String → Findings → Findings
unfolding matches exact_match substitute_match
check_document document available later =
    let matched =
      λ (item : String). record later { matched_documents = item ∷ later.matched_documents } in
    let missing = record later { missing = missing_document document ∷ later.missing } in
    if not document.is_mandatory
    then later
    else elim (truthy (exact_match document.name available)) [
      | some item ↦ matched item
      | none ↦ elim (substitute_match document.accepted_substitutes available) [
        | some (substitute, item) ↦ record (matched item) {
          substitutes_available = (document.name, substitute) ∷ later.substitutes_available;
        }
        | none ↦ elim (truthy (matches document.name available)) [
          | some item ↦ matched item
          | none ↦ missing
        ]
      ]
    ]

unfoldable pub check_required : List RequiredDocument → List String → Findings
unfolding check_document
check_required [] available = record {
  missing = [];
  substitutes_available = [];
  matched_documents = [];
}
check_required (document ∷ documents) available =
    check_document document available (check_required documents available)

abbrev pub is_nil : {A : Type 0} → List A → Bool
is_nil [] = true
is_nil (_ ∷ _) = false

-- `[item for item in documents_available if item.strip()]`
abbrev pub nonblank : List String → List String
nonblank documents_available = filter (λ item. not (is_empty (strip item))) documents_available

unfoldable pub check_document_sufficiency :
    EligibilityCriteria → List String → DocumentCheckResponse
unfolding check_required
check_document_sufficiency criteria documents_available =
    let found = check_required criteria.required_documents (nonblank documents_available) in
    record {
      is_sufficient = is_nil found.missing;
      missing = found.missing;
      substitutes_available = found.substitutes_available;
      matched_documents = found.matched_documents;
    }

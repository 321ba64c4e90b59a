-- ===== src/Eligibility/Validation.antt =====
-- services/eligibility/validation.py: the issues that an admin's eligibility rule is refused for, and
-- `raise_first_rule_issue` of services/schemes.py.
pub mod Valid
use Prim.Native.Char.{Char, code}
use adhikar_ai.Prelude.{
  ℕ, suc, String, Bool, true, false, not, ◌&&◌, Option, none, some, List, [], ◌∷◌, ◌++◌, ◌==◌,
  string_eq, contains, filter, ltb, leb, nat_beq,
}
use adhikar_ai.Prelude.Result.{Result, err, api_error, done}
use adhikar_ai.Prelude.Text.{is_empty, prepend, str_nat, strip, strip_prefix}
use adhikar_ai.Schema.{CustomCriterion, DocumentSubstitute, EligibilityCriteria, RequiredDocument}

-- The message is for display.
pub record ValidationIssue : Type 0 where
  pub code : String
  pub field : String

abbrev issue : String → String → ValidationIssue
issue code field = record { code = code; field = field }

-- One issue under a condition.
abbrev pub issue_if : Bool → String → String → List ValidationIssue
issue_if true code field = issue code field ∷ []
issue_if false code field = []

abbrev pub is_capital : Char → Bool
is_capital c = leb 65 (code c) && leb (code c) 90

-- `[A-Z]{2}$` at the start of a text: `$` also matches before a final newline.
abbrev pub two_capitals : String → Bool
two_capitals (String.◌∷◌ a (String.◌∷◌ b String.[])) = is_capital a && is_capital b
two_capitals (String.◌∷◌ a (String.◌∷◌ b (String.◌∷◌ c String.[]))) =
    (is_capital a && is_capital b) && nat_beq (code c) 10
two_capitals _ = false

-- `STATE_CODE_RE.match(s)`
unfoldable pub matches_state_code : String → Bool
matches_state_code s = elim (strip_prefix "IN-" s) [ none ↦ false | some rest ↦ two_capitals rest ]

-- `ALLOWED_CUSTOM_OPERATORS`
abbrev pub allowed_custom_operators : List String
allowed_custom_operators = "equals" ∷ "not_equals" ∷ "in" ∷ "lte" ∷ "gte" ∷ []

abbrev pub ages_cross : Option ℕ → Option ℕ → Bool
ages_cross (some low) (some high) = ltb high low
ages_cross _ _ = false

-- Thresholds are natural numbers here, as the schema's `ge=0` has it.
abbrev pub is_negative : Option ℕ → Bool
is_negative none = false
is_negative (some n) = ltb n 0

unfoldable pub state_issues : List String → List ValidationIssue
unfolding matches_state_code
state_issues [] = []
state_issues (s ∷ states) =
    issue_if (not (matches_state_code s)) "INVALID_STATE_CODE" "criteria.state_codes"
    ++ state_issues states

abbrev pub or_empty : {A : Type 0} → Option (List A) → List A
or_empty none = []
or_empty (some xs) = xs

abbrev pub is_blank : String → Bool
is_blank s = is_empty (strip s)

-- `criteria.{list}.{index}.{field}`
abbrev pub indexed : String → ℕ → String → String
indexed path n field = prepend path (prepend (str_nat n) field)

unfoldable pub criterion_issues : ℕ → List CustomCriterion → List ValidationIssue
criterion_issues index [] = []
criterion_issues index (c ∷ criteria) =
    issue_if (not (contains c.operator allowed_custom_operators)) "INVALID_CUSTOM_OPERATOR"
      (indexed "criteria.custom_criteria." index ".operator")
    ++ issue_if (is_blank c.field) "INVALID_CUSTOM_OPERATOR"
        (indexed "criteria.custom_criteria." index ".field")
    ++ criterion_issues (suc index) criteria

unfoldable pub substitute_issues : String → ℕ → List DocumentSubstitute → List ValidationIssue
substitute_issues path index [] = []
substitute_issues path index (s ∷ substitutes) =
    issue_if (is_blank s.name) "EMPTY_DOCUMENT_NAME" (indexed path index ".name")
    ++ issue_if (is_blank s.instructions) "EMPTY_SUBSTITUTE_INSTRUCTIONS"
        (indexed path index ".instructions")
    ++ substitute_issues path (suc index) substitutes

unfoldable pub document_issues : ℕ → List RequiredDocument → List ValidationIssue
unfolding substitute_issues
document_issues index [] = []
document_issues index (d ∷ documents) =
    issue_if (d.is_mandatory && is_blank d.name) "EMPTY_DOCUMENT_NAME"
      (indexed "criteria.required_documents." index ".name")
    ++ substitute_issues (indexed "criteria.required_documents." index ".accepted_substitutes.") 0
        d.accepted_substitutes
    ++ document_issues (suc index) documents

-- `if missing`
abbrev pub is_nonempty : {A : Type 0} → List A → Bool
is_nonempty [] = false
is_nonempty (_ ∷ _) = true

-- The array of documents is there: the schema has no value for it that is None.
unfoldable pub validate_rule : EligibilityCriteria → List String → List ValidationIssue
unfolding state_issues criterion_issues document_issues
validate_rule criteria known_scheme_ids =
    issue_if (ages_cross criteria.min_age criteria.max_age) "RULE_CONTRADICTION" "criteria.min_age"
    ++ issue_if (is_negative criteria.max_annual_income) "NEGATIVE_THRESHOLD"
        "criteria.max_annual_income"
    ++ issue_if (is_negative criteria.max_land_holding_acres) "NEGATIVE_THRESHOLD"
        "criteria.max_land_holding_acres"
    ++ state_issues (or_empty criteria.state_codes)
    ++ issue_if
        (is_nonempty
          (filter (λ s. not (contains s known_scheme_ids)) criteria.exclusion_scheme_ids))
        "BROKEN_EXCLUSION_REFERENCE" "criteria.exclusion_scheme_ids"
    ++ criterion_issues 0 criteria.custom_criteria
    ++ document_issues 0 criteria.required_documents

abbrev pub raise_first : List ValidationIssue → Result (Unit {0})
raise_first [] = done
raise_first (i ∷ _) = err (api_error 422 i.code i.field)

unfoldable pub raise_first_rule_issue : EligibilityCriteria → List String → Result (Unit {0})
unfolding validate_rule
raise_first_rule_issue criteria known_ids = raise_first (validate_rule criteria known_ids)

-- ===== src/Eligibility/Validation/Valid.antt =====
-- What a valid rule is, said without the validator, and that the validator of validation.py refuses
-- exactly the others.
use Prim.Native.Char.{Char, code}
use adhikar_ai.Prelude.{
  ℕ, suc, String, Bool, true, false, not, ◌≡◌, ◌↔◌, ◌⊎◌, inl, inr, refl, ap, ◌≤◌, Option, none,
  some, List, [], ◌∷◌, ◌++◌, Member, All, Member-contains, contains-Member, string_eq, contains,
  filter, Option-cases, arith,
}
use adhikar_ai.Prelude.Text.{
  is_space, is_empty, prepend, strip, strip_left, strip_right, strip_prefix, strip_prefix-prepend,
  strip_prefix-some,
}
use adhikar_ai.Prelude.Result.{done}
use adhikar_ai.Schema.{CustomCriterion, DocumentSubstitute, EligibilityCriteria, RequiredDocument}
use adhikar_ai.Eligibility.Validation.{
  indexed, ValidationIssue, issue_if, two_capitals, matches_state_code, allowed_custom_operators,
  ages_cross, is_negative, state_issues, or_empty, is_blank, criterion_issues, substitute_issues,
  document_issues, is_nonempty, validate_rule, raise_first, raise_first_rule_issue,
}

-- A text with a character that is no white space.
abbrev pub HasWord : String → Type 0
HasWord String.[] = ⊥
HasWord (String.◌∷◌ c s) = (is_space c ≡ false) ⊎ HasWord s

abbrev IsCapital : Char → Type 0
IsCapital c = (65 ≤ code c) × (code c ≤ 90)

-- Two capital letters, and possibly a line feed after them.
abbrev IsCapitalPair : String → Type 0
IsCapitalPair (String.◌∷◌ a (String.◌∷◌ b String.[])) = IsCapital a × IsCapital b
IsCapitalPair (String.◌∷◌ a (String.◌∷◌ b (String.◌∷◌ c String.[]))) =
    IsCapital a × IsCapital b × (code c ≡ 10)
IsCapitalPair _ = ⊥

abbrev pub IsStateCode : String → Type 0
IsStateCode s = (rest : String) × (s ≡ prepend "IN-" rest) × IsCapitalPair rest

abbrev pub AgesAgree : Option ℕ → Option ℕ → Type 0
AgesAgree (some low) (some high) = low ≤ high
AgesAgree _ _ = Unit

abbrev pub IsSoundCriterion : CustomCriterion → Type 0
IsSoundCriterion c = Member c.operator allowed_custom_operators × HasWord c.field

abbrev pub IsSoundSubstitute : DocumentSubstitute → Type 0
IsSoundSubstitute s = HasWord s.name × HasWord s.instructions

-- An optional document may go without a name.
abbrev pub IsSoundDocument : RequiredDocument → Type 0
IsSoundDocument d =
    ((d.is_mandatory ≡ false) ⊎ HasWord d.name) × All IsSoundSubstitute d.accepted_substitutes

abbrev pub IsValidRule : EligibilityCriteria → List String → Type 0
IsValidRule criteria known =
    AgesAgree criteria.min_age criteria.max_age
    × All IsStateCode (or_empty criteria.state_codes)
    × All (λ s. Member s known) criteria.exclusion_scheme_ids
    × All IsSoundCriterion criteria.custom_criteria
    × All IsSoundDocument criteria.required_documents

strip_right-HasWord : (s : String) → (is_empty (strip_right s) ≡ false) ↔ HasWord s
unfolding strip_right
strip_right-HasWord String.[] = ground arith
strip_right-HasWord (String.◌∷◌ c s) = ground (arith, strip_right-HasWord s)

strip_left-HasWord : (s : String) → HasWord (strip_left s) ↔ HasWord s
unfolding strip_left
strip_left-HasWord String.[] = ground arith
strip_left-HasWord (String.◌∷◌ c s) = ground (arith, strip_left-HasWord s)

pub is_blank-HasWord : (s : String) → (is_blank s ≡ false) ↔ HasWord s
unfolding strip
is_blank-HasWord s = ground (arith, strip_right-HasWord (strip_left s), strip_left-HasWord s)

append-nil : {A : Type 0} (xs ys : List A) → ((xs ++ ys) ≡ []) ↔ ((xs ≡ []) × (ys ≡ []))
append-nil [] ys = ground arith
append-nil (x ∷ xs) ys = ground arith

issue_if-nil : (b : Bool) (code field : String) → (issue_if b code field ≡ []) ↔ (b ≡ false)
issue_if-nil b code field = ground arith

two_capitals_iff : (s : String) → (two_capitals s ≡ true) ↔ IsCapitalPair s
two_capitals_iff String.[] = ground arith
two_capitals_iff (String.◌∷◌ a String.[]) = ground arith
two_capitals_iff (String.◌∷◌ a (String.◌∷◌ b String.[])) = ground arith
two_capitals_iff (String.◌∷◌ a (String.◌∷◌ b (String.◌∷◌ c String.[]))) = ground arith
two_capitals_iff (String.◌∷◌ a (String.◌∷◌ b (String.◌∷◌ c (String.◌∷◌ d s)))) = ground arith

matches_state_code_iff : (s : String) → (matches_state_code s ≡ true) ↔ IsStateCode s
unfolding matches_state_code
matches_state_code_iff s = (matched, found)
  where
    matched : matches_state_code s ≡ true → IsStateCode s
    matched h = elim (Option-cases (strip_prefix "IN-" s)) [
      | inl e ↦ absurd (ground arith)
      | inr (rest, e) ↦
          (rest, strip_prefix-some "IN-" s rest e, (two_capitals_iff rest).0 (ground arith))
    ]

    found : IsStateCode s → matches_state_code s ≡ true
    found (rest, e, pair) =
        ground
          (arith, ap (strip_prefix "IN-") e, strip_prefix-prepend "IN-" rest, two_capitals_iff rest)

pub state_issues-nil : (states : List String) → (state_issues states ≡ []) ↔ All IsStateCode states
unfolding state_issues
state_issues-nil [] = ground arith
state_issues-nil (s ∷ states) = ground (arith, matches_state_code_iff s, state_issues-nil states)

contains_iff : (a : String) (xs : List String) → (contains a xs ≡ true) ↔ Member a xs
contains_iff a xs = (contains-Member a xs, Member-contains a xs)

unknown-nil :
    (known ids : List String)
    → (is_nonempty (filter (λ s. not (contains s known)) ids) ≡ false)
      ↔ All (λ s. Member s known) ids
unknown-nil known [] = ground arith
unknown-nil known (s ∷ ids) = ground (arith, contains_iff s known, unknown-nil known ids)

pub criterion_issues-nil :
    (index : ℕ) (criteria : List CustomCriterion)
    → (criterion_issues index criteria ≡ []) ↔ All IsSoundCriterion criteria
unfolding criterion_issues
criterion_issues-nil index [] = ground arith
criterion_issues-nil index (c ∷ criteria) = ground (
  arith,
  contains_iff c.operator allowed_custom_operators,
  is_blank-HasWord c.field,
  criterion_issues-nil (suc index) criteria,
)

pub substitute_issues-nil :
    (path : String) (index : ℕ) (substitutes : List DocumentSubstitute)
    → (substitute_issues path index substitutes ≡ []) ↔ All IsSoundSubstitute substitutes
unfolding substitute_issues
substitute_issues-nil path index [] = ground arith
substitute_issues-nil path index (s ∷ substitutes) = ground (
  arith,
  is_blank-HasWord s.name,
  is_blank-HasWord s.instructions,
  substitute_issues-nil path (suc index) substitutes,
)

pub document_issues-nil :
    (index : ℕ) (documents : List RequiredDocument)
    → (document_issues index documents ≡ []) ↔ All IsSoundDocument documents
unfolding document_issues
document_issues-nil index [] = ground arith
document_issues-nil index (d ∷ documents) =
    let path = indexed "criteria.required_documents." index ".accepted_substitutes." in
    let substitutes = substitute_issues path 0 d.accepted_substitutes in
    ground (
      arith,
      is_blank-HasWord d.name,
      append-nil substitutes (document_issues (suc index) documents),
      substitute_issues-nil path 0 d.accepted_substitutes,
      document_issues-nil (suc index) documents,
    )

ages-nil : (low high : Option ℕ) → (ages_cross low high ≡ false) ↔ AgesAgree low high
ages-nil none high = ground arith
ages-nil (some low) none = ground arith
ages-nil (some low) (some high) = ground arith

never_negative : (n : Option ℕ) → is_negative n ≡ false
never_negative none = refl
never_negative (some n) = ground arith

raise_first-done : (issues : List ValidationIssue) → (raise_first issues ≡ done) ↔ (issues ≡ [])
raise_first-done [] = ground arith
raise_first-done (i ∷ issues) = ground arith

-- A rule has no issue, and is not refused, exactly when its ages are in order, its states are state
-- codes, the schemes it excludes are known, its custom criteria have a field and a supported operator,
-- and its mandatory documents and all substitutes have names and instructions.
pub validate_rule_iff :
    (criteria : EligibilityCriteria) (known : List String)
    → ((validate_rule criteria known ≡ []) ↔ IsValidRule criteria known)
      × ((raise_first_rule_issue criteria known ≡ done) ↔ IsValidRule criteria known)
unfolding validate_rule raise_first_rule_issue
validate_rule_iff criteria known = (valid, raised)
  where
    customs : List ValidationIssue
    customs = criterion_issues 0 criteria.custom_criteria

    documents : List ValidationIssue
    documents = document_issues 0 criteria.required_documents

    after_states : List ValidationIssue
    after_states =
        issue_if (is_nonempty (filter (λ s. not (contains s known)) criteria.exclusion_scheme_ids))
          "BROKEN_EXCLUSION_REFERENCE" "criteria.exclusion_scheme_ids"
        ++ customs
        ++ documents

    valid : (validate_rule criteria known ≡ []) ↔ IsValidRule criteria known
    valid = ground (
      arith,
      never_negative criteria.max_annual_income,
      never_negative criteria.max_land_holding_acres,
      ages-nil criteria.min_age criteria.max_age,
      state_issues-nil (or_empty criteria.state_codes),
      append-nil (state_issues (or_empty criteria.state_codes)) after_states,
      unknown-nil known criteria.exclusion_scheme_ids,
      append-nil customs documents,
      criterion_issues-nil 0 criteria.custom_criteria,
      document_issues-nil 0 criteria.required_documents,
    )

    raised : (raise_first_rule_issue criteria known ≡ done) ↔ IsValidRule criteria known
    raised = ground (arith, raise_first-done (validate_rule criteria known), valid)

-- ===== src/Agent/Question.antt =====
-- agent/question_selection.py: the next question of the conversation. Weights and scores are counted in
-- tenths.
pub mod Choice
use adhikar_ai.Prelude.{
  ℕ, String, Bool, true, false, not, ◌+◌, ◌||◌, Option, none, some, List, [], ◌∷◌, string_eq,
  contains, if◌then◌else◌, ltb,
}
use adhikar_ai.Prelude.Dict.{lookup, insert}
use adhikar_ai.Prelude.Text.{prepend, str_leb}
use adhikar_ai.Value.{Value}
use adhikar_ai.Agent.Confidence.{Confidence}
use adhikar_ai.Schema.{EligibilityCriteria}
use adhikar_ai.Agent.{HouseholdMemberProfile, profile_dump, has_value, fields_referenced_by_rule}

-- A fact that waits for the citizen's yes or no; the confidence is not read again.
pub record PendingFact : Type 0 where
  pub field : String
  pub value : Value
  pub confidence : Confidence
  pub member_reference : String

-- `AgentStateModel`. Of the household, the id and the members are ever set; the confidence score is
-- left out, since nothing reads it.
pub record AgentState : Type 0 where
  pub session_id : String
  pub organisation_id : ℕ
  pub messages : List (String × String)
  pub user_profile : HouseholdMemberProfile
  pub household_id : Option ℕ
  pub members : List HouseholdMemberProfile
  pub active_member_id : String
  pub asked_fields : List String
  pub remaining_required_fields : List String
  pub profile_completeness : ℕ
  pub language_code : String
  pub turn_count_since_result : ℕ
  pub pending_confirmation : Option PendingFact

pub record Question : Type 0 where
  pub field : String
  pub text : String
  pub asked_key : String

-- `QUESTION_TEMPLATES`
abbrev question_templates : List (String × String)
question_templates =
    ("state_code", "Which state do you live in?")
    ∷ ("age", "How old are you?")
    ∷ ("gender", "Should I mark this profile as woman, man, or other?")
    ∷ ("annual_income", "About how much money does your household earn in one year?")
    ∷ ("occupation_type", "What work do you mainly do?")
    ∷ ("caste_category", "Do you belong to SC, ST, OBC, or General category?")
    ∷ ("marital_status", "Are you married, unmarried, widowed, divorced, or separated?")
    ∷ ("land_holding_acres", "How much farming land does your family have, in acres?")
    ∷ ("custom_attributes.is_bpl", "Do you have a BPL card or ration card for a poor household?")
    ∷ ("custom_attributes.is_pregnant", "Are you pregnant now?")
    ∷ ("custom_attributes.child_order", "Is this your first, second, or later child?")
    ∷ []

abbrev fallback_text : String
fallback_text = "Do you want me to show the best schemes I found so far?"

-- `FIELD_WEIGHT`, with 1.0 for a field that it lacks.
abbrev field_weight : List (String × ℕ)
field_weight =
    ("state_code", 30)
    ∷ ("annual_income", 28)
    ∷ ("age", 26)
    ∷ ("occupation_type", 24)
    ∷ ("gender", 20)
    ∷ ("marital_status", 18)
    ∷ ("caste_category", 15)
    ∷ ("land_holding_acres", 14)
    ∷ []

unfoldable pub weight_of : String → ℕ
weight_of field = elim (lookup field field_weight) [ none ↦ 10 | some w ↦ w ]

unfoldable pub compute_information_gain : String → List EligibilityCriteria → ℕ
compute_information_gain field [] = 0
compute_information_gain field (rule ∷ rules) =
    let rest = compute_information_gain field rules in
    if contains field (fields_referenced_by_rule rule) then weight_of field + rest else rest

abbrev pub key_of : AgentState → String → String
key_of state field = prepend state.active_member_id (prepend ":" field)

-- Neither asked before nor known.
abbrev pub is_open : AgentState → String → Bool
is_open state field = not (
    contains (key_of state field) state.asked_fields
    || has_value (profile_dump state.user_profile) field)

abbrev or_zero : Option ℕ → ℕ
or_zero none = 0
or_zero (some n) = n

abbrev Scores : Type 0
Scores = List (String × ℕ)

-- The loop over the fields of a rule.
unfoldable pub score_fields : AgentState → EligibilityCriteria → List String → Scores → Scores
unfolding compute_information_gain
score_fields state rule [] scores = scores
score_fields state rule (field ∷ fields) scores =
    let gain = or_zero (lookup field scores) + compute_information_gain field (rule ∷ []) in
    score_fields state rule fields
      (if is_open state field then insert field gain scores else scores)

unfoldable pub score_rules : AgentState → List EligibilityCriteria → Scores → Scores
unfolding score_fields
score_rules state [] scores = scores
score_rules state (rule ∷ rules) scores =
    score_rules state rules (score_fields state rule (fields_referenced_by_rule rule) scores)

-- `(score, weight, field)` of `b` is greater than that of `a`.
unfoldable pub is_better : String × ℕ → String × ℕ → Bool
unfolding weight_of
is_better (f, s) (g, t) =
    let text_order = not (str_leb g f) in
    let weight_order =
      if ltb (weight_of f) (weight_of g)
      then true
      else if ltb (weight_of g) (weight_of f)
      then false
      else text_order in
    if ltb s t then true else if ltb t s then false else weight_order

-- `max(scores, key=...)`: the first of the greatest.
unfoldable pub max_from : String × ℕ → Scores → String × ℕ
unfolding is_better
max_from best [] = best
max_from best (entry ∷ scores) = max_from (if is_better best entry then entry else best) scores

abbrev template : String → String
template field = elim (lookup field question_templates) [ none ↦ fallback_text | some text ↦ text ]

abbrev pub fallback_question : AgentState → Question
fallback_question state = record {
  field = "fallback";
  text = fallback_text;
  asked_key = key_of state "fallback";
}

abbrev pub ask : AgentState → String → Question
ask state field = record { field = field; text = template field; asked_key = key_of state field }

abbrev pub choose : AgentState → Scores → Question
choose state [] = fallback_question state
choose state (entry ∷ scores) = ask state (max_from entry scores).0

unfoldable pub select_next_question : AgentState → List EligibilityCriteria → Question
unfolding score_rules max_from
select_next_question state candidate_rules = choose state (score_rules state candidate_rules [])

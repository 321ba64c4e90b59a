-- ===== src/Agent/Tests.antt =====
-- Questions and completeness of concrete profiles.
use adhikar_ai.Prelude.{ℕ, Option, String, ◌≡◌, ◌⊎◌, refl, true, false, some, none, [], ◌∷◌, All}
use adhikar_ai.Prelude.Dict.{lookup}
use adhikar_ai.Prelude.Text.{strip_prefix}
use adhikar_ai.Eligibility.Tests.{women_rule}
use adhikar_ai.Agent.{
  HouseholdMemberProfile, profile_dump, fields_referenced_by_rule, has_value, measured_fields,
  relevant_fields,
}
use adhikar_ai.Value.{Value, text, number, array, object, nil, cons, end, field}
use adhikar_ai.Prelude.Int.{pos}
use adhikar_ai.Agent.Extraction.Structured.{extract}
use adhikar_ai.Agent.Extraction.Payload.{ModelSettings, extract_facts}
use adhikar_ai.Agent.Extraction.Payload.Guarded.{AreGuarded, extract_facts-AreGuarded}
use adhikar_ai.Agent.Question.{AgentState, key_of, is_open, fallback_question, select_next_question}
use adhikar_ai.Agent.Question.Choice.{IsCandidate, select_next_question-IsCandidate}

abbrev sita : HouseholdMemberProfile
sita = record {
  id = some "self";
  display_name = none;
  relationship_to_primary = "self";
  age = some 30;
  gender = some "female";
  caste_category = none;
  annual_income = some 50000;
  land_holding_acres = none;
  occupation_type = some "farmer";
  marital_status = none;
  state_code = some "IN-BR";
  district = none;
  existing_scheme_ids = [];
  custom_attributes = [];
  profile_completeness = 0;
}

abbrev conversation : AgentState
conversation = record {
  session_id = "sess_1";
  organisation_id = 1;
  messages = [];
  user_profile = sita;
  household_id = none;
  members = [];
  active_member_id = "self";
  asked_fields = [];
  remaining_required_fields = [];
  profile_completeness = 0;
  language_code = "en";
  turn_count_since_result = 0;
  pending_confirmation = none;
}

All-known : All (λ f. has_value (profile_dump sita) f ≡ true) (measured_fields (women_rule ∷ []))
unfolding has_value relevant_fields fields_referenced_by_rule lookup strip_prefix
All-known = (refl, (refl, (refl, (refl, (refl, tt)))))

select_next_question-IsCandidate_example :
    let question = select_next_question conversation (women_rule ∷ []) in
    (IsCandidate conversation (women_rule ∷ []) question.field
      × (question.asked_key ≡ key_of conversation question.field))
    ⊎ ((question ≡ fallback_question conversation)
        × All
            (λ r. All (λ f. is_open conversation f ≡ false) (fields_referenced_by_rule r))
            (women_rule ∷ []))
select_next_question-IsCandidate_example =
    select_next_question-IsCandidate conversation (women_rule ∷ [])

abbrev local_model : ModelSettings
local_model = record { llm_provider = "ollama"; agent_json_repair_retries = 1 }

abbrev fact_with : String → String → Value
fact_with name value = object (
    field "field" (text name)
      (field "value" (text value) (field "confidence" (number (pos 90)) end)))

-- The model's only answer has a sensitive fact beside a usual one.
abbrev model_answers : ℕ → Option Value
model_answers n = some (
    object (
      field "facts"
        (array (
          cons (fact_with "aadhaar_number" "123412341234")
            (cons (fact_with "occupation_type" "weaver") nil)))
        end))

extract_facts-AreGuarded_example :
    (extract_facts local_model model_answers "I weave cloth" ≡ extract "I weave cloth")
    ⊎ AreGuarded (extract_facts local_model model_answers "I weave cloth")
extract_facts-AreGuarded_example =
    extract_facts-AreGuarded local_model model_answers "I weave cloth"

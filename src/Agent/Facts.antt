-- ===== src/Agent/Facts.antt =====
-- The facts that a message states, and the confirmation of an uncertain one: `ExtractedFact` and the last
-- two functions of agent/extraction.py, and `_merge_fact` of services/sessions/session_service.py.
use adhikar_ai.Prelude.{
  String, Bool, true, false, not, ◌||◌, ◌&&◌, Option, none, some, List, [], ◌∷◌, string_eq,
  contains, if◌then◌else◌,
}
use adhikar_ai.Prelude.Dict.{lookup, insert}
use adhikar_ai.Prelude.Text.{strip_prefix, strip, lower}
use adhikar_ai.Value.{Value, object, put, end}
use adhikar_ai.Agent.{ProfileDict}
use adhikar_ai.Agent.Confidence.{Confidence, at_least, under}
use adhikar_ai.Agent.Question.{PendingFact, AgentState}

pub record ExtractedFact : Type 0 where
  pub field : String
  pub value : Value
  pub confidence : Confidence
  pub member_reference : String

pub record ExtractedFacts : Type 0 where
  pub facts : List ExtractedFact
  pub active_member_reference : String
  pub needs_confirmation : List ExtractedFact

-- `profile.setdefault("custom_attributes", {})[key] = value`; `none` is a TypeError.
abbrev put_custom : String → Value → Option Value → Option Value
put_custom key value none = some (object (put key value end))
put_custom key value (some (object fs)) = some (object (put key value fs))
put_custom key value (some _) = none

-- `profile[field] = value`, into the custom attributes for a field that names one.
unfoldable pub set_field : String → Value → ProfileDict → Option ProfileDict
unfolding put
set_field field value profile = elim (strip_prefix "custom_attributes." field) [
  | none ↦ some (insert field value profile)
  | some key ↦ elim (put_custom key value (lookup "custom_attributes" profile)) [
    | none ↦ none
    | some attributes ↦ some (insert "custom_attributes" attributes profile)
  ]
]

-- `_merge_fact`
unfoldable pub merge_fact : ProfileDict → ExtractedFact → Option ProfileDict
unfolding set_field
merge_fact profile fact =
    if under 75 fact.confidence then some profile else set_field fact.field fact.value profile

-- The loop of `_node_merge_profile_update` over the facts that are sure.
unfoldable pub merge_facts : ProfileDict → List ExtractedFact → Option ProfileDict
unfolding merge_fact
merge_facts profile [] = some profile
merge_facts profile (fact ∷ facts) = elim (merge_fact profile fact) [
  | none ↦ none
  | some merged ↦ merge_facts merged facts
]

abbrev pub is_medium : ExtractedFact → Bool
is_medium fact = at_least 50 fact.confidence && under 75 fact.confidence

abbrev pub yes_words : List String
yes_words = "yes" ∷ "y" ∷ "haan" ∷ "ha" ∷ "correct" ∷ "right" ∷ []

abbrev pub no_words : List String
no_words = "no" ∷ "n" ∷ "nahin" ∷ "nahi" ∷ "wrong" ∷ "incorrect" ∷ []

abbrev pub pending_of : ExtractedFact → PendingFact
pending_of fact = record {
  field = fact.field;
  value = fact.value;
  confidence = fact.confidence;
  member_reference = fact.member_reference;
}

abbrev first_medium : List ExtractedFact → Option PendingFact
first_medium [] = none
first_medium (fact ∷ facts) =
    let rest = first_medium facts in if is_medium fact then some (pending_of fact) else rest

-- `prepare_pending_confirmation`: what is pending after it, which is also what it returns.
unfoldable pub prepare_pending_confirmation : AgentState → List ExtractedFact → Option PendingFact
prepare_pending_confirmation state facts = elim state.pending_confirmation [
  | some pending ↦ some pending
  | none ↦ first_medium facts
]

-- The result of `merge_confirmed_pending_fact`, with the state and the profile after it.
pub record Confirmation : Type 0 where
  pub result : Option Bool
  pub state : AgentState
  pub profile : ProfileDict

abbrev pub answer_of : String → String
answer_of message = lower (strip message)

abbrev pub answered_state : AgentState → AgentState
answered_state state = record state { pending_confirmation = none }

abbrev unanswered : AgentState → ProfileDict → Confirmation
unanswered state profile = record { result = none; state = state; profile = profile }

abbrev confirmed : AgentState → Option ProfileDict → Option Confirmation
confirmed state none = none
confirmed state (some profile) =
    some (record { result = some true; state = answered_state state; profile = profile })

-- What the message is to the pending fact: a yes, a no, or neither.
unfoldable pub yes_or_no : String → Option Bool
unfolding lower strip
yes_or_no message =
    let answer = answer_of message in
    if not (contains answer yes_words || contains answer no_words)
    then none
    else if contains answer no_words
    then some false
    else some true

abbrev pub resolve : AgentState → ProfileDict → PendingFact → Option Bool → Option Confirmation
resolve state profile pending none = some (unanswered state profile)
resolve state profile pending (some false) =
    some (record { result = some false; state = answered_state state; profile = profile })
resolve state profile pending (some true) =
    confirmed state (set_field pending.field pending.value profile)

-- `none` is a TypeError.
unfoldable pub merge_confirmed_pending_fact :
    AgentState → String → ProfileDict → Option Confirmation
merge_confirmed_pending_fact state message profile = elim state.pending_confirmation [
  | none ↦ some (unanswered state profile)
  | some pending ↦ resolve state profile pending (yes_or_no message)
]

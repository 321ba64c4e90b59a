-- ===== src/Agent/Extraction/Payload.antt =====
-- agent/extraction.py: the facts that a language model answers with, and how often it is asked.
pub mod Guarded
use adhikar_ai.Prelude.{
  ℕ, zero, suc, String, Bool, true, false, not, ◌+◌, ◌/◌, ◌%◌, ◌||◌, ◌&&◌, Option, none, some, List,
  [], ◌∷◌, ◌++◌, ◌==◌, string_eq, contains, ltb, nat_beq, if◌then◌else◌,
}
use adhikar_ai.Prelude.Int.{ℤ, pos, negsuc}
use adhikar_ai.Prelude.Text.{is_empty, lower, strip, prepend, str_nat, split_once, all_chars}
use adhikar_ai.Prelude.Regex.{is_digit}
use adhikar_ai.Value.{
  Value, Items, Fields, null, boolean, number, text, array, object, nil, cons, end, field, get,
}
use adhikar_ai.Agent.Confidence.{Confidence, percent, at_most_one, float_of_text}
use adhikar_ai.Agent.Facts.{ExtractedFact, ExtractedFacts}
use adhikar_ai.Agent.Extraction.{is_sensitive_text, decimal_value}
use adhikar_ai.Agent.Extraction.Structured.{sensitive_structured_keys, is_structured, extract}

abbrev two_digits : ℕ → String
two_digits n = prepend (str_nat (n / 10)) (str_nat (n % 10))

abbrev str_hundredths : ℕ → String
str_hundredths n =
    if nat_beq (n % 100) 0
    then str_nat (n / 100)
    else prepend (str_nat (n / 100)) (prepend "." (two_digits (n % 100)))

abbrev str_number : ℤ → String
str_number (pos n) = str_hundredths n
str_number (negsuc n) = prepend "-" (str_hundredths (suc n))

-- `str(value)`. Inside a list or a dictionary a text stands in quotes, without the escapes of `repr`.
unfoldable mutual
  unfolding prepend

  pub str : Value → String
  str null = "None"
  str (boolean b) = if b then "True" else "False"
  str (number n) = str_number n
  str (text s) = s
  str (array xs) = prepend "[" (prepend (str_items xs) "]")
  str (object fs) = prepend "{" (prepend (str_fields fs) "}")

  pub str_items : Items → String
  str_items nil = ""
  str_items (cons x nil) = quoted x
  str_items (cons x (cons y ys)) = prepend (quoted x) (prepend ", " (str_items (cons y ys)))

  pub str_fields : Fields → String
  str_fields end = ""
  str_fields (field k v end) = prepend "'" (prepend k (prepend "': " (quoted v)))
  str_fields (field k v (field j w fs)) =
      prepend "'"
        (prepend k (prepend "': " (prepend (quoted v) (prepend ", " (str_fields (field j w fs))))))

  pub quoted : Value → String
  quoted (text s) = prepend "'" (prepend s "'")
  quoted null = "None"
  quoted (boolean b) = if b then "True" else "False"
  quoted (number n) = str_number n
  quoted (array xs) = prepend "[" (prepend (str_items xs) "]")
  quoted (object fs) = prepend "{" (prepend (str_fields fs) "}")

-- `_is_sensitive_field_or_value`
unfoldable pub is_sensitive_field_or_value : String → Value → Bool
unfolding is_sensitive_text str lower
is_sensitive_field_or_value field_name value =
    (contains (lower field_name) sensitive_structured_keys || is_sensitive_text (lower field_name))
    || is_sensitive_text (lower (str value))

-- `payload.get(key, default)`
abbrev pub get_or : String → Value → Fields → Value
get_or key default fs = elim (get key fs) [ none ↦ default | some v ↦ v ]

abbrev of_number : ℤ → Confidence
of_number (pos n) = percent (at_most_one n)
of_number (negsuc _) = percent 0

-- `float(...)` with 0 for what it refuses, kept between 0 and 1; NaN is neither below 0 nor above 1. The numbers
-- of an answer are finite and in the range of a float.
unfoldable pub confidence_of : Value → Confidence
confidence_of (number n) = of_number n
confidence_of (boolean b) = percent (if b then 100 else 0)
confidence_of (text s) = float_of_text s
confidence_of _ = percent 0

-- `bool(value)`
abbrev pub is_truthy : Value → Bool
is_truthy null = false
is_truthy (boolean b) = b
is_truthy (number (pos n)) = not (nat_beq n 0)
is_truthy (number (negsuc _)) = true
is_truthy (text s) = not (is_empty s)
is_truthy (array nil) = false
is_truthy (array (cons _ _)) = true
is_truthy (object end) = false
is_truthy (object (field _ _ _)) = true

-- `str(payload.get(key) or "self")`
abbrev reference_of : String → Fields → String
reference_of key fs =
    let value = get_or key null fs in if is_truthy value then str value else "self"

-- `_fact_from_payload`
unfoldable pub fact_from_payload : Fields → Option ExtractedFact
fact_from_payload payload =
    let field_name = strip (str (get_or "field" (text "") payload)) in
    let value = get_or "value" null payload in
    let found : ExtractedFact = record {
      field = field_name;
      value = value;
      confidence = confidence_of (get_or "confidence" (number (pos 0)) payload);
      member_reference = reference_of "member_reference" payload;
    } in
    if is_empty field_name || is_sensitive_field_or_value field_name value then none else some found

abbrev pub kept : Option ExtractedFact → List ExtractedFact
kept none = []
kept (some fact) = fact ∷ []

-- The facts of the items that are dictionaries.
unfoldable pub facts_of_items : Items → List ExtractedFact
facts_of_items nil = []
facts_of_items (cons (object fs) items) = kept (fact_from_payload fs) ++ facts_of_items items
facts_of_items (cons _ items) = facts_of_items items

-- Iterating over a text or a dictionary gives no dictionaries; `none` is a TypeError.
abbrev pub facts_of_value : Value → Option (List ExtractedFact)
facts_of_value (array items) = some (facts_of_items items)
facts_of_value (text _) = some []
facts_of_value (object _) = some []
facts_of_value _ = none

-- `_facts_from_payload`
unfoldable pub facts_from_payload : Value → Option ExtractedFacts
facts_from_payload (object payload) = elim (facts_of_value (get_or "facts" (array nil) payload)) [
  | none ↦ none
  | some facts ↦ elim (facts_of_value (get_or "needs_confirmation" (array nil) payload)) [
    | none ↦ none
    | some confirmation ↦ some (record {
      facts = facts;
      active_member_reference = reference_of "active_member_reference" payload;
      needs_confirmation = confirmation;
    })
  ]
]
facts_from_payload _ = none

abbrev has_none : List ExtractedFact → Bool
has_none [] = true
has_none (_ ∷ _) = false

abbrev states_something : ExtractedFacts → Bool
states_something found = not (has_none found.facts && has_none found.needs_confirmation)

-- One attempt: the answer of the model, if it gives one that can be read and states something.
unfoldable pub attempt : Option Value → Option ExtractedFacts
attempt none = none
attempt (some payload) = elim (facts_from_payload payload) [
  | none ↦ none
  | some found ↦ if states_something found then some found else none
]

-- The loop over the attempts: `answers n` is what the model answers when it is asked the n-th time.
unfoldable pub ask_model : (ℕ → Option Value) → ℕ → ℕ → ExtractedFacts → ExtractedFacts
ask_model answers n zero deterministic = deterministic
ask_model answers n (suc left) deterministic = elim (attempt (answers n)) [
  | some found ↦ found
  | none ↦ ask_model answers (suc n) left deterministic
]

-- The settings that `extract_facts` reads; a negative number of repairs counts as none.
pub record ModelSettings : Type 0 where
  pub llm_provider : String
  pub agent_json_repair_retries : ℕ

unfoldable pub extract_facts : ModelSettings → (ℕ → Option Value) → String → ExtractedFacts
extract_facts settings answers message =
    let deterministic = extract message in
    let asked = ask_model answers 0 (suc settings.agent_json_repair_retries) deterministic in
    if is_structured message
    then deterministic
    else if contains settings.llm_provider ("ollama" ∷ "groq" ∷ [])
    then asked
    else deterministic

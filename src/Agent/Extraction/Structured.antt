-- ===== src/Agent/Extraction/Structured.antt =====
-- agent/extraction.py: a message `profile_facts: key=value; …`, which the form of the application sends.
use Prim.Native.Char.{Char, code}
use adhikar_ai.Prelude.{
  String, Bool, true, false, not, ◌||◌, ◌&&◌, Option, none, some, List, [], ◌∷◌, ◌++◌, ◌==◌,
  string_eq, contains, leb, nat_beq, if◌then◌else◌,
}
use adhikar_ai.Prelude.Int.{pos}
use adhikar_ai.Prelude.Dict.{insert}
use adhikar_ai.Prelude.Text.{
  is_empty, lower, upper, strip, collapse_from, prepend, split_on, split_once, take_text, all_chars,
  strip_prefix, digits_value_from,
}
use adhikar_ai.Prelude.Regex.{Pattern, chain, literal, repeat, is_digit, re_fullmatch}
use adhikar_ai.Value.{Value, text, boolean, number}
use adhikar_ai.Agent.Facts.{ExtractedFact, ExtractedFacts}
use adhikar_ai.Agent.Extraction.{
  is_sensitive_text, no_facts, fact, integer, digits_value, decimal_value, extract_free_text,
}

abbrev pub sensitive_structured_keys : List String
sensitive_structured_keys =
    "aadhaar" ∷ "aadhar" ∷ "aadhaar_number" ∷ "otp" ∷ "bank_account" ∷ "bank_account_number"
    ∷ "account_number" ∷ []

abbrev structured_direct_fields : List String
structured_direct_fields =
    "display_name" ∷ "state_code" ∷ "district" ∷ "age" ∷ "gender" ∷ "occupation_type"
    ∷ "annual_income" ∷ "land_holding_acres" ∷ []

abbrev structured_custom_fields : List String
structured_custom_fields =
    "has_bank_account" ∷ "has_land_record" ∷ "ration_card_type" ∷ "is_pregnant" ∷ "child_order" ∷ []

abbrev bpl_ration_types : List String
bpl_ration_types = "bpl" ∷ "aay" ∷ "antyodaya" ∷ []

-- `s.isdigit()`
abbrev is_number : String → Bool
is_number s = not (is_empty s) && all_chars is_digit s

-- `[A-Z]`
abbrev is_upper : Char → Bool
is_upper c = leb 65 (code c) && leb (code c) 90

abbrev state_code_pattern : Pattern
state_code_pattern = chain (literal "IN-") (repeat is_upper 2 (some 2))

-- `s.replace(" ", "_")`
underscored : String → String
underscored String.[] = String.[]
underscored (String.◌∷◌ c s) = String.◌∷◌ (if nat_beq (code c) 32 then "_" else c) (underscored s)

abbrev one_of_texts : List String → String → Option Value
one_of_texts allowed s = if contains s allowed then some (text s) else none

-- Digits, with at most one point among them.
abbrev is_decimal : String → Bool
is_decimal s = elim (split_once 46 s) [
  | none ↦ is_number s
  | some (whole, decimals) ↦
      (all_chars is_digit whole && all_chars is_digit decimals)
      && not (is_empty whole && is_empty decimals)
]

abbrev truth : String → Option Value
truth s =
    if contains s ("true" ∷ "yes" ∷ "1" ∷ [])
    then some (boolean true)
    else if contains s ("false" ∷ "no" ∷ "0" ∷ [])
    then some (boolean false)
    else none

abbrev cleaned : String → Option Value
cleaned value =
    let one_line = strip (collapse_from false value) in
    if is_empty one_line then none else some (text (take_text 80 one_line))

-- `_coerce_structured_value`. Of what `float` reads, signs, exponents and names are left out.
unfoldable pub coerce_structured_value : String → String → Option Value
unfolding strip lower upper collapse_from split_once take_text all_chars re_fullmatch underscored
    decimal_value digits_value_from
coerce_structured_value key raw_value =
    let value = strip raw_value in
    let low = lower value in
    let number_value = digits_value value in
    if key == "state_code"
    then (if re_fullmatch state_code_pattern (upper value) then some (text (upper value)) else none)
    else if key == "age"
    then (if is_number value && leb number_value 120 then some (integer number_value) else none)
    else if key == "annual_income"
    then (if is_number value then some (integer number_value) else none)
    else if key == "land_holding_acres"
    then (if is_decimal value then some (number (pos (decimal_value value))) else none)
    else if contains key ("has_bank_account" ∷ "has_land_record" ∷ "is_pregnant" ∷ [])
    then truth low
    else if key == "child_order"
    then (if is_number value && (leb 1 number_value && leb number_value 20)
        then some (integer number_value)
        else none)
    else if key == "gender"
    then one_of_texts ("female" ∷ "male" ∷ "other" ∷ []) low
    else if key == "ration_card_type"
    then one_of_texts ("bpl" ∷ "aay" ∷ "antyodaya" ∷ "apl" ∷ "none" ∷ []) (underscored low)
    else if contains key ("display_name" ∷ "district" ∷ "occupation_type" ∷ [])
    then cleaned value
    else none

abbrev Parsed : Type 0
Parsed = List (String × String)

-- The loop over the parts; `none` is the return that drops every fact.
unfoldable pub parse_parts : Parsed → List String → Option Parsed
unfolding split_once strip lower is_sensitive_text
parse_parts parsed [] = some parsed
parse_parts parsed (part ∷ parts) = elim (split_once 61 part) [
  | none ↦ parse_parts parsed parts
  | some (raw_key, raw_value) ↦
      let key = lower (strip raw_key) in
      let value = strip raw_value in
      let skipped = parse_parts parsed parts in
      let kept = parse_parts (insert key value parsed) parts in
      if is_empty key || is_empty value
      then skipped
      else if contains key sensitive_structured_keys || is_sensitive_text (lower value)
      then none
      else kept
]

abbrev ration_facts : Value → List ExtractedFact
ration_facts (text ration_type) =
    let is_bpl = contains (lower ration_type) bpl_ration_types in
    fact "custom_attributes.is_bpl" (boolean is_bpl) 96 "self"
    ∷ fact "custom_attributes.bpl_card" (boolean is_bpl) 96 "self"
    ∷ (if is_bpl then fact "custom_attributes.poor_household" (boolean true) 96 "self" ∷ [] else [])
ration_facts _ = []

abbrev direct_facts : String → Option Value → List ExtractedFact
direct_facts key none = []
direct_facts key (some value) = fact key value 98 "self" ∷ []

abbrev custom_facts : String → Option Value → List ExtractedFact
custom_facts key none = []
custom_facts key (some value) =
    fact (prepend "custom_attributes." key) value 98 "self"
    ∷ (if key == "ration_card_type" then ration_facts value else [])

unfoldable pub facts_of_entry : String → String → List ExtractedFact
unfolding coerce_structured_value lower prepend
facts_of_entry key raw_value =
    let value = coerce_structured_value key raw_value in
    if contains key structured_direct_fields
    then direct_facts key value
    else if contains key structured_custom_fields
    then custom_facts key value
    else []

unfoldable pub facts_of_parsed : Parsed → List ExtractedFact
unfolding facts_of_entry
facts_of_parsed [] = []
facts_of_parsed ((key, raw_value) ∷ parsed) = facts_of_entry key raw_value ++ facts_of_parsed parsed

abbrev after_colon : Option (String × String) → String
after_colon none = ""
after_colon (some (_, payload)) = payload

-- `_extract_structured_profile`
unfoldable pub extract_structured_profile : String → ExtractedFacts
unfolding split_on split_once parse_parts facts_of_parsed
extract_structured_profile message =
    let (first, rest) = split_on 59 (after_colon (split_once 58 message)) in
    elim (parse_parts [] (first ∷ rest)) [
      | none ↦ no_facts
      | some parsed ↦ record {
        facts = facts_of_parsed parsed;
        active_member_reference = "self";
        needs_confirmation = [];
      }
    ]

-- `message.lower().strip().startswith("profile_facts:")`
abbrev pub is_structured : String → Bool
is_structured message = elim (strip_prefix "profile_facts:" (strip (lower message))) [
  | none ↦ false
  | some _ ↦ true
]

-- `DeterministicFactExtractor.extract`
unfoldable pub extract : String → ExtractedFacts
unfolding extract_structured_profile extract_free_text
extract message =
    if is_structured message
    then extract_structured_profile message
    else extract_free_text (lower message)

-- ===== src/Agent/Extraction.antt =====
-- agent/extraction.py: the words that must not be kept, and the facts of a message in free text.
pub mod Structured
pub mod Payload
use adhikar_ai.Prelude.{
  ℕ, suc, String, Bool, true, false, not, ◌+◌, ◌*◌, ◌/◌, ◌||◌, ◌&&◌, Option, none, some, List, [],
  ◌∷◌, ◌++◌, string_eq, find, any, leb, is_some, if◌then◌else◌,
}
use adhikar_ai.Prelude.Int.{pos}
use adhikar_ai.Prelude.Text.{
  is_space, is_empty, split_once, take_text, text_length, digits_value_from,
}
use adhikar_ai.Prelude.Regex.{
  Pattern, blank, one, chain, either, repeat, boundary, group, is_digit, literal, optional,
  whole_word, re_search,
}
use adhikar_ai.Value.{Value, text, number, is_substring}
use adhikar_ai.Agent.Confidence.{percent}
use adhikar_ai.Agent.Facts.{ExtractedFact, ExtractedFacts}

abbrev sensitive_patterns : List Pattern
sensitive_patterns =
    whole_word "aadhaar"
    ∷ whole_word "aadhar"
    ∷ whole_word "otp"
    ∷ whole_word "bank account"
    ∷ whole_word "bank_account_number"
    ∷ whole_word "account_number"
    ∷ []

-- `any(re.search(pattern, lower) for pattern in SENSITIVE_PATTERNS)`
unfoldable pub is_sensitive_text : String → Bool
unfolding re_search
is_sensitive_text low = any (λ p. is_some (re_search p low)) sensitive_patterns

abbrev pub no_facts : ExtractedFacts
no_facts = record { facts = []; active_member_reference = "self"; needs_confirmation = [] }

abbrev pub fact : String → Value → ℕ → String → ExtractedFact
fact field value confidence member = record {
  field = field;
  value = value;
  confidence = percent confidence;
  member_reference = member;
}

abbrev has_any : List String → String → Bool
has_any words low = any (λ word. is_substring word low) words

-- `_member_reference`
unfoldable pub member_reference : String → String
unfolding is_substring
member_reference low =
    elim (find (λ relation. is_substring relation low)
      ("mother" ∷ "father" ∷ "wife" ∷ "husband" ∷ "daughter" ∷ "son" ∷ "child" ∷ [])) [
        | none ↦ "self"
        | some relation ↦ relation
      ]

abbrev spaces : Pattern
spaces = repeat is_space 0 none

abbrev one_of : List String → Pattern
one_of [] = blank
one_of (s ∷ []) = literal s
one_of (s ∷ t ∷ l) = either (literal s) (one_of (t ∷ l))

-- `\b(?:i am|…)?\s*(\d{1,3})\s*(?:years?|yrs?)?\b`
abbrev age_pattern : Pattern
age_pattern = chain boundary (
    chain
      (optional
        (one_of ("i am" ∷ "age is" ∷ "aged" ∷ "she is" ∷ "he is" ∷ "mother is" ∷ "father is" ∷ [])))
      (chain spaces (
        chain (group (repeat is_digit 1 (some 3))) (
          chain spaces
            (chain (optional (one_of ("years" ∷ "year" ∷ "yrs" ∷ "yr" ∷ []))) boundary)))))

-- `(?:income|earn|earning|around|about)\D+(\d{4,7})`
abbrev income_pattern : Pattern
income_pattern =
    chain (one_of ("income" ∷ "earn" ∷ "earning" ∷ "around" ∷ "about" ∷ []))
      (chain (repeat (λ c. not (is_digit c)) 1 none) (group (repeat is_digit 4 (some 7))))

-- `(\d+(?:\.\d+)?)\s*(?:acre|acres)`
abbrev land_pattern : Pattern
land_pattern =
    chain
      (group
        (chain (repeat is_digit 1 none) (optional (chain (literal ".") (repeat is_digit 1 none)))))
      (chain spaces (one_of ("acre" ∷ "acres" ∷ [])))

abbrev pub digits_value : String → ℕ
digits_value s = digits_value_from 0 s

-- A whole number as a JSON number.
abbrev pub integer : ℕ → Value
integer n = number (pos (n * 100))

-- The decimals of an amount, as hundredths: two of them, and the third rounds up from 5.
abbrev hundredths_of : String → ℕ
hundredths_of decimals =
    let three = digits_value (take_text 3 decimals) in
    let n = text_length decimals in
    if leb 3 n then (three + 5) / 10 else if leb 2 n then three else three * 10

-- `float(s)` on digits with at most one point, in hundredths.
unfoldable pub decimal_value : String → ℕ
unfolding split_once take_text text_length digits_value_from
decimal_value s = elim (split_once 46 s) [
  | none ↦ digits_value s * 100
  | some (whole, decimals) ↦ digits_value whole * 100 + hundredths_of decimals
]

abbrev state_aliases : List (String × String)
state_aliases =
    ("bihar", "IN-BR")
    ∷ ("uttar pradesh", "IN-UP")
    ∷ ("up", "IN-UP")
    ∷ ("maharashtra", "IN-MH")
    ∷ ("tamil nadu", "IN-TN")
    ∷ ("west bengal", "IN-WB")
    ∷ ("karnataka", "IN-KA")
    ∷ ("kerala", "IN-KL")
    ∷ ("gujarat", "IN-GJ")
    ∷ ("punjab", "IN-PB")
    ∷ ("odisha", "IN-OR")
    ∷ ("orissa", "IN-OR")
    ∷ ("telangana", "IN-TG")
    ∷ []

module _ (low member : String) where
  unfoldable pub age_facts : List ExtractedFact
  unfolding re_search digits_value_from
  age_facts = elim (re_search age_pattern low) [
    | none ↦ []
    | some digits ↦
        let age = digits_value digits in
        if leb age 120 then fact "age" (integer age) 90 member ∷ [] else []
  ]

  unfoldable pub state_facts : List ExtractedFact
  unfolding re_search
  state_facts =
      elim (find (λ (s : String × String). is_some (re_search (whole_word s.0) low))
        state_aliases) [ none ↦ [] | some (_, code) ↦ fact "state_code" (text code) 88 member ∷ [] ]

  unfoldable pub occupation_facts : List ExtractedFact
  unfolding is_substring
  occupation_facts =
      if has_any ("farmer" ∷ "farming" ∷ "agriculture" ∷ "kisan" ∷ []) low
      then fact "occupation_type" (text "farmer") 86 member ∷ []
      else if has_any ("labour" ∷ "labor" ∷ "worker" ∷ []) low
      then fact "occupation_type" (text "labourer") 80 member ∷ []
      else []

  unfoldable pub marital_facts : List ExtractedFact
  unfolding is_substring
  marital_facts =
      if has_any ("widow" ∷ "widowed" ∷ []) low
      then fact "marital_status" (text "widowed") 90 member
        ∷ fact "gender" (text "female") 80 member
        ∷ []
      else if is_substring "married" low
      then fact "marital_status" (text "married") 86 member ∷ []
      else []

  unfoldable pub gender_facts : List ExtractedFact
  unfolding is_substring
  gender_facts =
      if has_any ("woman" ∷ "female" ∷ "girl" ∷ "mother" ∷ "wife" ∷ []) low
      then fact "gender" (text "female") 82 member ∷ []
      else if has_any ("man" ∷ "male" ∷ "father" ∷ "husband" ∷ []) low
      then fact "gender" (text "male") 82 member ∷ []
      else []

  unfoldable pub income_facts : List ExtractedFact
  unfolding re_search digits_value_from
  income_facts = elim (re_search income_pattern low) [
    | none ↦ []
    | some digits ↦ fact "annual_income" (integer (digits_value digits)) 78 member ∷ []
  ]

  unfoldable pub land_facts : List ExtractedFact
  unfolding re_search decimal_value
  land_facts = elim (re_search land_pattern low) [
    | none ↦ []
    | some amount ↦ fact "land_holding_acres" (number (pos (decimal_value amount))) 84 member ∷ []
  ]

-- `DeterministicFactExtractor.extract`, below the case of a structured message.
unfoldable pub extract_free_text : String → ExtractedFacts
unfolding is_sensitive_text
extract_free_text low =
    let member = member_reference low in
    let found : ExtractedFacts = record {
      facts =
          age_facts low member
          ++ (state_facts low member
              ++ (occupation_facts low member
                  ++ (marital_facts low member
                      ++ (gender_facts low member
                          ++ (income_facts low member ++ land_facts low member)))));
      active_member_reference = member;
      needs_confirmation = [];
    } in
    if is_sensitive_text low then no_facts else found

-- ===== src/Agent/Confidence.antt =====
-- The confidence of a fact, as agent/extraction.py reads and compares it.
use adhikar_ai.Prelude.{
  ℕ, zero, suc, String, Bool, true, false, not, ◌+◌, ◌*◌, ◌/◌, ◌&&◌, Option, none, some, List, [],
  ◌∷◌, ◌==◌, string_eq, contains, ltb, leb, ◌≡◌, ◌≤◌, ◌⊎◌, inl, inr, Bool-cases, arith, refl,
  if◌then◌else◌,
}
use adhikar_ai.Prelude.Text.{
  is_empty, lower, strip, prepend, strip_prefix, split_on, split_once, text_length, all_chars,
  digits_value_from,
}
use adhikar_ai.Prelude.Regex.{is_digit}

-- A number that is not negative, cut to hundredths, or the float that is not a number.
pub data Confidence : Type 0 where
  not_a_number : Confidence
  percent : ℕ → Confidence

-- Every comparison with NaN fails: `confidence >= n`, `confidence < n`, and `c > d` of two confidences.
abbrev pub at_least : ℕ → Confidence → Bool
at_least n not_a_number = false
at_least n (percent c) = leb n c

abbrev pub under : ℕ → Confidence → Bool
under n not_a_number = false
under n (percent c) = ltb c n

abbrev pub exceeds : Confidence → Confidence → Bool
exceeds not_a_number d = false
exceeds (percent c) not_a_number = false
exceeds (percent c) (percent d) = ltb d c

abbrev pub is_nan : Confidence → Bool
is_nan not_a_number = true
is_nan (percent _) = false

abbrev pub at_most_one : ℕ → ℕ
at_most_one n = if ltb 100 n then 100 else n

abbrev power_of_ten : ℕ → ℕ
power_of_ten zero = 1
power_of_ten (suc n) = 10 * power_of_ten n

abbrev is_digits : String → Bool
is_digits s = not (is_empty s) && all_chars is_digit s

abbrev join_digits : List String → Option String
join_digits [] = some ""
join_digits (s ∷ pieces) =
    let rest : Option String = elim (join_digits pieces) [
      | none ↦ none
      | some joined ↦ some (prepend s joined)
    ] in
    if is_digits s then rest else none

-- Digits, between which an underscore may stand.
unfoldable digits_of : String → Option String
unfolding all_chars prepend split_on
digits_of s = let (first, rest) = split_on 95 s in join_digits (first ∷ rest)

abbrev digits_or_none : String → Option String
digits_or_none s = if is_empty s then some "" else digits_of s

-- The digits of a mantissa, and how many of them stand after its point.
unfoldable mantissa : String → Option (String × ℕ)
unfolding digits_of split_once prepend text_length
mantissa s = elim (split_once 46 s) [
  | none ↦ elim (digits_of s) [ none ↦ none | some digits ↦ some (digits, 0) ]
  | some (whole, decimals) ↦ elim (digits_or_none whole) [
    | none ↦ none
    | some w ↦ elim (digits_or_none decimals) [
      | none ↦ none
      | some d ↦
          if is_empty whole && is_empty decimals then none else some (prepend w d, text_length d)
    ]
  ]
]

-- How far the point moves to the right, and to the left.
unfoldable exponent : String → Option (ℕ × ℕ)
unfolding digits_of strip_prefix digits_value_from
exponent s = elim (strip_prefix "-" s) [
  | some digits ↦ elim (digits_of digits) [ none ↦ none | some d ↦ some (0, digits_value_from 0 d) ]
  | none ↦
      let digits : String = elim (strip_prefix "+" s) [ none ↦ s | some rest ↦ rest ] in
      elim (digits_of digits) [ none ↦ none | some d ↦ some (digits_value_from 0 d, 0) ]
]

abbrev moved : Option (String × ℕ) → Option (ℕ × ℕ) → Option ℕ
moved none shift = none
moved (some _) none = none
moved (some (digits, decimals)) (some (right, left)) =
    some (digits_value_from 0 digits * power_of_ten (right + 2) / power_of_ten (decimals + left))

-- A decimal number without a sign, in hundredths.
unfoldable decimal : String → Option ℕ
unfolding mantissa exponent split_once digits_value_from
decimal s = elim (split_once 101 s) [
  | none ↦ moved (mantissa s) (some (0, 0))
  | some (digits, shift) ↦ moved (mantissa digits) (exponent shift)
]

-- A number in lower case without a sign: it is infinite, a decimal, or refused.
abbrev magnitude : String → ℕ
magnitude s =
    if contains s ("inf" ∷ "infinity" ∷ [])
    then 100
    else elim (decimal s) [ none ↦ 0 | some n ↦ at_most_one n ]

abbrev signed : String → Bool × String
signed s = elim (strip_prefix "-" s) [
  | some rest ↦ (true, rest)
  | none ↦ elim (strip_prefix "+" s) [ some rest ↦ (false, rest) | none ↦ (false, s) ]
]

abbrev float_of : Bool × String → Confidence
float_of (negative, s) =
    if s == "nan" then not_a_number else percent (if negative then 0 else magnitude s)

-- `float(s)` with 0 for what it refuses, kept between 0 and 1 as `_fact_from_payload` does it.
unfoldable pub float_of_text : String → Confidence
unfolding decimal lower strip strip_prefix
float_of_text s = float_of (signed (lower (strip s)))

abbrev pub IsAtMostOne : Confidence → Type 0
IsAtMostOne confidence =
    (confidence ≡ not_a_number) ⊎ ((c : ℕ) × ((confidence ≡ percent c) × (c ≤ 100)))

pub at_most_one-IsAtMostOne : (n : ℕ) → IsAtMostOne (percent (at_most_one n))
at_most_one-IsAtMostOne n = inr (at_most_one n, (refl, ground arith))

magnitude-le : (s : String) → magnitude s ≤ 100
magnitude-le s = ground arith

float_of-IsAtMostOne : (read : Bool × String) → IsAtMostOne (float_of read)
float_of-IsAtMostOne (negative, s) = elim (Bool-cases (s == "nan")) [
  | inl e ↦ rw e (inl refl)
  | inr e ↦ rw e (inr (if negative then 0 else magnitude s, (refl, ground (arith, magnitude-le s))))
]

pub float_of_text-IsAtMostOne : (s : String) → IsAtMostOne (float_of_text s)
unfolding float_of_text
float_of_text-IsAtMostOne s = float_of-IsAtMostOne (signed (lower (strip s)))

reads_lem :
    (float_of_text " 1e9 " ≡ percent 100)
    × ((float_of_text "-NaN" ≡ not_a_number)
        × ((float_of_text "+Infinity" ≡ percent 100)
            × ((float_of_text "7_4.9E-2" ≡ percent 74)
                × ((float_of_text ".8" ≡ percent 80)
                    × ((float_of_text "-3" ≡ percent 0)
                        × ((float_of_text "0.5.5" ≡ percent 0)
                            × (float_of_text "." ≡ percent 0)))))))
unfolding float_of_text
reads_lem = (refl, (refl, (refl, (refl, (refl, (refl, (refl, refl)))))))

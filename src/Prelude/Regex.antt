-- ===== src/Prelude/Regex.antt =====
-- The regular expressions that the program searches for, with the backtracking order of Python's `re`.
-- Repetition is always of one class of characters, and a pattern has at most one group.
use Prim.Native.Nat.{ℕ, zero, suc, ◌-◌}
use Prim.Native.Char.{Char, code}
use Prim.Native.String.{String, [], ◌∷◌}
use mathlib.Core.Bool.{Bool, true, false, not, ◌&&◌, ◌||◌}
use mathlib.Core.Option.{Option, none, some}
use adhikar_ai.Prelude.Tests.{leb, nat_beq, is_some, if◌then◌else◌}
use adhikar_ai.Prelude.Text.{prepend, is_empty}

pub data Pattern : Type 0 where
  blank : Pattern
  one : (Char → Bool) → Pattern
  chain : Pattern → Pattern → Pattern
  either : Pattern → Pattern → Pattern
  -- At least so many, and at most so many where a number is given; as many as possible first.
  repeat : (Char → Bool) → ℕ → Option ℕ → Pattern
  boundary : Pattern
  group : Pattern → Pattern

-- `\d`, `\w` and a character, on ASCII.
abbrev pub is_digit : Char → Bool
is_digit c = leb 48 (code c) && leb (code c) 57

abbrev pub is_word : Char → Bool
is_word c =
    is_digit c
    || ((leb 65 (code c) && leb (code c) 90)
        || ((leb 97 (code c) && leb (code c) 122) || nat_beq (code c) 95))

abbrev pub literal : String → Pattern
literal [] = blank
literal (c ∷ s) = chain (one (λ d. nat_beq (code c) (code d))) (literal s)

-- `(?:p)?`
abbrev pub optional : Pattern → Pattern
optional p = either p blank

-- `\bs\b`
abbrev pub whole_word : String → Pattern
whole_word s = chain boundary (chain (literal s) boundary)

-- A place in the text: whether a word character is before it, what follows, and the text of the group.
pub record Cursor : Type 0 where
  pub before : Bool
  pub rest : String
  pub inside : Bool
  pub taken : String

abbrev append_char : Bool → String → Char → String
append_char inside taken c = if inside then prepend taken (c ∷ []) else taken

abbrev starts_word : String → Bool
starts_word [] = false
starts_word (c ∷ _) = is_word c

abbrev at : Bool → Bool → String → String → Cursor
at before inside taken rest = record {
  before = before;
  rest = rest;
  inside = inside;
  taken = taken;
}

abbrev may_take : Option ℕ → Bool
may_take none = true
may_take (some zero) = false
may_take (some (suc _)) = true

abbrev one_less : Option ℕ → Option ℕ
one_less none = none
one_less (some n) = some (n - 1)

take_one : (Char → Bool) → Cursor → String → (Cursor → Option String) → Option String
take_one test cursor [] k = none
take_one test cursor (c ∷ s) k =
    if test c
    then k (at (is_word c) cursor.inside (append_char cursor.inside cursor.taken c) s)
    else none

take_many :
    (Char → Bool)
    → ℕ
    → Option ℕ
    → Bool
    → Bool
    → String
    → String
    → (Cursor → Option String)
    → Option String
take_many test least most before inside taken [] k =
    if nat_beq least 0 then k (at before inside taken []) else none
take_many test least most before inside taken (c ∷ s) k =
    let more =
      take_many test (least - 1) (one_less most) (is_word c) inside (append_char inside taken c) s
        k in
    let stop = if nat_beq least 0 then k (at before inside taken (c ∷ s)) else none in
    if may_take most && test c then elim more [ some r ↦ some r | none ↦ stop ] else stop

is_boundary : Cursor → Bool
is_boundary cursor =
    if cursor.before then not (starts_word cursor.rest) else starts_word cursor.rest

-- The text of the group in the first way to match, if what follows it succeeds.
unfoldable pub matches_at : Pattern → Cursor → (Cursor → Option String) → Option String
unfolding take_one take_many is_boundary
matches_at blank cursor k = k cursor
matches_at (one test) cursor k = take_one test cursor cursor.rest k
matches_at (chain p q) cursor k = matches_at p cursor (λ next. matches_at q next k)
matches_at (either p q) cursor k = elim (matches_at p cursor k) [
  | some r ↦ some r
  | none ↦ matches_at q cursor k
]
matches_at (repeat test least most) cursor k =
    take_many test least most cursor.before cursor.inside cursor.taken cursor.rest k
matches_at boundary cursor k = if is_boundary cursor then k cursor else none
matches_at (group p) cursor k =
    matches_at p (record cursor { inside = true; taken = [] })
      (λ next. k (record next { inside = false }))

abbrev finish : Cursor → Option String
finish cursor = some cursor.taken

unfoldable pub search_from : Pattern → Bool → String → Option String
unfolding matches_at
search_from p before [] = matches_at p (at before false [] []) finish
search_from p before (c ∷ s) = elim (matches_at p (at before false [] (c ∷ s)) finish) [
  | some r ↦ some r
  | none ↦ search_from p (is_word c) s
]

-- `re.search(p, s)`: the group of the leftmost match.
unfoldable pub re_search : Pattern → String → Option String
unfolding search_from
re_search p s = search_from p false s

-- `re.fullmatch(p, s)`
unfoldable pub re_fullmatch : Pattern → String → Bool
unfolding matches_at
re_fullmatch p s =
    is_some (
      matches_at p (at false false [] s)
        (λ end. if is_empty end.rest then some end.taken else none))

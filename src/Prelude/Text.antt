-- ===== src/Prelude/Text.antt =====
-- The operations of Python's `str` that the program uses, on native strings. Letter case and white
-- space are those of ASCII; every other character is kept as it is.
use Prim.Native.Nat.{ℕ, zero, suc, ◌+◌, ◌-◌, ◌*◌, ◌/◌, ◌%◌}
use Prim.Native.Char.{Char, code}
use Prim.Native.String.{String, [], ◌∷◌}
use mathlib.Core.Path.{◌≡◌, refl}
use mathlib.Core.Logic.{◌⊎◌, inl, inr}
use mathlib.Core.Bool.{Bool, true, false, ◌&&◌, ◌||◌}
use mathlib.Core.Option.{Option, none, some}
use mathlib.Core.List.{List}
use native.Mathlib.Omega.{arith}
use text.Mathlib.TextEquality.{Char-path}
use adhikar_ai.Prelude.Tests.{ltb, leb, nat_beq, if◌then◌else◌}

-- `str.isspace` on ASCII, which is also what `\s` matches.
unfoldable pub is_space : Char → Bool
is_space c = (leb 9 (code c) && leb (code c) 13) || (leb 28 (code c) && leb (code c) 32)

-- The character at the place in `to` at which `c` stands in `from`, or `c` itself.
unfoldable pub translate : String → String → Char → Char
translate (x ∷ from) (y ∷ to) c = if nat_beq (code x) (code c) then y else translate from to c
translate _ _ c = c

abbrev upper_letters : String
upper_letters = "ABCDEFGHIJKLMNOPQRSTUVWXYZ"

abbrev lower_letters : String
lower_letters = "abcdefghijklmnopqrstuvwxyz"

-- `s.lower()`
unfoldable pub lower : String → String
unfolding translate
lower [] = []
lower (c ∷ s) = translate upper_letters lower_letters c ∷ lower s

-- `s.upper()`
unfoldable pub upper : String → String
unfolding translate
upper [] = []
upper (c ∷ s) = translate lower_letters upper_letters c ∷ upper s

abbrev pub is_empty : String → Bool
is_empty [] = true
is_empty (_ ∷ _) = false

unfoldable pub strip_left : String → String
unfolding is_space
strip_left [] = []
strip_left (c ∷ s) = if is_space c then strip_left s else c ∷ s

unfoldable pub strip_right : String → String
unfolding is_space
strip_right [] = []
strip_right (c ∷ s) =
    let rest = strip_right s in if is_space c && is_empty rest then [] else c ∷ rest

-- `s.strip()`
unfoldable pub strip : String → String
unfolding strip_left strip_right
strip s = strip_right (strip_left s)

abbrev space : Char
space = " "

-- `re.sub(r"\s+", " ", s)`: `inside` says that the last character was white space.
unfoldable pub collapse_from : Bool → String → String
unfolding is_space
collapse_from inside [] = []
collapse_from inside (c ∷ s) =
    let word = c ∷ collapse_from false s in
    let gap = collapse_from true s in
    if is_space c then (if inside then gap else space ∷ gap) else word

-- `p + s`
unfoldable pub prepend : String → String → String
prepend [] s = s
prepend (c ∷ p) s = c ∷ prepend p s

-- `s[len(p):]` if `s.startswith(p)`
unfoldable pub strip_prefix : String → String → Option String
strip_prefix [] s = some s
strip_prefix (c ∷ p) [] = none
strip_prefix (c ∷ p) (d ∷ s) = if nat_beq (code c) (code d) then strip_prefix p s else none

pub strip_prefix-prepend : (p s : String) → strip_prefix p (prepend p s) ≡ some s
unfolding strip_prefix prepend
strip_prefix-prepend [] s = refl
strip_prefix-prepend (c ∷ p) s = ground (arith, strip_prefix-prepend p s)

pub strip_prefix-some : (p s t : String) → strip_prefix p s ≡ some t → s ≡ prepend p t
unfolding strip_prefix prepend
strip_prefix-some [] s t h = ground arith
strip_prefix-some (c ∷ p) [] t h = absurd (ground arith)
strip_prefix-some (c ∷ p) (d ∷ s) t h = ground (arith, strip_prefix-some p s t, Char-path c d)

-- `s <= t`: by code points.
unfoldable pub str_leb : String → String → Bool
str_leb [] t = true
str_leb (c ∷ s) [] = false
str_leb (c ∷ s) (d ∷ t) =
    let rest = str_leb s t in
    if ltb (code c) (code d) then true else if ltb (code d) (code c) then false else rest

pub str_leb_refl : (s : String) → str_leb s s ≡ true
unfolding str_leb
str_leb_refl [] = refl
str_leb_refl (c ∷ s) = ground (arith, str_leb_refl s)

pub str_leb_total : (s t : String) → (str_leb s t ≡ true) ⊎ (str_leb t s ≡ true)
unfolding str_leb
str_leb_total [] t = inl refl
str_leb_total (c ∷ s) [] = inr refl
str_leb_total (c ∷ s) (d ∷ t) = ground (arith, str_leb_total s t)

pub str_leb_trans : (s t u : String) → str_leb s t ≡ true → str_leb t u ≡ true → str_leb s u ≡ true
unfolding str_leb
str_leb_trans [] t u h k = refl
str_leb_trans (c ∷ s) [] u h k = ground arith
str_leb_trans (c ∷ s) (d ∷ t) [] h k = ground arith
str_leb_trans (c ∷ s) (d ∷ t) (e ∷ u) h k = ground (arith, str_leb_trans s t u)

pub str_leb_antisymm : (s t : String) → str_leb s t ≡ true → str_leb t s ≡ true → s ≡ t
unfolding str_leb
str_leb_antisymm [] [] h k = refl
str_leb_antisymm [] (d ∷ t) h k = ground arith
str_leb_antisymm (c ∷ s) [] h k = ground arith
str_leb_antisymm (c ∷ s) (d ∷ t) h k = ground (arith, str_leb_antisymm s t, Char-path c d)

-- `s.split(c)`: the first piece, and those after each separator.
unfoldable pub split_on : ℕ → String → String × List String
split_on separator [] = ([], List.[])
split_on separator (c ∷ s) =
    let (first, rest) = split_on separator s in
    if nat_beq (code c) separator then ([], List.◌∷◌ first rest) else (c ∷ first, rest)

-- `s.split(c, 1)`, if the separator occurs.
unfoldable pub split_once : ℕ → String → Option (String × String)
split_once separator [] = none
split_once separator (c ∷ s) =
    let rest : Option (String × String) = elim (split_once separator s) [
      | none ↦ none
      | some (a, b) ↦ some (c ∷ a, b)
    ] in
    if nat_beq (code c) separator then some ([], s) else rest

-- `s[:n]`
unfoldable pub take_text : ℕ → String → String
take_text zero s = []
take_text (suc n) [] = []
take_text (suc n) (c ∷ s) = c ∷ take_text n s

unfoldable pub text_length : String → ℕ
text_length [] = 0
text_length (_ ∷ s) = suc (text_length s)

unfoldable pub all_chars : (Char → Bool) → String → Bool
all_chars test [] = true
all_chars test (c ∷ s) = test c && all_chars test s

-- `int(s)` on a text of digits.
unfoldable pub digits_value_from : ℕ → String → ℕ
digits_value_from n [] = n
digits_value_from n (c ∷ s) = digits_value_from (n * 10 + (code c - 48)) s

digit_at : String → ℕ → Char → Char
digit_at [] n default = default
digit_at (c ∷ s) zero default = c
digit_at (c ∷ s) (suc n) default = digit_at s n default

unfoldable pub digits_from : ℕ → ℕ → String → String
unfolding digit_at
digits_from zero n acc = acc
digits_from (suc fuel) n acc =
    let acc' = digit_at "0123456789" (n % 10) space ∷ acc in
    let rest = digits_from fuel (n / 10) acc' in if ltb n 10 then acc' else rest

-- `str(n)`: a number has at most as many digits as its successor counts.
abbrev pub str_nat : ℕ → String
str_nat n = digits_from (suc n) n []

lower-state : lower "In-bR" ≡ "in-br"
unfolding lower
lower-state = refl

strip-padded : strip "  a b " ≡ "a b"
unfolding strip
strip-padded = refl

str_nat-2026 : str_nat 2026 ≡ "2026"
unfolding digits_from digit_at
str_nat-2026 = refl

-- ===== src/Value.antt =====
-- The JSON values that the program handles as `Any`: the attributes of a profile that rules may name
-- freely, the values of custom criteria, and the operators that compare them. Numbers are counted in
-- hundredths, the two decimals that the database keeps; `True` and `False` are the numbers 1 and 0.
use adhikar_ai.Prelude.{
  ℕ, suc, String, Bool, true, false, ◌&&◌, ◌||◌, Option, none, some, List, [], ◌∷◌, is_some, ◌==◌,
  string_eq, if◌then◌else◌, nat_beq,
}
use adhikar_ai.Prelude.Int.{ℤ, pos, leb_ℤ, beq_ℤ}
use adhikar_ai.Prelude.Text.{str_leb, strip_prefix}

mutual
  pub data Value : Type 0 where
    null : Value
    boolean : Bool → Value
    number : ℤ → Value
    text : String → Value
    array : Items → Value
    object : Fields → Value

  pub data Items : Type 0 where
    nil : Items
    cons : Value → Items → Items

  pub data Fields : Type 0 where
    end : Fields
    field : String → Value → Fields → Fields

-- `None` for an absent text.
abbrev pub of_text : Option String → Value
of_text none = null
of_text (some s) = text s

abbrev pub hundredths : Option ℕ → Value
hundredths none = null
hundredths (some n) = number (pos n)

abbrev pub items_of : List String → Items
items_of [] = nil
items_of (s ∷ l) = cons (text s) (items_of l)

unfoldable pub as_number : Value → Option ℤ
as_number (boolean b) = some (if b then pos 100 else pos 0)
as_number (number n) = some n
as_number _ = none

-- `d.get(k)` on the fields of an object.
unfoldable pub get : String → Fields → Option Value
get k end = none
get k (field j v fs) = if j == k then some v else get k fs

-- A dictionary as the fields of an object.
abbrev pub fields_of : List (String × Value) → Fields
fields_of [] = end
fields_of ((k, v) ∷ d) = field k v (fields_of d)

-- `d[k] = v`
unfoldable pub put : String → Value → Fields → Fields
put k v end = field k v end
put k v (field j w fs) = if j == k then field j v fs else field j w (put k v fs)

unfoldable pub field_count : Fields → ℕ
field_count end = 0
field_count (field _ _ fs) = suc (field_count fs)

same_number : Option ℤ → Option ℤ → Bool
same_number (some a) (some b) = beq_ℤ a b
same_number _ _ = false

-- `a == b`
unfoldable mutual
  unfolding same_number as_number get field_count

  pub equal : Value → Value → Bool
  equal null null = true
  equal (boolean a) w = same_number (as_number (boolean a)) (as_number w)
  equal (number a) w = same_number (some a) (as_number w)
  equal (text s) (text t) = s == t
  equal (array xs) (array ys) = equal_items xs ys
  equal (object fs) (object gs) = nat_beq (field_count fs) (field_count gs) && equal_fields fs gs
  equal _ _ = false

  pub equal_items : Items → Items → Bool
  equal_items nil nil = true
  equal_items (cons x xs) (cons y ys) = equal x y && equal_items xs ys
  equal_items _ _ = false

  pub equal_fields : Fields → Fields → Bool
  equal_fields end gs = true
  equal_fields (field k v fs) gs =
      elim (get k gs) [ none ↦ false | some w ↦ equal v w ] && equal_fields fs gs

both_numbers : Option ℤ → Option ℤ → Option Bool
both_numbers (some a) (some b) = some (leb_ℤ a b)
both_numbers _ _ = none

-- `a <= b`; `none` is a TypeError.
unfoldable mutual
  unfolding both_numbers as_number equal

  pub less_equal : Value → Value → Option Bool
  less_equal (text s) (text t) = some (str_leb s t)
  less_equal (array xs) (array ys) = less_equal_items xs ys
  less_equal v w = both_numbers (as_number v) (as_number w)

  pub less_equal_items : Items → Items → Option Bool
  less_equal_items nil ys = some true
  less_equal_items (cons x xs) nil = some false
  less_equal_items (cons x xs) (cons y ys) =
      let rest = less_equal_items xs ys in
      let first = less_equal x y in if equal x y then rest else first

-- `a >= b`
abbrev pub greater_equal : Value → Value → Option Bool
greater_equal a b = less_equal b a

unfoldable pub any_equal : Value → Items → Bool
any_equal v nil = false
any_equal v (cons w ws) = equal v w || any_equal v ws

-- `s in t`
unfoldable pub is_substring : String → String → Bool
is_substring s String.[] = is_some (strip_prefix s String.[])
is_substring s (String.◌∷◌ c t) = is_some (strip_prefix s (String.◌∷◌ c t)) || is_substring s t

-- `a in b`; `none` is a TypeError, also for a key that cannot be hashed.
unfoldable pub is_in : Value → Value → Option Bool
unfolding any_equal is_substring
is_in v (array ws) = some (any_equal v ws)
is_in (text s) (text t) = some (is_substring s t)
is_in (text s) (object fs) = some (is_some (get s fs))
is_in null (object fs) = some false
is_in (boolean b) (object fs) = some false
is_in (number n) (object fs) = some false
is_in _ _ = none

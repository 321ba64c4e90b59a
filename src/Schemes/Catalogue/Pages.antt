-- ===== src/Schemes/Catalogue/Pages.antt =====
-- The pages of the catalogue of services/schemes.py.
use Prim.Native.Nat.{min}
use mathlib.Core.Path.{subst}
use adhikar_ai.Prelude.{
  Bool, false, Option, none, some, ap, any-Member, option_beq_iff, nat_eq, string_eq, option_eq,
  ◌==◌, ℕ, zero, suc, String, true, ◌-◌, ◌≡◌, List, [], ◌∷◌, Member, next, Member-filter,
  Member-take, filter, length, take, All, All-of_Member, arith,
}
use adhikar_ai.Prelude.Result.{ok}
use adhikar_ai.Prelude.Exec.{run}
use adhikar_ai.Prelude.Sorting.{sort, Member-sort, length-sort}
use adhikar_ai.Db.Rows.{Scheme}
use adhikar_ai.Prelude.Text.{is_empty}
use adhikar_ai.Db.Tables.{SchemeCategory, Tables}
use adhikar_ai.Schemes.Listing.{by_name}
use adhikar_ai.Schemes.Catalogue.{
  SchemeFilter, status_text, in_category, passes, is_wanted, skip, list_schemes,
}

Member-skip : {A : Type 0} (n : ℕ) (a : A) (xs : List A) → Member a (skip n xs) → Member a xs
Member-skip zero a xs m = m
Member-skip (suc n) a [] m = elim m [ ]
Member-skip (suc n) a (x ∷ xs) m = next (Member-skip n a xs m)

-- A page after the last one is empty, and any other is full or the last.
length-skip : {A : Type 0} (n : ℕ) (xs : List A) → length (skip n xs) ≡ length xs - n
length-skip zero xs = omega arith
length-skip (suc n) [] = omega arith
length-skip (suc n) (x ∷ xs) = omega (arith, length-skip n xs)

length-take : {A : Type 0} (n m : ℕ) (xs : List A) → length xs ≡ m → length (take n xs) ≡ min n m
length-take zero m xs h = omega (arith, h)
length-take (suc n) m [] h = omega (arith, h)
length-take (suc n) zero (x ∷ xs) h = absurd (omega (arith, h))
length-take (suc n) (suc m) (x ∷ xs) h = omega (arith, length-take n m xs (omega (arith, h)))

-- A filter is given unless it is missing or empty.
abbrev pub IsGiven : Option String → String → Type 0
IsGiven filter value = (filter ≡ some value) × (is_empty value ≡ false)

-- What a request for the catalogue asks of a scheme.
pub record IsWanted (org : ℕ) (wanted : SchemeFilter) (t : Tables) (scheme : Scheme) : Type 0 where
  pub own : scheme.organisation_id ≡ org
  pub status : (value : String) → IsGiven wanted.0 value → status_text scheme.status ≡ value
  pub state : (value : String) → IsGiven wanted.1 value → scheme.state_code ≡ some value
  pub category :
      (code : String)
      → IsGiven wanted.2 code
      → (c : SchemeCategory) × Member c t.scheme_categories
        × (scheme.category_id ≡ some c.id)
        × (c.code ≡ code)

passes-given :
    (filter : Option String) (test : String → Bool) (value : String)
    → passes filter test ≡ true
    → IsGiven filter value
    → test value ≡ true
passes-given none test value h (same, e) = absurd (ground (arith, same))
passes-given (some given) test value h (same, e) =
    let text : given ≡ value = ground (arith, same) in
    let passed : test given ≡ true = ground (arith, h, ap is_empty text, e) in
    subst (λ v. test v ≡ true) text passed

in_category-some :
    (t : Tables) (code : String) (scheme : Scheme)
    → in_category t code scheme ≡ true
    → (c : SchemeCategory) × Member c t.scheme_categories
      × (scheme.category_id ≡ some c.id)
      × (c.code ≡ code)
in_category-some t code scheme h =
    let (c, m, e) = any-Member _ t.scheme_categories h in
    (
      c,
      m,
      ground (arith, e, option_beq_iff scheme.category_id (some c.id)),
      ground (arith, e, string_eq.test_iff c.code code),
    )

is_wanted-IsWanted :
    (org : ℕ) (wanted : SchemeFilter) (t : Tables) (scheme : Scheme)
    → is_wanted org wanted t scheme ≡ true
    → IsWanted org wanted t scheme
unfolding is_wanted
is_wanted-IsWanted org (status, state_code, category_code) t scheme h =
    let by_status = λ (value : String). status_text scheme.status == value in
    let by_state = λ (value : String). scheme.state_code == some value in
    let by_category = λ (code : String). in_category t code scheme in
    record {
      own = ground (arith, h, nat_eq.test_iff scheme.organisation_id org);
      status = λ value given.
          (string_eq.test_iff (status_text scheme.status) value).0
            (passes-given status by_status value (ground (arith, h)) given);
      state = λ value given.
          (option_beq_iff scheme.state_code (some value)).0
            (passes-given state_code by_state value (ground (arith, h)) given);
      category = λ code given.
          in_category-some t code scheme
            (passes-given category_code by_category code (ground (arith, h)) given);
    }

-- A page lists only stored schemes of the organisation that have the status, the state and a category of
-- the code where the request gives them; it is as long as the limit allows and the total that the reply
-- states leaves after the offset.
pub list_schemes_page :
    (name_le : String → String → Bool) (org : ℕ) (wanted : SchemeFilter) (limit offset : ℕ)
    (t : Tables) (page : List Scheme) (total : ℕ)
    → (run (list_schemes name_le org wanted limit offset) t).0 ≡ ok (page, total)
    → (length page ≡ min limit (total - offset))
      × All (λ s. Member s t.schemes × IsWanted org wanted t s) page
unfolding list_schemes
list_schemes_page name_le org wanted limit offset t page total h =
    let rows = filter (is_wanted org wanted t) t.schemes in
    let sorted = sort (by_name name_le) rows in
    let same : take limit (skip offset sorted) ≡ page = ground arith in
    let count : length rows ≡ total = ground arith in
    let left : length (skip offset sorted) ≡ total - offset =
      omega (arith, length-skip offset sorted, length-sort (by_name name_le) rows, count) in
    (
      rw (← same) (length-take limit (total - offset) (skip offset sorted) left),
      rw (← same) (
          All-of_Member _ _ λ s m.
            let (k, e) = Member-filter (is_wanted org wanted t) s t.schemes (
              Member-sort (by_name name_le) s rows
                (Member-skip offset s sorted (Member-take limit s _ m))) in
            (k, is_wanted-IsWanted org wanted t s e)),
    )

-- ===== src/Eligibility/Matcher/Order.antt =====
-- The two sort keys of matcher.py order all entries, and the order that they give.
use adhikar_ai.Prelude.{
  ℕ, Bool, ◌≡◌, ◌≤◌, ◌⊎◌, inl, inr, true, List, [], ◌∷◌, Member, take, ◌==◌, nat_eq, string_eq,
  Bool-cases, arith, eq_iff,
}
use adhikar_ai.Prelude.Sorting.{sort, IsSorted, IsSorted-take, sort-IsSorted}
use adhikar_ai.Prelude.Text.{str_leb, str_leb_refl, str_leb_total, str_leb_trans, str_leb_antisymm}
use adhikar_ai.Eligibility.Matcher.{MatchedScheme, NearMissScheme, matched_le, near_miss_le}

module _ (a b : NearMissScheme) where
  near_miss_le_total : (near_miss_le a b ≡ true) ⊎ (near_miss_le b a ≡ true)
  unfolding near_miss_le
  near_miss_le_total = ground (arith, str_leb_total a.scheme.name b.scheme.name)

module _ (a b c : NearMissScheme) where
  near_miss_le_trans : near_miss_le a b ≡ true → near_miss_le b c ≡ true → near_miss_le a c ≡ true
  unfolding near_miss_le
  near_miss_le_trans h k = ground (arith, str_leb_trans a.scheme.name b.scheme.name c.scheme.name)

module _ (a b : MatchedScheme) where
  matched_le_total : (matched_le a b ≡ true) ⊎ (matched_le b a ≡ true)
  unfolding matched_le
  matched_le_total = ground (
    arith,
    str_leb_total a.scheme.name b.scheme.name,
    str_leb_total a.scheme.benefit_type b.scheme.benefit_type,
    eq_iff a.scheme.benefit_type b.scheme.benefit_type,
    eq_iff b.scheme.benefit_type a.scheme.benefit_type,
  )

module _ (a b c : MatchedScheme) where
  matched_le_trans : matched_le a b ≡ true → matched_le b c ≡ true → matched_le a c ≡ true
  unfolding matched_le
  matched_le_trans h k = ground (
    arith,
    str_leb_trans a.scheme.name b.scheme.name c.scheme.name,
    str_leb_trans a.scheme.benefit_type b.scheme.benefit_type c.scheme.benefit_type,
    str_leb_antisymm a.scheme.benefit_type b.scheme.benefit_type,
    eq_iff a.scheme.benefit_type b.scheme.benefit_type,
    eq_iff b.scheme.benefit_type c.scheme.benefit_type,
    eq_iff a.scheme.benefit_type c.scheme.benefit_type,
  )

-- Matched schemes stand by the type of their benefit, within a type by falling score, and at the same
-- score by name.
pub record IsMatchedBefore (a b : MatchedScheme) : Type 0 where
  pub by_type : str_leb a.scheme.benefit_type b.scheme.benefit_type ≡ true
  pub by_score :
      a.scheme.benefit_type ≡ b.scheme.benefit_type → b.eligibility_score ≤ a.eligibility_score
  pub by_name :
      a.scheme.benefit_type ≡ b.scheme.benefit_type
      → a.eligibility_score ≡ b.eligibility_score
      → str_leb a.scheme.name b.scheme.name ≡ true

-- Near misses stand by falling score, and at the same score by name.
pub record IsNearMissBefore (a b : NearMissScheme) : Type 0 where
  pub by_score : b.eligibility_score ≤ a.eligibility_score
  pub by_name :
      a.eligibility_score ≡ b.eligibility_score → str_leb a.scheme.name b.scheme.name ≡ true

matched_le-IsMatchedBefore : (a b : MatchedScheme) → matched_le a b ≡ true → IsMatchedBefore a b
unfolding matched_le
matched_le-IsMatchedBefore a b h =
    let same = string_eq.test_iff a.scheme.benefit_type b.scheme.benefit_type in
    let equal = nat_eq.test_iff a.eligibility_score b.eligibility_score in
    record {
      by_type = elim (Bool-cases (a.scheme.benefit_type == b.scheme.benefit_type)) [
        | inl e ↦ rw (same.0 e) (str_leb_refl b.scheme.benefit_type)
        | inr e ↦ ground (arith, h, e)
      ];
      by_score = λ e. ground (arith, h, same.1 e);
      by_name = λ e k. ground (arith, h, same.1 e, equal.1 k);
    }

near_miss_le-IsNearMissBefore :
    (a b : NearMissScheme) → near_miss_le a b ≡ true → IsNearMissBefore a b
unfolding near_miss_le
near_miss_le-IsNearMissBefore a b h =
    let equal = nat_eq.test_iff a.eligibility_score b.eligibility_score in
    record { by_score = ground (arith, h); by_name = λ k. ground (arith, h, equal.1 k) }

-- Every element stands before each later one.
module _ {A : Type 0} (Before : A → A → Type 0) where
  abbrev pub AreOrdered : List A → Type 0
  AreOrdered [] = Unit
  AreOrdered (x ∷ xs) = ((y : A) → Member y xs → Before x y) × AreOrdered xs

  IsSorted-AreOrdered :
      (le : A → A → Bool) (xs : List A)
      → ((a b : A) → le a b ≡ true → Before a b)
      → IsSorted le xs
      → AreOrdered xs
  IsSorted-AreOrdered le [] h s = tt
  IsSorted-AreOrdered le (x ∷ xs) h (below, s) =
      ((λ y m. h x y (below y m)), IsSorted-AreOrdered le xs h s)

pub matched_AreOrdered :
    (limit : ℕ) (xs : List MatchedScheme)
    → AreOrdered IsMatchedBefore (take limit (sort matched_le xs))
matched_AreOrdered limit xs =
    IsSorted-AreOrdered IsMatchedBefore matched_le (take limit (sort matched_le xs))
      matched_le-IsMatchedBefore
      (IsSorted-take matched_le limit (sort matched_le xs)
        (sort-IsSorted matched_le matched_le_total matched_le_trans xs))

pub near_miss_AreOrdered :
    (limit : ℕ) (xs : List NearMissScheme)
    → AreOrdered IsNearMissBefore (take limit (sort near_miss_le xs))
near_miss_AreOrdered limit xs =
    IsSorted-AreOrdered IsNearMissBefore near_miss_le (take limit (sort near_miss_le xs))
      near_miss_le-IsNearMissBefore
      (IsSorted-take near_miss_le limit (sort near_miss_le xs)
        (sort-IsSorted near_miss_le near_miss_le_total near_miss_le_trans xs))

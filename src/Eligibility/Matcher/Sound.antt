-- ===== src/Eligibility/Matcher/Sound.antt =====
-- What the response of `evaluate_profile_against_rules` (matcher.py) tells about the schemes.
use adhikar_ai.Prelude.{
  ℕ, true, ◌≤◌, ◌≡◌, refl, ap, ◌⊎◌, inl, inr, some, List, [], ◌∷◌, arith, string_eq, Bool-cases,
  length, Member, here, next, Member-take, take-Member, length-take-le, length-map,
}
use adhikar_ai.Prelude.Sorting.{Member-sort, sort-Member}
use adhikar_ai.Schema.{UserProfileInput}
use adhikar_ai.Eligibility.Criteria.{CriterionResult, near_miss, criterion_results}
use adhikar_ai.Eligibility.Criteria.Results.{FailsOnlyAt}
use adhikar_ai.Eligibility.Criteria.Spec.{IsFree, Meets}
use adhikar_ai.Eligibility.Criteria.Evaluation.{
  evaluate_scheme_matched_iff, evaluate_scheme_near_miss,
}
use adhikar_ai.Eligibility.Engine.{SchemeWithRule, evaluate_scheme, run_evaluation}
use adhikar_ai.Eligibility.Matcher.{
  MatchProfileRequest, MatchedScheme, NearMissScheme, matched_le, near_miss_le, near_miss_score,
  matched_entry, matched_of, near_miss_of, evaluate_profile_against_rules, near_miss_entry,
  scheme_summary,
}
use adhikar_ai.Eligibility.Matcher.Order.{
  AreOrdered, IsMatchedBefore, IsNearMissBefore, matched_AreOrdered, near_miss_AreOrdered,
}
use adhikar_ai.Eligibility.Matcher.Incomplete.{
  InOrderOf, no_more, take-InOrderOf, collect-InOrderOf,
}
use adhikar_ai.Eligibility.Matcher.Origin.{
  origin, arrives, HasUniqueIds, only_if_matched, only_if_near_miss,
}

near_miss_score_bounds : (n : ℕ) → (50 ≤ near_miss_score n) × (near_miss_score n ≤ 99)
unfolding near_miss_score
near_miss_score_bounds n = omega arith

the_only : {A : Type 0} {a x : A} → Member a (x ∷ []) → a ≡ x
the_only (here e) = e
the_only (next m) = elim m [ ]

near_miss_reason :
    (item : SchemeWithRule) (p : UserProfileInput) (r : CriterionResult)
    → (evaluate_scheme p item).status ≡ near_miss
    → Member r (evaluate_scheme p item).failed_criteria
    → FailsOnlyAt (criterion_results item.rule p) r
unfolding evaluate_scheme
near_miss_reason item p r h m =
    let (free, (r', e, f)) = evaluate_scheme_near_miss item.scheme.id item.rule p h in
    rw (the_only (rw e at m)) f

module _ (request : MatchProfileRequest) (rules : List SchemeWithRule)
    (unique : HasUniqueIds rules) where
  -- Every scheme that is reported as matched is one of the given schemes, and the profile receives no
  -- scheme that its rule excludes and meets the rule.
  pub matched_schemes_sound :
      (b : MatchedScheme)
      → Member b (evaluate_profile_against_rules request rules).matched_schemes
      → (item : SchemeWithRule) × Member item rules
        × (b.scheme ≡ scheme_summary item.scheme item.rule)
        × IsFree item.rule request.profile
        × Meets item.rule request.profile
  unfolding evaluate_profile_against_rules evaluate_scheme
  matched_schemes_sound b m =
      let listed = Member-sort matched_le b _ (Member-take request.limit b _ m) in
      let (item, i, h) = origin rules unique request.profile matched_of b listed in
      let (same, status) = only_if_matched _ _ b h in
      let (free, meets) =
        (evaluate_scheme_matched_iff item.scheme.id item.rule request.profile).0 status in
      (item, i, ap (λ (x : MatchedScheme). x.scheme) same, free, meets)

  -- A scheme whose rule the profile meets, with no excluded scheme received, is in the list, unless
  -- the list is filled up to the limit of the request.
  pub matched_schemes_complete :
      (item : SchemeWithRule)
      → Member item rules
      → IsFree item.rule request.profile
      → Meets item.rule request.profile
      → ((b : MatchedScheme) × Member b
            (evaluate_profile_against_rules request rules).matched_schemes
          × (b.scheme ≡ scheme_summary item.scheme item.rule))
        ⊎ (length (evaluate_profile_against_rules request rules).matched_schemes ≡ request.limit)
  unfolding evaluate_profile_against_rules evaluate_scheme
  matched_schemes_complete item m free meets =
      let e = evaluate_scheme request.profile item in
      let status =
        (evaluate_scheme_matched_iff item.scheme.id item.rule request.profile).1 (free, meets) in
      let b = matched_entry item e in
      let produced : Member b (matched_of (some item) e) = rw status (here refl) in
      let listed =
        sort-Member matched_le b _
          (arrives rules unique request.profile matched_of b item m produced) in
      elim (take-Member request.limit b _ listed) [ inl k ↦ inl (b, k, refl) | inr full ↦ inr full ]

  -- Every near miss has a score from 50 to 99 and names the one criterion of its scheme that failed,
  -- while every other criterion of the scheme is matched.
  pub near_miss_schemes_sound :
      (b : NearMissScheme)
      → Member b (evaluate_profile_against_rules request rules).near_miss_schemes
      → (item : SchemeWithRule) × (r : CriterionResult) × Member item rules
        × (b ≡ near_miss_entry item (evaluate_scheme request.profile item) r)
        × FailsOnlyAt (criterion_results item.rule request.profile) r
        × (50 ≤ b.eligibility_score)
        × (b.eligibility_score ≤ 99)
  unfolding evaluate_profile_against_rules
  near_miss_schemes_sound b m =
      let listed = Member-sort near_miss_le b _ (Member-take request.limit b _ m) in
      let (item, i, h) = origin rules unique request.profile near_miss_of b listed in
      let (status, (r, same, k)) =
        only_if_near_miss item (evaluate_scheme request.profile item) _ _ b h in
      let bounds =
        near_miss_score_bounds (length (evaluate_scheme request.profile item).matched_criteria) in
      let only = near_miss_reason item request.profile r status k in
      (item, r, i, same, only, rw same bounds.0, rw same bounds.1)

-- The three lists of the response are no longer than the limit. The matched schemes stand by the type of
-- their benefit, then by falling score, then by name; the near misses by falling score, then by name;
-- the schemes that lack information in the order in which they were given, each at most once. Every scheme
-- was evaluated.
pub response_bounds :
    (request : MatchProfileRequest) (rules : List SchemeWithRule)
    → let r = evaluate_profile_against_rules request rules in
      (length r.matched_schemes ≤ request.limit)
      × (length r.near_miss_schemes ≤ request.limit)
      × (length r.incomplete_schemes ≤ request.limit)
      × AreOrdered IsMatchedBefore r.matched_schemes
      × AreOrdered IsNearMissBefore r.near_miss_schemes
      × InOrderOf rules r.incomplete_schemes
      × (r.evaluated_scheme_count ≡ length rules)
unfolding evaluate_profile_against_rules run_evaluation
response_bounds request rules = (
  length-take-le request.limit _,
  length-take-le request.limit _,
  elim (Bool-cases request.include_incomplete) [
    | inl y ↦ rw y (length-take-le request.limit _)
    | inr n ↦ rw n (omega arith)
  ],
  matched_AreOrdered request.limit _,
  near_miss_AreOrdered request.limit _,
  elim (Bool-cases request.include_incomplete) [
    | inl y ↦
        rw y (
          take-InOrderOf request.limit rules _ (collect-InOrderOf true request.profile rules rules))
    | inr n ↦ rw n no_more
  ],
  length-map (evaluate_scheme request.profile) rules,
)

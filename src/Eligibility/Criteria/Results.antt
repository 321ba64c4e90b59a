-- ===== src/Eligibility/Criteria/Results.antt =====
-- How the list of criterion results decides the status of a scheme (criteria.py, `evaluate_scheme`).
use adhikar_ai.Prelude.{
  inl, inr, ap, ◌++◌, ◌+◌, String, ◌≡◌, refl, ◌↔◌, ◌⊎◌, List, [], ◌∷◌, arith, length, filter, All,
}
use adhikar_ai.Eligibility.Criteria.{
  near_miss, CriterionStatus, CriterionResult, SchemeStatus, is_matched, is_failed, is_undecided,
  ids, summarize,
}

abbrev pub IsMatched : CriterionResult → Type 0
IsMatched r = r.status ≡ CriterionStatus.matched

module _ (r : CriterionResult) where
  pub status_cases :
      (r.status ≡ CriterionStatus.matched)
      ⊎ ((r.status ≡ CriterionStatus.failed) ⊎ (r.status ≡ CriterionStatus.unknown))
  status_cases = ground arith

-- No criterion failed and none is unknown exactly when all are matched.
pub All-IsMatched_iff :
    (rs : List CriterionResult)
    → ((filter is_failed rs ≡ []) × (ids (filter is_undecided rs) ≡ [])) ↔ All IsMatched rs
All-IsMatched_iff [] = ((λ h. tt), (λ h. (refl, refl)))
All-IsMatched_iff (r ∷ rs) = ground (arith, All-IsMatched_iff rs, status_cases r)

-- `summarize` reports a match exactly when every criterion is matched.
pub summarize_matched_iff :
    (id : String) (rs : List CriterionResult)
    → ((summarize id rs).status ≡ SchemeStatus.matched) ↔ All IsMatched rs
unfolding summarize
summarize_matched_iff id rs = ground (arith, All-IsMatched_iff rs)

-- Each criterion is counted in exactly one of the three lists.
pub length-partition :
    (rs : List CriterionResult)
    → length (ids (filter is_matched rs))
        + length (filter is_failed rs)
        + length (ids (filter is_undecided rs))
      ≡ length rs
length-partition [] = omega arith
length-partition (r ∷ rs) = ground (arith, length-partition rs, status_cases r)

-- One criterion failed, and every other one is matched.
pub record FailsOnlyAt (rs : List CriterionResult) (r : CriterionResult) : Type 0 where
  pub before : List CriterionResult
  pub after : List CriterionResult
  pub parts : rs ≡ before ++ r ∷ after
  pub fails : r.status ≡ CriterionStatus.failed
  pub matched_before : All IsMatched before
  pub matched_after : All IsMatched after

FailsOnlyAt-cons :
    (q r : CriterionResult) (rs : List CriterionResult)
    → IsMatched q
    → FailsOnlyAt rs r
    → FailsOnlyAt (q ∷ rs) r
FailsOnlyAt-cons q r rs m f = record {
  before = q ∷ f.before;
  after = f.after;
  parts = ap (◌∷◌ q) f.parts;
  fails = f.fails;
  matched_before = (m, f.matched_before);
  matched_after = f.matched_after;
}

single_failure :
    (rs : List CriterionResult) (r : CriterionResult)
    → filter is_failed rs ≡ r ∷ []
    → ids (filter is_undecided rs) ≡ []
    → FailsOnlyAt rs r
single_failure [] r h k = absurd (ground arith)
single_failure (q ∷ rs) r h k = elim (status_cases q) [
  | inl m ↦ FailsOnlyAt-cons q r rs m (single_failure rs r (ground arith) (ground arith))
  | inr (inl f) ↦
      let same : q ≡ r = ground arith in
      record {
        before = [];
        after = rs;
        parts = ap (λ x. x ∷ rs) same;
        fails = rw (← same) f;
        matched_before = tt;
        matched_after = (All-IsMatched_iff rs).0 (ground arith, ground arith);
      }
  | inr (inr u) ↦ absurd (ground arith)
]

pub summarize_near_miss :
    (id : String) (rs : List CriterionResult)
    → (summarize id rs).status ≡ near_miss
    → (r : CriterionResult) × ((summarize id rs).failed_criteria ≡ r ∷ []) × FailsOnlyAt rs r
unfolding summarize
summarize_near_miss id rs h = failures (filter is_failed rs) refl
  where
    failures :
        (fs : List CriterionResult)
        → filter is_failed rs ≡ fs
        → (r : CriterionResult) × (filter is_failed rs ≡ r ∷ []) × FailsOnlyAt rs r
    failures [] e = absurd (ground arith)
    failures (f ∷ []) e = (f, e, single_failure rs f e (ground arith))
    failures (f ∷ g ∷ fs) e = absurd (ground arith)

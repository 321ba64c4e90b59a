-- ===== src/Eligibility/Matcher/Incomplete.antt =====
-- The order of the schemes that lack information, in the response of matcher.py.
use adhikar_ai.Prelude.{
  ℕ, zero, suc, Bool, true, false, String, ◌≡◌, refl, ◌∙◌, inl, inr, Option, none, some, List, [],
  ◌∷◌, ◌++◌, map, take, arith, string_eq, if◌then◌else◌,
}
use adhikar_ai.Prelude.Dict.{lookup}
use adhikar_ai.Schema.{UserProfileInput}
use adhikar_ai.Eligibility.Criteria.{SchemeEvaluation, SchemeStatus, incomplete}
use adhikar_ai.Eligibility.Engine.{SchemeWithRule, evaluate_scheme}
use adhikar_ai.Eligibility.Matcher.{
  IncompleteScheme, index_from, collect, incomplete_of, incomplete_entry,
}
use adhikar_ai.Eligibility.Matcher.Origin.{index-Member, scheme_id-evaluate_scheme}

-- The entries are about some of the schemes, each at most once where it stands, in the schemes' order.
pub data InOrderOf : List SchemeWithRule → List IncompleteScheme → Type 0 where
  no_more : {rules : List SchemeWithRule} → InOrderOf rules []
  passed_over :
      {item : SchemeWithRule} {rules : List SchemeWithRule} {xs : List IncompleteScheme}
      → InOrderOf rules xs
      → InOrderOf (item ∷ rules) xs
  listed :
      {item : SchemeWithRule} {rules : List SchemeWithRule} {x : IncompleteScheme}
      {xs : List IncompleteScheme}
      → x.scheme.id ≡ item.scheme.id
      → InOrderOf rules xs
      → InOrderOf (item ∷ rules) (x ∷ xs)

pub take-InOrderOf :
    (n : ℕ) (rules : List SchemeWithRule) (xs : List IncompleteScheme)
    → InOrderOf rules xs
    → InOrderOf rules (take n xs)
take-InOrderOf zero rules xs h = no_more
take-InOrderOf (suc n) rules [] no_more = no_more
take-InOrderOf (suc n) (item ∷ rules) xs (passed_over h) =
    passed_over (take-InOrderOf (suc n) rules xs h)
take-InOrderOf (suc n) (item ∷ rules) (x ∷ xs) (listed e h) = listed e (take-InOrderOf n rules xs h)

module _ (include : Bool) (item : SchemeWithRule) (rules : List SchemeWithRule)
    (xs : List IncompleteScheme) (h : InOrderOf rules xs) where
  status-InOrderOf :
      (status : SchemeStatus) (wanted : Bool) (x : IncompleteScheme)
      → x.scheme.id ≡ item.scheme.id
      → InOrderOf
          (item ∷ rules)
          ((elim status [ incomplete ↦ if wanted then x ∷ [] else [] | _ ↦ [] ]) ++ xs)
  status-InOrderOf incomplete true x e = listed e h
  status-InOrderOf incomplete false x e = passed_over h
  status-InOrderOf _ wanted x e = passed_over h

  round-InOrderOf :
      (found : Option SchemeWithRule) (e : SchemeEvaluation)
      → ((i : SchemeWithRule) → found ≡ some i → i.scheme.id ≡ item.scheme.id)
      → InOrderOf (item ∷ rules) (incomplete_of include found e ++ xs)
  round-InOrderOf none e same = passed_over h
  round-InOrderOf (some i) e same =
      status-InOrderOf e.status include (incomplete_entry i e) (same i refl)

found_id :
    (all : List SchemeWithRule) (id : String) (i : SchemeWithRule)
    → lookup id (index_from [] all) ≡ some i
    → i.scheme.id ≡ id
unfolding lookup
found_id all id i found = elim (index-Member all [] id i found) [
  | inl none_yet ↦ absurd (ground (arith, none_yet))
  | inr (m, e) ↦ e
]

-- The loop goes through the schemes in their order.
pub collect-InOrderOf :
    (include : Bool) (p : UserProfileInput) (all rules : List SchemeWithRule)
    → InOrderOf rules
        (collect (incomplete_of include) (index_from [] all) (map (evaluate_scheme p) rules))
unfolding collect
collect-InOrderOf include p all [] = no_more
collect-InOrderOf include p all (item ∷ rules) =
    let e = evaluate_scheme p item in
    round-InOrderOf include item rules
      (collect (incomplete_of include) (index_from [] all) (map (evaluate_scheme p) rules))
      (collect-InOrderOf include p all rules) (lookup e.scheme_id (index_from [] all)) e
      (λ i found. found_id all e.scheme_id i found ∙ scheme_id-evaluate_scheme p item)

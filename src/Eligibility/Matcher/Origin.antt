-- ===== src/Eligibility/Matcher/Origin.antt =====
-- Where the entries of the response of matcher.py come from: each from one rule and its evaluation.
use adhikar_ai.Prelude.{
  String, ◌≡◌, refl, sym, ap, ◌∙◌, ◌⊎◌, inl, inr, Option, some, List, [], ◌∷◌, arith, ◌==◌,
  string_eq, eq_iff, Bool-cases, Member, here, next, Member-append, Member-append_left,
  Member-append_right, Member-map, Member-map_of,
}
use adhikar_ai.Prelude.Dict.{lookup, insert, lookup-insert}
use adhikar_ai.Schema.{UserProfileInput}
use adhikar_ai.Eligibility.Criteria.{
  SchemeEvaluation, SchemeStatus, CriterionResult, near_miss, summarize, is_excluded,
  criterion_results,
}
use adhikar_ai.Eligibility.Criteria
use adhikar_ai.Eligibility.Engine.{SchemeWithRule, run_evaluation, evaluate_scheme}
use adhikar_ai.Eligibility.Matcher.{
  MatchedScheme, NearMissScheme, index_from, collect, first_failure, near_miss_entry,
}

-- Two rules of one list with the same scheme id are one: the id is the primary key of the schemes.
pub record HasUniqueIds (rules : List SchemeWithRule) : Type 0 where
  pub same :
      (a b : SchemeWithRule) → Member a rules → Member b rules → a.scheme.id ≡ b.scheme.id → a ≡ b

-- What the dictionary by id gives was put there.
pub index-Member :
    (items : List SchemeWithRule) (d : List (String × SchemeWithRule)) (id : String)
    (item : SchemeWithRule)
    → lookup id (index_from d items) ≡ some item
    → (lookup id d ≡ some item) ⊎ (Member item items × (item.scheme.id ≡ id))
index-Member [] d id item h = inl h
index-Member (x ∷ items) d id item h =
    elim (index-Member items (insert x.scheme.id x d) id item h) [
      | inl k ↦ elim (Bool-cases (x.scheme.id == id)) [
        | inl same ↦
            let e : x ≡ item = ground (arith, lookup-insert x.scheme.id id x d, k, same) in
            inr (here (sym e), rw (← e) ((eq_iff x.scheme.id id).0 same))
        | inr other ↦ inl (ground (arith, lookup-insert x.scheme.id id x d, k, other))
      ]
      | inr (m, e) ↦ inr (next m, e)
    ]

pub is_kept :
    (items : List SchemeWithRule) (d : List (String × SchemeWithRule)) (id : String)
    {item : SchemeWithRule}
    → lookup id d ≡ some item
    → (found : SchemeWithRule) × (lookup id (index_from d items) ≡ some found)
is_kept [] d id {item} h = (item, h)
is_kept (x ∷ items) d id {item} h = elim (Bool-cases (x.scheme.id == id)) [
  | inl same ↦
      is_kept items (insert x.scheme.id x d) id {item = x}
        (ground (arith, lookup-insert x.scheme.id id x d, same))
  | inr other ↦
      is_kept items (insert x.scheme.id x d) id {item = item}
        (ground (arith, lookup-insert x.scheme.id id x d, other, h))
]

-- Every rule's id is in the dictionary.
pub Member-index :
    (items : List SchemeWithRule) (d : List (String × SchemeWithRule)) (item : SchemeWithRule)
    → Member item items
    → (found : SchemeWithRule) × (lookup item.scheme.id (index_from d items) ≡ some found)
Member-index [] d item m = elim m [ ]
Member-index (x ∷ items) d item (here e) =
    is_kept items (insert x.scheme.id x d) item.scheme.id {item = x} (
      ground
        (arith, lookup-insert x.scheme.id item.scheme.id x d, e, eq_iff x.scheme.id item.scheme.id))
Member-index (x ∷ items) d item (next m) = Member-index items (insert x.scheme.id x d) item m

module _ {B : Type 0} (f : Option SchemeWithRule → SchemeEvaluation → List B)
    (by_id : List (String × SchemeWithRule)) where
  pub Member-collect :
      (es : List SchemeEvaluation) (b : B)
      → Member b (collect f by_id es)
      → (e : SchemeEvaluation) × Member e es × Member b (f (lookup e.scheme_id by_id) e)
  unfolding collect
  Member-collect [] b m = elim m [ ]
  Member-collect (e ∷ es) b m = elim (Member-append b (f (lookup e.scheme_id by_id) e) _ m) [
    | inl now ↦ (e, here refl, now)
    | inr later ↦ let (e', k, found) = Member-collect es b later in (e', next k, found)
  ]

  pub collect-Member :
      (es : List SchemeEvaluation) (e : SchemeEvaluation) (b : B)
      → Member e es
      → Member b (f (lookup e.scheme_id by_id) e)
      → Member b (collect f by_id es)
  unfolding collect
  collect-Member [] e b m h = elim m [ ]
  collect-Member (x ∷ es) e b (here same) h =
      Member-append_left b (f (lookup x.scheme_id by_id) x) _ (rw same at h)
  collect-Member (x ∷ es) e b (next m) h =
      Member-append_right b (f (lookup x.scheme_id by_id) x) _ (collect-Member es e b m h)

pub scheme_id-evaluate_scheme :
    (p : UserProfileInput) (item : SchemeWithRule)
    → (evaluate_scheme p item).scheme_id ≡ item.scheme.id
unfolding evaluate_scheme Criteria.evaluate_scheme
scheme_id-evaluate_scheme p item = ground arith

module _ (rules : List SchemeWithRule) (unique : HasUniqueIds rules) (p : UserProfileInput) where
  -- The round of the loop for an evaluation finds the rule that was evaluated.
  pub by_id-evaluate_scheme :
      (item : SchemeWithRule)
      → Member item rules
      → lookup (evaluate_scheme p item).scheme_id (index_from [] rules) ≡ some item
  unfolding lookup
  by_id-evaluate_scheme item m =
      let (found, hit) = Member-index rules [] item m in
      rw (scheme_id-evaluate_scheme p item) (elim (index-Member rules [] item.scheme.id found hit) [
        | inl none_yet ↦ cc
        | inr (k, same_id) ↦ hit ∙ ap some (unique.same found item k m same_id)
      ])

  module _ {B : Type 0} (f : Option SchemeWithRule → SchemeEvaluation → List B) where
    -- An entry of a list comes from a rule and its evaluation.
    pub origin :
        (b : B)
        → Member b (collect f (index_from [] rules) (run_evaluation p rules))
        → (item : SchemeWithRule) × Member item rules
          × Member b (f (some item) (evaluate_scheme p item))
    unfolding run_evaluation
    origin b m =
        let (e, k, h) = Member-collect f (index_from [] rules) (run_evaluation p rules) b m in
        let (item, i, same) = Member-map (evaluate_scheme p) e rules k in
        (item, i, rw (by_id-evaluate_scheme item i) at (rw same at h))

    pub arrives :
        (b : B) (item : SchemeWithRule)
        → Member item rules
        → Member b (f (some item) (evaluate_scheme p item))
        → Member b (collect f (index_from [] rules) (run_evaluation p rules))
    unfolding run_evaluation
    arrives b item m h =
        collect-Member f (index_from [] rules) (run_evaluation p rules) (evaluate_scheme p item) b
          (Member-map_of (evaluate_scheme p) item rules m) (rw (by_id-evaluate_scheme item m) h)

pub only_if_matched :
    (s : SchemeStatus) (x b : MatchedScheme)
    → Member b (elim s [ SchemeStatus.matched ↦ x ∷ [] | _ ↦ [] ])
    → (b ≡ x) × (s ≡ SchemeStatus.matched)
only_if_matched SchemeStatus.matched x b (here e) = (e, refl)
only_if_matched SchemeStatus.matched x b (next m) = elim m [ ]
only_if_matched _ x b m = elim m [ ]

pub only_if_near_miss :
    (item : SchemeWithRule) (e : SchemeEvaluation) (s : SchemeStatus) (fs : List CriterionResult)
    (b : NearMissScheme)
    → Member b (elim s [ near_miss ↦ first_failure item e fs | _ ↦ [] ])
    → (s ≡ near_miss) × ((r : CriterionResult) × (b ≡ near_miss_entry item e r) × Member r fs)
only_if_near_miss item e near_miss (f ∷ fs) b (here same) = (refl, (f, same, here refl))
only_if_near_miss item e near_miss (f ∷ fs) b (next m) = elim m [ ]
only_if_near_miss item e near_miss [] b m = elim m [ ]
only_if_near_miss item e _ fs b m = elim m [ ]

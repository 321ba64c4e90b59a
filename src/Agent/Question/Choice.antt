-- ===== src/Agent/Question/Choice.antt =====
-- What question_selection.py asks next: an open field that some candidate rule depends on, while there is
-- one.
use adhikar_ai.Prelude.{
  ℕ, String, true, false, ◌≡◌, ◌⊎◌, refl, inl, inr, List, [], ◌∷◌, ◌==◌, string_eq, Member, here,
  next, All, if◌then◌else◌, Bool-cases, arith,
}
use adhikar_ai.Prelude.Dict.{insert}
use adhikar_ai.Schema.{EligibilityCriteria}
use adhikar_ai.Agent.{fields_referenced_by_rule}
use adhikar_ai.Agent.Question.{
  AgentState, is_open, key_of, score_fields, score_rules, max_from, is_better, fallback_question,
  choose, select_next_question,
}

insert-nonempty : (k : String) (v : ℕ) (d : List (String × ℕ)) → insert k v d ≡ [] → ⊥
unfolding insert
insert-nonempty k v [] h = ground arith
insert-nonempty k v (e ∷ d) h = ground arith

module _ (P : String → Type 0) where
  abbrev Keys : List (String × ℕ) → Type 0
  Keys d = All (λ (e : String × ℕ). P e.0) d

  Keys-insert : (k : String) (v : ℕ) (d : List (String × ℕ)) → P k → Keys d → Keys (insert k v d)
  unfolding insert
  Keys-insert k v [] p h = (p, tt)
  Keys-insert k v ((j, w) ∷ d) p (q, h) = elim (Bool-cases (j == k)) [
    | inl e ↦ rw e (q, h)
    | inr e ↦ rw e (q, Keys-insert k v d p h)
  ]

  Keys-score_fields :
      (state : AgentState) (rule : EligibilityCriteria) (fields : List String)
      (scores : List (String × ℕ))
      → ((f : String) → Member f fields → is_open state f ≡ true → P f)
      → Keys scores
      → Keys (score_fields state rule fields scores)
  unfolding score_fields
  Keys-score_fields state rule [] scores p h = h
  Keys-score_fields state rule (f ∷ fields) scores p h = elim (Bool-cases (is_open state f)) [
    | inl o ↦ rw o (
        Keys-score_fields state rule fields _ (λ g m. p g (next m))
          (Keys-insert f _ scores (p f (here refl) o) h))
    | inr o ↦ rw o (Keys-score_fields state rule fields scores (λ g m. p g (next m)) h)
  ]

  Keys-score_rules :
      (state : AgentState) (rules : List EligibilityCriteria) (scores : List (String × ℕ))
      → ((rule : EligibilityCriteria) (f : String)
          → Member rule rules
          → Member f (fields_referenced_by_rule rule)
          → is_open state f ≡ true
          → P f)
      → Keys scores
      → Keys (score_rules state rules scores)
  unfolding score_rules
  Keys-score_rules state [] scores p h = h
  Keys-score_rules state (rule ∷ rules) scores p h =
      Keys-score_rules state rules _ (λ r f m. p r f (next m))
        (Keys-score_fields state rule _ scores (λ f m. p rule f (here refl) m) h)

  Keys-max_from :
      (best : String × ℕ) (scores : List (String × ℕ))
      → P best.0
      → Keys scores
      → P (max_from best scores).0
  unfolding max_from
  Keys-max_from best [] p h = p
  Keys-max_from best (entry ∷ scores) p (q, h) =
      let better : P (if is_better best entry then entry else best).0 =
        elim (Bool-cases (is_better best entry)) [ inl b ↦ rw b q | inr b ↦ rw b p ] in
      Keys-max_from (if is_better best entry then entry else best) scores better h

module _ (state : AgentState) where
  score_fields-empty :
      (rule : EligibilityCriteria) (fields : List String) (scores : List (String × ℕ))
      → score_fields state rule fields scores ≡ []
      → (scores ≡ []) × All (λ f. is_open state f ≡ false) fields
  unfolding score_fields
  score_fields-empty rule [] scores h = (h, tt)
  score_fields-empty rule (f ∷ fields) scores h = elim (Bool-cases (is_open state f)) [
    | inl o ↦
        let (empty, _) = score_fields-empty rule fields _ (rw o at h) in
        absurd (insert-nonempty f _ scores empty)
    | inr o ↦
        let (empty, closed) = score_fields-empty rule fields scores (rw o at h) in
        (empty, (o, closed))
  ]

  score_rules-empty :
      (rules : List EligibilityCriteria) (scores : List (String × ℕ))
      → score_rules state rules scores ≡ []
      → (scores ≡ [])
        × All (λ r. All (λ f. is_open state f ≡ false) (fields_referenced_by_rule r)) rules
  unfolding score_rules
  score_rules-empty [] scores h = (h, tt)
  score_rules-empty (rule ∷ rules) scores h =
      let (none_scored, later) = score_rules-empty rules _ h in
      let (empty, closed) = score_fields-empty rule _ scores none_scored in (empty, (closed, later))

  -- A field that a rule depends on, and that is neither asked nor known.
  abbrev pub IsCandidate : List EligibilityCriteria → String → Type 0
  IsCandidate rules field =
      (rule : EligibilityCriteria) × Member rule rules
      × Member field (fields_referenced_by_rule rule)
      × (is_open state field ≡ true)

  -- The next question asks for a candidate field, under the key by which it is remembered; only when no
  -- field of any rule is a candidate it offers to show the results.
  pub select_next_question-IsCandidate :
      (rules : List EligibilityCriteria)
      → let question = select_next_question state rules in
        (IsCandidate rules question.field × (question.asked_key ≡ key_of state question.field))
        ⊎ ((question ≡ fallback_question state)
            × All (λ r. All (λ f. is_open state f ≡ false) (fields_referenced_by_rule r)) rules)
  unfolding select_next_question
  select_next_question-IsCandidate rules =
      let scores = score_rules state rules [] in
      let candidates : Keys (IsCandidate rules) scores =
        Keys-score_rules (IsCandidate rules) state rules [] (λ r f m k o. (r, m, k, o)) tt in
      chosen scores candidates (λ h. (score_rules-empty rules [] h).1)
    where
      chosen :
          (scores : List (String × ℕ))
          → Keys (IsCandidate rules) scores
          → (scores ≡ []
              → All (λ r. All (λ f. is_open state f ≡ false) (fields_referenced_by_rule r)) rules)
          → (IsCandidate rules (choose state scores).field
              × ((choose state scores).asked_key ≡ key_of state (choose state scores).field))
            ⊎ ((choose state scores ≡ fallback_question state)
                × All (λ r. All (λ f. is_open state f ≡ false) (fields_referenced_by_rule r)) rules)
      chosen [] keys closed = inr (refl, closed refl)
      chosen (entry ∷ scores) (p, keys) closed =
          inl (Keys-max_from (IsCandidate rules) entry scores p keys, refl)

-- ===== src/Documents/Sufficiency.antt =====
-- When the documents of a citizen suffice for a scheme, by document_matcher.py.
use adhikar_ai.Prelude.{
  String, Bool, true, false, not, ◌≡◌, ◌↔◌, ◌⊎◌, inl, inr, refl, Option, none, some, List, [], ◌∷◌,
  ◌==◌, string_eq, find, find-some, find-none, Member, here, next, All, All-Member, Member-filter,
  Bool-cases, Option-cases, arith,
}
use adhikar_ai.Prelude.Text.{is_empty, lower, strip}
use adhikar_ai.Schema.{DocumentSubstitute, EligibilityCriteria, RequiredDocument}
use adhikar_ai.Documents.{
  normalize_document_name, matches, exact_match, truthy, substitute_match, Findings,
  missing_document, check_document, check_required, is_nil, nonblank, check_document_sufficiency,
}

-- The item goes under the name, up to letter case, white space and the known other names.
abbrev pub GoesUnder : String → String → Type 0
GoesUnder item name = normalize_document_name item ≡ normalize_document_name name

-- The item serves as the document: under its name or under that of a substitute.
abbrev pub Serves : String → RequiredDocument → Type 0
Serves item document =
    GoesUnder item document.name
    ⊎ ((substitute : DocumentSubstitute) × Member substitute document.accepted_substitutes
        × GoesUnder item substitute.name)

exact-GoesUnder :
    (item name : String) → lower (strip item) ≡ lower (strip name) → GoesUnder item name
unfolding normalize_document_name
exact-GoesUnder item name h = rw h refl

-- A text that is not blank counts as true.
truthy-nonblank :
    (o : Option String)
    → ((s : String) → o ≡ some s → not (is_empty (strip s)) ≡ true)
    → truthy o ≡ o
unfolding strip
truthy-nonblank none h = refl
truthy-nonblank (some String.[]) h = absurd (let k = h "" refl in ground arith)
truthy-nonblank (some (String.◌∷◌ c s)) h = refl

module _ (documents_available : List String) where
  abbrev pub available : List String
  available = nonblank documents_available

  -- What a search over the available items finds is not blank, so its test for truth is one for None.
  truthy-find : (p : String → Bool) → truthy (find p available) ≡ find p available
  truthy-find p = truthy-nonblank (find p available) λ s e.
      (Member-filter (λ item. not (is_empty (strip item))) s documents_available
        (find-some p s available e).0).1

  matches-some :
      (name item : String)
      → truthy (matches name available) ≡ some item
      → Member item available × GoesUnder item name
  unfolding matches
  matches-some name item h =
      let p = λ (i : String). normalize_document_name i == normalize_document_name name in
      let (m, same) = find-some p item available (ground (arith, truthy-find p)) in
      (m, (string_eq.test_iff (normalize_document_name item) (normalize_document_name name)).0 same)

  matches-none :
      (name item : String)
      → truthy (matches name available) ≡ none
      → Member item available
      → GoesUnder item name
      → ⊥
  unfolding matches
  matches-none name item h m same =
      let p = λ (i : String). normalize_document_name i == normalize_document_name name in
      let other = find-none p item available (ground (arith, truthy-find p)) m in
      ground
        (arith, string_eq.test_iff (normalize_document_name item) (normalize_document_name name))

  exact_match-some :
      (name item : String)
      → truthy (exact_match name available) ≡ some item
      → Member item available × GoesUnder item name
  unfolding exact_match
  exact_match-some name item h =
      let p = λ (i : String). lower (strip i) == lower (strip name) in
      let (m, same) = find-some p item available (ground (arith, truthy-find p)) in
      (
        m,
        exact-GoesUnder item name
            ((string_eq.test_iff (lower (strip item)) (lower (strip name))).0 same),
      )

  substitute_match-some :
      (substitutes : List DocumentSubstitute) (name item : String)
      → substitute_match substitutes available ≡ some (name, item)
      → Member item available
        × (s : DocumentSubstitute) × Member s substitutes
        × GoesUnder item s.name
  unfolding substitute_match
  substitute_match-some [] name item h = absurd (ground arith)
  substitute_match-some (s ∷ substitutes) name item h =
      elim (Option-cases (truthy (matches s.name available))) [
        | inl e ↦
            let (m, s', k, g) = substitute_match-some substitutes name item (ground arith) in
            (m, s', next k, g)
        | inr (i, e) ↦ let (m, g) = matches-some s.name item (ground arith) in (m, s, here refl, g)
      ]

  substitute_match-none :
      (substitutes : List DocumentSubstitute)
      → substitute_match substitutes available ≡ none
      → All (λ s. truthy (matches s.name available) ≡ none) substitutes
  unfolding substitute_match
  substitute_match-none [] h = tt
  substitute_match-none (s ∷ substitutes) h = ground (arith, substitute_match-none substitutes)

  -- What the loop does with a document and the findings of the later ones.
  pub data Turn (document : RequiredDocument) (later now : Findings) : Type 0 where
    optional : document.is_mandatory ≡ false → now ≡ later → Turn document later now
    held :
        (item : String)
        → document.is_mandatory ≡ true
        → Member item available
        → Serves item document
        → now.missing ≡ later.missing
        → now.matched_documents ≡ item ∷ later.matched_documents
        → Turn document later now
    lacking :
        document.is_mandatory ≡ true
        → ((item : String) → Member item available → Serves item document → ⊥)
        → now ≡ record later { missing = missing_document document ∷ later.missing }
        → Turn document later now

  pub check_document-Turn :
      (document : RequiredDocument) (later : Findings)
      → Turn document later (check_document document available later)
  unfolding check_document
  check_document-Turn document later = elim (Bool-cases document.is_mandatory) [
    | inr o ↦ optional o (ground arith)
    | inl m ↦ elim (Option-cases (truthy (exact_match document.name available))) [
      | inr (item, e) ↦
          let (k, g) = exact_match-some document.name item e in
          held item m k (inl g) (ground arith) (ground arith)
      | inl e ↦ elim (Option-cases (substitute_match document.accepted_substitutes available)) [
        | inr ((name, item), f) ↦
            let found = substitute_match-some document.accepted_substitutes name item f in
            held item m found.0 (inr (found.1, found.2, found.3)) (ground arith) (ground arith)
        | inl f ↦ elim (Option-cases (truthy (matches document.name available))) [
          | inr (item, g) ↦
              let (k, same) = matches-some document.name item g in
              held item m k (inl same) (ground arith) (ground arith)
          | inl g ↦ lacking m (none_serves f g) (ground arith)
        ]
      ]
    ]
  ]
    where
      none_serves :
          substitute_match document.accepted_substitutes available ≡ none
          → truthy (matches document.name available) ≡ none
          → (item : String) → Member item available
          → Serves item document
          → ⊥
      none_serves f g item k (inl same) = matches-none document.name item g k same
      none_serves f g item k (inr (s, l, same)) =
          matches-none s.name item
            (All-Member _ document.accepted_substitutes
              (substitute_match-none document.accepted_substitutes f) l)
            k same

  -- A mandatory document is served by an item that is not blank.
  abbrev pub IsCovered : RequiredDocument → Type 0
  IsCovered document =
      document.is_mandatory ≡ true
      → (item : String) × Member item (nonblank documents_available) × Serves item document

  check_required-IsCovered :
      (documents : List RequiredDocument)
      → (is_nil (check_required documents available).missing ≡ true) ↔ All IsCovered documents
  unfolding check_required
  check_required-IsCovered [] = ground arith
  check_required-IsCovered (d ∷ documents) =
      let later = check_required documents available in
      let ih = check_required-IsCovered documents in
      elim (check_document-Turn d later) [
        | optional o same ↦ (
          λ h. (λ m. absurd (ground arith), ih.0 (ground arith)),
          λ (c, cs). let k = ih.1 cs in ground arith,
        )
        | held item m k s same _ ↦ (
          λ h. (λ _. (item, k, s), ih.0 (ground arith)),
          λ (c, cs). let l = ih.1 cs in ground arith,
        )
        | lacking m none_serves same ↦ (
          λ h. absurd (ground arith),
          λ (c, cs). let (item, k, s) = c m in absurd (none_serves item k s),
        )
      ]

  -- The documents suffice exactly when each mandatory one is covered: some item of the citizen's that is
  -- not blank goes under its name or under the name of one of its substitutes.
  pub check_document_sufficiency_iff :
      (criteria : EligibilityCriteria)
      → ((check_document_sufficiency criteria documents_available).is_sufficient ≡ true)
        ↔ All IsCovered criteria.required_documents
  unfolding check_document_sufficiency
  check_document_sufficiency_iff criteria = check_required-IsCovered criteria.required_documents

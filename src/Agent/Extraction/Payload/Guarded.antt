-- ===== src/Agent/Extraction/Payload/Guarded.antt =====
-- What a language model cannot bring in, whatever it answers: agent/extraction.py.
use mathlib.Core.Path.{subst}
use adhikar_ai.Prelude.{
  ℕ, zero, suc, String, true, false, ◌≡◌, ◌⊎◌, refl, inl, inr, Option, none, some, List, [], ◌∷◌,
  All, All-append, Option-cases, Bool-cases, contains, string_eq, arith,
}
use adhikar_ai.Value.{Value, Items, Fields, null, boolean, number, text, array, object, nil, cons}
use adhikar_ai.Prelude.Int.{pos, negsuc}
use adhikar_ai.Agent.Confidence.{IsAtMostOne, at_most_one-IsAtMostOne, float_of_text-IsAtMostOne}
use adhikar_ai.Agent.Facts.{ExtractedFact, ExtractedFacts}
use adhikar_ai.Agent.Extraction.Structured.{extract, is_structured}
use adhikar_ai.Agent.Extraction.Payload.{
  get_or, ModelSettings, is_sensitive_field_or_value, confidence_of, kept, fact_from_payload,
  facts_of_items, facts_of_value, facts_from_payload, attempt, ask_model, extract_facts,
}

pub record IsGuarded (fact : ExtractedFact) : Type 0 where
  pub not_sensitive : is_sensitive_field_or_value fact.field fact.value ≡ false
  pub sure_at_most : IsAtMostOne fact.confidence

abbrev pub AreGuarded : ExtractedFacts → Type 0
AreGuarded found = All IsGuarded found.facts × All IsGuarded found.needs_confirmation

confidence_of-IsAtMostOne : (v : Value) → IsAtMostOne (confidence_of v)
unfolding confidence_of
confidence_of-IsAtMostOne null = inr (0, (refl, omega arith))
confidence_of-IsAtMostOne (boolean true) = inr (100, (refl, omega arith))
confidence_of-IsAtMostOne (boolean false) = inr (0, (refl, omega arith))
confidence_of-IsAtMostOne (number (pos n)) = at_most_one-IsAtMostOne n
confidence_of-IsAtMostOne (number (negsuc n)) = inr (0, (refl, omega arith))
confidence_of-IsAtMostOne (text s) = float_of_text-IsAtMostOne s
confidence_of-IsAtMostOne (array xs) = inr (0, (refl, omega arith))
confidence_of-IsAtMostOne (object fs) = inr (0, (refl, omega arith))

fact_from_payload-IsGuarded : (payload : Fields) → All IsGuarded (kept (fact_from_payload payload))
unfolding fact_from_payload
fact_from_payload-IsGuarded payload =
    ground (arith, confidence_of-IsAtMostOne (get_or "confidence" (number (pos 0)) payload))

facts_of_items-IsGuarded : (items : Items) → All IsGuarded (facts_of_items items)
unfolding facts_of_items
facts_of_items-IsGuarded nil = tt
facts_of_items-IsGuarded (cons (object fs) items) =
    All-append IsGuarded (kept (fact_from_payload fs)) (facts_of_items items)
      (fact_from_payload-IsGuarded fs) (facts_of_items-IsGuarded items)
facts_of_items-IsGuarded (cons null items) = facts_of_items-IsGuarded items
facts_of_items-IsGuarded (cons (boolean b) items) = facts_of_items-IsGuarded items
facts_of_items-IsGuarded (cons (number n) items) = facts_of_items-IsGuarded items
facts_of_items-IsGuarded (cons (text s) items) = facts_of_items-IsGuarded items
facts_of_items-IsGuarded (cons (array xs) items) = facts_of_items-IsGuarded items

facts_of_value-AreGuarded :
    (v : Value) (facts : List ExtractedFact) → facts_of_value v ≡ some facts → All IsGuarded facts
facts_of_value-AreGuarded null facts h = absurd (ground arith)
facts_of_value-AreGuarded (boolean b) facts h = absurd (ground arith)
facts_of_value-AreGuarded (number n) facts h = absurd (ground arith)
facts_of_value-AreGuarded (text s) [] h = tt
facts_of_value-AreGuarded (text s) (f ∷ facts) h = absurd (ground arith)
facts_of_value-AreGuarded (object fs) [] h = tt
facts_of_value-AreGuarded (object fs) (f ∷ facts) h = absurd (ground arith)
facts_of_value-AreGuarded (array items) facts h =
    let same : facts_of_items items ≡ facts = ground arith in
    subst (All IsGuarded) same (facts_of_items-IsGuarded items)

facts_from_payload-AreGuarded :
    (payload : Value) (found : ExtractedFacts)
    → facts_from_payload payload ≡ some found
    → AreGuarded found
unfolding facts_from_payload
facts_from_payload-AreGuarded (object payload) found h =
    let facts = get_or "facts" (array nil) payload in
    let confirmation = get_or "needs_confirmation" (array nil) payload in
    (
      facts_of_value-AreGuarded facts found.facts (ground arith),
      facts_of_value-AreGuarded confirmation found.needs_confirmation (ground arith),
    )
facts_from_payload-AreGuarded null found h = absurd (ground arith)
facts_from_payload-AreGuarded (boolean b) found h = absurd (ground arith)
facts_from_payload-AreGuarded (number n) found h = absurd (ground arith)
facts_from_payload-AreGuarded (text s) found h = absurd (ground arith)
facts_from_payload-AreGuarded (array xs) found h = absurd (ground arith)

attempt-AreGuarded :
    (answer : Option Value) (found : ExtractedFacts)
    → attempt answer ≡ some found
    → AreGuarded found
unfolding attempt
attempt-AreGuarded none found h = absurd (ground arith)
attempt-AreGuarded (some payload) found h =
    facts_from_payload-AreGuarded payload found (ground arith)

ask_model-AreGuarded :
    (answers : ℕ → Option Value) (n left : ℕ) (deterministic : ExtractedFacts)
    → (ask_model answers n left deterministic ≡ deterministic)
      ⊎ AreGuarded (ask_model answers n left deterministic)
unfolding ask_model
ask_model-AreGuarded answers n zero deterministic = inl refl
ask_model-AreGuarded answers n (suc left) deterministic =
    elim (Option-cases (attempt (answers n))) [
      | inl e ↦ rw (e, ask_model) (ask_model-AreGuarded answers (suc n) left deterministic)
      | inr (found, e) ↦ rw (e, ask_model) (inr (attempt-AreGuarded (answers n) found e))
    ]

-- Whatever the model answers, and however often it is asked: the facts are those of the deterministic
-- extractor, or none of them has a sensitive field or value or a confidence above 1; a
-- confidence may be NaN.
pub extract_facts-AreGuarded :
    (settings : ModelSettings) (answers : ℕ → Option Value) (message : String)
    → (extract_facts settings answers message ≡ extract message)
      ⊎ AreGuarded (extract_facts settings answers message)
unfolding extract_facts
extract_facts-AreGuarded settings answers message = elim (Bool-cases (is_structured message)) [
  | inl e ↦ rw e (inl refl)
  | inr e ↦ elim (Bool-cases (contains settings.llm_provider ("ollama" ∷ "groq" ∷ []))) [
    | inl f ↦
        rw (e, f)
          (ask_model-AreGuarded answers 0 (suc settings.agent_json_repair_retries)
            (extract message))
    | inr f ↦ rw (e, f) (inl refl)
  ]
]

-- ===== src/Documents/Reports.antt =====
-- What the reply of document_matcher.py says about each document of a rule.
use mathlib.Core.Path.{subst}
use adhikar_ai.Prelude.{String, true, false, ◌≡◌, refl, sym, List, [], ◌∷◌, Member}
use adhikar_ai.Schema.{EligibilityCriteria, RequiredDocument}
use adhikar_ai.Documents.{
  MissingDocument, Findings, check_document, check_required, nonblank,
  original_document_instructions, check_document_sufficiency,
}
use adhikar_ai.Documents.Sufficiency.{Serves, Turn, optional, held, lacking, check_document-Turn}

-- The entry for a document that is missing.
pub record IsEntryFor (entry : MissingDocument) (document : RequiredDocument) : Type 0 where
  pub name : entry.name ≡ document.name
  pub substitutes : entry.accepted_substitutes ≡ document.accepted_substitutes
  pub instructions :
      entry.original_document_instructions ≡ original_document_instructions document.name

-- The missing and the matched entries of a reply, against the documents of the rule in their order. An
-- optional document has no entry; a mandatory one has an item of the citizen's that serves as it among
-- the matched, or where no item does, an entry of its own among the missing.
pub data Reports (documents_available : List String)
    : List RequiredDocument → List MissingDocument → List String → Type 0 where
  finished : Reports documents_available [] [] []
  skipped :
      {d : RequiredDocument} {ds : List RequiredDocument} {missing : List MissingDocument}
      {matched : List String}
      → d.is_mandatory ≡ false
      → Reports documents_available ds missing matched
      → Reports documents_available (d ∷ ds) missing matched
  matched_by :
      {d : RequiredDocument} {ds : List RequiredDocument} {missing : List MissingDocument}
      {matched : List String} {item : String}
      → d.is_mandatory ≡ true
      → Member item (nonblank documents_available)
      → Serves item d
      → Reports documents_available ds missing matched
      → Reports documents_available (d ∷ ds) missing (item ∷ matched)
  missed :
      {d : RequiredDocument} {ds : List RequiredDocument} {missing : List MissingDocument}
      {matched : List String} {entry : MissingDocument}
      → d.is_mandatory ≡ true
      → ((item : String) → Member item (nonblank documents_available) → Serves item d → ⊥)
      → IsEntryFor entry d
      → Reports documents_available ds missing matched
      → Reports documents_available (d ∷ ds) (entry ∷ missing) matched

module _ (documents_available : List String) where
  abbrev Reported : List RequiredDocument → Findings → Type 0
  Reported documents found =
      Reports documents_available documents found.missing found.matched_documents

  Turn-Reported :
      (d : RequiredDocument) (ds : List RequiredDocument) (later now : Findings)
      → Turn documents_available d later now
      → Reported ds later
      → Reported (d ∷ ds) now
  Turn-Reported d ds later now (optional o same) r =
      subst (Reported (d ∷ ds)) (sym same) (skipped o r)
  Turn-Reported d ds later now (held item m k s same more) r = rw (same, more) (matched_by m k s r)
  Turn-Reported d ds later now (lacking m none_serves same) r =
      subst (Reported (d ∷ ds)) (sym same)
        (missed m none_serves (record { name = refl; substitutes = refl; instructions = refl }) r)

  check_required-Reported :
      (documents : List RequiredDocument)
      → Reported documents (check_required documents (nonblank documents_available))
  unfolding check_required
  check_required-Reported [] = finished
  check_required-Reported (d ∷ ds) =
      let later = check_required ds (nonblank documents_available) in
      Turn-Reported d ds later (check_document d (nonblank documents_available) later)
        (check_document-Turn documents_available d later) (check_required-Reported ds)

  -- The reply goes through the documents of the rule in their order: a mandatory document is matched by an
  -- item of the citizen's that is not blank and serves as it, or no such item serves and it is missing; an
  -- optional one is not mentioned.
  pub check_document_sufficiency-Reports :
      (criteria : EligibilityCriteria)
      → let response = check_document_sufficiency criteria documents_available in
        Reports documents_available criteria.required_documents response.missing
          response.matched_documents
  unfolding check_document_sufficiency
  check_document_sufficiency-Reports criteria = check_required-Reported criteria.required_documents

-- ===== src/Schemes/Catalogue.antt =====
-- services/schemes.py: `list_schemes` and `get_scheme_detail`, the catalogue that admins and citizens
-- browse. `name_le` is the order of the database's collation.
pub mod Pages
use adhikar_ai.Prelude.{
  ℕ, zero, suc, String, Bool, true, false, not, ◌&&◌, Option, none, some, List, [], ◌∷◌, ◌==◌,
  nat_eq, string_eq, option_eq, find, filter, any, length, take, if◌then◌else◌,
}
use adhikar_ai.Prelude.Exec.{pure, gets, ◌>>=◌, ◌>>◌}
use adhikar_ai.Prelude.Sorting.{sort}
use adhikar_ai.Schema.{EligibilityCriteria, RequiredDocument}
use adhikar_ai.Db.Rows.{Lifecycle, Scheme}
use adhikar_ai.Db.Tables.{SchemeCategory, Tables}
use adhikar_ai.Schemes.{Db, ensure_organisation}
use adhikar_ai.Schemes.Update.{has_text, latest_rule, own_scheme}
use adhikar_ai.Schemes.Listing.{by_name}

abbrev pub status_text : Lifecycle → String
status_text Lifecycle.draft = "draft"
status_text Lifecycle.active = "active"
status_text Lifecycle.expired = "expired"
status_text Lifecycle.archived = "archived"
status_text Lifecycle.upcoming = "upcoming"

abbrev pub SchemeFilter : Type 0
SchemeFilter = Option String × Option String × Option String

-- The scheme is joined with a category that has the code.
abbrev pub in_category : Tables → String → Scheme → Bool
in_category t code scheme =
    any (λ (c : SchemeCategory). scheme.category_id == some c.id && c.code == code)
      t.scheme_categories

abbrev pub passes : Option String → (String → Bool) → Bool
passes wanted test =
    if has_text wanted then elim wanted [ none ↦ true | some value ↦ test value ] else true

-- The conditions of the query: the organisation, and the status, state and category where they are given.
unfoldable pub is_wanted : ℕ → SchemeFilter → Tables → Scheme → Bool
is_wanted org (status, state_code, category_code) t scheme =
    scheme.organisation_id == org
    && (passes status (λ value. status_text scheme.status == value)
        && (passes state_code (λ value. scheme.state_code == some value)
            && passes category_code (λ code. in_category t code scheme)))

-- `offset(n)`
abbrev pub skip : {A : Type 0} → ℕ → List A → List A
skip zero xs = xs
skip (suc n) [] = []
skip (suc n) (x ∷ xs) = skip n xs

unfoldable pub list_schemes :
    (String → String → Bool) → ℕ → SchemeFilter → ℕ → ℕ → Db (List Scheme × ℕ)
list_schemes name_le organisation_id wanted limit offset = do
  org ← ensure_organisation organisation_id
  rows ← gets λ (t : Tables). filter (is_wanted org wanted t) t.schemes
  pure (take limit (skip offset (sort (by_name name_le) rows)), length rows)

pub record SchemeDetail : Type 0 where
  pub scheme : Scheme
  pub required_documents : List RequiredDocument
  pub eligibility_rule : EligibilityCriteria

unfoldable pub get_scheme_detail : ℕ → String → Db SchemeDetail
get_scheme_detail organisation_id scheme_id = do
  org ← ensure_organisation organisation_id
  scheme ← own_scheme org scheme_id
  rule ← latest_rule org scheme_id false
  pure (record {
    scheme = scheme;
    required_documents = rule.criteria.required_documents;
    eligibility_rule = rule.criteria;
  })

-- ===== src/Schemes.antt =====
-- services/schemes.py: how an admin creates, changes, publishes and archives schemes, and which of them
-- the citizens see. An id of an organisation is a number, so that none is malformed.
pub mod Update
pub mod Listing
pub mod Expiry
pub mod Catalogue
pub mod Requests
pub mod Tests
use adhikar_ai.Prelude.{
  ℕ, String, true, false, not, ◌&&◌, Option, none, some, List, [], ◌∷◌, ◌++◌, map, ◌==◌, nat_eq,
  string_eq, contains, filter, find, is_some,
}
use adhikar_ai.Prelude.Result.{api_error}
use adhikar_ai.Prelude.Exec.{Exec, pure, gets, lift, modify, commit, raise_if, ◌>>=◌, ◌>>◌}
use adhikar_ai.Schema.{EligibilityCriteria}
use adhikar_ai.Db.Rows.{Lifecycle, Scheme, EligibilityRule}
use adhikar_ai.Db.Tables.{SchemeCategory, SchemeVersion, SchemeStatusEvent, Tables, update_rows}
use adhikar_ai.Eligibility.Validation.{raise_first_rule_issue}

abbrev pub Db : Type 0 → Type 0
Db A = Exec Tables A

abbrev pub ensure_organisation : ℕ → Db ℕ
ensure_organisation organisation_id = do
  found ← gets λ (t : Tables). contains organisation_id t.organisations
  raise_if (not found) (api_error 404 "ORGANISATION_NOT_FOUND" "organisation_id")
  pure organisation_id

-- `db.get(Scheme, id)`
abbrev pub get_scheme : String → Tables → Option Scheme
get_scheme id t = find (λ (s : Scheme). s.id == id) t.schemes

abbrev pub known_scheme_ids : ℕ → Tables → List String
known_scheme_ids organisation_id t =
    map (λ (s : Scheme). s.id)
      (filter (λ (s : Scheme). s.organisation_id == organisation_id) t.schemes)

-- `_category_id`
abbrev pub category_id : ℕ → Option String → Tables → Option ℕ
category_id organisation_id none t = none
category_id organisation_id (some code) t =
    elim (find (λ (c : SchemeCategory). c.organisation_id == organisation_id && c.code == code)
      t.scheme_categories) [ none ↦ none | some category ↦ some category.id ]

pub record CreateSchemeRequest : Type 0 where
  pub organisation_id : ℕ
  pub id : String
  pub category_code : Option String
  pub name : String
  pub description : String
  pub plain_language_summary : String
  pub ministry : String
  pub state_code : Option String
  pub benefit_type : String
  pub benefit_amount : String
  pub application_url : Option String
  pub valid_from : Option ℕ
  pub valid_until : Option ℕ
  pub source_url : String
  pub verification_status : String
  pub external_source : Option String
  pub external_id : Option String
  pub source_last_checked_at : Option ℕ
  pub eligibility_rule : EligibilityCriteria

pub record AdminSchemeResponse : Type 0 where
  pub id : String
  pub version : ℕ
  pub status : Lifecycle

abbrev pub response : String → ℕ → Lifecycle → AdminSchemeResponse
response id version status = record { id = id; version = version; status = status }

abbrev pub new_scheme : CreateSchemeRequest → Option ℕ → Scheme
new_scheme request category = record {
  id = request.id;
  organisation_id = request.organisation_id;
  category_id = category;
  name = request.name;
  description = request.description;
  plain_language_summary = request.plain_language_summary;
  ministry = request.ministry;
  state_code = request.state_code;
  benefit_type = request.benefit_type;
  benefit_amount = request.benefit_amount;
  application_url = request.application_url;
  is_active = false;
  status = Lifecycle.draft;
  valid_from = request.valid_from;
  valid_until = request.valid_until;
  source_url = some request.source_url;
  external_source = request.external_source;
  external_id = request.external_id;
  verification_status = request.verification_status;
  source_last_checked_at = request.source_last_checked_at;
}

abbrev pub new_rule : ℕ → String → ℕ → EligibilityCriteria → EligibilityRule
new_rule organisation_id scheme_id version criteria = record {
  organisation_id = organisation_id;
  scheme_id = scheme_id;
  version = version;
  criteria = criteria;
  is_active = true;
}

-- `db.add` appends a row.
abbrev pub add_scheme : Scheme → Tables → Tables
add_scheme row t = record t { schemes = t.schemes ++ row ∷ [] }

abbrev pub add_rule : EligibilityRule → Tables → Tables
add_rule row t = record t { eligibility_rules = t.eligibility_rules ++ row ∷ [] }

abbrev pub add_version : SchemeVersion → Tables → Tables
add_version row t = record t { scheme_versions = t.scheme_versions ++ row ∷ [] }

abbrev pub add_event : SchemeStatusEvent → Tables → Tables
add_event row t = record t { scheme_status_events = t.scheme_status_events ++ row ∷ [] }

-- An assignment to the attributes of the scheme with this id.
abbrev pub set_scheme : String → (Scheme → Scheme) → Tables → Tables
set_scheme id f t = record t { schemes = update_rows (λ (s : Scheme). s.id == id) f t.schemes }

unfoldable pub create_scheme : CreateSchemeRequest → Db AdminSchemeResponse
create_scheme request = do
  org ← ensure_organisation request.organisation_id
  existing ← gets (get_scheme request.id)
  raise_if (is_some existing) (api_error 409 "SCHEME_ID_EXISTS" "id")
  ids ← gets (known_scheme_ids org)
  lift (raise_first_rule_issue request.eligibility_rule ids)
  category ← gets (category_id org request.category_code)
  modify (add_scheme (new_scheme request category))
  modify (add_rule (new_rule org request.id 1 request.eligibility_rule))
  commit
  pure (response request.id 1 Lifecycle.draft)

-- ===== src/Schemes/Update.antt =====
-- services/schemes.py: the rule that is in force, and how a scheme is changed, published and archived.
use adhikar_ai.Prelude.{
  ℕ, suc, String, Bool, true, false, not, ◌&&◌, ◌||◌, Option, none, some, ◌==◌, nat_eq, string_eq,
  filter, if◌then◌else◌,
}
use adhikar_ai.Prelude.Result.{api_error}
use adhikar_ai.Prelude.Exec.{pure, gets, lift, or_raise, modify, commit, raise_if, ◌>>=◌, ◌>>◌}
use adhikar_ai.Prelude.Text.{is_empty}
use adhikar_ai.Schema.{EligibilityCriteria}
use adhikar_ai.Db.Rows.{Lifecycle, Scheme, EligibilityRule}
use adhikar_ai.Db.Tables.{SchemeSnapshot, SchemeVersion, Tables, update_rows, greatest}
use adhikar_ai.Eligibility.Validation.{raise_first_rule_issue}
use adhikar_ai.Schemes.{
  Db, ensure_organisation, get_scheme, known_scheme_ids, category_id, AdminSchemeResponse, response,
  new_rule, add_rule, add_version, add_event, set_scheme,
}

-- The condition of the query for the rules of a scheme.
abbrev pub is_rule_of : ℕ → String → Bool → EligibilityRule → Bool
is_rule_of organisation_id scheme_id active_only rule =
    (rule.organisation_id == organisation_id && rule.scheme_id == scheme_id)
    && (not active_only || rule.is_active)

abbrev pub latest_of : ℕ → String → Bool → Tables → Option EligibilityRule
latest_of organisation_id scheme_id active_only t =
    greatest (λ (rule : EligibilityRule). rule.version)
      (filter (is_rule_of organisation_id scheme_id active_only) t.eligibility_rules)

abbrev pub latest_rule : ℕ → String → Bool → Db EligibilityRule
latest_rule organisation_id scheme_id active_only = do
  found ← gets (latest_of organisation_id scheme_id active_only)
  or_raise found (api_error 404 "RULE_NOT_FOUND" "eligibility_rule")

-- `if scheme is None or scheme.organisation_id != org.id`
abbrev pub is_foreign : ℕ → Option Scheme → Bool
is_foreign organisation_id none = true
is_foreign organisation_id (some scheme) = not (scheme.organisation_id == organisation_id)

-- The scheme of the organisation with the id, or 404.
abbrev pub own_scheme : ℕ → String → Db Scheme
own_scheme organisation_id scheme_id = do
  found ← gets (get_scheme scheme_id)
  raise_if (is_foreign organisation_id found) (api_error 404 "SCHEME_NOT_FOUND" "id")
  or_raise found (api_error 404 "SCHEME_NOT_FOUND" "id")

pub record UpdateSchemeRequest : Type 0 where
  pub organisation_id : ℕ
  pub change_summary : String
  pub publish : Bool
  pub category_code : Option String
  pub name : Option String
  pub description : Option String
  pub plain_language_summary : Option String
  pub ministry : Option String
  pub state_code : Option String
  pub benefit_type : Option String
  pub benefit_amount : Option String
  pub application_url : Option String
  pub valid_from : Option ℕ
  pub valid_until : Option ℕ
  pub source_url : Option String
  pub verification_status : Option String
  pub eligibility_rule : Option EligibilityCriteria

-- `if value is not None: setattr(...)`
abbrev pub or_kept : {A : Type 0} → Option A → A → A
or_kept none kept = kept
or_kept (some value) kept = value

abbrev pub or_else : {A : Type 0} → Option A → Option A → Option A
or_else none kept = kept
or_else (some value) kept = some value

-- `if request.category_code`
abbrev pub has_text : Option String → Bool
has_text none = false
has_text (some s) = not (is_empty s)

abbrev pub scheme_to_snapshot : Scheme → SchemeSnapshot
scheme_to_snapshot scheme = record {
  id = scheme.id;
  name = scheme.name;
  description = scheme.description;
  status = scheme.status;
  is_active = scheme.is_active;
  valid_until = scheme.valid_until;
}

-- The assignments to the scheme, with the category that the request's code stands for.
abbrev pub apply_update : UpdateSchemeRequest → Option ℕ → Scheme → Scheme
apply_update request category scheme = record scheme {
  name = or_kept request.name scheme.name;
  description = or_kept request.description scheme.description;
  plain_language_summary = or_kept request.plain_language_summary scheme.plain_language_summary;
  ministry = or_kept request.ministry scheme.ministry;
  state_code = or_else request.state_code scheme.state_code;
  benefit_type = or_kept request.benefit_type scheme.benefit_type;
  benefit_amount = or_kept request.benefit_amount scheme.benefit_amount;
  application_url = or_else request.application_url scheme.application_url;
  valid_from = or_else request.valid_from scheme.valid_from;
  valid_until = or_else request.valid_until scheme.valid_until;
  source_url = or_else request.source_url scheme.source_url;
  verification_status = or_kept request.verification_status scheme.verification_status;
  category_id = if has_text request.category_code then category else scheme.category_id;
  status = if request.publish then Lifecycle.active else Lifecycle.draft;
  is_active = request.publish;
}

abbrev pub snapshot_of : ℕ → Scheme → EligibilityRule → ℕ → String → SchemeVersion
snapshot_of org scheme rule version change_summary = record {
  organisation_id = org;
  scheme_id = scheme.id;
  version = version;
  scheme_snapshot = scheme_to_snapshot scheme;
  rule_snapshot = rule.criteria;
  change_summary = change_summary;
}

-- `update(EligibilityRule).where(...).values(is_active=False)`
abbrev pub retire_rules : ℕ → String → Tables → Tables
retire_rules org scheme_id t = record t {
  eligibility_rules =
      update_rows (is_rule_of org scheme_id false)
        (λ (rule : EligibilityRule). record rule { is_active = false }) t.eligibility_rules;
}

unfoldable pub update_scheme : String → UpdateSchemeRequest → Db AdminSchemeResponse
update_scheme scheme_id request = do
  org ← ensure_organisation request.organisation_id
  scheme ← own_scheme org scheme_id
  active_rule ← latest_rule org scheme_id false
  let merged_rule = or_kept request.eligibility_rule active_rule.criteria
  ids ← gets (known_scheme_ids org)
  lift (raise_first_rule_issue merged_rule (filter (λ id. not (id == scheme_id)) ids))
  let version = suc active_rule.version
  modify (add_version (snapshot_of org scheme active_rule version request.change_summary))
  category ← gets (category_id org request.category_code)
  modify (set_scheme scheme_id (apply_update request category))
  modify (retire_rules org scheme_id)
  modify (add_rule (new_rule org scheme_id version merged_rule))
  commit
  pure (response scheme_id version (if request.publish then Lifecycle.active else Lifecycle.draft))

-- An assignment of the status and of `is_active`, with its event.
abbrev pub set_status : Scheme → Lifecycle → Bool → String → Tables → Tables
set_status scheme status is_active reason t =
    add_event
      record {
        organisation_id = scheme.organisation_id;
        scheme_id = scheme.id;
        old_status = scheme.status;
        new_status = status;
        reason = reason;
      }
      (set_scheme scheme.id (λ (s : Scheme). record s { status = status; is_active = is_active }) t)

unfoldable pub publish_scheme : ℕ → String → Db AdminSchemeResponse
publish_scheme organisation_id scheme_id = do
  org ← ensure_organisation organisation_id
  scheme ← own_scheme org scheme_id
  modify (set_status scheme Lifecycle.active true "Published by admin.")
  rule ← latest_rule org scheme_id true
  commit
  pure (response scheme_id rule.version Lifecycle.active)

unfoldable pub archive_scheme : ℕ → String → String → Db AdminSchemeResponse
archive_scheme organisation_id scheme_id reason = do
  org ← ensure_organisation organisation_id
  scheme ← own_scheme org scheme_id
  modify (set_status scheme Lifecycle.archived false reason)
  rule ← latest_rule org scheme_id false
  commit
  pure (response scheme_id rule.version Lifecycle.archived)

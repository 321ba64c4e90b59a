-- ===== src/Documents/Check.antt =====
-- services/documents/service.py: a check of documents against the rule of a scheme, which is recorded.
use adhikar_ai.Prelude.{
  ℕ, String, Bool, true, false, not, Option, none, some, List, [], ◌∷◌, ◌++◌, ◌==◌, nat_eq, find,
}
use adhikar_ai.Prelude.Result.{api_error}
use adhikar_ai.Prelude.Exec.{Exec, pure, gets, modify, commit, raise_if, begin, ◌>>=◌, ◌>>◌}
use adhikar_ai.Db.Rows.{EligibilityRule}
use adhikar_ai.Db.Tables.{Tables}
use adhikar_ai.Schemes.Update.{latest_rule}
use adhikar_ai.Accounts.{Profile}
use adhikar_ai.Documents.{DocumentCheckResponse, check_document_sufficiency}

pub record DocumentCheckRequest : Type 0 where
  pub organisation_id : ℕ
  pub profile_id : Option ℕ
  pub documents_available : List String

pub record DocumentCheckEvent : Type 0 where
  pub organisation_id : ℕ
  pub profile_id : Option ℕ
  pub scheme_id : String
  pub documents_available : List String
  pub result : DocumentCheckResponse

pub record CheckTables : Type 0 where
  pub schemes : Tables
  pub profiles : List Profile
  pub events : List DocumentCheckEvent

abbrev profile_by_id : ℕ → CheckTables → Option Profile
profile_by_id id t = find (λ (p : Profile). p.id == id) t.profiles

abbrev is_foreign : ℕ → Option Profile → Bool
is_foreign organisation_id none = true
is_foreign organisation_id (some profile) = not (profile.organisation_id == organisation_id)

-- A profile is looked at only if the request names one.
abbrev lacks_profile : DocumentCheckRequest → CheckTables → Bool
lacks_profile request t = elim request.profile_id [
  | none ↦ false
  | some id ↦ is_foreign request.organisation_id (profile_by_id id t)
]

abbrev check_event : DocumentCheckRequest → String → DocumentCheckResponse → DocumentCheckEvent
check_event request scheme_id result = record {
  organisation_id = request.organisation_id;
  profile_id = request.profile_id;
  scheme_id = scheme_id;
  documents_available = request.documents_available;
  result = result;
}

-- `latest_rule`, which only reads.
abbrev rule_of : DocumentCheckRequest → String → Exec CheckTables EligibilityRule
rule_of request scheme_id s =
    ((latest_rule request.organisation_id scheme_id true (begin s.view.schemes)).0, s)

unfoldable pub check_documents :
    String → DocumentCheckRequest → Exec CheckTables DocumentCheckResponse
unfolding check_document_sufficiency
check_documents scheme_id request = do
  lacks ← gets (lacks_profile request)
  raise_if lacks (api_error 404 "PROFILE_NOT_FOUND" "profile_id")
  rule ← rule_of request scheme_id
  let result = check_document_sufficiency rule.criteria request.documents_available
  modify λ (t : CheckTables). record t {
    events = t.events ++ check_event request scheme_id result ∷ [];
  }
  commit
  pure result

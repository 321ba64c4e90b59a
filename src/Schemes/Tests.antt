-- ===== src/Schemes/Tests.antt =====
-- Requests on a concrete database.
use Prim.Native.Nat.{min}
use adhikar_ai.Prelude.{
  suc, filter, ◌-◌, length, ◌≡◌, refl, true, false, some, none, [], ◌∷◌, Member, All,
}
use adhikar_ai.Prelude.Result.{ok}
use adhikar_ai.Prelude.Exec.{run}
use adhikar_ai.Prelude.Sorting.{sort, insert_sorted}
use adhikar_ai.Prelude.Text.{str_leb, strip_prefix}
use adhikar_ai.Db.Rows.{Lifecycle, EligibilityRule, Scheme}
use adhikar_ai.Db.Tables.{Tables}
use adhikar_ai.Eligibility.Engine.{SchemeWithRule}
use adhikar_ai.Eligibility.Tests.{women_rule, women_scheme}
use adhikar_ai.Eligibility.Validation.{validate_rule, raise_first_rule_issue}
use adhikar_ai.Schemes.{AdminSchemeResponse, response, new_rule, get_scheme}
use adhikar_ai.Schemes.Update.{
  UpdateSchemeRequest, update_scheme, publish_scheme, snapshot_of, latest_of, is_rule_of,
}
use adhikar_ai.Schemes.Expiry.{expire_schemes}
use adhikar_ai.Schemes.Listing.{with_rules, active_scheme_rules}
use adhikar_ai.Schemes.Listing.Offers.{IsOffer, expiry_keeps_offers, active_scheme_rules_sound}
use adhikar_ai.Schemes.Catalogue.{is_wanted, list_schemes}
use adhikar_ai.Schemes.Catalogue.Pages.{IsWanted, list_schemes_page}
use adhikar_ai.Schemes.Requests.{publish, archive, handle, Reachable, initial, then_request}
use adhikar_ai.Schemes.Requests.Atomic.{refused_request_unchanged}
use adhikar_ai.Schemes.Requests.Lifecycle.{IsConsistent, Reachable-IsConsistent}
use adhikar_ai.Schemes.Requests.Versions.{update_scheme_in_force}

abbrev women_in_force : EligibilityRule
women_in_force = new_rule 1 "women" 4 (record women_rule { exclusion_scheme_ids = [] })

abbrev pub one_scheme : Tables
one_scheme = record {
  organisations = 1 ∷ [];
  scheme_categories = [];
  schemes = women_scheme ∷ [];
  eligibility_rules = women_in_force ∷ [];
  scheme_versions = [];
  scheme_status_events = [];
  admin_notifications = [];
}

abbrev without_rules : Tables
without_rules = record one_scheme { eligibility_rules = [] }

no_rule : (handle (publish 1 "women") without_rules).0 ≡ false
unfolding publish_scheme
no_rule = refl

-- The scheme is assigned to before the missing rule is noticed.
refused_request_unchanged_example : (handle (publish 1 "women") without_rules).1 ≡ without_rules
refused_request_unchanged_example =
    refused_request_unchanged (publish 1 "women") without_rules no_rule

abbrev archived : Tables
archived = (handle (archive 1 "women" "over") one_scheme).1

reach_archived : Reachable one_scheme archived
reach_archived = then_request initial (archive 1 "women" "over") refl

Reachable-IsConsistent_example : IsConsistent archived
Reachable-IsConsistent_example =
    Reachable-IsConsistent one_scheme archived (refl, tt) reach_archived

abbrev rename : UpdateSchemeRequest
rename = record {
  organisation_id = 1;
  change_summary = "renamed";
  publish = true;
  category_code = none;
  name = some "Women's support";
  description = none;
  plain_language_summary = none;
  ministry = none;
  state_code = none;
  benefit_type = none;
  benefit_amount = none;
  application_url = none;
  valid_from = none;
  valid_until = none;
  source_url = none;
  verification_status = none;
  eligibility_rule = none;
}

abbrev renamed : Tables
renamed = (run (update_scheme "women" rename) one_scheme).1

abbrev renamed_reply : AdminSchemeResponse
renamed_reply = response "women" 5 Lifecycle.active

rename_succeeds : run (update_scheme "women" rename) one_scheme ≡ (ok renamed_reply, renamed)
unfolding update_scheme raise_first_rule_issue validate_rule strip_prefix
rename_succeeds = refl

update_scheme_in_force_example :
    (scheme : Scheme) × (latest : EligibilityRule) × (get_scheme "women" one_scheme ≡ some scheme)
    × (latest_of 1 "women" false one_scheme ≡ some latest)
    × (renamed_reply.version ≡ suc latest.version)
    × (filter (is_rule_of 1 "women" true) renamed.eligibility_rules
        ≡ new_rule 1 "women" (suc latest.version) latest.criteria ∷ [])
    × Member (snapshot_of 1 scheme latest (suc latest.version) "renamed") renamed.scheme_versions
update_scheme_in_force_example =
    update_scheme_in_force "women" rename one_scheme renamed renamed_reply rename_succeeds

expiry_keeps_offers_example :
    (run (active_scheme_rules str_leb 9 1) (run (expire_schemes 9) one_scheme).1).0
    ≡ (run (active_scheme_rules str_leb 9 1) one_scheme).0
expiry_keeps_offers_example = expiry_keeps_offers str_leb 9 1 one_scheme

abbrev offer : SchemeWithRule
offer = record { scheme = women_scheme; rule = women_in_force.criteria }

offered : (run (active_scheme_rules str_leb 9 1) one_scheme).0 ≡ ok (offer ∷ [])
unfolding active_scheme_rules with_rules sort insert_sorted
offered = refl

active_scheme_rules_sound_example : All (IsOffer 9 1 one_scheme) (offer ∷ [])
active_scheme_rules_sound_example =
    active_scheme_rules_sound str_leb 9 1 one_scheme (offer ∷ []) offered

listed :
    (run (list_schemes str_leb 1 (some "active", none, none) 20 0) one_scheme).0
    ≡ ok (women_scheme ∷ [], 1)
unfolding list_schemes is_wanted sort insert_sorted
listed = refl

list_schemes_page_example :
    (length (women_scheme ∷ []) ≡ min 20 (1 - 0))
    × All
        (λ s. Member s (women_scheme ∷ []) × IsWanted 1 (some "active", none, none) one_scheme s)
        (women_scheme ∷ [])
list_schemes_page_example =
    list_schemes_page str_leb 1 (some "active", none, none) 20 0 one_scheme (women_scheme ∷ []) 1
      listed

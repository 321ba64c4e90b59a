-- ===== src/Db/Rows.antt =====
-- The tables of db/models/scheme.py, eligibility_rule.py and organisation.py. UUIDs are numbers that are
-- only compared; dates are day numbers and times are seconds. Columns that no service reads (creation
-- and update stamps, the admin who wrote a row) are left out.
use adhikar_ai.Prelude.{ℕ, String, Bool, true, false, Option}
use adhikar_ai.Schema.{EligibilityCriteria}

-- The values of the status column.
pub data Lifecycle : Type 0 where
  draft active expired archived upcoming : Lifecycle

abbrev pub is_active_status : Lifecycle → Bool
is_active_status Lifecycle.active = true
is_active_status _ = false

abbrev pub is_expired_status : Lifecycle → Bool
is_expired_status Lifecycle.expired = true
is_expired_status _ = false

pub record Scheme : Type 0 where
  pub id : String
  pub organisation_id : ℕ
  pub category_id : Option ℕ
  pub name : String
  pub description : String
  pub plain_language_summary : String
  pub ministry : String
  pub state_code : Option String
  pub benefit_type : String
  pub benefit_amount : String
  pub application_url : Option String
  pub is_active : Bool
  pub status : Lifecycle
  pub valid_from : Option ℕ
  pub valid_until : Option ℕ
  pub source_url : Option String
  pub external_source : Option String
  pub external_id : Option String
  pub verification_status : String
  pub source_last_checked_at : Option ℕ

pub record EligibilityRule : Type 0 where
  pub organisation_id : ℕ
  pub scheme_id : String
  pub version : ℕ
  pub criteria : EligibilityCriteria
  pub is_active : Bool

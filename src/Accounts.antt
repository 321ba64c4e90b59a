-- ===== src/Accounts.antt =====
-- The accounts of citizens: db/models/phase4.py and services/phase4.py.
pub mod Otp
pub mod Login
pub mod Verify
pub mod Sync
pub mod Saved
pub mod Checklist
pub mod Citizen
pub mod Tests
use adhikar_ai.Prelude.{ℕ, String, Bool, true, false, Option, List}
use adhikar_ai.Value.{Value}

pub data OtpStatus : Type 0 where
  sent verified expired failed : OtpStatus

abbrev pub is_sent : OtpStatus → Bool
is_sent sent = true
is_sent _ = false

-- Times are in seconds.
pub record OtpChallenge : Type 0 where
  pub id : ℕ
  pub organisation_id : ℕ
  pub phone_e164 : String
  pub provider : String
  pub provider_request_id : String
  pub otp_hash : String
  pub status : OtpStatus
  pub attempts : ℕ
  pub expires_at : ℕ
  pub created_at : ℕ

-- The columns that these services use.
pub record User : Type 0 where
  pub id : ℕ
  pub organisation_id : ℕ
  pub phone_e164 : String
  pub phone_verified_at : Option ℕ
  pub primary_profile_id : Option ℕ
  pub language_code : String
  pub notification_opt_in : Bool
  pub deleted_at : Option ℕ

-- The columns that these services use.
pub record Profile : Type 0 where
  pub id : ℕ
  pub organisation_id : ℕ
  pub custom_attributes : List (String × Value)

pub record AccountTables : Type 0 where
  pub organisations : List ℕ
  pub otp_challenges : List OtpChallenge
  pub users : List User
  pub profiles : List Profile

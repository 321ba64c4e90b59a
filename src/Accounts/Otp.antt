-- ===== src/Accounts/Otp.antt =====
-- services/phase4.py: the one-time codes by which citizens log in, `send_otp` and `verify_otp`, with
-- `hash_otp` of core/security.py. The keyed hash, the provider's reply and the fresh ids and codes are
-- arguments.
use adhikar_ai.Prelude.{
  ℕ, suc, String, Bool, true, false, not, ◌+◌, ◌&&◌, Option, none, some, [], ◌∷◌, ◌++◌, ◌==◌,
  nat_eq, string_eq, contains, find, filter, ltb,
}
use adhikar_ai.Prelude.Result.{ApiError, api_error}
use adhikar_ai.Prelude.Exec.{Exec, pure, raise, gets, modify, commit, raise_if, ◌>>=◌, ◌>>◌}
use adhikar_ai.Db.Tables.{update_rows, greatest}
use adhikar_ai.Accounts.{OtpStatus, sent, verified, OtpChallenge, AccountTables}

abbrev pub Db : Type 0 → Type 0
Db A = Exec AccountTables A

-- The settings, the clock, and what is drawn or computed outside the program: the ids of `uuid4`, the
-- code of `generate_otp`, the provider's request id, and the keyed hash of a code and a challenge's id.
pub record Env : Type 0 where
  pub otp_provider : String
  pub otp_retry_after_seconds : ℕ
  pub otp_expiry_seconds : ℕ
  pub otp_max_attempts : ℕ
  pub now : ℕ
  pub challenge_id : ℕ
  pub profile_id : ℕ
  pub user_id : ℕ
  pub otp : String
  pub provider_request_id : String
  pub hash_otp : String → ℕ → String

abbrev pub set_challenge : ℕ → (OtpChallenge → OtpChallenge) → AccountTables → AccountTables
set_challenge id f t = record t {
  otp_challenges = update_rows (λ (c : OtpChallenge). c.id == id) f t.otp_challenges;
}

-- `db.get(OtpChallenge, id)`
abbrev pub get_challenge : ℕ → AccountTables → Option OtpChallenge
get_challenge id t = find (λ (c : OtpChallenge). c.id == id) t.otp_challenges

-- The latest challenge that the organisation sent to the number.
abbrev pub recent_challenge : ℕ → String → AccountTables → Option OtpChallenge
recent_challenge organisation_id phone t =
    greatest (λ (c : OtpChallenge). c.created_at)
      (filter (λ (c : OtpChallenge). c.organisation_id == organisation_id && c.phone_e164 == phone)
        t.otp_challenges)

-- `created_at > now - retry_after`
abbrev pub too_soon : Env → Option OtpChallenge → Bool
too_soon env none = false
too_soon env (some recent) = ltb env.now (recent.created_at + env.otp_retry_after_seconds)

abbrev pub new_challenge : Env → ℕ → String → OtpChallenge
new_challenge env organisation_id phone = record {
  id = env.challenge_id;
  organisation_id = organisation_id;
  phone_e164 = phone;
  provider = env.otp_provider;
  provider_request_id = env.provider_request_id;
  otp_hash = env.hash_otp env.otp env.challenge_id;
  status = sent;
  attempts = 0;
  expires_at = env.now + env.otp_expiry_seconds;
  created_at = env.now;
}

abbrev pub add_challenge : OtpChallenge → AccountTables → AccountTables
add_challenge row t = record t { otp_challenges = t.otp_challenges ++ row ∷ [] }

-- The reply's challenge; the masked number is for display.
unfoldable pub send_otp : Env → ℕ → String → Db ℕ
send_otp env organisation_id phone = do
  found ← gets λ (t : AccountTables). contains organisation_id t.organisations
  raise_if (not found) (api_error 404 "ORGANISATION_NOT_FOUND" "organisation_id")
  recent ← gets (recent_challenge organisation_id phone)
  raise_if (too_soon env recent) (api_error 429 "OTP_RATE_LIMITED" "phone_e164")
  modify (add_challenge (new_challenge env organisation_id phone))
  commit
  pure env.challenge_id

pub record VerifyOtpRequest : Type 0 where
  pub organisation_id : ℕ
  pub challenge_id : ℕ
  pub otp : String
  pub guest_profile_id : Option String
  pub language_code : String

abbrev pub not_found : ApiError
not_found = api_error 404 "OTP_CHALLENGE_NOT_FOUND" "challenge_id"

abbrev pub is_foreign : ℕ → Option OtpChallenge → Bool
is_foreign organisation_id none = true
is_foreign organisation_id (some challenge) = not (challenge.organisation_id == organisation_id)

-- An assignment that is committed before the error is raised.
abbrev pub refuse : {A : Type 0} → ℕ → (OtpChallenge → OtpChallenge) → ApiError → Db A
refuse id f e = do modify (set_challenge id f); commit; raise e

abbrev pub with_status : OtpStatus → OtpChallenge → OtpChallenge
with_status status c = record c { status = status }

abbrev pub attempted : OtpChallenge → OtpChallenge
attempted c = record c { attempts = suc c.attempts }

abbrev pub accepted : OtpChallenge → OtpChallenge
accepted c = record c { attempts = suc c.attempts; status = verified }

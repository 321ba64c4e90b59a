-- ===== src/Accounts/Verify.antt =====
-- services/phase4.py: `verify_otp`, which checks a code against its challenge and logs the citizen in.
pub mod Attempts
pub mod Accepted
use adhikar_ai.Prelude.{
  ℕ, String, Bool, true, false, not, ◌||◌, Option, none, some, ◌==◌, string_eq, leb, if◌then◌else◌,
}
use adhikar_ai.Prelude.Result.{api_error}
use adhikar_ai.Prelude.Exec.{pure, gets, raise, or_raise, modify, commit, raise_if, ◌>>=◌, ◌>>◌}
use adhikar_ai.Accounts.{OtpStatus, expired, failed, is_sent, OtpChallenge}
use adhikar_ai.Accounts.Otp.{
  Db, Env, get_challenge, set_challenge, VerifyOtpRequest, not_found, is_foreign, refuse,
  with_status, attempted, accepted,
}
use adhikar_ai.Accounts.Login.{log_in}

-- `verify_otp_hash`
abbrev pub verify_otp_hash : Env → String → OtpChallenge → Bool
verify_otp_hash env otp challenge = env.hash_otp otp challenge.id == challenge.otp_hash

-- The challenge's part of `verify_otp` once the challenge is found.
unfoldable pub check_code : Env → VerifyOtpRequest → OtpChallenge → Db (ℕ × Bool)
check_code env request challenge =
    let expire = refuse challenge.id (with_status expired) (api_error 410 "OTP_EXPIRED" "otp") in
    let lock =
      refuse challenge.id (with_status failed) (api_error 429 "OTP_ATTEMPTS_EXCEEDED" "otp") in
    let miss = refuse challenge.id attempted (api_error 401 "OTP_INVALID" "otp") in
    let accept = do
      modify (set_challenge challenge.id accepted)
      user ← log_in env request challenge.phone_e164
      commit
      pure user
    in if not (is_sent challenge.status) || leb challenge.expires_at env.now
      then expire
      else if leb env.otp_max_attempts challenge.attempts
      then lock
      else if not (verify_otp_hash env request.otp challenge)
      then miss
      else accept

unfoldable pub verify_otp : Env → VerifyOtpRequest → Db (ℕ × Bool)
unfolding check_code
verify_otp env request = do
  found ← gets (get_challenge request.challenge_id)
  raise_if (is_foreign request.organisation_id found) not_found
  challenge ← or_raise found not_found
  check_code env request challenge

-- ===== src/Accounts/Verify/Accepted.antt =====
-- When a code logs a citizen in, and that it does so once: `verify_otp` of services/phase4.py.
use mathlib.Core.Path.{subst}
use adhikar_ai.Prelude.{
  ℕ, Bool, false, ◌<◌, ◌≡◌, refl, sym, inl, inr, some, ◌==◌, nat_eq, string_eq, find-some,
  Option-cases, arith, eq_iff,
}
use adhikar_ai.Prelude.Result.{ok, is_ok}
use adhikar_ai.Prelude.Exec.{run, Session}
use adhikar_ai.Accounts.{sent, is_sent, OtpChallenge, AccountTables}
use adhikar_ai.Accounts.Otp.{Env, get_challenge, set_challenge, VerifyOtpRequest, accepted}
use adhikar_ai.Accounts.Verify.{check_code, verify_otp}
use adhikar_ai.Accounts.Verify.Attempts.{log_in-challenges, get-set_challenge}

-- What must hold for a code to be accepted for the challenge.
abbrev pub IsAcceptable : Env → VerifyOtpRequest → OtpChallenge → Type 0
IsAcceptable env request c =
    (c.organisation_id ≡ request.organisation_id)
    × (c.status ≡ sent)
    × (env.now < c.expires_at)
    × (c.attempts < env.otp_max_attempts)
    × (env.hash_otp request.otp c.id ≡ c.otp_hash)

module _ (env : Env) (request : VerifyOtpRequest) (t after : AccountTables) (login : ℕ × Bool) where
  verify_otp-ok :
      run (verify_otp env request) t ≡ (ok login, after)
      → (c : OtpChallenge) × (get_challenge request.challenge_id t ≡ some c)
        × IsAcceptable env request c
        × (after.otp_challenges ≡ (set_challenge c.id accepted t).otp_challenges)
  unfolding verify_otp check_code
  verify_otp-ok h = elim (Option-cases (get_challenge request.challenge_id t)) [
    | inl e ↦ absurd (ground arith)
    | inr (c, e) ↦
        let s : Session AccountTables = record {
          view = set_challenge c.id accepted t;
          durable = t;
        } in
        let (kept, _) = log_in-challenges env request c.phone_e164 s in
        (
          c,
          e,
          ground (arith, eq_iff (env.hash_otp request.otp c.id) c.otp_hash),
          ground (arith, kept),
        )
  ]

  -- A login is granted only for a challenge of the request's organisation that is still open, has
  -- attempts left and has the hash of the code; the challenge then counts the attempt and is verified.
  pub verify_otp_sound :
      run (verify_otp env request) t ≡ (ok login, after)
      → (c : OtpChallenge) × (get_challenge request.challenge_id t ≡ some c)
        × IsAcceptable env request c
        × (get_challenge request.challenge_id after ≡ some (accepted c))
  verify_otp_sound h =
      let (c, e, acceptable, rows) = verify_otp-ok h in
      let same =
        (find-some (λ (d : OtpChallenge). d.id == request.challenge_id) c t.otp_challenges e).1 in
      let seen =
        get-set_challenge request.challenge_id c.id accepted t.otp_challenges (λ _. refl) in
      (c, e, acceptable, rw rows (ground (arith, seen, e, same)))

-- A challenge that is not open logs nobody in.
closed_challenge_refused :
    (env : Env) (request : VerifyOtpRequest) (t : AccountTables) (c : OtpChallenge)
    → get_challenge request.challenge_id t ≡ some c
    → is_sent c.status ≡ false
    → is_ok (run (verify_otp env request) t).0 ≡ false
unfolding verify_otp check_code
closed_challenge_refused env request t c e h = ground arith

-- A code logs in once: after a login every further verification of the challenge is refused, at any
-- time and with any code.
pub verify_otp_once :
    (env again : Env) (request second : VerifyOtpRequest) (t after : AccountTables)
    (login : ℕ × Bool)
    → run (verify_otp env request) t ≡ (ok login, after)
    → second.challenge_id ≡ request.challenge_id
    → is_ok (run (verify_otp again second) after).0 ≡ false
verify_otp_once env again request second t after login h same =
    let (c, _, _, e) = verify_otp_sound env request t after login h in
    closed_challenge_refused again second after (accepted c)
      (subst (λ j. get_challenge j after ≡ some (accepted c)) (sym same) e) refl

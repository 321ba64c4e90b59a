-- ===== src/Accounts/Verify/Attempts.antt =====
-- How often a code can be tried, and when: the guarantees of `verify_otp` of services/phase4.py.
use mathlib.Core.Path.{subst}
use adhikar_ai.Prelude.{
  ℕ, suc, String, Bool, true, false, not, ◌≤◌, ◌<◌, ◌≡◌, ◌&&◌, ◌-◌, All, ◌||◌, refl, sym, inl, inr,
  none, some, List, [], ◌∷◌, ◌==◌, nat_eq, string_eq, find, find-some, Bool-cases, Option-cases,
  arith, leb, nat_beq, if◌then◌else◌,
}
use adhikar_ai.Prelude.Result.{ApiError, Result, ok, err, Result-cases}
use adhikar_ai.Prelude.Exec.{run, Session}
use adhikar_ai.Db.Tables.{update_rows}
use adhikar_ai.Accounts.{expired, failed, is_sent, OtpChallenge, AccountTables}
use adhikar_ai.Accounts.Otp.{
  Env, get_challenge, set_challenge, VerifyOtpRequest, with_status, attempted, accepted,
}
use adhikar_ai.Accounts.Login.{internal_error, log_in}
use adhikar_ai.Accounts.Verify.{verify_otp_hash, check_code, verify_otp}

-- A change that keeps the ids is seen by a later `db.get` on its own id only.
pub get-set_challenge :
    (j id : ℕ) (f : OtpChallenge → OtpChallenge) (rows : List OtpChallenge)
    → ((c : OtpChallenge) → (f c).id ≡ c.id)
    → find (λ (c : OtpChallenge). c.id == j) (update_rows (λ (c : OtpChallenge). c.id == id) f rows)
      ≡ elim (find (λ (c : OtpChallenge). c.id == j) rows) [
        | none ↦ none
        | some c ↦ some (if id == j then f c else c)
      ]
get-set_challenge j id f [] keeps = refl
get-set_challenge j id f (row ∷ rows) keeps =
    ground (arith, keeps row, get-set_challenge j id f rows keeps)

-- Logging in changes no challenge, and commits nothing.
pub log_in-challenges :
    (env : Env) (request : VerifyOtpRequest) (phone : String) (s : Session AccountTables)
    → let after = (log_in env request phone s).1 in
      (after.view.otp_challenges ≡ s.view.otp_challenges) × (after.durable ≡ s.durable)
unfolding log_in
log_in-challenges env request phone s = ground arith

-- The wrong or right codes that a challenge counts.
abbrev pub attempts_of : ℕ → AccountTables → ℕ
attempts_of id t = elim (get_challenge id t) [ none ↦ 0 | some c ↦ c.attempts ]

-- A login, or the answer 401 OTP_INVALID to a wrong code. A right code whose login then raises is not
-- among these: its request commits nothing.
abbrev pub settled : Result (ℕ × Bool) → Bool
settled (ok _) = true
settled (err e) = e.code == "OTP_INVALID"

log_in-err :
    (env : Env) (request : VerifyOtpRequest) (phone : String) (s : Session AccountTables)
    (e : ApiError)
    → (log_in env request phone s).0 ≡ err e
    → e ≡ internal_error
unfolding log_in
log_in-err env request phone s e h = ground arith

-- What an assignment to the challenge `c` does to the attempts of any id.
attempts-set_challenge :
    (c : OtpChallenge) (id : ℕ) (f : OtpChallenge → OtpChallenge) (t : AccountTables)
    → get_challenge c.id t ≡ some c
    → ((d : OtpChallenge) → (f d).id ≡ d.id)
    → attempts_of id (set_challenge c.id f t)
      ≡ (if nat_beq c.id id then (f c).attempts else attempts_of id t)
attempts-set_challenge c id f t found keeps = elim (Bool-cases (nat_beq c.id id)) [
  | inl h ↦
      let here : get_challenge id t ≡ some c = rw (← (nat_eq.test_iff c.id id).0 h) found in
      ground (arith, get-set_challenge id c.id f t.otp_challenges keeps)
  | inr h ↦ ground (arith, get-set_challenge id c.id f t.otp_challenges keeps)
]

attempts_of-found :
    (c : OtpChallenge) (id : ℕ) (t : AccountTables)
    → get_challenge c.id t ≡ some c
    → nat_beq c.id id ≡ true
    → attempts_of id t ≡ c.attempts
attempts_of-found c id t found h =
    let same : get_challenge id t ≡ some c = rw (← (nat_eq.test_iff c.id id).0 h) found in
    ground (arith, same)

attempts_of-same :
    (id : ℕ) (t u : AccountTables)
    → t.otp_challenges ≡ u.otp_challenges
    → attempts_of id t ≡ attempts_of id u
attempts_of-same id t u h = rw h refl

check_code-step :
    (env : Env) (request : VerifyOtpRequest) (c : OtpChallenge) (id : ℕ) (t : AccountTables)
    → get_challenge c.id t ≡ some c
    → let (reply, after) = run (check_code env request c) t in
      let tried = nat_beq c.id id && settled reply in
      (attempts_of id after ≡ (if tried then suc (attempts_of id t) else attempts_of id t))
      × (tried ≡ true → attempts_of id t < env.otp_max_attempts)
unfolding check_code
check_code-step env request c id t found =
    let s : Session AccountTables = record { view = set_challenge c.id accepted t; durable = t } in
    let after = (log_in env request c.phone_e164 s).1 in
    let (kept, uncommitted) = log_in-challenges env request c.phone_e164 s in
    let before = attempts_of-found c id t found in
    elim (Bool-cases (not (is_sent c.status) || leb c.expires_at env.now)) [
      | inl h ↦ rw h (
          ground
            (arith, attempts-set_challenge c id (with_status expired) t found (λ _. refl), before))
      | inr h ↦ elim (Bool-cases (leb env.otp_max_attempts c.attempts)) [
        | inl k ↦
            rw (h, k)
              (ground (
                arith,
                attempts-set_challenge c id (with_status failed) t found (λ _. refl),
                before,
              ))
        | inr k ↦ elim (Bool-cases (verify_otp_hash env request.otp c)) [
          | inr l ↦
              rw (h, k, l)
                (ground (arith, attempts-set_challenge c id attempted t found (λ _. refl), before))
          | inl l ↦ elim (Result-cases (log_in env request c.phone_e164 s).0) [
            | inl (user, f) ↦
                let seen = attempts_of-same id after.view s.view kept in
                let counted = attempts-set_challenge c id accepted t found (λ _. refl) in
                rw (h, k, l) (ground (arith, f, seen, counted, before))
            | inr (e, f) ↦
                let other : settled (err e) ≡ false =
                  rw (log_in-err env request c.phone_e164 s e f) refl in
                rw (h, k, l) (ground (arith, f, uncommitted, other))
          ]
        ]
      ]
    ]

verify_otp-step :
    (env : Env) (request : VerifyOtpRequest) (id : ℕ) (t : AccountTables)
    → let (reply, after) = run (verify_otp env request) t in
      let tried = nat_beq request.challenge_id id && settled reply in
      (attempts_of id after ≡ (if tried then suc (attempts_of id t) else attempts_of id t))
      × (tried ≡ true → attempts_of id t < env.otp_max_attempts)
unfolding verify_otp
verify_otp-step env request id t = elim (Option-cases (get_challenge request.challenge_id t)) [
  | inl e ↦ ground arith
  | inr (c, e) ↦
      let same : c.id ≡ request.challenge_id =
        (nat_eq.test_iff c.id request.challenge_id).0
          (find-some (λ (d : OtpChallenge). d.id == request.challenge_id) c t.otp_challenges e).1 in
      let found : get_challenge c.id t ≡ some c =
        subst (λ j. get_challenge j t ≡ some c) (sym same) e in
      let checked = check_code-step env request c id t found in
      elim (Bool-cases (nat_beq c.organisation_id request.organisation_id)) [
        | inl o ↦ ground (arith, e, o, same, checked)
        | inr o ↦ ground (arith, e, o)
      ]
]

-- Verifications one after another, each at its own time; how many of those of the challenge with the id
-- end in a login or in the answer that the code is wrong.
unfoldable pub tries : ℕ → List (Env × VerifyOtpRequest) → AccountTables → ℕ
tries id [] t = 0
tries id ((env, request) ∷ rest) t =
    let (reply, after) = run (verify_otp env request) t in
    let later = tries id rest after in
    if nat_beq request.challenge_id id && settled reply then suc later else later

-- However many verifications of a challenge are sent, with whatever codes, at most the configured number of
-- them end in a login or in the answer that the code is wrong, counting the attempts that the challenge has
-- had before.
pub tries_bounded :
    (limit id : ℕ) (requests : List (Env × VerifyOtpRequest)) (t : AccountTables)
    → All (λ (r : Env × VerifyOtpRequest). r.0.otp_max_attempts ≡ limit) requests
    → tries id requests t ≤ limit - attempts_of id t
unfolding tries
tries_bounded limit id [] t h = omega arith
tries_bounded limit id ((env, request) ∷ rest) t (h, hs) =
    let after = (run (verify_otp env request) t).1 in
    let (counted, room) = verify_otp-step env request id t in
    ground (arith, counted, room, tries_bounded limit id rest after hs)

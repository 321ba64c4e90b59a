-- ===== src/Core/Settings/Deployment.antt =====
-- What holds of every deployment that core/config.py lets start.
use mathlib.Core.Path.{subst}
use adhikar_ai.Prelude.{
  String, Bool, true, false, ◌≤◌, ◌≡◌, ◌≢◌, inl, inr, List, [], ◌∷◌, string_eq, eq_iff, contains,
  Member, Member-contains, Bool-cases, All, arith,
}
use adhikar_ai.Prelude.Text.{lower}
use adhikar_ai.Core.Settings.{
  Settings, accepted, default_secrets, default_db, string_length, is_redis_url, origins,
  deployment_checks, first_refusal, validate_environment,
}

-- A refusal is skipped only if its condition does not hold.
first_refusal-All :
    (checks : List (Bool × String)) (s result : Settings)
    → first_refusal checks s ≡ accepted result
    → All (λ (c : Bool × String). c.0 ≡ false) checks × (s ≡ result)
first_refusal-All [] s result h = (tt, ground arith)
first_refusal-All ((b, name) ∷ checks) s result h = elim (Bool-cases b) [
  | inl k ↦ absurd (ground arith)
  | inr k ↦ let (rest, same) = first_refusal-All checks s result (ground arith) in ((k, rest), same)
]

-- What production must have.
pub record IsSafe (s : Settings) : Type 0 where
  pub long_secret : 32 ≤ string_length s.auth_jwt_secret
  pub own_secret : Member s.auth_jwt_secret default_secrets → ⊥
  pub own_token : Member s.admin_api_token default_secrets → ⊥
  pub secure_cookie : s.auth_cookie_secure ≡ true
  pub own_database : s.database_url ≢ default_db
  pub real_redis : is_redis_url s.redis_url ≡ true
  pub no_dev_login : s.dashboard_dev_login_enabled ≡ false
  pub explicit_origins : Member "*" (origins s.cors_origins) → ⊥
  pub real_otp : s.otp_provider ≢ "mock"
  pub no_audio : s.store_audio_debug ≡ false

not_Member : (a : String) (xs : List String) → contains a xs ≡ false → Member a xs → ⊥
not_Member a xs h m = let k = Member-contains a xs m in absurd (ground arith)

-- The settings with the two texts in lower case.
abbrev normalised : Settings → Settings
normalised s = record s {
  auth_cookie_samesite = lower s.auth_cookie_samesite;
  dashboard_auth_provider = lower s.dashboard_auth_provider;
}

validate_environment-checks :
    (settings result : Settings)
    → validate_environment settings ≡ accepted result
    → lower settings.app_env ≡ "production"
    → first_refusal (deployment_checks (normalised settings)) (normalised settings)
      ≡ accepted result
unfolding validate_environment
validate_environment-checks settings result h production =
    ground (arith, h, eq_iff (lower settings.app_env) "production", production)

deployment_checks-IsSafe :
    (s : Settings)
    → lower s.app_env ≡ "production"
    → All (λ (c : Bool × String). c.0 ≡ false) (deployment_checks s)
    → IsSafe s
unfolding deployment_checks
deployment_checks-IsSafe s production checks =
    let (secret, after_secret) = checks in
    let (cookie, after_cookie) = after_secret in
    let (db, after_db) = after_cookie in
    let (_, after_direct) = after_db in
    let (redis, after_redis) = after_direct in
    let (token, after_token) = after_redis in
    let (dev, after_dev) = after_token in
    let (cors, after_cors) = after_dev in
    let (_, after_local) = after_cors in
    let (otp, after_otp) = after_local in
    let (_, after_staging) = after_otp in
    let (audio, _) = after_staging in
    let env = eq_iff (lower s.app_env) "production" in
    record {
      long_secret = ground (arith, secret);
      own_secret = not_Member s.auth_jwt_secret default_secrets (ground (arith, secret));
      own_token = not_Member s.admin_api_token default_secrets token;
      secure_cookie = ground (arith, cookie);
      own_database = λ e. absurd (ground (arith, db, e, eq_iff s.database_url default_db));
      real_redis = ground (arith, redis);
      no_dev_login = ground (arith, dev);
      explicit_origins = not_Member "*" (origins s.cors_origins) (ground (arith, cors));
      real_otp =
          λ e. absurd (ground (arith, otp, e, env, production, eq_iff s.otp_provider "mock"));
      no_audio = ground (arith, audio, env, production);
    }

-- Settings that start in production have a secret of at least 32 characters and a token that are not the
-- defaults, secure cookies, a database other than the default one, a Redis URL, one-time codes of a
-- provider other than the mock, no "*" among the origins, no developer login and no stored audio.
pub validate_environment-IsSafe :
    (settings result : Settings)
    → validate_environment settings ≡ accepted result
    → lower settings.app_env ≡ "production"
    → IsSafe result
validate_environment-IsSafe settings result h production =
    let s = normalised settings in
    let (passed, same) =
      first_refusal-All (deployment_checks s) s result
        (validate_environment-checks settings result h production) in
    subst IsSafe same (deployment_checks-IsSafe s production passed)

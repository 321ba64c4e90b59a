-- ===== src/Core/Tests.antt =====
-- Settings that start in production.
use adhikar_ai.Prelude.{◌≡◌, refl, true, false, some, none}
use adhikar_ai.Prelude.Text.{lower, strip, strip_prefix}
use adhikar_ai.Value.{is_substring}
use adhikar_ai.Core.Settings.{
  Settings, accepted, origins, is_redis_url, is_local_origin, deployment_checks,
  validate_environment,
}
use adhikar_ai.Core.Settings.Deployment.{IsSafe, validate_environment-IsSafe}

abbrev production : Settings
production = record {
  app_env = "production";
  cors_origins = "https://a.in";
  database_url = "postgresql://db";
  database_direct_url = "postgresql://db";
  admin_api_token = "token";
  redis_url = "rediss://r";
  llm_provider = "mock";
  groq_api_key = none;
  voice_provider = "mock";
  translation_provider = "mock";
  ai4bharat_translate_url = none;
  ai4bharat_api_key = none;
  google_translate_api_key = none;
  tts_provider = "mock";
  google_application_credentials = none;
  store_audio_debug = false;
  auth_jwt_secret = "0123456789abcdef0123456789abcdef";
  auth_cookie_secure = true;
  auth_cookie_samesite = "lax";
  otp_provider = "msg91";
  msg91_auth_key = some "k";
  msg91_template_id = some "t";
  dashboard_auth_provider = "disabled";
  dashboard_dev_login_enabled = false;
  allow_mock_otp_in_staging = false;
}

starts : validate_environment production ≡ accepted production
unfolding validate_environment deployment_checks origins is_redis_url is_local_origin lower strip
    strip_prefix is_substring
starts = refl

is_production : lower production.app_env ≡ "production"
unfolding lower
is_production = refl

validate_environment-IsSafe_example : IsSafe production
validate_environment-IsSafe_example =
    validate_environment-IsSafe production production starts is_production

-- ===== src/Core/Security/Tests.antt =====
-- A citizen's session with libraries that know the texts of one token.
use adhikar_ai.Prelude.{
  ◌≡◌, ◌≢◌, refl, String, true, false, Option, some, none, Member, [], ◌∷◌, ◌==◌, nat_eq, string_eq,
  if◌then◌else◌, arith,
}
use adhikar_ai.Prelude.Result.{ok, err}
use adhikar_ai.Prelude.Text.{prepend, text_length, all_chars}
use adhikar_ai.Value.{Value, object, field, null}
use adhikar_ai.Accounts.{User}
use adhikar_ai.Dashboard.Rbac.{ngo_admin}
use adhikar_ai.Core.Security.{
  SecurityEnv, OrganisationMember, session_payload, create_session_jwt, b64url, require_user,
  decode_session_jwt, not_authenticated, actor_of, require_dashboard_actor, dashboard_payload,
  create_dashboard_session_jwt,
}
use adhikar_ai.Core.Security.Encoding.{IsBase64, is_plain}
use adhikar_ai.Core.Security.Tokens.{IsReadable}
use adhikar_ai.Core.Security.Access.{IsAuthentic, require_user_session}
use adhikar_ai.Core.Security.Members.{
  require_dashboard_actor_citizen, require_dashboard_actor_session, require_dashboard_actor_sound,
}

abbrev dumps_one : Value → String
dumps_one (object (field key _ _)) = if key == "alg" then "h" else "p"
dumps_one _ = ""

-- The base64 of three texts.
abbrev encode_one : String → String
encode_one s = if s == "h" then "aA==" else if s == "p" then "cA==" else "aw=="

abbrev decode_one : String → Option String
decode_one s = if s == "aA==" then some "h" else if s == "cA==" then some "p" else some "k"

abbrev libraries : Value → SecurityEnv
libraries loaded = record {
  auth_jwt_secret = "secret";
  auth_jwt_ttl_seconds = 600;
  dashboard_session_idle_timeout_seconds = 1800;
  admin_api_token = "admin";
  urlsafe_b64encode = encode_one;
  urlsafe_b64decode = decode_one;
  dumps = dumps_one;
  loads = λ s. if s == "p" then some loaded else none;
  hmac_sha256 = λ key _. if key == "secret" then "k" else "";
  str_uuid = λ id. if id == 11 then "u11" else if id == 7 then "m7" else "other";
  uuid = λ s. if s == "u11" then some 11 else if s == "m7" then some 7 else none;
  int_of_text = λ _. none;
}

abbrev pub citizen : User
citizen = record {
  id = 11;
  organisation_id = 1;
  phone_e164 = "+919876543210";
  phone_verified_at = none;
  primary_profile_id = none;
  language_code = "hi";
  notification_opt_in = false;
  deleted_at = none;
}

abbrev pub asha : OrganisationMember
asha = record {
  id = 7;
  organisation_id = 1;
  user_id = some 11;
  admin_user_id = none;
  role = ngo_admin;
  email = some "asha@ngo.in";
  display_name = "Asha";
  is_active = true;
}

abbrev pub citizen_env : SecurityEnv
citizen_env = libraries (object (session_payload (libraries null) 1000 citizen))

abbrev pub member_env : SecurityEnv
member_env = libraries (object (dashboard_payload (libraries null) 1000 asha))

IsBase64-of :
    (loaded : Value) (s body : String)
    → encode_one s ≡ prepend body "=="
    → all_chars is_plain body ≡ true
    → text_length body ≡ 2
    → decode_one (encode_one s) ≡ some s
    → IsBase64 (libraries loaded) s
IsBase64-of loaded s body encoded plain two decoded = record {
  body = body;
  padding = 2;
  encoded = encoded;
  plain = plain;
  short = omega arith;
  filled = omega (arith, two);
  decoded = decoded;
}

module _ (loaded : Value) where
  header-IsBase64 : IsBase64 (libraries loaded) "h"
  unfolding prepend all_chars text_length
  header-IsBase64 = IsBase64-of loaded "h" "aA" refl refl refl refl

  payload-IsBase64 : IsBase64 (libraries loaded) "p"
  unfolding prepend all_chars text_length
  payload-IsBase64 = IsBase64-of loaded "p" "cA" refl refl refl refl

  digest-IsBase64 : IsBase64 (libraries loaded) "k"
  unfolding prepend all_chars text_length
  digest-IsBase64 = IsBase64-of loaded "k" "aw" refl refl refl refl

pub citizen-IsReadable : IsReadable citizen_env (session_payload citizen_env 1000 citizen)
citizen-IsReadable = record {
  header = header-IsBase64 _;
  middle = payload-IsBase64 _;
  digest = digest-IsBase64 _;
  loaded = refl;
}

pub member-IsReadable : IsReadable member_env (dashboard_payload member_env 1000 asha)
member-IsReadable = record {
  header = header-IsBase64 _;
  middle = payload-IsBase64 _;
  digest = digest-IsBase64 _;
  loaded = refl;
}

token_of_citizen : create_session_jwt citizen_env 1000 citizen ≡ "aA.cA.aw"
unfolding create_session_jwt b64url prepend
token_of_citizen = refl

forged_token : decode_session_jwt citizen_env 1000 "aA.cA.xx" ≡ err not_authenticated
unfolding decode_session_jwt prepend
forged_token = refl

require_user_session_example :
    require_user citizen_env 1600
      (some (create_session_jwt citizen_env 1000 citizen))
      (citizen ∷ [])
    ≡ ok citizen
require_user_session_example =
    require_user_session citizen_env 1000 citizen citizen-IsReadable 1600 (citizen ∷ []) refl refl
      refl

require_dashboard_actor_citizen_example :
    require_dashboard_actor citizen_env 1001
      (some (create_session_jwt citizen_env 1000 citizen))
      (asha ∷ [])
    ≢ ok (actor_of asha)
require_dashboard_actor_citizen_example =
    require_dashboard_actor_citizen citizen_env 1000 citizen citizen-IsReadable 1001 (asha ∷ [])
      (actor_of asha)

opened :
    require_dashboard_actor member_env 1500
      (some (create_dashboard_session_jwt member_env 1000 asha))
      (asha ∷ [])
    ≡ ok (actor_of asha)
opened =
    require_dashboard_actor_session member_env 1000 asha member-IsReadable 1500 (asha ∷ []) asha
      refl refl refl

require_dashboard_actor_sound_example :
    IsAuthentic member_env (some (create_dashboard_session_jwt member_env 1000 asha))
    × ((row : OrganisationMember) × Member row (asha ∷ [])
        × (row.is_active ≡ true)
        × (actor_of asha ≡ actor_of row))
require_dashboard_actor_sound_example =
    require_dashboard_actor_sound member_env 1500
      (some (create_dashboard_session_jwt member_env 1000 asha)) (asha ∷ []) (actor_of asha) opened

-- ===== src/Core/Security.antt =====
-- core/security.py: the tokens of sessions, and what a request's token gives access to. Tokens are ASCII
-- texts, and bytes are kept as texts.
pub mod Encoding
pub mod Tokens
pub mod Access
pub mod Members
pub mod Tests
use Prim.Native.Char.{code}
use Prim.Native.String
use adhikar_ai.Prelude.{
  ℕ, zero, suc, ◌+◌, ◌-◌, ◌*◌, ◌/◌, ◌%◌, String, Bool, true, false, not, ◌&&◌, ◌||◌, Option, none,
  some, List, find, ◌==◌, nat_eq, string_eq, is_some, if◌then◌else◌, ltb, nat_beq,
}
use adhikar_ai.Prelude.Int.{ℤ, pos, negsuc, leb_ℤ}
use adhikar_ai.Prelude.Result.{ApiError, Result, ok, err, api_error, raise_if, done, ◌>>=◌, ◌>>◌}
use adhikar_ai.Prelude.Text.{is_empty, prepend, split_once, text_length}
use adhikar_ai.Value.{
  Value, Items, Fields, null, boolean, number, text, array, object, nil, cons, end, field, get,
}
use adhikar_ai.Accounts.{User}
use adhikar_ai.Accounts.Login.{internal_error}
use adhikar_ai.Dashboard.Rbac.{DashboardRole, super_admin, ngo_admin, operator, DashboardActor}

-- The settings that are read here, and the libraries: base64, json, hmac, the texts of UUIDs, and `int`
-- on a text.
pub record SecurityEnv : Type 0 where
  pub auth_jwt_secret : String
  pub auth_jwt_ttl_seconds : ℕ
  pub dashboard_session_idle_timeout_seconds : ℕ
  pub admin_api_token : String
  pub urlsafe_b64encode : String → String
  pub urlsafe_b64decode : String → Option String
  pub dumps : Value → String
  pub loads : String → Option Value
  pub hmac_sha256 : String → String → String
  pub str_uuid : ℕ → String
  pub uuid : String → Option ℕ
  pub int_of_text : String → Option ℤ

-- db/models/phase5.py; the columns that these services use.
pub record OrganisationMember : Type 0 where
  pub id : ℕ
  pub organisation_id : ℕ
  pub user_id : Option ℕ
  pub admin_user_id : Option ℕ
  pub role : DashboardRole
  pub email : Option String
  pub display_name : String
  pub is_active : Bool

abbrev pub not_authenticated : ApiError
not_authenticated = api_error 401 "NOT_AUTHENTICATED" "session"

abbrev pub dashboard_session_required : ApiError
dashboard_session_required = api_error 401 "DASHBOARD_SESSION_REQUIRED" "session"

unfoldable pub require_admin_token : SecurityEnv → Option String → Result (Unit {0})
require_admin_token env none = err (api_error 401 "ADMIN_TOKEN_INVALID" "X-Admin-Token")
require_admin_token env (some x_admin_token) =
    raise_if (not (x_admin_token == env.admin_api_token))
      (api_error 401 "ADMIN_TOKEN_INVALID" "X-Admin-Token")

-- `data.rstrip(b"=")`
unfoldable pub rstrip_equals : String → String
rstrip_equals String.[] = ""
rstrip_equals (String.◌∷◌ c s) =
    let rest = rstrip_equals s in
    if nat_beq (code c) 61 && is_empty rest then "" else String.◌∷◌ c rest

-- `"=" * n`
abbrev pub equals_signs : ℕ → String
equals_signs zero = ""
equals_signs (suc n) = String.◌∷◌ "=" (equals_signs n)

unfoldable pub b64url : SecurityEnv → String → String
unfolding rstrip_equals
b64url env s = rstrip_equals (env.urlsafe_b64encode s)

-- `-len(data) % 4` is the number of signs that are missing.
abbrev pub padded : String → String
padded s = prepend s (equals_signs ((4 - text_length s % 4) % 4))

unfoldable pub unb64url : SecurityEnv → String → Option String
unb64url env s = env.urlsafe_b64decode (padded s)

-- `f"{a}.{b}"`
abbrev pub dotted : String → String → String
dotted a b = prepend a (String.◌∷◌ "." b)

-- `s.rsplit(".", 1)`, if there is a dot.
unfoldable pub rsplit_dot : String → Option (String × String)
rsplit_dot String.[] = none
rsplit_dot (String.◌∷◌ c s) = elim (rsplit_dot s) [
  | some (a, b) ↦ some (String.◌∷◌ c a, b)
  | none ↦ if nat_beq (code c) 46 then some ("", s) else none
]

abbrev pub jwt_header : Value
jwt_header = object (field "alg" (text "HS256") (field "typ" (text "JWT") end))

abbrev pub signature_of : SecurityEnv → String → String
signature_of env signing_input = b64url env (env.hmac_sha256 env.auth_jwt_secret signing_input)

abbrev pub signing_input_of : SecurityEnv → Value → String
signing_input_of env payload =
    dotted (b64url env (env.dumps jwt_header)) (b64url env (env.dumps payload))

unfoldable pub sign_payload : SecurityEnv → Value → String
sign_payload env payload =
    let signing_input = signing_input_of env payload in
    dotted signing_input (signature_of env signing_input)

-- A number of seconds in a payload.
abbrev pub seconds : ℕ → Value
seconds n = number (pos (100 * n))

abbrev pub session_payload : SecurityEnv → ℕ → User → Fields
session_payload env now user = field "sub" (text (env.str_uuid user.id)) (
    field "org" (text (env.str_uuid user.organisation_id))
      (field "iat" (seconds now) (field "exp" (seconds (now + env.auth_jwt_ttl_seconds)) end)))

unfoldable pub create_session_jwt : SecurityEnv → ℕ → User → String
unfolding sign_payload
create_session_jwt env now user = sign_payload env (object (session_payload env now user))

-- `str(member.user_id or member.admin_user_id)`
abbrev pub subject_of : SecurityEnv → OrganisationMember → String
subject_of env member = elim member.user_id [
  | some id ↦ env.str_uuid id
  | none ↦ elim member.admin_user_id [ some id ↦ env.str_uuid id | none ↦ "None" ]
]

abbrev pub role_text : DashboardRole → String
role_text super_admin = "super_admin"
role_text ngo_admin = "ngo_admin"
role_text operator = "operator"

abbrev pub dashboard_payload : SecurityEnv → ℕ → OrganisationMember → Fields
dashboard_payload env now member = field "sub" (text (subject_of env member)) (
    field "member_id" (text (env.str_uuid member.id)) (
      field "org" (text (env.str_uuid member.organisation_id)) (
        field "role" (text (role_text member.role)) (
          field "typ" (text "dashboard") (
            field "iat" (seconds now)
              (field "exp" (seconds (now + env.dashboard_session_idle_timeout_seconds)) end))))))

unfoldable pub create_dashboard_session_jwt : SecurityEnv → ℕ → OrganisationMember → String
unfolding sign_payload
create_dashboard_session_jwt env now member =
    sign_payload env (object (dashboard_payload env now member))

-- `int(v)`, which drops the decimals; `none` where it raises.
unfoldable pub int_of : SecurityEnv → Value → Option ℤ
int_of env (boolean b) = some (if b then pos 1 else pos 0)
int_of env (number (pos n)) = some (pos (n / 100))
int_of env (number (negsuc n)) = some (if ltb n 99 then pos 0 else negsuc ((n + 1) / 100 - 1))
int_of env (text s) = env.int_of_text s
int_of env _ = none

-- `payload["exp"]` and `int`; `none` for whatever is raised on the way.
abbrev pub expiry_of : SecurityEnv → Fields → Option ℤ
expiry_of env payload = elim (get "exp" payload) [ none ↦ none | some v ↦ int_of env v ]

abbrev pub is_expired : ℕ → ℤ → Bool
is_expired now exp = not (leb_ℤ (pos now) exp)

-- The payload that is read from the middle part, unless it has expired.
abbrev pub current_payload : SecurityEnv → ℕ → Option Value → Option Fields
current_payload env now (some (object payload)) = elim (expiry_of env payload) [
  | none ↦ none
  | some exp ↦ if is_expired now exp then none else some payload
]
current_payload env now _ = none

abbrev pub loaded : SecurityEnv → Option String → Option Value
loaded env none = none
loaded env (some raw) = env.loads raw

-- The payload of a signed text.
abbrev pub payload_part : SecurityEnv → ℕ → Option (String × String) → Option Fields
payload_part env now none = none
payload_part env now (some (_, part)) = current_payload env now (loaded env (unb64url env part))

-- The body of the `try`, with `none` where it raises.
abbrev pub verified_payload : SecurityEnv → ℕ → Option (String × String) → Option Fields
verified_payload env now none = none
verified_payload env now (some (header_payload, signature)) =
    if signature == signature_of env header_payload
    then payload_part env now (split_once 46 header_payload)
    else none

-- The `except`.
abbrev pub or_refused : Option Fields → Result Fields
or_refused none = err not_authenticated
or_refused (some payload) = ok payload

unfoldable pub decode_session_jwt : SecurityEnv → ℕ → String → Result Fields
unfolding rsplit_dot split_once b64url unb64url int_of get
decode_session_jwt env now token = or_refused (verified_payload env now (rsplit_dot token))

-- `UUID(payload[key])`; what it raises is not caught.
abbrev pub uuid_at : SecurityEnv → String → Fields → Option ℕ
uuid_at env key payload = elim (get key payload) [ some (text s) ↦ env.uuid s | _ ↦ none ]

abbrev pub or_internal {ℓ} : {A : Type ℓ} → Option A → Result A
or_internal none = err internal_error
or_internal (some a) = ok a

-- `if not token`
abbrev pub given : Option String → Result String
given none = err not_authenticated
given (some token) = if is_empty token then err not_authenticated else ok token

abbrev pub current_user : Option User → Result User
current_user none = err not_authenticated
current_user (some user) = if is_some user.deleted_at then err not_authenticated else ok user

-- `db.get(User, id)`
abbrev pub user_by_id : ℕ → List User → Option User
user_by_id id users = find (λ (u : User). u.id == id) users

-- The payload of the request's cookie.
abbrev pub cookie_payload : SecurityEnv → ℕ → Option String → Result Fields
cookie_payload env now cookie = given cookie >>= decode_session_jwt env now

abbrev pub user_of : SecurityEnv → List User → Fields → Result User
user_of env users payload = do
  id ← or_internal (uuid_at env "sub" payload)
  current_user (user_by_id id users)

unfoldable pub require_user : SecurityEnv → ℕ → Option String → List User → Result User
unfolding decode_session_jwt
require_user env now cookie users = cookie_payload env now cookie >>= user_of env users

-- `bool(v)`
abbrev pub is_true : Value → Bool
is_true null = false
is_true (boolean b) = b
is_true (number (pos zero)) = false
is_true (number _) = true
is_true (text s) = not (is_empty s)
is_true (array nil) = false
is_true (array (cons _ _)) = true
is_true (object end) = false
is_true (object (field _ _ _)) = true

-- `payload.get("typ") != "dashboard"`
abbrev pub is_dashboard : Option Value → Bool
is_dashboard (some (text s)) = s == "dashboard"
is_dashboard _ = false

abbrev pub has_member : Option Value → Bool
has_member none = false
has_member (some v) = is_true v

abbrev pub actor_of : OrganisationMember → DashboardActor
actor_of member = record {
  user_id = member.user_id;
  member_id = member.id;
  organisation_id = member.organisation_id;
  role = member.role;
  display_name = member.display_name;
}

abbrev pub active_member : Option OrganisationMember → Result DashboardActor
active_member none = err dashboard_session_required
active_member (some member) =
    if member.is_active then ok (actor_of member) else err dashboard_session_required

abbrev pub member_by_id : ℕ → List OrganisationMember → Option OrganisationMember
member_by_id id members = find (λ (m : OrganisationMember). m.id == id) members

abbrev pub member_of : SecurityEnv → List OrganisationMember → Fields → Result DashboardActor
member_of env members payload = do
  raise_if (not (is_dashboard (get "typ" payload)) || not (has_member (get "member_id" payload)))
      dashboard_session_required
  id ← or_internal (uuid_at env "member_id" payload)
  active_member (member_by_id id members)

unfoldable pub require_dashboard_actor :
    SecurityEnv → ℕ → Option String → List OrganisationMember → Result DashboardActor
unfolding decode_session_jwt
require_dashboard_actor env now cookie members =
    cookie_payload env now cookie >>= member_of env members

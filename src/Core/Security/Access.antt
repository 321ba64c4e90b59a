-- ===== src/Core/Security/Access.antt =====
-- Whom require_user of core/security.py lets in.

use adhikar_ai.Prelude.{
  ℕ, ◌+◌, ◌*◌, ◌/◌, ◌≡◌, refl, ap, ◌∙◌, String, Option, none, some, List, Member, find-some,
  Option-cases, if◌then◌else◌, ltb, arith, inl, inr,
}
use adhikar_ai.Prelude.Int.{pos}
use adhikar_ai.Prelude.Result.{ok, err, ◌>>=◌, bind-ok}
use adhikar_ai.Prelude.Text.{prepend}
use adhikar_ai.Value.{Fields, object, get}
use adhikar_ai.Accounts.{User}
use adhikar_ai.Core.Security.{
  SecurityEnv, not_authenticated, dotted, sign_payload, session_payload, create_session_jwt, int_of,
  expiry_of, decode_session_jwt, uuid_at, or_internal, given, cookie_payload, user_of, current_user,
  user_by_id, require_user,
}
use adhikar_ai.Core.Security.Tokens.{
  IsReadable, IsSigned, decode_session_jwt-sign, decode_session_jwt-IsSigned,
}

given-dotted : (a b : String) → given (some (dotted a b)) ≡ ok (dotted a b)
unfolding prepend
given-dotted String.[] b = refl
given-dotted (String.◌∷◌ c a) b = refl

pub given-sign_payload :
    (env : SecurityEnv) (payload : Fields)
    → given (some (sign_payload env (object payload))) ≡ ok (sign_payload env (object payload))
unfolding sign_payload
given-sign_payload env payload = given-dotted _ _

pub hundred : (n : ℕ) → 100 * n / 100 ≡ n
hundred n = omega arith

module _ (env : SecurityEnv) (now : ℕ) (user : User)
    (readable : IsReadable env (session_payload env now user)) where
  session_expiry :
      expiry_of env (session_payload env now user) ≡ some (pos (now + env.auth_jwt_ttl_seconds))
  unfolding get int_of
  session_expiry = rw (hundred (now + env.auth_jwt_ttl_seconds))

  pub cookie_payload-session :
      (at : ℕ)
      → cookie_payload env at (some (create_session_jwt env now user)) ≡ (
          if ltb (now + env.auth_jwt_ttl_seconds) at
          then err not_authenticated
          else ok (session_payload env now user))
  unfolding create_session_jwt
  cookie_payload-session at =
      ap (λ r. r >>= decode_session_jwt env at)
        (given-sign_payload env (session_payload env now user))
      ∙ decode_session_jwt-sign env (session_payload env now user) readable at
          (now + env.auth_jwt_ttl_seconds) session_expiry

  -- The token that a user gets opens the account for as long as the settings say, and not longer.
  pub require_user_session :
      (at : ℕ) (users : List User)
      → env.uuid (env.str_uuid user.id) ≡ some user.id
      → user_by_id user.id users ≡ some user
      → user.deleted_at ≡ none
      → require_user env at (some (create_session_jwt env now user)) users
        ≡ (if ltb (now + env.auth_jwt_ttl_seconds) at then err not_authenticated else ok user)
  unfolding require_user get
  require_user_session at users id found present =
      let opened : user_of env users (session_payload env now user) ≡ ok user =
        rw id (rw found (rw present refl)) in
      ap (λ r. r >>= user_of env users) (cookie_payload-session at) ∙ ground (arith, opened)

-- The cookie is a token that the secret has signed.
pub record IsAuthentic (env : SecurityEnv) (cookie : Option String) : Type 0 where
  pub token : String
  pub sent : cookie ≡ some token
  pub signed : IsSigned env token

given-some :
    (cookie : Option String) (token : String) → given cookie ≡ ok token → cookie ≡ some token
given-some none token h = absurd (ground (arith, h))
given-some (some s) token h = ground (arith, h)

pub cookie_payload-IsAuthentic :
    (env : SecurityEnv) (now : ℕ) (cookie : Option String) (payload : Fields)
    → cookie_payload env now cookie ≡ ok payload
    → IsAuthentic env cookie
cookie_payload-IsAuthentic env now cookie payload h =
    let (token, present, decoded) = bind-ok (given cookie) (decode_session_jwt env now) payload h in
    record {
      token = token;
      sent = given-some cookie token present;
      signed = decode_session_jwt-IsSigned env now token payload decoded;
    }

current_user-ok :
    (found : Option User) (user : User)
    → current_user found ≡ ok user
    → (found ≡ some user) × (user.deleted_at ≡ none)
current_user-ok none user h = absurd (ground (arith, h))
current_user-ok (some u) user h = elim (Option-cases u.deleted_at) [
  | inl e ↦ ground (arith, h, e)
  | inr (at, e) ↦ absurd (ground (arith, h, e))
]

-- A user who is let in: the payload of the cookie names an id, under which the row is found.
pub record IsOpened (env : SecurityEnv) (now : ℕ) (cookie : Option String) (users : List User)
    (user : User) : Type 0 where
  pub payload : Fields
  pub id : ℕ
  pub read : cookie_payload env now cookie ≡ ok payload
  pub named : or_internal (uuid_at env "sub" payload) ≡ ok id
  pub found : user_by_id id users ≡ some user
  pub present : user.deleted_at ≡ none

module _ (env : SecurityEnv) (now : ℕ) (cookie : Option String) (users : List User)
    (user : User) where
  pub require_user-IsOpened :
      require_user env now cookie users ≡ ok user → IsOpened env now cookie users user
  unfolding require_user
  require_user-IsOpened h =
      let (payload, read, rest) =
        bind-ok (cookie_payload env now cookie) (user_of env users) user h in
      let (id, named, opened) =
        bind-ok (or_internal (uuid_at env "sub" payload)) (λ id. current_user (user_by_id id users))
          user rest in
      let (found, present) = current_user-ok (user_by_id id users) user opened in
      record {
        payload = payload;
        id = id;
        read = read;
        named = named;
        found = found;
        present = present;
      }

  pub IsOpened-require_user :
      IsOpened env now cookie users user → require_user env now cookie users ≡ ok user
  unfolding require_user
  IsOpened-require_user o =
      let opened : current_user (user_by_id o.id users) ≡ ok user =
        ap current_user o.found ∙ rw o.present refl in
      ap (λ r. r >>= user_of env users) o.read
      ∙ ap (λ r. r >>= λ id. current_user (user_by_id id users)) o.named
      ∙ opened

  -- Whoever is let in has a signed token, and an account that is not deleted.
  pub require_user_sound :
      require_user env now cookie users ≡ ok user
      → IsAuthentic env cookie × Member user users × (user.deleted_at ≡ none)
  require_user_sound h =
      let o = require_user-IsOpened h in
      (
        cookie_payload-IsAuthentic env now cookie o.payload o.read,
        (find-some _ user users o.found).0,
        o.present,
      )

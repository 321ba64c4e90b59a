-- ===== src/Core/Security/Tokens.antt =====
-- What decode_session_jwt of core/security.py makes of the tokens that the file signs, and of any other.

use adhikar_ai.Prelude.{
  ℕ, ◌≡◌, refl, ap, ◌∙◌, String, Bool, string_eq, ltb, Option, none, some, Option-cases,
  if◌then◌else◌, arith, inl, inr,
}
use adhikar_ai.Prelude.Result.{ok, err}
use adhikar_ai.Prelude.Text.{split_once}
use adhikar_ai.Prelude.Int.{pos}
use adhikar_ai.Value.{Fields, object}
use adhikar_ai.Core.Security.{
  SecurityEnv, b64url, rsplit_dot, jwt_header, signature_of, signing_input_of, sign_payload,
  expiry_of, payload_part, loaded, current_payload, verified_payload, or_refused,
  decode_session_jwt, not_authenticated,
}
use adhikar_ai.Core.Security.Encoding.{
  IsBase64, rsplit_dot-dotted, split_once-dotted, b64url-plain, unb64url-b64url,
}

-- The libraries do what they document on the texts that a token of a payload has: base64 on its three
-- parts, and json on the payload.
pub record IsReadable (env : SecurityEnv) (payload : Fields) : Type 0 where
  pub header : IsBase64 env (env.dumps jwt_header)
  pub middle : IsBase64 env (env.dumps (object payload))
  pub digest :
      IsBase64 env (env.hmac_sha256 env.auth_jwt_secret (signing_input_of env (object payload)))
  pub loaded : env.loads (env.dumps (object payload)) ≡ some (object payload)

module _ (env : SecurityEnv) (payload : Fields) (readable : IsReadable env payload) where
  -- A signed payload is read again until it expires.
  pub verified_payload-sign :
      (now : ℕ)
      → verified_payload env now (rsplit_dot (sign_payload env (object payload)))
        ≡ current_payload env now (some (object payload))
  unfolding sign_payload
  verified_payload-sign now =
      let input = signing_input_of env (object payload) in
      let signature = signature_of env input in
      let middle = b64url env (env.dumps (object payload)) in
      let part : Option Fields = payload_part env now (split_once 46 input) in
      ap (verified_payload env now) (
        rsplit_dot-dotted input signature
          (b64url-plain env (env.hmac_sha256 env.auth_jwt_secret input) readable.digest))
      ∙ ap (λ (b : Bool). if b then part else none)
          ((string_eq.test_iff signature signature).1 refl)
      ∙ ap (payload_part env now) (
          split_once-dotted (b64url env (env.dumps jwt_header)) middle
            (b64url-plain env (env.dumps jwt_header) readable.header))
      ∙ ap (λ (o : Option String). current_payload env now (loaded env o))
          (unb64url-b64url env (env.dumps (object payload)) readable.middle)
      ∙ ap (current_payload env now) readable.loaded

  pub decode_session_jwt-sign :
      (now expires : ℕ)
      → expiry_of env payload ≡ some (pos expires)
      → decode_session_jwt env now (sign_payload env (object payload))
        ≡ (if ltb expires now then err not_authenticated else ok payload)
  unfolding decode_session_jwt
  decode_session_jwt-sign now expires e =
      let read : or_refused (current_payload env now (some (object payload)))
          ≡ (if ltb expires now then err not_authenticated else ok payload) =
        ground (arith, e) in
      ap or_refused (verified_payload-sign now) ∙ read

-- A token is accepted only with the signature that the secret gives to the rest of it.
pub record IsSigned (env : SecurityEnv) (token : String) : Type 0 where
  pub header_payload : String
  pub split : rsplit_dot token ≡ some (header_payload, signature_of env header_payload)

pub decode_session_jwt-IsSigned :
    (env : SecurityEnv) (now : ℕ) (token : String) (payload : Fields)
    → decode_session_jwt env now token ≡ ok payload
    → IsSigned env token
unfolding decode_session_jwt
decode_session_jwt-IsSigned env now token payload h = elim (Option-cases (rsplit_dot token)) [
  | inl e ↦ absurd (ground (arith, h, e))
  | inr ((header_payload, signature), e) ↦
      let same : signature ≡ signature_of env header_payload =
        ground (arith, h, e, string_eq.test_iff signature (signature_of env header_payload)) in
      record { header_payload = header_payload; split = rw (← same) e }
]

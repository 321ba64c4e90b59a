-- ===== src/Core/Security/Encoding.antt =====
-- The texts of a token (core/security.py): base64 without padding, and the dots between its parts.
use Prim.Native.Char.{Char, code}
use adhikar_ai.Prelude.{
  ℕ, zero, suc, ◌+◌, ◌-◌, ◌%◌, ◌<◌, ◌≡◌, refl, sym, ap, ◌∙◌, String, Bool, true, not, ◌&&◌, none,
  some, nat_beq, arith,
}
use adhikar_ai.Prelude.Text.{prepend, split_once, text_length, all_chars}
use adhikar_ai.Core.Security.{
  SecurityEnv, rstrip_equals, equals_signs, b64url, unb64url, dotted, rsplit_dot,
}

-- No dot and no equals sign.
abbrev pub is_plain : Char → Bool
is_plain c = not (nat_beq (code c) 46) && not (nat_beq (code c) 61)

-- The documented behaviour of base64 on one text: it is decoded again, it has letters, digits, `-` and
-- `_` alone, and up to three equals signs fill it up to a multiple of four.
pub record IsBase64 (env : SecurityEnv) (s : String) : Type 0 where
  pub body : String
  pub padding : ℕ
  pub encoded : env.urlsafe_b64encode s ≡ prepend body (equals_signs padding)
  pub plain : all_chars is_plain body ≡ true
  pub short : padding < 4
  pub filled : (text_length body + padding) % 4 ≡ 0
  pub decoded : env.urlsafe_b64decode (env.urlsafe_b64encode s) ≡ some s

rstrip-equals_signs : (n : ℕ) → rstrip_equals (equals_signs n) ≡ ""
unfolding rstrip_equals
rstrip-equals_signs zero = refl
rstrip-equals_signs (suc n) = rw (rstrip-equals_signs n)

rstrip-prepend :
    (s : String) (n : ℕ)
    → all_chars is_plain s ≡ true
    → rstrip_equals (prepend s (equals_signs n)) ≡ s
unfolding rstrip_equals prepend all_chars
rstrip-prepend String.[] n h = rstrip-equals_signs n
rstrip-prepend (String.◌∷◌ c s) n h = ground (arith, rstrip-prepend s n)

pub rsplit_dot-none : (s : String) → all_chars is_plain s ≡ true → rsplit_dot s ≡ none
unfolding rsplit_dot all_chars
rsplit_dot-none String.[] h = refl
rsplit_dot-none (String.◌∷◌ c s) h = ground (arith, rsplit_dot-none s)

-- The last dot is the one before a part without dots.
pub rsplit_dot-dotted :
    (a b : String) → all_chars is_plain b ≡ true → rsplit_dot (dotted a b) ≡ some (a, b)
unfolding rsplit_dot prepend
rsplit_dot-dotted String.[] b h = rw (rsplit_dot-none b h)
rsplit_dot-dotted (String.◌∷◌ c a) b h = rw (rsplit_dot-dotted a b h)

-- The first dot is the one after a part without dots.
pub split_once-dotted :
    (a b : String) → all_chars is_plain a ≡ true → split_once 46 (dotted a b) ≡ some (a, b)
unfolding split_once prepend all_chars
split_once-dotted String.[] b h = refl
split_once-dotted (String.◌∷◌ c a) b h = ground (arith, split_once-dotted a b)

module _ (env : SecurityEnv) (s : String) (base64 : IsBase64 env s) where
  pub b64url-body : b64url env s ≡ base64.body
  unfolding b64url
  b64url-body = rw base64.encoded (rstrip-prepend base64.body base64.padding base64.plain)

  pub b64url-plain : all_chars is_plain (b64url env s) ≡ true
  b64url-plain = rw b64url-body base64.plain

  -- The padding that was taken away is the one that is put back.
  pub unb64url-b64url : unb64url env (b64url env s) ≡ some s
  unfolding unb64url
  unb64url-b64url =
      let missing : (4 - text_length base64.body % 4) % 4 ≡ base64.padding =
        omega (arith, base64.short, base64.filled) in
      ap (unb64url env) b64url-body
      ∙ ap (λ (n : ℕ). env.urlsafe_b64decode (prepend base64.body (equals_signs n))) missing
      ∙ ap env.urlsafe_b64decode (sym base64.encoded)
      ∙ base64.decoded

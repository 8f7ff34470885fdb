-- ===== src/Jwt/Verify.antt =====
-- What JwtVerify says of a token, and of one that JwtCreate made.
use mathlib.Core.List.{append_assoc}
use swift_chat_system.Common.{
  ◌≡◌, refl, sym, ap, ◌∙◌, ◌<◌, true, false, not, ◌&&◌, some, [], ◌∷◌, All, map, arith, ◌==◌,
  Option-cases, inl, inr,
}
use swift_chat_system.Common.Int.{ℤ, ltb_ℤ, to_int32}
use swift_chat_system.Common.Text.{
  IsByte, Text, codes, text_eq, is_empty, text_eq_iff, text_eq_refl,
}
use swift_chat_system.Json.{Json, find, Object}
use swift_chat_system.Json
use swift_chat_system.Jwt.Base64.{base64_url_encode}
use swift_chat_system.Jwt.Base64.Groups.{
  url_char, sextets, sextets_bound, url_char-ne-dot, base64_url_encode-by_groups,
}
use swift_chat_system.Jwt.Base64.Roundtrip.{base64_url_roundtrip}
use swift_chat_system.Jwt.Token.{
  split_dot, with_dot, header, payload, default_issuer, expiry, seconds, is_known, read_claims,
  sign, jwt_create, verify_parts, jwt_verify,
}

abbrev IsDotFree : Text → Type 0
IsDotFree = All (λ c. (c == b'.') ≡ false)

split_dot-with_dot : (a b : Text) → IsDotFree a → split_dot (with_dot a b) ≡ some (a, b)
unfolding split_dot
split_dot-with_dot [] b h = refl
split_dot-with_dot (c ∷ a) b h = ground (arith, split_dot-with_dot a b h.1)

-- The text is put together again of its two parts.
with_dot-split_dot : (t a b : Text) → split_dot t ≡ some (a, b) → t ≡ with_dot a b
unfolding split_dot
with_dot-split_dot [] a b e = cc
with_dot-split_dot (c ∷ t) a b e = elim (Option-cases (split_dot t)) [
  | inl no_dot ↦ ground arith
  | inr ((a', b'), found) ↦ ground (arith, with_dot-split_dot t a' b' found)
]

url_chars-IsDotFree : (is : Text) → All (λ i. i < 64) is → IsDotFree (map url_char is)
url_chars-IsDotFree [] h = tt
url_chars-IsDotFree (i ∷ is) h = (url_char-ne-dot i h.0, url_chars-IsDotFree is h.1)

base64_url_encode-IsDotFree : (s : Text) → All IsByte s → IsDotFree (base64_url_encode s)
base64_url_encode-IsDotFree s h =
    rw (base64_url_encode-by_groups s h) (url_chars-IsDotFree (sextets s) (sextets_bound s h))

read_claims-payload :
    (p : Object) (user_id : Text) (hours : ℤ) (issuer : Text) (now now' : ℤ)
    → ((k : Text) → find k p ≡ find k (payload user_id hours issuer now))
    → read_claims p now' ≡ record {
      user_id = user_id;
      issuer = default_issuer issuer;
      iat = to_int32 (seconds now);
      exp = to_int32 (expiry hours now);
      valid =
          not (ltb_ℤ (to_int32 (expiry hours now)) now')
          && (is_known (default_issuer issuer) && not (is_empty user_id));
    }
unfolding read_claims find text_eq
read_claims-payload p user_id hours issuer now now' same =
    ground (arith, same (codes "sub"), same (codes "iss"), same (codes "iat"), same (codes "exp"))

module _ (J : Json) (hmac : Text → Text → Text) where
  -- JwtVerify accepts a token only if its last part is the signature, by the secret, of the two
  -- parts before it.
  pub jwt_verify-sign :
      (token secret : Text) (now_ms : ℤ)
      → (jwt_verify J hmac token secret now_ms).valid ≡ true
      → (text : Text) × (token ≡ with_dot text (sign J hmac secret text))
  unfolding jwt_verify verify_parts
  jwt_verify-sign token secret now_ms ok = elim (Option-cases (split_dot token)) [
    | inl no_dot ↦ absurd (ground arith)
    | inr ((h, rest), found) ↦ elim (Option-cases (split_dot rest)) [
      | inl no_dot ↦ absurd (ground arith)
      | inr ((p, sig), found') ↦
          let text = with_dot h p in
          let signed : sig ≡ sign J hmac secret text =
            ground (arith, text_eq_iff sig (sign J hmac secret text)) in
          (
            text,
            with_dot-split_dot token h rest found
                ∙ (ap (with_dot h) (with_dot-split_dot rest p sig found')
                    ∙ (sym (append_assoc h (b'.' ∷ p) (b'.' ∷ sig)) ∙ ap (with_dot text) signed)),
          )
    ]
  ]

  -- A token that JwtCreate made is read by JwtVerify with the same secret as it was made, its two
  -- times as the int of their low 32 bits, and it is valid exactly if it is not expired then, the
  -- issuer is one of the two that are known, and the user has a name.
  pub jwt_verify-jwt_create :
      (law : Json.IsLawful J) (bytes : Json.PrintsBytes J) (user_id secret issuer : Text)
      (hours now now' : ℤ)
      → jwt_verify J hmac (jwt_create J hmac user_id secret hours issuer now) secret now' ≡ record {
        user_id = user_id;
        issuer = default_issuer issuer;
        iat = to_int32 (seconds now);
        exp = to_int32 (expiry hours now);
        valid =
            not (ltb_ℤ (to_int32 (expiry hours now)) (seconds now'))
            && (is_known (default_issuer issuer) && not (is_empty user_id));
      }
  unfolding jwt_verify jwt_create verify_parts
  jwt_verify-jwt_create law bytes user_id secret issuer hours now now' =
      let b = bytes header in
      let b' = bytes (payload user_id hours issuer now) in
      let h = base64_url_encode (J.dump header) in
      let claims = payload user_id hours issuer now in
      let p = base64_url_encode (J.dump claims) in
      let sig = sign J hmac secret (with_dot h p) in
      let (o, parsed, same) = law.parse-dump claims in
      ground (
        arith,
        append_assoc h (b'.' ∷ p) (b'.' ∷ sig),
        split_dot-with_dot h (with_dot p sig) (base64_url_encode-IsDotFree (J.dump header) b),
        split_dot-with_dot p sig (base64_url_encode-IsDotFree (J.dump claims) b'),
        text_eq_refl sig,
        base64_url_roundtrip (J.dump claims) b',
        read_claims-payload o user_id hours issuer now (seconds now') same,
      )

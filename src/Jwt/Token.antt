-- ===== src/Jwt/Token.antt =====
-- JwtCreate and JwtVerify of common/src/jwt_helper.cpp. HMAC-SHA256 is OpenSSL's: a function of key
-- and text to bytes. The clock readings, in milliseconds, are arguments.
use swift_chat_system.Common.{
  ℕ, suc, ◌+◌, ◌-◌, ◌*◌, ◌/◌, ◌%◌, Bool, false, not, ◌&&◌, ◌||◌, Option, none, some, [], ◌∷◌, ◌++◌,
  if◌then◌else◌, ltb, leb, ◌==◌,
}
use swift_chat_system.Common.Int.{ℤ, pos, negsuc, ◌+ℤ◌, ltb_ℤ, mul_ℤ, sub_ℕ}
use swift_chat_system.Common.Text.{Text, codes, text_eq, is_empty}
use swift_chat_system.Json.{Json, Object, str, int, text_value, int_value}
use swift_chat_system.Online.Jwt.{JwtPayload}
use swift_chat_system.Jwt.Base64.{base64_url_encode, base64_url_decode}

-- `%x` of four bits.
unfoldable pub hex_digit : ℕ → ℕ
hex_digit n = if ltb n 10 then b'0' + n else b'a' + (n - 10)

-- The loop of HmacSha256.
unfoldable pub to_hex : Text → Text
to_hex [] = []
to_hex (b ∷ bs) = hex_digit (b / 16) ∷ hex_digit (b % 16) ∷ to_hex bs

unfoldable pub hex_value : ℕ → ℕ
hex_value c =
    if leb b'0' c && leb c b'9'
    then c - b'0'
    else if leb b'a' c && leb c b'f'
    then c - b'a' + 10
    else if leb b'A' c && leb c b'F'
    then c - b'A' + 10
    else 0

unfoldable pub hex_decode : Text → Text
hex_decode [] = []
hex_decode (c ∷ []) = []
hex_decode (c ∷ d ∷ cs) = (hex_value c * 16 + hex_value d) ∷ hex_decode cs

-- `GetTimestampMs() / 1000`
abbrev pub seconds : ℤ → ℤ
seconds (pos n) = pos (n / 1000)
seconds (negsuc n) = sub_ℕ 0 (suc n / 1000)

-- `find('.')`: the text before the first dot and behind it.
unfoldable pub split_dot : Text → Option (Text × Text)
split_dot [] = none
split_dot (c ∷ cs) =
    let rest = split_dot cs in
    if c == b'.' then some ([], cs) else elim rest [ none ↦ none | some (a, b) ↦ some (c ∷ a, b) ]

abbrev pub with_dot : Text → Text → Text
with_dot a b = a ++ (b'.' ∷ b)

abbrev pub header : Object
header = (codes "alg", str (codes "HS256")) ∷ (codes "typ", str (codes "JWT")) ∷ []

abbrev pub default_issuer : Text → Text
default_issuer issuer = if is_empty issuer then codes "swift-online" else issuer

abbrev pub expiry : ℤ → ℤ → ℤ
expiry expire_hours now_ms = seconds now_ms +ℤ mul_ℤ expire_hours 3600

abbrev pub payload : Text → ℤ → Text → ℤ → Object
payload user_id expire_hours issuer now_ms =
    (codes "iss", str (default_issuer issuer))
    ∷ (codes "sub", str user_id)
    ∷ (codes "iat", int (seconds now_ms))
    ∷ (codes "exp", int (expiry expire_hours now_ms))
    ∷ []

abbrev pub is_known : Text → Bool
is_known issuer = text_eq issuer (codes "swift-online") || text_eq issuer (codes "swift-auth")

abbrev pub no_payload : JwtPayload
no_payload = record { user_id = []; issuer = []; iat = pos 0; exp = pos 0; valid = false }

-- The fields that are read, up to one of another type, which throws.
unfoldable pub read_claims : Object → ℤ → JwtPayload
read_claims p now = elim (text_value p (codes "sub") []) [
  | none ↦ no_payload
  | some user_id ↦ elim (text_value p (codes "iss") []) [
    | none ↦ record no_payload { user_id = user_id }
    | some issuer ↦ elim (int_value p (codes "iat") (pos 0)) [
      | none ↦ record no_payload { user_id = user_id; issuer = issuer }
      | some iat ↦ elim (int_value p (codes "exp") (pos 0)) [
        | none ↦ record no_payload { user_id = user_id; issuer = issuer; iat = iat }
        | some exp ↦ record {
          user_id = user_id;
          issuer = issuer;
          iat = iat;
          exp = exp;
          valid = not (ltb_ℤ exp now) && (is_known issuer && not (is_empty user_id));
        }
      ]
    ]
  ]
]

module _ (J : Json) (hmac : Text → Text → Text) where
  unfoldable pub hmac_sha256 : Text → Text → Text
  hmac_sha256 key text = to_hex (hmac key text)

  -- The signature of a text, as JwtCreate and JwtVerify make it.
  unfoldable pub sign : Text → Text → Text
  sign secret text = base64_url_encode (hex_decode (hmac_sha256 secret text))

  unfoldable pub jwt_create : Text → Text → ℤ → Text → ℤ → Text
  jwt_create user_id secret expire_hours issuer now_ms =
      let header_b64 = base64_url_encode (J.dump header) in
      let payload_b64 = base64_url_encode (J.dump (payload user_id expire_hours issuer now_ms)) in
      let text = with_dot header_b64 payload_b64 in with_dot text (sign secret text)

  -- JwtVerify from the three parts of the token.
  unfoldable pub verify_parts : Text → Text → Text → Text → ℤ → JwtPayload
  verify_parts header_b64 payload_b64 sig_b64 secret now_ms =
      if not (text_eq sig_b64 (sign secret (with_dot header_b64 payload_b64)))
      then no_payload
      else elim (J.parse (base64_url_decode payload_b64)) [
        | none ↦ no_payload
        | some p ↦ read_claims p (seconds now_ms)
      ]

  unfoldable pub jwt_verify : Text → Text → ℤ → JwtPayload
  jwt_verify token secret now_ms = elim (split_dot token) [
    | none ↦ no_payload
    | some (header_b64, rest) ↦ elim (split_dot rest) [
      | none ↦ no_payload
      | some (payload_b64, sig_b64) ↦ verify_parts header_b64 payload_b64 sig_b64 secret now_ms
    ]
  ]

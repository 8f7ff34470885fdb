-- ===== src/Tests/Utils.antt =====
-- The utilities and the token encoding at concrete inputs.
use swift_chat_system.Common.{◌≡◌, refl, arith, some, true, not, ◌&&◌, List, [], ◌∷◌}
use swift_chat_system.Common.Int.{pos, ltb_ℤ, to_int32}
use swift_chat_system.Common.Text.{Text, codes, text_eq, is_empty, starts_with}
use swift_chat_system.Json.Bytes.{byte_codec, byte_codec-IsLawful, byte_codec-PrintsBytes}
use swift_chat_system.Utils.Codec.{bytes_to_hex, hex_decode}
use swift_chat_system.Utils.Codec.Roundtrip.{hex_roundtrip}
use swift_chat_system.Utils.Strings.{find, split, split_loop, join, replace_all}
use swift_chat_system.Utils.Strings.Split.{join-split, replace_all-split}
use swift_chat_system.Jwt.Base64.{base64_url_encode, base64_url_decode}
use swift_chat_system.Jwt.Base64.Groups.{rfc4648, base64_url_encode-rfc4648}
use swift_chat_system.Jwt.Base64.Roundtrip.{base64_url_roundtrip}
use swift_chat_system.Jwt.Token.{
  with_dot, sign, jwt_create, jwt_verify, default_issuer, seconds, expiry, is_known,
}
use swift_chat_system.Jwt.Verify.{jwt_verify-sign, jwt_verify-jwt_create}
use swift_chat_system.Online.Jwt.{JwtPayload}

abbrev list : Text
list = codes "a,b,,c"

hex_roundtrip_example : hex_decode (bytes_to_hex (codes "AB")) ≡ codes "AB"
hex_roundtrip_example = hex_roundtrip (codes "AB") (omega arith, (omega arith, tt))

join-split_example :
    (parts : List Text) × (split list (codes ",") ≡ some parts) × (join parts (codes ",") ≡ list)
join-split_example = join-split list (codes ",")

comma_parts : split list (codes ",") ≡ some (codes "a" ∷ codes "b" ∷ [] ∷ codes "c" ∷ [])
unfolding split split_loop find starts_with
comma_parts = refl

replace_all-split_example :
    replace_all list (codes ",") (codes "; ")
    ≡ some (join (codes "a" ∷ codes "b" ∷ [] ∷ codes "c" ∷ []) (codes "; "))
replace_all-split_example =
    replace_all-split list (codes ",") (codes "; ") (codes "a" ∷ codes "b" ∷ [] ∷ codes "c" ∷ [])
      refl comma_parts

base64_url_encode-rfc4648_example : base64_url_encode (codes "ab?") ≡ rfc4648 (codes "ab?")
base64_url_encode-rfc4648_example =
    base64_url_encode-rfc4648 (codes "ab?") (omega arith, (omega arith, (omega arith, tt)))

base64_url_roundtrip_example : base64_url_decode (base64_url_encode (codes "ab?")) ≡ codes "ab?"
base64_url_roundtrip_example =
    base64_url_roundtrip (codes "ab?") (omega arith, (omega arith, (omega arith, tt)))

abbrev hmac : Text → Text → Text
hmac key text = key

abbrev token : Text
token = jwt_create byte_codec hmac (codes "u") (codes "k") (pos 0) (codes "swift-online") (pos 5000)

abbrev claims : JwtPayload
claims = record {
  user_id = codes "u";
  issuer = default_issuer (codes "swift-online");
  iat = to_int32 (seconds (pos 5000));
  exp = to_int32 (expiry (pos 0) (pos 5000));
  valid =
      not (ltb_ℤ (to_int32 (expiry (pos 0) (pos 5000))) (seconds (pos 4000)))
      && (is_known (default_issuer (codes "swift-online")) && not (is_empty (codes "u")));
}

jwt_verify-jwt_create_example : jwt_verify byte_codec hmac token (codes "k") (pos 4000) ≡ claims
jwt_verify-jwt_create_example =
    jwt_verify-jwt_create byte_codec hmac byte_codec-IsLawful byte_codec-PrintsBytes (codes "u")
      (codes "k") (codes "swift-online") (pos 0) (pos 5000) (pos 4000)

jwt_verify_accepts : (jwt_verify byte_codec hmac token (codes "k") (pos 4000)).valid ≡ true
unfolding text_eq to_int32
jwt_verify_accepts =
    rw
      (jwt_verify-jwt_create byte_codec hmac byte_codec-IsLawful byte_codec-PrintsBytes (codes "u")
        (codes "k") (codes "swift-online") (pos 0) (pos 5000) (pos 4000))
      refl

jwt_verify-sign_example :
    (text : Text) × (token ≡ with_dot text (sign byte_codec hmac (codes "k") text))
jwt_verify-sign_example =
    jwt_verify-sign byte_codec hmac token (codes "k") (pos 4000) jwt_verify_accepts

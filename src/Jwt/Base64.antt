-- ===== src/Jwt/Base64.antt =====
-- Base64UrlEncode and Base64UrlDecode of common/src/jwt_helper.cpp. `val` is the bit pattern of the
-- `int`: the shift of a negative one is taken to wrap, as compilers have it. The count `valb` is
-- written with its start added, `valb + 6` in the encoder and `valb + 8` in the decoder, and the
-- text is made front to back.
pub mod Groups
pub mod Roundtrip
use swift_chat_system.Common.{
  ℕ, zero, suc, ◌+◌, ◌-◌, ◌*◌, ◌/◌, ◌%◌, ◌^◌, Bool, true, false, ◌&&◌, Option, none, some, List, [],
  ◌∷◌, ◌++◌, if◌then◌else◌, ltb, leb, ◌==◌, length, map,
}
use swift_chat_system.Common.Text.{Text, codes, is_empty}

-- `b64[i]`
unfoldable pub char_at : ℕ → Text → ℕ
char_at i [] = 0
char_at zero (c ∷ cs) = c
char_at (suc i) (c ∷ cs) = char_at i cs

abbrev pub alphabet : Text
alphabet = codes "ABCDEFGHIJKLMNOPQRSTUVWXYZabcdefghijklmnopqrstuvwxyz0123456789+/"

abbrev pub u32 : ℕ
u32 = 4294967296

-- `while (valb >= 0)`, on fuel.
unfoldable pub emit : ℕ → ℕ → ℕ → Text × ℕ
emit zero val bits = ([], bits)
emit (suc fuel) val bits =
    let rest = emit fuel val (bits - 6) in
    if ltb bits 6
    then ([], bits)
    else (char_at (val / 2 ^ (bits - 6) % 64) alphabet ∷ rest.0, rest.1)

unfoldable pub encode_from : ℕ → ℕ → Text → Text
encode_from val bits [] =
    if ltb 0 bits then char_at (val * 256 % u32 / 2 ^ (bits + 2) % 64) alphabet ∷ [] else []
encode_from val bits (b ∷ bs) =
    let val' = (val * 256 + b) % u32 in
    let out = emit (bits + 8) val' (bits + 8) in out.0 ++ encode_from val' out.1 bs

abbrev pub to_url : ℕ → ℕ
to_url c = if c == b'+' then b'-' else if c == b'/' then b'_' else c

-- `while (!out.empty() && out.back() == '=') out.pop_back()`
unfoldable pub strip_padding : Text → Text
strip_padding [] = []
strip_padding (c ∷ cs) =
    let rest = strip_padding cs in if is_empty rest && c == b'=' then [] else c ∷ rest

unfoldable pub base64_url_encode : Text → Text
base64_url_encode s = strip_padding (map to_url (encode_from 0 0 s))

abbrev pub from_url : ℕ → ℕ
from_url c = if c == b'-' then b'+' else if c == b'_' then b'/' else c

-- `while (s.size() % 4) s += '='`, from the number of bytes so far.
unfoldable pub pad : ℕ → Text
pad n =
    if n % 4 == 0
    then []
    else if n % 4 == 1
    then b'=' ∷ b'=' ∷ b'=' ∷ []
    else if n % 4 == 2
    then b'=' ∷ b'=' ∷ []
    else b'=' ∷ []

-- `T[c]`, `none` for -1. The initialiser has 128 entries: those behind them are 0.
unfoldable pub sextet : ℕ → Option ℕ
sextet c =
    if c == b'+'
    then some 62
    else if c == b'/'
    then some 63
    else if leb b'0' c && leb c b'9'
    then some (c - b'0' + 52)
    else if leb b'A' c && leb c b'Z'
    then some (c - b'A')
    else if leb b'a' c && leb c b'z'
    then some (c - b'a' + 26)
    else if ltb c 128
    then none
    else some 0

unfoldable pub decode_from : ℕ → ℕ → Text → Text
decode_from val bits [] = []
decode_from val bits (c ∷ cs) = elim (sextet c) [
  | none ↦ []
  | some d ↦
      let val' = (val * 64 + d) % u32 in
      let full = leb 8 (bits + 6) in
      let rest = decode_from val' (if full then bits - 2 else bits + 6) cs in
      if full then val' / 2 ^ (bits - 2) % 256 ∷ rest else rest
]

unfoldable pub base64_url_decode : Text → Text
base64_url_decode s = decode_from 0 0 (map from_url s ++ pad (length s))

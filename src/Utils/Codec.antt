-- ===== src/Utils/Codec.antt =====
-- The hexadecimal encoding of common/src/utils.cpp, and the digests printed in it, which are
-- OpenSSL's. The classes of characters are those of the C locale, for bytes below 128.
pub mod Roundtrip
use Prim.Native.Nat.{bit_or}
use swift_chat_system.Common.{
  ℕ, zero, suc, ◌+◌, ◌-◌, ◌*◌, ◌/◌, ◌%◌, Bool, true, false, ◌&&◌, ◌||◌, Option, none, some, List,
  [], ◌∷◌, ◌++◌, if◌then◌else◌, ltb, leb, ◌==◌,
}
use swift_chat_system.Common.Text.{Text, codes}

abbrev pub is_digit : ℕ → Bool
is_digit c = leb b'0' c && leb c b'9'

abbrev pub is_upper : ℕ → Bool
is_upper c = leb b'A' c && leb c b'Z'

abbrev pub is_lower : ℕ → Bool
is_lower c = leb b'a' c && leb c b'z'

-- `kHexChars[n]`
unfoldable pub hex_char : ℕ → ℕ
hex_char n = if ltb n 10 then b'0' + n else b'a' + (n - 10)

unfoldable pub bytes_to_hex : Text → Text
bytes_to_hex [] = []
bytes_to_hex (b ∷ bs) = hex_char (b / 16 % 16) ∷ hex_char (b % 16) ∷ bytes_to_hex bs

-- A digest that OpenSSL fails to make is the empty text.
unfoldable pub compute_digest_hex : (Text → Option Text) → Text → Text
compute_digest_hex digest input = elim (digest input) [ none ↦ [] | some hash ↦ bytes_to_hex hash ]

-- The eight low bits of `c - '0'` for a digit, and of `tolower(c) - 'a' + 10` for all else.
unfoldable pub hex_nibble : ℕ → ℕ
hex_nibble c = if is_digit c then c - b'0' else ((if is_upper c then c + 32 else c) + 169) % 256

-- `static_cast<char>((high_val << 4) | low_val)`
unfoldable pub hex_decode : Text → Text
hex_decode [] = []
hex_decode (c ∷ []) = []
hex_decode (c ∷ d ∷ cs) = bit_or (hex_nibble c * 16 % 256) (hex_nibble d) ∷ hex_decode cs

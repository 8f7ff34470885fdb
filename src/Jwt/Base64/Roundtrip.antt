-- ===== src/Jwt/Base64/Roundtrip.antt =====
-- The decoder takes back what the encoder made.
use swift_chat_system.Common.{
  ℕ, ◌≡◌, ◌+◌, ◌*◌, ◌/◌, ◌%◌, ◌<◌, [], ◌∷◌, ◌++◌, length, map, All, arith,
}
use swift_chat_system.Common.Text.{IsByte, Text}
use swift_chat_system.Jwt.Base64.{
  u32, base64_url_encode, from_url, pad, sextet, decode_from, base64_url_decode,
}
use swift_chat_system.Jwt.Base64.Groups.{
  url_char, sextets, by_groups, sextet-url_char, base64_url_encode-by_groups,
}

-- The padding ends the loop, whatever is in the accumulator.
decode_from-pad : (v bits n : ℕ) → decode_from v bits (pad n) ≡ []
unfolding decode_from pad sextet
decode_from-pad v bits n = ground arith

-- The four steps of the loop on a character of six bits.
abbrev next : ℕ → ℕ → ℕ
next v i = (v * 64 + i) % u32

step :
    (v i : ℕ) (cs : Text)
    → i < 64
    → (decode_from v 0 (from_url (url_char i) ∷ cs) ≡ decode_from (next v i) 6 cs)
      × (decode_from v 6 (from_url (url_char i) ∷ cs)
          ≡ next v i / 16 % 256 ∷ decode_from (next v i) 4 cs)
      × (decode_from v 4 (from_url (url_char i) ∷ cs)
          ≡ next v i / 4 % 256 ∷ decode_from (next v i) 2 cs)
      × (decode_from v 2 (from_url (url_char i) ∷ cs)
          ≡ next v i / 1 % 256 ∷ decode_from (next v i) 0 cs)
unfolding decode_from
step v i cs h = (
  rw (sextet-url_char i h, decode_from),
  rw (sextet-url_char i h, decode_from),
  rw (sextet-url_char i h, decode_from),
  rw (sextet-url_char i h, decode_from),
)

-- The bytes that come out, of an accumulator whose low bits are known.
low_bits : (v i : ℕ) → i < 64 → next v i % 64 ≡ i
low_bits v i h = omega arith

first_byte :
    (w a i : ℕ) → w % 64 ≡ a / 4 → a < 256 → i < 64 → i / 16 ≡ a % 4 → next w i / 16 % 256 ≡ a
first_byte w a i h k l m = omega arith

second_byte :
    (w a b i : ℕ)
    → w % 64 ≡ a % 4 * 16 + b / 16
    → b < 256
    → i < 64
    → i / 4 ≡ b % 16
    → next w i / 4 % 256 ≡ b
second_byte w a b i h k l m = omega arith

third_byte :
    (w b c : ℕ) → w % 64 ≡ b * 4 + c / 64 → b < 16 → c < 256 → next w (c % 64) / 1 % 256 ≡ c
third_byte w b c h k l = omega arith

decode_from-sextets :
    (v n : ℕ) (s : Text) → All IsByte s → decode_from v 0 (map from_url (by_groups s) ++ pad n) ≡ s
unfolding sextets
decode_from-sextets v n [] h = decode_from-pad v 0 n
decode_from-sextets v n (a ∷ []) h =
    let w = next v (a / 4) in
    let w' = next w (a % 4 * 16) in
    let char = λ (i : ℕ). from_url (url_char i) in
    rw (
      (step v (a / 4) (char (a % 4 * 16) ∷ pad n) (omega arith)).0,
      (step w (a % 4 * 16) (pad n) (omega arith)).1,
      first_byte w a (a % 4 * 16) (low_bits v (a / 4) (omega arith)) h.0 (omega arith)
          (omega arith),
      decode_from-pad w' 4 n,
    )
decode_from-sextets v n (a ∷ b ∷ []) h =
    let i = a % 4 * 16 + b / 16 in
    let j = b % 16 * 4 in
    let w = next v (a / 4) in
    let w' = next w i in
    let char = λ (i : ℕ). from_url (url_char i) in
    rw (
      (step v (a / 4) (char i ∷ char j ∷ pad n) (omega arith)).0,
      (step w i (char j ∷ pad n) (omega arith)).1,
      (step w' j (pad n) (omega arith)).2,
      first_byte w a i (low_bits v (a / 4) (omega arith)) h.0 (omega arith) (omega arith),
      second_byte w' a b j (low_bits w i (omega arith)) h.1.0 (omega arith) (omega arith),
      decode_from-pad (next w' j) 2 n,
    )
decode_from-sextets v n (a ∷ b ∷ c ∷ bs) h =
    let i = a % 4 * 16 + b / 16 in
    let j = b % 16 * 4 + c / 64 in
    let w = next v (a / 4) in
    let w' = next w i in
    let w'' = next w' j in
    let rest = map from_url (by_groups bs) ++ pad n in
    let char = λ (i : ℕ). from_url (url_char i) in
    rw (
      (step v (a / 4) (char i ∷ char j ∷ char (c % 64) ∷ rest) (omega arith)).0,
      (step w i (char j ∷ char (c % 64) ∷ rest) (omega arith)).1,
      (step w' j (char (c % 64) ∷ rest) (omega arith)).2,
      (step w'' (c % 64) rest (omega arith)).3,
      first_byte w a i (low_bits v (a / 4) (omega arith)) h.0 (omega arith) (omega arith),
      second_byte w' a b j (low_bits w i (omega arith)) h.1.0 (omega arith) (omega arith),
      third_byte w'' (b % 16) c (low_bits w' j (omega arith)) (omega arith) h.1.1.0,
      decode_from-sextets (next w'' (c % 64)) n bs h.1.1.1,
    )

-- Base64UrlDecode takes back every text of bytes that Base64UrlEncode made.
pub base64_url_roundtrip : (s : Text) → All IsByte s → base64_url_decode (base64_url_encode s) ≡ s
unfolding base64_url_decode
base64_url_roundtrip s h =
    rw (base64_url_encode-by_groups s h) (decode_from-sextets 0 (length (by_groups s)) s h)

-- ===== src/Jwt/Base64/Groups.antt =====
-- The encoder against its definition by groups of three bytes, and the decoder on such a group.
use swift_chat_system.Common.{
  ==_iff, ℕ, ◌≡◌, refl, ◌∙◌, ltb, ◌-◌, if◌then◌else◌, ◌+◌, ◌*◌, ◌/◌, ◌%◌, ◌<◌, Bool, true, false,
  not, ◌&&◌, Option, none, some, [], ◌∷◌, ◌==◌, map, All, arith,
}
use swift_chat_system.Common.Check.{passes, test_below}
use swift_chat_system.Common.Text.{IsByte, Text}
use swift_chat_system.Jwt.Base64.{
  char_at, alphabet, u32, emit, encode_from, to_url, strip_padding, base64_url_encode, from_url,
  sextet,
}

-- The character that the code writes for six bits.
unfoldable pub url_char : ℕ → ℕ
url_char i = to_url (char_at i alphabet)

-- The six bits at a time: three bytes make four groups, and the bytes left over two or three.
unfoldable pub sextets : Text → Text
sextets [] = []
sextets (a ∷ []) = (a / 4) ∷ (a % 4 * 16) ∷ []
sextets (a ∷ b ∷ []) = (a / 4) ∷ (a % 4 * 16 + b / 16) ∷ (b % 16 * 4) ∷ []
sextets (a ∷ b ∷ c ∷ bs) =
    (a / 4) ∷ (a % 4 * 16 + b / 16) ∷ (b % 16 * 4 + c / 64) ∷ (c % 64) ∷ sextets bs

-- The table of RFC 4648 for URLs: the letters, the digits, the minus and the underline.
unfoldable pub rfc_char : ℕ → ℕ
rfc_char i =
    if ltb i 26
    then 65 + i
    else if ltb i 52
    then 97 + (i - 26)
    else if ltb i 62
    then 48 + (i - 52)
    else if i == 62
    then 45
    else 95

-- RFC 4648 for URLs without padding.
abbrev pub rfc4648 : Text → Text
rfc4648 s = map rfc_char (sextets s)

-- The same with the characters of the code.
abbrev pub by_groups : Text → Text
by_groups s = map url_char (sextets s)

pub sextets_bound : (s : Text) → All IsByte s → All (λ i. i < 64) (sextets s)
unfolding sextets
sextets_bound [] h = tt
sextets_bound (a ∷ []) h = (omega arith, (omega arith, tt))
sextets_bound (a ∷ b ∷ []) h = (omega arith, (omega arith, (omega arith, tt)))
sextets_bound (a ∷ b ∷ c ∷ bs) h =
    (omega arith, (omega arith, (omega arith, (omega arith, sextets_bound bs h.1.1.1))))

-- The bits that each shift reads, of an accumulator whose low byte is known.
next_byte : (w b : ℕ) → b < 256 → (w * 256 + b) % u32 % 256 ≡ b
next_byte w b h = omega arith

first_sextet : (w a : ℕ) → w % 256 ≡ a → w % u32 / 4 % 64 ≡ a / 4
first_sextet w a h = omega arith

second_sextet :
    (w a b : ℕ) → w % 256 ≡ a → b < 256 → (w * 256 + b) % u32 / 16 % 64 ≡ a % 4 * 16 + b / 16
second_sextet w a b h k = omega arith

third_sextet :
    (w b c : ℕ) → w % 256 ≡ b → c < 256 → (w * 256 + c) % u32 / 64 % 64 ≡ b % 16 * 4 + c / 64
third_sextet w b c h k = omega arith

fourth_sextet : (w c : ℕ) → w % 256 ≡ c → w / 1 % 64 ≡ c % 64
fourth_sextet w c h = omega arith

second_last : (w a : ℕ) → w % 256 ≡ a → w * 256 % u32 / 16 % 64 ≡ a % 4 * 16
second_last w a h = omega arith

third_last : (w b : ℕ) → w % 256 ≡ b → w * 256 % u32 / 64 % 64 ≡ b % 16 * 4
third_last w b h = omega arith

encode_from-by_groups :
    (v : ℕ) (s : Text) → All IsByte s → map to_url (encode_from v 0 s) ≡ by_groups s
unfolding encode_from sextets url_char emit
encode_from-by_groups v [] h = refl
encode_from-by_groups v (a ∷ []) h =
    let w = (v * 256 + a) % u32 in
    let low = next_byte v a h.0 in
    rw (first_sextet (v * 256 + a) a (omega arith), second_last w a low)
encode_from-by_groups v (a ∷ b ∷ []) h =
    let w = (v * 256 + a) % u32 in
    let low = next_byte v a h.0 in
    rw (
      first_sextet (v * 256 + a) a (omega arith),
      second_sextet w a b low h.1.0,
      third_last ((w * 256 + b) % u32) b (next_byte w b h.1.0),
    )
encode_from-by_groups v (a ∷ b ∷ c ∷ bs) h =
    let w = (v * 256 + a) % u32 in
    let low = next_byte v a h.0 in
    let w' = (w * 256 + b) % u32 in
    let low' = next_byte w b h.1.0 in
    let w'' = (w' * 256 + c) % u32 in
    rw (
      first_sextet (v * 256 + a) a (omega arith),
      second_sextet w a b low h.1.0,
      third_sextet w' b c low' h.1.1.0,
      fourth_sextet w'' c (next_byte w' c h.1.1.0),
      encode_from-by_groups w'' bs h.1.1.1,
    )

abbrev reads : Option ℕ → ℕ → Bool
reads none i = false
reads (some d) i = d == i

-- The characters of six bits: none is `=`, a dot or a colon, and each is read back.
abbrev is_good : ℕ → Bool
is_good i =
    url_char i == rfc_char i
    && (not (url_char i == b'=')
        && (not (url_char i == b'.') && reads (sextet (from_url (url_char i))) i))

url_char_table : passes is_good 0 64 ≡ true
unfolding passes url_char rfc_char char_at sextet
url_char_table = refl

url_char_good : (i : ℕ) → i < 64 → is_good i ≡ true
url_char_good i h = test_below is_good 64 i url_char_table h

pub url_char-ne-dot : (i : ℕ) → i < 64 → (url_char i == b'.') ≡ false
url_char-ne-dot i h = ground (arith, url_char_good i h)

pub sextet-url_char : (i : ℕ) → i < 64 → sextet (from_url (url_char i)) ≡ some i
sextet-url_char i h = ground (arith, url_char_good i h)

strip_padding-url_char :
    (i : ℕ) (cs : Text) → i < 64 → strip_padding (url_char i ∷ cs) ≡ url_char i ∷ strip_padding cs
unfolding strip_padding
strip_padding-url_char i cs h = ground (arith, url_char_good i h)

strip_padding-chars :
    (is : Text) → All (λ i. i < 64) is → strip_padding (map url_char is) ≡ map url_char is
unfolding strip_padding
strip_padding-chars [] h = refl
strip_padding-chars (i ∷ is) h =
    ground (arith, strip_padding-url_char i (map url_char is) h.0, strip_padding-chars is h.1)

pub base64_url_encode-by_groups : (s : Text) → All IsByte s → base64_url_encode s ≡ by_groups s
unfolding base64_url_encode
base64_url_encode-by_groups s h =
    rw (encode_from-by_groups 0 s h) (strip_padding-chars (sextets s) (sextets_bound s h))

map-rfc_char : (is : Text) → All (λ i. i < 64) is → map url_char is ≡ map rfc_char is
map-rfc_char [] h = refl
map-rfc_char (i ∷ is) h =
    ground (arith, url_char_good i h.0, ==_iff (url_char i) (rfc_char i), map-rfc_char is h.1)

-- Base64UrlEncode of bytes is the encoding of RFC 4648 for URLs without padding: the accumulator,
-- which overflows from the fourth byte on, loses no bit that is still to be written.
pub base64_url_encode-rfc4648 : (s : Text) → All IsByte s → base64_url_encode s ≡ rfc4648 s
base64_url_encode-rfc4648 s h =
    base64_url_encode-by_groups s h ∙ map-rfc_char (sextets s) (sextets_bound s h)

-- ===== src/Utils/Codec/Roundtrip.antt =====
-- HexDecode takes back what HexEncode made.
use Prim.Native.Nat.{bit_or}
use swift_chat_system.Common.{ℕ, ◌≡◌, refl, ◌*◌, ◌/◌, ◌%◌, Bool, true, [], ◌∷◌, All, arith, ◌==◌}
use swift_chat_system.Common.Check.{passes, test_below}
use swift_chat_system.Common.Text.{IsByte, Text}
use swift_chat_system.Utils.Codec.{hex_char, bytes_to_hex, hex_nibble, hex_decode}

reads_back : ℕ → Bool
reads_back b =
    bit_or (hex_nibble (hex_char (b / 16 % 16)) * 16 % 256) (hex_nibble (hex_char (b % 16))) == b

byte_table : passes reads_back 0 256 ≡ true
unfolding passes reads_back hex_nibble hex_char
byte_table = refl

pub hex_roundtrip : (s : Text) → All IsByte s → hex_decode (bytes_to_hex s) ≡ s
unfolding hex_decode bytes_to_hex reads_back
hex_roundtrip [] h = refl
hex_roundtrip (b ∷ bs) h =
    ground (arith, test_below reads_back 256 b byte_table h.0, hex_roundtrip bs h.1)

-- ===== src/Chat/Keys.antt =====
-- The keys of chatsvr/internal/store/message_store.cpp. A time line is ordered by the complement of
-- the time, printed with thirteen digits, so that an iteration meets the newest message first.
use swift_chat_system.Common.{
  ◌≡◌, refl, ℕ, zero, suc, ◌+◌, ◌*◌, ◌-◌, ◌/◌, ◌%◌, ◌≤◌, ◌<◌, ◌&&◌, ◌||◌, [], ◌∷◌, ◌++◌, arith,
  if◌then◌else◌, length, take, drop, leb, ltb, ◌==◌, length-append,
}
use swift_chat_system.Common.Int.{ℤ, pos, negsuc}
use swift_chat_system.Common.Text.{Text, codes, text_eq, text_lt}
use swift_chat_system.Common.Text.Fields.{join}

abbrev pub max_ts : ℕ
max_ts = 9999999999999

-- The last `k` decimal digits of a number: `%0kd` of a number that has no more.
unfoldable pub digits : ℕ → ℕ → Text
digits zero n = []
digits (suc k) n = digits k (n / 10) ++ ((48 + n % 10) ∷ [])

-- MAX_TS - timestamp, for a timestamp from 1 to MAX_TS.
abbrev pub reverse_ts : ℤ → ℕ
reverse_ts (negsuc n) = max_ts
reverse_ts (pos n) = if n == 0 || ltb max_ts n then max_ts else max_ts - n

unfoldable pub rev_ts : ℤ → Text
rev_ts timestamp = digits 13 (reverse_ts timestamp)

unfoldable pub key_msg : Text → Text
key_msg msg_id = codes "msg:" ++ msg_id

unfoldable pub key_chat : Text → ℤ → Text → Text
key_chat chat_id timestamp msg_id = codes "chat:" ++ join chat_id (join (rev_ts timestamp) msg_id)

unfoldable pub prefix_chat : Text → Text
prefix_chat chat_id = codes "chat:" ++ join chat_id []

unfoldable pub key_offline : Text → ℤ → Text → Text
key_offline user_id timestamp msg_id =
    codes "offline:" ++ join user_id (join (rev_ts timestamp) msg_id)

unfoldable pub prefix_offline : Text → Text
prefix_offline user_id = codes "offline:" ++ join user_id []

unfoldable pub key_conv : Text → Text → Text
key_conv user_id conversation_id = codes "conv:" ++ join user_id conversation_id

unfoldable pub prefix_conv : Text → Text
prefix_conv user_id = codes "conv:" ++ join user_id []

unfoldable pub key_conv_meta : Text → Text
key_conv_meta conversation_id = codes "conv_meta:" ++ conversation_id

-- ParseChatKey and ParseOfflineKey: rev_ts and msg_id, empty for a key that is too short.
unfoldable pub parse_key : Text → Text → Text × Text
parse_key key prefix =
    let at = length prefix in
    if leb (length key) (at + 13 + 1) then ([], []) else (take 13 (drop at key), drop (at + 14) key)

length-digits : (k n : ℕ) → length (digits k n) ≡ k
unfolding digits
length-digits zero n = refl
length-digits (suc k) n =
    ground (arith, length-append (digits k (n / 10)) ((48 + n % 10) ∷ []), length-digits k (n / 10))

-- Texts of one length are compared by their last byte when the others agree.
text_lt-append_last :
    (a b : Text) (x y : ℕ)
    → length a ≡ length b
    → text_lt (a ++ (x ∷ [])) (b ++ (y ∷ [])) ≡ (text_lt a b || (text_eq a b && ltb x y))
unfolding text_lt text_eq
text_lt-append_last [] [] x y h = ground arith
text_lt-append_last [] (v ∷ b) x y h = ground arith
text_lt-append_last (u ∷ a) [] x y h = ground arith
text_lt-append_last (u ∷ a) (v ∷ b) x y h = ground (arith, text_lt-append_last a b x y)

text_eq-append_last :
    (a b : Text) (x y : ℕ)
    → length a ≡ length b
    → text_eq (a ++ (x ∷ [])) (b ++ (y ∷ [])) ≡ (text_eq a b && x == y)
unfolding text_eq
text_eq-append_last [] [] x y h = ground arith
text_eq-append_last [] (v ∷ b) x y h = ground arith
text_eq-append_last (u ∷ a) [] x y h = ground arith
text_eq-append_last (u ∷ a) (v ∷ b) x y h = ground (arith, text_eq-append_last a b x y)

abbrev power : ℕ → ℕ
power zero = 1
power (suc k) = 10 * power k

text_eq-digits :
    (k a b : ℕ) → a < power k → b < power k → text_eq (digits k a) (digits k b) ≡ (a == b)
unfolding digits text_eq
text_eq-digits zero a b h i = ground arith
text_eq-digits (suc k) a b h i = ground (
  arith,
  length-digits k (a / 10),
  length-digits k (b / 10),
  text_eq-append_last (digits k (a / 10)) (digits k (b / 10)) (48 + a % 10) (48 + b % 10),
  text_eq-digits k (a / 10) (b / 10),
)

-- The order of the printed numbers is the order of the numbers.
text_lt-digits :
    (k a b : ℕ) → a < power k → b < power k → text_lt (digits k a) (digits k b) ≡ ltb a b
unfolding digits text_lt
text_lt-digits zero a b h i = ground arith
text_lt-digits (suc k) a b h i = ground (
  arith,
  length-digits k (a / 10),
  length-digits k (b / 10),
  text_lt-append_last (digits k (a / 10)) (digits k (b / 10)) (48 + a % 10) (48 + b % 10),
  text_lt-digits k (a / 10) (b / 10),
  text_eq-digits k (a / 10) (b / 10),
)

-- A time from 1 to MAX_TS.
abbrev pub IsTimestamp : ℕ → Type 0
IsTimestamp n = (0 < n) × (n ≤ max_ts)

-- Of two times in the range, the later one has the smaller text: the time line runs backwards.
pub text_lt-rev_ts :
    (a b : ℕ) → IsTimestamp a → IsTimestamp b → text_lt (rev_ts (pos a)) (rev_ts (pos b)) ≡ ltb b a
unfolding rev_ts
text_lt-rev_ts a b (a0, am) (b0, bm) =
    ground (arith, text_lt-digits 13 (max_ts - a) (max_ts - b) (ground arith) (ground arith))

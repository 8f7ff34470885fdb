-- ===== src/Chat/Messages.antt =====
-- RocksDBMessageStore of chatsvr/internal/store/message_store.cpp.
pub mod Lookup
pub mod Kept
pub mod Offline
use swift_chat_system.Common.{
  ℕ, ◌+◌, ◌-◌, ◌*◌, Bool, true, false, not, ◌&&◌, ◌||◌, Option, none, some, List, [], ◌∷◌,
  if◌then◌else◌, is_some, length, leb, ltb, ◌==◌, ◌>>=◌,
}
use swift_chat_system.Common.Int.{ℤ, pos, negsuc, leb_ℤ, ◌-ℤ◌, pos_part}
use swift_chat_system.Common.Text.{Text, codes, text_eq, is_empty}
use swift_chat_system.Json.{Json}
use swift_chat_system.Storage.{Db, Op, put, delete, commit}
use swift_chat_system.Storage.Order.{Entries}
use swift_chat_system.Chat.Data.{MessageData, serialize_message, deserialize_message}
use swift_chat_system.Chat.Keys.{
  max_ts, key_msg, key_chat, prefix_chat, key_offline, prefix_offline, parse_key,
}

-- `std::stoll`: white space, a sign, digits, and then anything. `none` is its exception.
abbrev pub is_digit : ℕ → Bool
is_digit c = leb 48 c && leb c 57

unfoldable pub read_digits : ℕ → Text → ℕ
read_digits n [] = n
read_digits n (c ∷ cs) =
    let rest = read_digits (n * 10 + (c - 48)) cs in if is_digit c then rest else n

abbrev pub read_unsigned : Text → Option ℕ
read_unsigned [] = none
read_unsigned (c ∷ cs) = if is_digit c then some (read_digits 0 (c ∷ cs)) else none

abbrev pub negate : ℕ → ℤ
negate n = pos 0 -ℤ pos n

abbrev pub read_signed : Text → Option ℤ
read_signed [] = none
read_signed (c ∷ cs) =
    if c == 45
    then (do n ← read_unsigned cs; some (negate n))
    else if c == 43
    then (do n ← read_unsigned cs; some (pos n))
    else (do n ← read_unsigned (c ∷ cs); some (pos n))

unfoldable pub stoll : Text → Option ℤ
stoll [] = none
stoll (c ∷ cs) =
    let rest = stoll cs in if c == 32 || (leb 9 c && leb c 13) then rest else read_signed (c ∷ cs)

-- The loop of GetHistory over the time line: the identifiers of at most `room` messages, older
-- than the cutoff if it is not negative.
unfoldable pub collect : Text → ℤ → ℕ → Entries → List Text
collect prefix cutoff room [] = []
collect prefix cutoff room ((key, v) ∷ es) =
    let (rev, msg_id) = parse_key key prefix in
    let rest = collect prefix cutoff room es in
    let later = collect prefix cutoff (room - 1) es in
    if not (length rev == 13) then rest else elim (stoll rev) [
      | none ↦ rest
      | some r ↦
          if leb_ℤ (pos 0) cutoff && leb_ℤ r cutoff
          then rest
          else msg_id ∷ (if leb room 1 then [] else later)
    ]

-- The loop of ClearOffline up to a time.
unfoldable pub expired : Text → ℤ → Entries → List Op
expired prefix until_ts [] = []
expired prefix until_ts ((key, v) ∷ es) =
    let rest = expired prefix until_ts es in
    elim (stoll (parse_key key prefix).0) [
      | none ↦ rest
      | some r ↦ if leb_ℤ (pos max_ts -ℤ r) until_ts then delete key ∷ rest else rest
    ]

-- The loop of ClearOffline over the whole queue.
unfoldable pub all_deleted : Entries → List Op
all_deleted [] = []
all_deleted ((key, v) ∷ es) = delete key ∷ all_deleted es

pub record Page : Type 0 where
  pub messages : List MessageData
  pub next_cursor : Text
  pub has_more : Bool

abbrev pub no_page : Page
no_page = record { messages = []; next_cursor = []; has_more = false }

-- The page that ends at an entry, from the entries behind it.
abbrev pub last_page : MessageData → Text → Entries → Page
last_page m rev [] = record { messages = m ∷ []; next_cursor = []; has_more = false }
last_page m rev (_ ∷ _) = record { messages = m ∷ []; next_cursor = rev; has_more = true }

module _ (D : Db) (J : Json) where
  -- The time line that a message is put on.
  abbrev pub timeline_id : MessageData → Text
  timeline_id m = if is_empty m.conversation_id then m.to_id else m.conversation_id

  abbrev pub message_batch : MessageData → List Op
  message_batch m =
      put (key_msg m.msg_id) (serialize_message J m)
      ∷ put (key_chat (timeline_id m) m.timestamp m.msg_id) []
      ∷ []

  unfoldable pub save : D.State → MessageData → D.State × Bool
  save s m =
      if is_empty m.msg_id || is_empty m.from_user_id
      then (s, false)
      else if is_some (D.get s (key_msg m.msg_id))
      then (s, false)
      else commit D s (message_batch m)

  unfoldable pub get_by_id : D.State → Text → Option MessageData
  get_by_id s msg_id =
      if is_empty msg_id
      then none
      else (do value ← D.get s (key_msg msg_id); deserialize_message J value)

  unfoldable pub get_all : D.State → List Text → List MessageData
  get_all s [] = []
  get_all s (msg_id ∷ ids) =
      let rest = get_all s ids in elim (get_by_id s msg_id) [ none ↦ rest | some m ↦ m ∷ rest ]

  -- The cutoff of GetHistory, from the message that was found; `none` where it returns.
  unfoldable pub cutoff_of : Text → Option MessageData → Option ℤ
  cutoff_of conversation_id none = none
  cutoff_of conversation_id (some m) =
      if not (text_eq m.conversation_id conversation_id) && not (text_eq m.to_id conversation_id)
      then none
      else some (pos max_ts -ℤ m.timestamp)

  unfoldable pub history_from : D.State → Text → ℤ → Option ℤ → List MessageData
  history_from s conversation_id limit none = []
  history_from s conversation_id limit (some cutoff) =
      let prefix = prefix_chat conversation_id in
      get_all s (collect prefix cutoff (pos_part limit) (D.scan s prefix))

  unfoldable pub get_history : D.State → Text → ℤ → Text → ℤ → List MessageData
  get_history s conversation_id chat_type before_msg_id limit =
      if is_empty conversation_id || leb_ℤ limit (pos 0)
      then []
      else history_from s conversation_id limit (
          if is_empty before_msg_id
          then some (negsuc 0)
          else cutoff_of conversation_id (get_by_id s before_msg_id))

  -- The message that was found, recalled.
  unfoldable pub store_recalled : D.State → Text → ℤ → Option MessageData → D.State × Bool
  store_recalled s msg_id recall_at none = (s, false)
  store_recalled s msg_id recall_at (some m) = commit D s (
      put (key_msg msg_id)
        (serialize_message J (record m { status = pos 1; recall_at = recall_at }))
      ∷ [])

  unfoldable pub mark_recalled : D.State → Text → ℤ → D.State × Bool
  mark_recalled s msg_id recall_at =
      if is_empty msg_id then (s, false) else store_recalled s msg_id recall_at (get_by_id s msg_id)

  -- The entry of the queue for the message that was found.
  unfoldable pub queue_found : D.State → Text → Text → Option MessageData → D.State × Bool
  queue_found s user_id msg_id none = (s, false)
  queue_found s user_id msg_id (some m) =
      commit D s (put (key_offline user_id m.timestamp msg_id) [] ∷ [])

  unfoldable pub add_to_offline : D.State → Text → Text → D.State × Bool
  add_to_offline s user_id msg_id =
      if is_empty user_id || is_empty msg_id
      then (s, false)
      else queue_found s user_id msg_id (get_by_id s msg_id)

  -- The loop of PullOffline: `room` messages more, entries skipped up to that of the cursor.
  unfoldable pub pull : D.State → Text → Text → ℕ → Bool → Entries → Page
  pull s prefix cursor room skip [] = no_page
  pull s prefix cursor room skip ((key, v) ∷ es) =
      let (rev, msg_id) = parse_key key prefix in
      let found = pull s prefix cursor room false es in
      let sought = pull s prefix cursor room true es in
      let rest = pull s prefix cursor (room - 1) false es in
      if skip && text_eq rev cursor
      then found
      else if skip
      then sought
      else elim (get_by_id s msg_id) [
        | none ↦ found
        | some m ↦
            if leb room 1 then last_page m rev es else record rest { messages = m ∷ rest.messages }
      ]

  unfoldable pub pull_offline : D.State → Text → Text → ℤ → Page
  pull_offline s user_id cursor limit =
      let prefix = prefix_offline user_id in
      if is_empty user_id || leb_ℤ limit (pos 0)
      then no_page
      else pull s prefix cursor (pos_part limit) (not (is_empty cursor)) (D.scan s prefix)

  unfoldable pub clear_until : D.State → Text → Option MessageData → D.State × Bool
  clear_until s user_id none = (s, true)
  clear_until s user_id (some m) =
      let prefix = prefix_offline user_id in
      commit D s (expired prefix m.timestamp (D.scan s prefix))

  unfoldable pub clear_offline : D.State → Text → Text → D.State × Bool
  clear_offline s user_id until_msg_id =
      if is_empty user_id
      then (s, true)
      else if is_empty until_msg_id
      then commit D s (all_deleted (D.scan s (prefix_offline user_id)))
      else clear_until s user_id (get_by_id s until_msg_id)

-- ===== src/Chat/Conversations.antt =====
-- RocksDBConversationStore and RocksDBConversationRegistry of
-- chatsvr/internal/store/message_store.cpp.
pub mod Unread
use swift_chat_system.Common.{
  Bool, true, false, ◌||◌, Option, none, some, List, [], ◌∷◌, ◌++◌, if◌then◌else◌, is_some,
}
use swift_chat_system.Common.Int.{ℤ, pos, ◌+ℤ◌, ltb_ℤ, to_int32}
use swift_chat_system.Common.Text.{Text, codes, text_lt, is_empty}
use swift_chat_system.Json.{Json, str}
use swift_chat_system.Storage.{Db, put, delete, commit}
use swift_chat_system.Storage.Order.{Entries}
use swift_chat_system.Chat.Data.{ConversationData, serialize_conversation, deserialize_conversation}
use swift_chat_system.Chat.Keys.{key_conv, prefix_conv, key_conv_meta}

-- `std::max(0, n)`
abbrev pub max_0 : ℤ → ℤ
max_0 n = if ltb_ℤ (pos 0) n then n else pos 0

-- The conversation of two users, in the order of their identifiers.
abbrev pub private_id : Text → Text → Text
private_id a b = codes "p_" ++ (a ++ (codes "_" ++ b))

unfoldable pub conversation_of : Text → Text → Text
conversation_of user_id_1 user_id_2 =
    if text_lt user_id_2 user_id_1
    then private_id user_id_2 user_id_1
    else private_id user_id_1 user_id_2

module _ (D : Db) (J : Json) where
  unfoldable pub upsert : D.State → Text → ConversationData → D.State × Bool
  upsert s user_id conv =
      if is_empty user_id || is_empty conv.conversation_id
      then (s, false)
      else commit D s
          (put (key_conv user_id conv.conversation_id) (serialize_conversation J conv) ∷ [])

  unfoldable pub read_list : Entries → List ConversationData
  read_list [] = []
  read_list ((k, v) ∷ es) =
      let rest = read_list es in
      elim (deserialize_conversation J v) [ none ↦ rest | some c ↦ c ∷ rest ]

  unfoldable pub get_list : D.State → Text → List ConversationData
  get_list s user_id = if is_empty user_id then [] else read_list (D.scan s (prefix_conv user_id))

  unfoldable pub delete_conversation : D.State → Text → Text → D.State × Bool
  delete_conversation s user_id conversation_id =
      if is_empty user_id || is_empty conversation_id
      then (s, false)
      else commit D s (delete (key_conv user_id conversation_id) ∷ [])

  -- UpdateUnread and ClearUnread from the value that was read, with the new count; an exception of
  -- the parser gives false.
  unfoldable pub recount :
      D.State → Text → Text → (ℤ → ℤ) → Option ConversationData → D.State × Bool
  recount s user_id conversation_id count none = (s, false)
  recount s user_id conversation_id count (some c) = commit D s (
      put (key_conv user_id conversation_id)
        (serialize_conversation J (record c { unread_count = count c.unread_count }))
      ∷ [])

  -- The conversation that is stored for a user.
  unfoldable pub read_conv : D.State → Text → Text → Option ConversationData
  read_conv s user_id conversation_id = elim (D.get s (key_conv user_id conversation_id)) [
    | none ↦ none
    | some value ↦ deserialize_conversation J value
  ]

  unfoldable pub update_unread : D.State → Text → Text → ℤ → D.State × Bool
  update_unread s user_id conversation_id delta =
      if is_empty user_id || is_empty conversation_id
      then (s, false)
      else recount s user_id conversation_id (λ n. max_0 (to_int32 (n +ℤ delta)))
          (read_conv s user_id conversation_id)

  unfoldable pub clear_unread : D.State → Text → Text → D.State × Bool
  clear_unread s user_id conversation_id =
      if is_empty user_id || is_empty conversation_id
      then (s, false)
      else recount s user_id conversation_id (λ n. pos 0) (read_conv s user_id conversation_id)

  -- The identifier comes back even where the entry was not written.
  unfoldable pub get_or_create_private_conversation : D.State → Text → Text → D.State × Text
  get_or_create_private_conversation s user_id_1 user_id_2 =
      let conversation_id = conversation_of user_id_1 user_id_2 in
      let key = key_conv_meta conversation_id in
      if is_empty user_id_1 || is_empty user_id_2
      then (s, [])
      else if is_some (D.get s key)
      then (s, conversation_id)
      else (
        (commit D s (put key (J.dump ((codes "type", str (codes "private")) ∷ [])) ∷ [])).0,
        conversation_id,
      )

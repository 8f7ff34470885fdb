-- ===== src/Chat/Sync.antt =====
-- The rest of ChatServiceCore of chatsvr/internal/service/chat_service.cpp: offline messages,
-- history, reading, the list of conversations and their deletion.
use swift_chat_system.Common.{
  Bool, false, not, ◌&&◌, ◌||◌, Option, none, some, List, [], ◌∷◌, if◌then◌else◌,
}
use swift_chat_system.Common.Int.{ℤ, pos, leb_ℤ}
use swift_chat_system.Common.Text.{Text, text_eq, is_empty}
use swift_chat_system.ErrorCode.{
  invalid_param, internal_error, group_not_found, not_group_owner,
  conversation_private_cannot_delete,
}
use swift_chat_system.Json.{Json}
use swift_chat_system.Storage.{Db}
use swift_chat_system.Group.Data.{GroupData, GroupMemberData}
use swift_chat_system.Group.Store
use swift_chat_system.Chat.Data.{MessageData, ConversationData}
use swift_chat_system.Chat.Messages
use swift_chat_system.Chat.Messages.{Page}
use swift_chat_system.Chat.Conversations
use swift_chat_system.Chat.Service.{
  Stores, DeleteConversationResult, private_chat, group_chat, deleted, delete_error, is_dissolved,
  resolve_conversation_id,
}

module _ (D : Db) (J : Json) where
  unfoldable pub pull_offline : Stores D → Text → Text → ℤ → Page
  pull_offline s user_id cursor limit =
      Messages.pull_offline D J s.msg user_id cursor
        (if leb_ℤ limit (pos 0) then pos 100 else limit)

  -- A private conversation that does not exist is made.
  unfoldable pub get_history : Stores D → Text → Text → ℤ → Text → ℤ → Stores D × List MessageData
  get_history s user_id chat_id chat_type before_msg_id limit =
      let r = resolve_conversation_id D J s user_id chat_id chat_type in
      if is_empty chat_id || leb_ℤ limit (pos 0)
      then (s, [])
      else if is_empty r.1
      then (r.0, [])
      else if group_chat chat_type && is_dissolved (Store.get_group D J r.0.group r.1)
      then (r.0, [])
      else (r.0, Messages.get_history D J r.0.msg r.1 chat_type before_msg_id limit)

  unfoldable pub mark_read : Stores D → Text → Text → ℤ → Text → Stores D × Bool
  mark_read s user_id chat_id chat_type last_msg_id =
      let r = resolve_conversation_id D J s user_id chat_id chat_type in
      let read = Conversations.clear_unread D J r.0.conv user_id r.1 in
      let queue =
        if is_empty last_msg_id
        then r.0.msg
        else (Messages.clear_offline D J r.0.msg user_id last_msg_id).0 in
      if is_empty user_id || is_empty chat_id
      then (s, false)
      else if is_empty r.1
      then (r.0, false)
      else (record r.0 { conv = read.0; msg = queue }, read.1)

  unfoldable pub without_dissolved : D.State → List ConversationData → List ConversationData
  without_dissolved group [] = []
  without_dissolved group (c ∷ cs) =
      let rest = without_dissolved group cs in
      if group_chat c.chat_type && is_dissolved (Store.get_group D J group c.conversation_id)
      then rest
      else c ∷ rest

  unfoldable pub sync_conversations : Stores D → Text → List ConversationData
  sync_conversations s user_id =
      if is_empty user_id
      then []
      else without_dissolved s.group (Conversations.get_list D J s.conv user_id)

  unfoldable pub get_message_by_id : Stores D → Text → Option MessageData
  get_message_by_id s msg_id = if is_empty msg_id then none else Messages.get_by_id D J s.msg msg_id

  -- The loop that takes the conversation from the members.
  unfoldable pub forget_all : D.State → Text → List GroupMemberData → D.State
  forget_all conv chat_id [] = conv
  forget_all conv chat_id (u ∷ us) =
      forget_all (Conversations.delete_conversation D J conv u.user_id chat_id).0 chat_id us

  unfoldable pub delete_found :
      Stores D → Text → Text → Option GroupData → Stores D × DeleteConversationResult
  delete_found s user_id chat_id none = (s, delete_error group_not_found)
  delete_found s user_id chat_id (some g) =
      let members = (Store.get_members D J s.group chat_id (pos 0) (pos 10000)).0 in
      let dissolved = Store.dissolve_group D J s.group chat_id in
      if not (text_eq g.owner_id user_id)
      then (s, delete_error not_group_owner)
      else if is_dissolved (some g)
      then (s, deleted)
      else if not dissolved.1
      then (record s { group = dissolved.0 }, delete_error internal_error)
      else (record s { group = dissolved.0; conv = forget_all s.conv chat_id members }, deleted)

  unfoldable pub delete_conversation :
      Stores D → Text → Text → ℤ → Stores D × DeleteConversationResult
  delete_conversation s user_id chat_id chat_type =
      if is_empty user_id || is_empty chat_id
      then (s, delete_error invalid_param)
      else if private_chat chat_type
      then (s, delete_error conversation_private_cannot_delete)
      else if not (group_chat chat_type)
      then (s, delete_error invalid_param)
      else delete_found s user_id chat_id (Store.get_group D J s.group chat_id)

-- ===== src/Chat/Service.antt =====
-- ChatServiceCore of chatsvr/internal/service/chat_service.cpp, with all four stores set, as
-- backend/chatsvr/cmd/main.cpp sets them. The clock and the random identifier are arguments.
use swift_chat_system.Common.{
  Bool, true, false, not, ◌||◌, Option, none, some, List, [], ◌∷◌, if◌then◌else◌,
}
use swift_chat_system.Common.Int.{ℤ, pos, ◌-ℤ◌, eq_ℤ, ltb_ℤ}
use swift_chat_system.Common.Text.{Text, codes, text_eq, is_empty}
use swift_chat_system.ErrorCode.{ErrorCode, ok}
use swift_chat_system.Json.{Json}
use swift_chat_system.Storage.{Db}
use swift_chat_system.Group.Data.{GroupData, GroupMemberData}
use swift_chat_system.Group.Store
use swift_chat_system.Chat.Data.{MessageData, ConversationData}
use swift_chat_system.Chat.Messages
use swift_chat_system.Chat.Messages.{Page}
use swift_chat_system.Chat.Conversations

-- The four databases.
pub record Stores (D : Db) : Type 0 where
  pub msg : D.State
  pub conv : D.State
  pub registry : D.State
  pub group : D.State

pub record SendResult : Type 0 where
  pub success : Bool
  pub msg_id : Text
  pub conversation_id : Text
  pub timestamp : ℤ
  pub error : Text

pub record RecallResult : Type 0 where
  pub success : Bool
  pub error : Text

pub record DeleteConversationResult : Type 0 where
  pub success : Bool
  pub error : ErrorCode

abbrev pub private_chat : ℤ → Bool
private_chat chat_type = eq_ℤ chat_type (pos 1)

abbrev pub group_chat : ℤ → Bool
group_chat chat_type = eq_ℤ chat_type (pos 2)

abbrev pub send_error : Text → SendResult
send_error why = record {
  success = false;
  msg_id = [];
  conversation_id = [];
  timestamp = pos 0;
  error = why;
}

abbrev pub sent : MessageData → SendResult
sent m = record {
  success = true;
  msg_id = m.msg_id;
  conversation_id = m.conversation_id;
  timestamp = m.timestamp;
  error = [];
}

abbrev pub recall_error : Text → RecallResult
recall_error why = record { success = false; error = why }

abbrev pub recalled : RecallResult
recalled = record { success = true; error = [] }

abbrev pub deleted : DeleteConversationResult
deleted = record { success = true; error = ok }

abbrev pub delete_error : ErrorCode → DeleteConversationResult
delete_error why = record { success = false; error = why }

-- The conversation that SendMessage writes for a user.
abbrev pub conversation_with : MessageData → Text → ConversationData
conversation_with m peer_id = record {
  conversation_id = m.conversation_id;
  chat_type = m.chat_type;
  peer_id = peer_id;
  last_msg_id = m.msg_id;
  unread_count = pos 0;
  updated_at = m.timestamp;
  is_pinned = false;
  is_muted = false;
}

-- The message that SendMessage stores.
abbrev pub new_message :
    Text → Text → ℤ → Text → Text → Text → List Text → Text → Text → ℤ → Text → MessageData
new_message from_user_id to_id chat_type content media_url media_type mentions reply_to_msg_id
      new_id now conversation_id =
    record {
      msg_id = new_id;
      from_user_id = from_user_id;
      to_id = to_id;
      conversation_id = conversation_id;
      chat_type = chat_type;
      content = content;
      media_url = media_url;
      media_type = if is_empty media_type then codes "text" else media_type;
      mentions = mentions;
      reply_to_msg_id = reply_to_msg_id;
      timestamp = now;
      status = pos 0;
      recall_at = pos 0;
    }

-- Two minutes, in milliseconds.
abbrev pub recall_timeout_ms : ℤ
recall_timeout_ms = pos 120000

abbrev pub is_dissolved : Option GroupData → Bool
is_dissolved none = false
is_dissolved (some g) = eq_ℤ g.status (pos 1)

module _ (D : Db) (J : Json) where
  unfoldable pub resolve_conversation_id : Stores D → Text → Text → ℤ → Stores D × Text
  resolve_conversation_id s user_id chat_id chat_type =
      let c = Conversations.get_or_create_private_conversation D J s.registry user_id chat_id in
      if is_empty chat_id
      then (s, [])
      else if private_chat chat_type
      then (record s { registry = c.0 }, c.1)
      else (s, chat_id)

  -- The receiver of a message: the conversation anew, then one unread message.
  unfoldable pub receive : D.State → Text → MessageData → Text → D.State
  receive conv user_id m peer_id =
      let written = Conversations.upsert D J conv user_id (conversation_with m peer_id) in
      (Conversations.update_unread D J written.0 user_id m.conversation_id (pos 1)).0

  unfoldable pub receive_all : D.State → MessageData → List GroupMemberData → D.State
  receive_all conv m [] = conv
  receive_all conv m (u ∷ us) =
      let conv' =
        if text_eq u.user_id m.from_user_id then conv else receive conv u.user_id m m.to_id in
      receive_all conv' m us

  unfoldable pub queue_all : D.State → MessageData → List GroupMemberData → D.State
  queue_all msg m [] = msg
  queue_all msg m (u ∷ us) =
      let msg' =
        if text_eq u.user_id m.from_user_id
        then msg
        else (Messages.add_to_offline D J msg u.user_id m.msg_id).0 in
      queue_all msg' m us

  -- SendMessage once the message is stored. The group does not change in between.
  unfoldable pub deliver : Stores D → MessageData → Stores D
  deliver s m =
      let members = (Store.get_members D J s.group m.to_id (pos 0) (pos 1000)).0 in
      let conv = (Conversations.upsert D J s.conv m.from_user_id (conversation_with m m.to_id)).0 in
      if private_chat m.chat_type
      then record s {
        conv = receive conv m.to_id m m.from_user_id;
        msg = (Messages.add_to_offline D J s.msg m.to_id m.msg_id).0;
      }
      else record s { conv = receive_all conv m members; msg = queue_all s.msg m members }

  -- SendMessage once the conversation is known.
  unfoldable pub send_to : Stores D → MessageData → Stores D × SendResult
  send_to s m =
      let saved = Messages.save D J s.msg m in
      if not saved.1
      then (record s { msg = saved.0 }, send_error (codes "save failed"))
      else (deliver (record s { msg = saved.0 }) m, sent m)

  unfoldable pub send_message :
      Stores D
      → Text
      → Text
      → ℤ
      → Text
      → Text
      → Text
      → List Text
      → Text
      → Text
      → ℤ
      → Stores D × SendResult
  send_message s from_user_id to_id chat_type content media_url media_type mentions reply_to_msg_id
        new_id now =
      let message =
        new_message from_user_id to_id chat_type content media_url media_type mentions
          reply_to_msg_id new_id now in
      let c = Conversations.get_or_create_private_conversation D J s.registry from_user_id to_id in
      if is_empty from_user_id || is_empty to_id
      then (s, send_error (codes "invalid params"))
      else if private_chat chat_type
      then send_to (record s { registry = c.0 }) (message c.1)
      else if not (Store.is_member D J s.group to_id from_user_id)
      then (s, send_error (codes "not a group member"))
      else send_to s (message to_id)

  unfoldable pub recall_found :
      Stores D → Text → Text → ℤ → Option MessageData → Stores D × RecallResult
  recall_found s msg_id user_id now none = (s, recall_error (codes "message not found"))
  recall_found s msg_id user_id now (some m) =
      let marked = Messages.mark_recalled D J s.msg msg_id now in
      if not (text_eq m.from_user_id user_id)
      then (s, recall_error (codes "not allowed to recall"))
      else if ltb_ℤ recall_timeout_ms (now -ℤ m.timestamp)
      then (s, recall_error (codes "recall timeout"))
      else if not marked.1
      then (record s { msg = marked.0 }, recall_error (codes "mark recalled failed"))
      else (record s { msg = marked.0 }, recalled)

  unfoldable pub recall_message : Stores D → Text → Text → ℤ → Stores D × RecallResult
  recall_message s msg_id user_id now =
      if is_empty msg_id || is_empty user_id
      then (s, recall_error (codes "invalid params"))
      else recall_found s msg_id user_id now (Messages.get_by_id D J s.msg msg_id)

-- ===== src/Chat/Data.antt =====
-- The records of chatsvr/internal/store/message_store.h and their serialisation in
-- message_store.cpp.
use swift_chat_system.Common.{◌≡◌, Bool, false, Option, some, List, [], ◌∷◌, ◌>>=◌}
use swift_chat_system.Common.Int.{ℤ, pos, to_int32}
use swift_chat_system.Common.Text.{Text, codes, text_eq}
use swift_chat_system.Json.{
  Json, IsLawful, Object, find, str, int, bool, strs, text_value, int64_value, int_value,
  bool_value, as_strs,
}

pub record MessageData : Type 0 where
  pub msg_id : Text
  pub from_user_id : Text
  pub to_id : Text
  pub conversation_id : Text
  pub chat_type : ℤ
  pub content : Text
  pub media_url : Text
  pub media_type : Text
  pub mentions : List Text
  pub reply_to_msg_id : Text
  pub timestamp : ℤ
  pub status : ℤ
  pub recall_at : ℤ

pub record ConversationData : Type 0 where
  pub conversation_id : Text
  pub chat_type : ℤ
  pub peer_id : Text
  pub last_msg_id : Text
  pub unread_count : ℤ
  pub updated_at : ℤ
  pub is_pinned : Bool
  pub is_muted : Bool

abbrev pub message_object : MessageData → Object
message_object m =
    (codes "msg_id", str m.msg_id)
    ∷ (codes "from_user_id", str m.from_user_id)
    ∷ (codes "to_id", str m.to_id)
    ∷ (codes "conversation_id", str m.conversation_id)
    ∷ (codes "chat_type", int m.chat_type)
    ∷ (codes "content", str m.content)
    ∷ (codes "media_url", str m.media_url)
    ∷ (codes "media_type", str m.media_type)
    ∷ (codes "mentions", strs m.mentions)
    ∷ (codes "reply_to_msg_id", str m.reply_to_msg_id)
    ∷ (codes "timestamp", int m.timestamp)
    ∷ (codes "status", int m.status)
    ∷ (codes "recall_at", int m.recall_at)
    ∷ []

abbrev pub read_message : Object → Option MessageData
read_message j = do
  msg_id ← text_value j (codes "msg_id") []
  from_user_id ← text_value j (codes "from_user_id") []
  to_id ← text_value j (codes "to_id") []
  chat_id ← text_value j (codes "chat_id") []
  conversation_id ← text_value j (codes "conversation_id") chat_id
  chat_type ← int_value j (codes "chat_type") (pos 1)
  content ← text_value j (codes "content") []
  media_url ← text_value j (codes "media_url") []
  media_type ← text_value j (codes "media_type") []
  reply_to_msg_id ← text_value j (codes "reply_to_msg_id") []
  timestamp ← int64_value j (codes "timestamp") (pos 0)
  status ← int_value j (codes "status") (pos 0)
  recall_at ← int64_value j (codes "recall_at") (pos 0)
  some (record {
    msg_id = msg_id;
    from_user_id = from_user_id;
    to_id = to_id;
    conversation_id = conversation_id;
    chat_type = chat_type;
    content = content;
    media_url = media_url;
    media_type = media_type;
    mentions = as_strs (find (codes "mentions") j);
    reply_to_msg_id = reply_to_msg_id;
    timestamp = timestamp;
    status = status;
    recall_at = recall_at;
  })

abbrev pub conversation_object : ConversationData → Object
conversation_object c =
    (codes "conversation_id", str c.conversation_id)
    ∷ (codes "chat_type", int c.chat_type)
    ∷ (codes "peer_id", str c.peer_id)
    ∷ (codes "last_msg_id", str c.last_msg_id)
    ∷ (codes "unread_count", int c.unread_count)
    ∷ (codes "updated_at", int c.updated_at)
    ∷ (codes "is_pinned", bool c.is_pinned)
    ∷ (codes "is_muted", bool c.is_muted)
    ∷ []

abbrev pub read_conversation : Object → Option ConversationData
read_conversation j = do
  chat_id ← text_value j (codes "chat_id") []
  conversation_id ← text_value j (codes "conversation_id") chat_id
  chat_type ← int_value j (codes "chat_type") (pos 1)
  peer_id ← text_value j (codes "peer_id") []
  last_msg_id ← text_value j (codes "last_msg_id") []
  unread_count ← int_value j (codes "unread_count") (pos 0)
  updated_at ← int64_value j (codes "updated_at") (pos 0)
  is_pinned ← bool_value j (codes "is_pinned") false
  is_muted ← bool_value j (codes "is_muted") false
  some (record {
    conversation_id = conversation_id;
    chat_type = chat_type;
    peer_id = peer_id;
    last_msg_id = last_msg_id;
    unread_count = unread_count;
    updated_at = updated_at;
    is_pinned = is_pinned;
    is_muted = is_muted;
  })

module _ (J : Json) where
  unfoldable pub serialize_message : MessageData → Text
  serialize_message m = J.dump (message_object m)

  unfoldable pub deserialize_message : Text → Option MessageData
  deserialize_message text = do j ← J.parse text; read_message j

  unfoldable pub serialize_conversation : ConversationData → Text
  serialize_conversation c = J.dump (conversation_object c)

  unfoldable pub deserialize_conversation : Text → Option ConversationData
  deserialize_conversation text = do j ← J.parse text; read_conversation j

  module _ (law : IsLawful J) where
    -- A message comes back as it was, its two `int` fields as the `int` of their low 32 bits.
    pub deserialize-serialize_message :
        (m : MessageData)
        → deserialize_message (serialize_message m)
          ≡ some (record m { chat_type = to_int32 m.chat_type; status = to_int32 m.status })
    unfolding deserialize_message serialize_message find text_eq
    deserialize-serialize_message m =
        let (j, parsed, same) = law.parse-dump (message_object m) in rw parsed (simp same)

    -- A conversation comes back as it was, its two `int` fields as the `int` of their low 32 bits.
    pub deserialize-serialize_conversation :
        (c : ConversationData)
        → deserialize_conversation (serialize_conversation c)
          ≡ some (record c {
            chat_type = to_int32 c.chat_type;
            unread_count = to_int32 c.unread_count;
          })
    unfolding deserialize_conversation serialize_conversation find text_eq
    deserialize-serialize_conversation c =
        let (j, parsed, same) = law.parse-dump (conversation_object c) in rw parsed (simp same)

-- ===== src/Tests/Chat.antt =====
-- The stores of ChatSvr at concrete inputs.
use swift_chat_system.Common.{◌≡◌, refl, arith, true, some, [], ◌∷◌}
use swift_chat_system.Common.Int.{pos, to_int32}
use swift_chat_system.Common.Text.{codes, text_eq, text_lt, starts_with}
use swift_chat_system.Json.{find}
use swift_chat_system.Json.Codec.{codec, codec-IsLawful}
use swift_chat_system.Storage.{commit}
use swift_chat_system.Storage.Memory.{memory, memory-IsLawful, no_entries}
use swift_chat_system.Chat.Data.{
  MessageData, ConversationData, serialize_message, deserialize_message, serialize_conversation,
  deserialize_conversation,
}
use swift_chat_system.Chat.Keys.{
  rev_ts, digits, key_msg, key_chat, key_conv, key_offline, prefix_offline,
}
use swift_chat_system.Chat.Messages
use swift_chat_system.Chat.Messages.Kept
use swift_chat_system.Chat.Messages.Kept.{IsKept, run-IsKept, save, mark_recalled, add_to_offline}
use swift_chat_system.Chat.Messages.Offline.{Among, add_to_offline-Among}
use swift_chat_system.Chat.Conversations
use swift_chat_system.Chat.Conversations.{conversation_of, max_0}
use swift_chat_system.Chat.Receiving.{unread_after_receive}
use swift_chat_system.Chat.Service.{conversation_with, receive}

abbrev message : MessageData
message = record {
  msg_id = codes "m";
  from_user_id = codes "a";
  to_id = codes "b";
  conversation_id = codes "p_a_b";
  chat_type = pos 1;
  content = codes "hello";
  media_url = [];
  media_type = codes "text";
  mentions = [];
  reply_to_msg_id = [];
  timestamp = pos 5;
  status = pos 0;
  recall_at = pos 0;
}

abbrev saved : memory.State
saved = (Messages.save memory codec no_entries message).0

saved_message : Messages.get_by_id memory codec saved (codes "m") ≡ some message
unfolding memory codec no_entries commit text_eq text_lt find Messages.save Messages.get_by_id
    serialize_message deserialize_message key_msg key_chat rev_ts digits to_int32
saved_message = refl

run-IsKept_example :
    IsKept memory codec
      (Kept.run memory codec saved (
        mark_recalled (codes "m") (pos 9)
        ∷ save message
        ∷ add_to_offline (codes "b") (codes "m")
        ∷ []))
      (codes "m")
      message
run-IsKept_example =
    run-IsKept memory codec memory-IsLawful codec-IsLawful saved
      (mark_recalled (codes "m") (pos 9)
        ∷ save message
        ∷ add_to_offline (codes "b") (codes "m")
        ∷ [])
      (codes "m") message saved_message (ground arith, ground arith)

abbrev queued : memory.State
queued = (Messages.add_to_offline memory codec saved (codes "b") (codes "m")).0

queue_succeeds : Messages.add_to_offline memory codec saved (codes "b") (codes "m") ≡ (queued, true)
unfolding memory codec no_entries commit text_eq text_lt find Messages.save Messages.get_by_id
    serialize_message deserialize_message key_msg key_chat rev_ts digits to_int32
    Messages.add_to_offline Messages.queue_found key_offline
queue_succeeds = refl

add_to_offline-Among_example :
    Among message (Messages.pull_offline memory codec queued (codes "b") [] (pos 10)).messages
unfolding memory codec no_entries commit text_eq text_lt find Messages.save Messages.get_by_id
    serialize_message deserialize_message key_msg key_chat rev_ts digits to_int32
    Messages.add_to_offline Messages.queue_found key_offline prefix_offline starts_with
add_to_offline-Among_example =
    add_to_offline-Among memory codec memory-IsLawful codec-IsLawful saved queued (codes "b")
      (codes "m") message (pos 10) saved_message queue_succeeds refl (ground arith)

-- A message is unread when the next one arrives.
abbrev earlier : memory.State
earlier = receive memory codec no_entries (codes "b") message (codes "a")

abbrev received : memory.State
received = receive memory codec earlier (codes "b") message (codes "a")

abbrev counted : memory.State
counted = (Conversations.update_unread memory codec received (codes "b") (codes "p_a_b") (pos 3)).0

receive_succeeds :
    ((Conversations.upsert memory codec earlier
        (codes "b")
        (conversation_with message (codes "a"))).1
      ≡ true)
    × ((Conversations.update_unread memory codec
          (Conversations.upsert memory codec earlier
            (codes "b")
            (conversation_with message (codes "a"))).0
          (codes "b")
          (codes "p_a_b")
          (pos 1)).1
        ≡ true)
    × (Conversations.update_unread memory codec received (codes "b") (codes "p_a_b") (pos 3)
        ≡ (counted, true))
unfolding memory codec no_entries commit text_eq text_lt find receive Conversations.upsert
    Conversations.update_unread Conversations.recount Conversations.read_conv key_conv
    serialize_conversation deserialize_conversation to_int32
receive_succeeds = (refl, refl, refl)

unread_after_receive_example :
    ((c : ConversationData) × (Conversations.read_conv memory codec received
          (codes "b")
          (codes "p_a_b")
        ≡ some c)
      × (c.unread_count ≡ pos 1))
    × ((c : ConversationData) × (Conversations.read_conv memory codec counted
            (codes "b")
            (codes "p_a_b")
          ≡ some c)
        × (c.unread_count ≡ pos 4))
unread_after_receive_example =
    unread_after_receive memory codec memory-IsLawful codec-IsLawful earlier counted (codes "b")
      message (codes "a") 3 receive_succeeds.0 receive_succeeds.1 receive_succeeds.2 (omega arith)

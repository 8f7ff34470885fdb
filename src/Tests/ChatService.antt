-- ===== src/Tests/ChatService.antt =====
-- ChatServiceCore at concrete inputs: a private message that is recalled, and a group that its
-- owner deletes.
use swift_chat_system.Common.{◌≡◌, refl, true, false, ◌||◌, some, []}
use swift_chat_system.Common.Int.{pos, to_int32}
use swift_chat_system.Common.Text.{Text, codes, text_eq, text_lt, starts_with}
use swift_chat_system.Json.{find}
use swift_chat_system.Json.Codec.{codec, codec-IsLawful}
use swift_chat_system.Storage.{commit}
use swift_chat_system.Storage.Memory.{memory, memory-IsLawful, no_entries}
use swift_chat_system.Group.Data.{
  GroupData, serialize_group, deserialize_group, key_group, prefix_group_member,
}
use swift_chat_system.Group.Store
use swift_chat_system.Group.Transfer.{owner_of}
use swift_chat_system.Chat.Data.{serialize_message, deserialize_message}
use swift_chat_system.Chat.Keys.{rev_ts, digits, key_msg, key_chat, key_offline}
use swift_chat_system.Chat.Messages
use swift_chat_system.Chat.Conversations
use swift_chat_system.Chat.Conversations.{conversation_of}
use swift_chat_system.Chat.Service.{
  Stores, private_chat, group_chat, recalled, recall_found, recall_message, receive, deliver,
  send_to, send_message, deleted,
}
use swift_chat_system.Chat.Sync.{delete_found, delete_conversation, forget_all, sync_conversations}
use swift_chat_system.Chat.Rules.{IsRecalled, recall_message-IsRecalled, send_message-stored}
use swift_chat_system.Chat.Deletion.{lists, delete_conversation-lists}

abbrev alice : Text
alice = codes "a"

abbrev bob : Text
bob = codes "b"

abbrev id : Text
id = codes "m"

abbrev empty : Stores memory
empty = record { msg = no_entries; conv = no_entries; registry = no_entries; group = no_entries }

abbrev told : Stores memory
told = (send_message memory codec empty alice bob (pos 1) (codes "hi") [] [] [] [] id (pos 5)).0

send_succeeds :
    (send_message memory codec empty alice bob
      (pos 1)
      (codes "hi")
      []
      []
      []
      []
      id
      (pos 5)).1.success
    ≡ true
unfolding send_message send_to deliver memory codec no_entries commit text_eq text_lt Messages.save
    key_msg key_chat Conversations.get_or_create_private_conversation
send_succeeds = refl

send_message-stored_example :
    ((private_chat (pos 1) || Store.is_member memory codec no_entries bob alice) ≡ true)
    × (Messages.get_by_id memory codec told.msg id
        ≡ some (record {
          msg_id = id;
          from_user_id = alice;
          to_id = bob;
          conversation_id = conversation_of alice bob;
          chat_type = pos 1;
          content = codes "hi";
          media_url = [];
          media_type = codes "text";
          mentions = [];
          reply_to_msg_id = [];
          timestamp = pos 5;
          status = pos 0;
          recall_at = pos 0;
        }))
unfolding to_int32
send_message-stored_example =
    send_message-stored memory codec memory-IsLawful codec-IsLawful empty alice bob (pos 1)
      (codes "hi") [] [] [] [] id (pos 5) send_succeeds

abbrev taken_back : Stores memory
taken_back = (recall_message memory codec told id alice (pos 9)).0

recall_succeeds : recall_message memory codec told id alice (pos 9) ≡ (taken_back, recalled)
unfolding send_message send_to deliver receive memory codec no_entries commit text_eq text_lt find
    Messages.save Messages.get_by_id Messages.add_to_offline Messages.queue_found
    Messages.mark_recalled Messages.store_recalled serialize_message deserialize_message key_msg
    key_chat key_offline rev_ts digits to_int32 Conversations.get_or_create_private_conversation
    recall_message recall_found conversation_of
recall_succeeds = refl

recall_message-IsRecalled_example : IsRecalled memory codec told taken_back id alice (pos 9)
recall_message-IsRecalled_example =
    recall_message-IsRecalled memory codec memory-IsLawful codec-IsLawful told taken_back id alice
      (pos 9) recall_succeeds

abbrev club : Text
club = codes "g"

abbrev group : GroupData
group = record {
  group_id = club;
  group_name = [];
  avatar_url = [];
  owner_id = alice;
  member_count = pos 0;
  announcement = [];
  created_at = pos 5;
  updated_at = pos 5;
  status = pos 0;
}

abbrev founded : Stores memory
founded = record empty { group = (Store.create_group memory codec no_entries group).0 }

abbrev closed : Stores memory
closed = (delete_conversation memory codec founded alice club (pos 2)).0

delete_succeeds : delete_conversation memory codec founded alice club (pos 2) ≡ (closed, deleted)
unfolding delete_conversation delete_found forget_all memory codec no_entries commit text_eq text_lt
    starts_with find Store.create_group Store.get_group Store.dissolve_group Store.dissolve_found
    Store.get_members Store.read_members Store.read_ids Store.evict serialize_group
    deserialize_group key_group prefix_group_member to_int32
delete_succeeds = refl

delete_conversation-lists_example :
    (group_chat (pos 2) ≡ true)
    × (owner_of (Store.get_group memory codec founded.group club) ≡ some alice)
    × (lists club (sync_conversations memory codec closed bob) ≡ false)
delete_conversation-lists_example =
    delete_conversation-lists memory codec memory-IsLawful codec-IsLawful founded closed alice club
      (pos 2) bob delete_succeeds

-- ===== src/Chat/Rules.antt =====
-- Who may recall a message and who may send one, and what the two leave in the message store.
use swift_chat_system.Common.{
  ◌≡◌, refl, true, false, ◌||◌, Option, none, some, List, [], ◌∷◌, arith, if◌then◌else◌,
}
use swift_chat_system.Common.Int.{ℤ, pos, ◌-ℤ◌, ltb_ℤ, to_int32}
use swift_chat_system.Common.Text.{Text, codes, is_empty, text_eq_iff, text_eq_refl}
use swift_chat_system.Json.{Json}
use swift_chat_system.Json
use swift_chat_system.Storage.{Db, IsLawful}
use swift_chat_system.Group.Store
use swift_chat_system.Group.Data.{GroupMemberData}
use swift_chat_system.Chat.Data.{MessageData}
use swift_chat_system.Chat.Messages
use swift_chat_system.Chat.Conversations
use swift_chat_system.Chat.Conversations.{conversation_of}
use swift_chat_system.Chat.Messages.Lookup.{
  as_read, get_by_id-save, get_by_id-mark_recalled, get_by_id-add_to_offline,
}
use swift_chat_system.Chat.Service.{
  Stores, private_chat, recall_timeout_ms, recalled, new_message, recall_found, recall_message,
  queue_all, deliver, send_to, send_message,
}

-- The message was sent by the user at most two minutes ago, and is marked with the time.
pub record IsRecalled (D : Db) (J : Json) (s t : Stores D) (i u : Text) (now : ℤ) : Type 0 where
  pub message : MessageData
  pub found : Messages.get_by_id D J s.msg i ≡ some message
  pub sender : message.from_user_id ≡ u
  pub in_time : ltb_ℤ recall_timeout_ms (now -ℤ message.timestamp) ≡ false
  pub marked :
      Messages.get_by_id D J t.msg i
      ≡ some (as_read (record message { status = pos 1; recall_at = now }))

module _ (D : Db) (J : Json) (law : IsLawful D) (json_law : Json.IsLawful J) where
  recall_found-IsRecalled :
      (s t : Stores D) (i u : Text) (now : ℤ) (o : Option MessageData)
      → Messages.get_by_id D J s.msg i ≡ o
      → recall_found D J s i u now o ≡ (t, recalled)
      → IsRecalled D J s t i u now
  unfolding recall_found
  recall_found-IsRecalled s t i u now none found e = cc
  recall_found-IsRecalled s t i u now (some m) found e = record {
    message = m;
    found = found;
    sender = ground (arith, text_eq_iff m.from_user_id u);
    in_time = ground arith;
    marked = ground (arith, get_by_id-mark_recalled D J law json_law s.msg i i now, text_eq_refl i);
  }

  recall_message-found :
      (s t : Stores D) (i u : Text) (now : ℤ)
      → recall_message D J s i u now ≡ (t, recalled)
      → recall_found D J s i u now (Messages.get_by_id D J s.msg i) ≡ (t, recalled)
  unfolding recall_message
  recall_message-found s t i u now e = ground arith

  -- A recall succeeds for the sender of a message that is stored and at most two minutes old only,
  -- and the message is then marked as recalled, with the time, and its content kept.
  pub recall_message-IsRecalled :
      (s t : Stores D) (i u : Text) (now : ℤ)
      → recall_message D J s i u now ≡ (t, recalled)
      → IsRecalled D J s t i u now
  recall_message-IsRecalled s t i u now e =
      recall_found-IsRecalled s t i u now (Messages.get_by_id D J s.msg i) refl
        (recall_message-found s t i u now e)

  get_by_id-queue_all :
      (msg : D.State) (m : MessageData) (us : List GroupMemberData) (i : Text)
      → Messages.get_by_id D J (queue_all D J msg m us) i ≡ Messages.get_by_id D J msg i
  unfolding queue_all
  get_by_id-queue_all msg m [] i = refl
  get_by_id-queue_all msg m (u ∷ us) i = ground (
    arith,
    get_by_id-queue_all msg m us i,
    get_by_id-queue_all (Messages.add_to_offline D J msg u.user_id m.msg_id).0 m us i,
    get_by_id-add_to_offline D J law json_law msg u.user_id m.msg_id i,
  )

  get_by_id-deliver :
      (s : Stores D) (m : MessageData) (i : Text)
      → Messages.get_by_id D J (deliver D J s m).msg i ≡ Messages.get_by_id D J s.msg i
  unfolding deliver
  get_by_id-deliver s m i = ground (
    arith,
    get_by_id-queue_all s.msg m (Store.get_members D J s.group m.to_id (pos 0) (pos 1000)).0 i,
    get_by_id-add_to_offline D J law json_law s.msg m.to_id m.msg_id i,
  )

  get_by_id-send_to :
      (s : Stores D) (m : MessageData)
      → (send_to D J s m).1.success ≡ true
      → Messages.get_by_id D J (send_to D J s m).0.msg m.msg_id ≡ some (as_read m)
  unfolding send_to
  get_by_id-send_to s m e = ground (
    arith,
    get_by_id-deliver (record s { msg = (Messages.save D J s.msg m).0 }) m m.msg_id,
    get_by_id-save D J law json_law s.msg m m.msg_id,
    text_eq_refl m.msg_id,
  )

  -- A message that SendMessage accepted is private, or its sender is a member of the group, and it
  -- is stored field by field as it was sent, in the conversation of the two users or in that of the
  -- group, as text if no type of media was given, with the time, and not recalled.
  pub send_message-stored :
      (s : Stores D) (a b : Text) (chat_type : ℤ) (content url media : Text) (mentions : List Text)
      (reply new_id : Text) (now : ℤ)
      → let c = send_message D J s a b chat_type content url media mentions reply new_id now in
        c.1.success ≡ true
        → let c = send_message D J s a b chat_type content url media mentions reply new_id now in
          ((private_chat chat_type || Store.is_member D J s.group b a) ≡ true)
          × (Messages.get_by_id D J c.0.msg new_id
              ≡ some (record {
                msg_id = new_id;
                from_user_id = a;
                to_id = b;
                conversation_id = if private_chat chat_type then conversation_of a b else b;
                chat_type = to_int32 chat_type;
                content = content;
                media_url = url;
                media_type = if is_empty media then codes "text" else media;
                mentions = mentions;
                reply_to_msg_id = reply;
                timestamp = now;
                status = pos 0;
                recall_at = pos 0;
              }))
  unfolding to_int32 send_message Conversations.get_or_create_private_conversation
  send_message-stored s a b chat_type content url media mentions reply new_id now done =
      let r = Conversations.get_or_create_private_conversation D J s.registry a b in
      let m = new_message a b chat_type content url media mentions reply new_id now in
      (
        ground arith,
        ground (
          arith,
          get_by_id-send_to (record s { registry = r.0 }) (m (conversation_of a b)),
          get_by_id-send_to s (m b),
        ),
      )

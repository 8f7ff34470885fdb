-- ===== src/Chat/Receiving.antt =====
-- What a message leaves in the conversation of its receiver, in chatsvr's chat_service.cpp.
use swift_chat_system.Common.{◌≡◌, refl, sym, ap, ◌∙◌, ℕ, ◌+◌, ◌<◌, true, some, arith}
use mathlib.Core.Option.{some-injective}
use swift_chat_system.Common.Int.{pos, ◌+ℤ◌, to_int32}
use swift_chat_system.Common.Text.{Text}
use swift_chat_system.Json.{Json}
use swift_chat_system.Json
use swift_chat_system.Storage.{Db, IsLawful}
use swift_chat_system.Chat.Data.{ConversationData, MessageData}
use swift_chat_system.Chat.Conversations.{max_0, upsert, read_conv, update_unread}
use swift_chat_system.Chat.Conversations.Unread.{read_conv-update_unread, unread_after_send}
use swift_chat_system.Chat.Service.{conversation_with, receive}

one_and_more : (d : ℕ) → 1 + d < 2147483648 → max_0 (to_int32 (pos 1 +ℤ pos d)) ≡ pos (1 + d)
unfolding to_int32
one_and_more d h = ground arith

module _ (D : Db) (J : Json) (law : IsLawful D) (json_law : Json.IsLawful J) where
  -- Where both writes succeed, the step of SendMessage for a receiver leaves one unread message in
  -- the conversation, however many were unread before; a later UpdateUnread by d that succeeds makes
  -- it one and d, if that fits into an int.
  pub unread_after_receive :
      (s t : D.State) (u : Text) (m : MessageData) (peer : Text) (d : ℕ)
      → (upsert D J s u (conversation_with m peer)).1 ≡ true
      → (update_unread D J
          (upsert D J s u (conversation_with m peer)).0
          u
          m.conversation_id
          (pos 1)).1
        ≡ true
      → update_unread D J (receive D J s u m peer) u m.conversation_id (pos d) ≡ (t, true)
      → 1 + d < 2147483648
      → ((c : ConversationData) × (read_conv D J (receive D J s u m peer) u m.conversation_id
            ≡ some c)
          × (c.unread_count ≡ pos 1))
        × ((c : ConversationData) × (read_conv D J t u m.conversation_id ≡ some c)
            × (c.unread_count ≡ pos (1 + d)))
  unfolding receive
  unread_after_receive s t u m peer d written counted more fits =
      let w = upsert D J s u (conversation_with m peer) in
      let r = update_unread D J w.0 u m.conversation_id (pos 1) in
      let (c, found, one) =
        unread_after_send D J law json_law s w.0 r.0 u (conversation_with m peer) refl
          (ap (λ b. (w.0, b)) written) (ap (λ b. (r.0, b)) counted) in
      let (x, c', before, after, sum, _) =
        read_conv-update_unread D J law json_law r.0 t u m.conversation_id (pos d) more in
      let same : x ≡ c = some-injective _ _ (sym before ∙ found) in
      (
        (c, found, one),
        (
          c',
          after,
          sum
              ∙ ap (λ n. max_0 (to_int32 (n +ℤ pos d)))
                  (ap (λ (y : ConversationData). y.unread_count) same ∙ one)
              ∙ one_and_more d fits,
        ),
      )

-- ===== src/Chat/Conversations/Unread.antt =====
-- The conversation of two users, and its count of unread messages.
use mathlib.Core.Option.{some-injective}
use swift_chat_system.Common.{
  sym, past_guard, ◌≡◌, ◌≢◌, refl, ap, ◌∙◌, true, false, ◌||◌, Option, none, some, [], ◌∷◌, arith,
  Bool-cases, Option-cases, inl, inr,
}
use swift_chat_system.Common.Int.{
  ℤ, pos, negsuc, ◌+ℤ◌, leb_ℤ, to_int32, IsInt32, to_int32_fixed, to_int32-IsInt32,
}
use swift_chat_system.Common.Text.{Text, is_empty, text_eq_iff, text_eq_refl}
use swift_chat_system.Json.{Json}
use swift_chat_system.Json
use swift_chat_system.Storage.{Db, IsLawful, put, after, get-commit}
use swift_chat_system.Storage.Order.{text_lt_total, text_lt_trans, text_lt_ne}
use swift_chat_system.Chat.Data.{
  ConversationData, serialize_conversation, deserialize-serialize_conversation,
}
use swift_chat_system.Chat.Keys.{key_conv}
use swift_chat_system.Chat.Conversations.{
  max_0, conversation_of, upsert, recount, read_conv, update_unread,
}

-- The conversation as it is read back.
abbrev pub as_read : ConversationData → ConversationData
as_read c = record c { chat_type = to_int32 c.chat_type; unread_count = to_int32 c.unread_count }

-- The new count of UpdateUnread.
abbrev added : ℤ → ℤ → ℤ
added delta n = max_0 (to_int32 (n +ℤ delta))

-- Whoever of two users asks, the conversation is the same.
conversation_of_comm : (a b : Text) → conversation_of a b ≡ conversation_of b a
unfolding conversation_of
conversation_of_comm a b =
    ground (
      arith,
      text_lt_total a b,
      text_eq_iff a b,
      text_lt_trans a b a,
      text_lt_ne a a,
      text_eq_refl a,
    )

max_0-IsInt32 : (n : ℤ) → IsInt32 n → IsInt32 (max_0 n)
max_0-IsInt32 (pos n) h = ground arith
max_0-IsInt32 (negsuc n) h = ground arith

one_more : added (pos 1) (to_int32 (pos 0)) ≡ pos 1
unfolding to_int32
one_more = refl

max_0_bound : (n : ℤ) → leb_ℤ (pos 0) (max_0 n) ≡ true
max_0_bound (pos n) = ground arith
max_0_bound (negsuc n) = ground arith

to_int32-max_0 : (n : ℤ) → to_int32 (max_0 (to_int32 n)) ≡ max_0 (to_int32 n)
to_int32-max_0 n =
    (to_int32_fixed (max_0 (to_int32 n))).1 (max_0-IsInt32 (to_int32 n) (to_int32-IsInt32 n))

module _ (D : Db) (J : Json) (law : IsLawful D) (json_law : Json.IsLawful J) where
  read_conv-upsert :
      (s t : D.State) (u : Text) (c : ConversationData)
      → upsert D J s u c ≡ (t, true)
      → (is_empty u ≡ false)
        × (is_empty c.conversation_id ≡ false)
        × (read_conv D J t u c.conversation_id ≡ some (as_read c))
  unfolding upsert read_conv after
  read_conv-upsert s t u c e = (
    ground arith,
    ground arith,
    ground (
      arith,
      get-commit D law s (put (key_conv u c.conversation_id) (serialize_conversation J c) ∷ [])
          (key_conv u c.conversation_id),
      text_eq_refl (key_conv u c.conversation_id),
      deserialize-serialize_conversation J json_law c,
    ),
  )

  nothing_recounted :
      (s t : D.State) (u i : Text) (count : ℤ → ℤ) (o : Option ConversationData)
      → o ≡ none
      → recount D J s u i count o ≢ (t, true)
  unfolding recount
  nothing_recounted s t u i count none e done = cc
  nothing_recounted s t u i count (some c) e done = cc

  read_conv-recount :
      (s t : D.State) (u i : Text) (count : ℤ → ℤ) (c : ConversationData)
      → recount D J s u i count (some c) ≡ (t, true)
      → read_conv D J t u i ≡ some (as_read (record c { unread_count = count c.unread_count }))
  unfolding recount read_conv after
  read_conv-recount s t u i count c e =
      let r : ConversationData = record c { unread_count = count c.unread_count } in
      ground (
        arith,
        get-commit D law s (put (key_conv u i) (serialize_conversation J r) ∷ []) (key_conv u i),
        text_eq_refl (key_conv u i),
        deserialize-serialize_conversation J json_law r,
      )

  counting :
      (s t : D.State) (u i : Text) (delta : ℤ)
      → update_unread D J s u i delta ≡ (t, true)
      → recount D J s u i (added delta) (read_conv D J s u i) ≡ (t, true)
  unfolding update_unread
  counting s t u i delta e = elim (Bool-cases (is_empty u || is_empty i)) [
    | inl missing ↦ absurd (ground arith)
    | inr given ↦ past_guard (is_empty u || is_empty i) (s, false) _ (t, true) given e
  ]

  -- UpdateUnread adds to the count that is stored, and stops at zero.
  pub read_conv-update_unread :
      (s t : D.State) (u i : Text) (delta : ℤ)
      → update_unread D J s u i delta ≡ (t, true)
      → (c : ConversationData) × (c' : ConversationData) × (read_conv D J s u i ≡ some c)
        × (read_conv D J t u i ≡ some c')
        × (c'.unread_count ≡ max_0 (to_int32 (c.unread_count +ℤ delta)))
        × (leb_ℤ (pos 0) c'.unread_count ≡ true)
  read_conv-update_unread s t u i delta e = elim (Option-cases (read_conv D J s u i)) [
    | inl missing ↦
        absurd (nothing_recounted s t u i (added delta) _ missing (counting s t u i delta e))
    | inr (c, found) ↦
        let count = added delta in
        let n = max_0 (to_int32 (c.unread_count +ℤ delta)) in
        let done : recount D J s u i count (some c) ≡ (t, true) =
          ap (recount D J s u i count) (sym found) ∙ counting s t u i delta e in
        (
          c,
          as_read (record c { unread_count = n }),
          found,
          read_conv-recount s t u i count c done,
          to_int32-max_0 (c.unread_count +ℤ delta),
          rw (to_int32-max_0 (c.unread_count +ℤ delta))
              (max_0_bound (to_int32 (c.unread_count +ℤ delta))),
        )
  ]

  -- An Upsert of a conversation with no unread message, and then an UpdateUnread by one.
  pub unread_after_send :
      (s t t' : D.State) (u : Text) (c : ConversationData)
      → c.unread_count ≡ pos 0
      → upsert D J s u c ≡ (t, true)
      → update_unread D J t u c.conversation_id (pos 1) ≡ (t', true)
      → (c' : ConversationData) × (read_conv D J t' u c.conversation_id ≡ some c')
        × (c'.unread_count ≡ pos 1)
  unread_after_send s t t' u c zero written again =
      let (_, _, stored) = read_conv-upsert s t u c written in
      let (x, c', before, after, counted, _) =
        read_conv-update_unread t t' u c.conversation_id (pos 1) again in
      let same : x ≡ as_read c = some-injective _ _ (sym before ∙ stored) in
      (
        c',
        after,
        counted
            ∙ ap (λ (y : ConversationData). added (pos 1) y.unread_count) same
            ∙ ap (λ n. added (pos 1) (to_int32 n)) zero
            ∙ one_more,
      )

-- ===== src/Chat/Deletion.antt =====
-- What DeleteConversation of a group leaves for the users.
use swift_chat_system.Common.{
  ◌≡◌, refl, Bool, true, false, ◌&&◌, ◌||◌, Option, none, some, List, [], ◌∷◌, arith,
}
use swift_chat_system.Common.Int.{ℤ, pos, to_int32}
use swift_chat_system.Common.Text.{Text, text_eq, is_empty, text_eq_iff, text_eq_refl}
use swift_chat_system.Json.{Json}
use swift_chat_system.Json
use swift_chat_system.Storage.{Db, IsLawful, after, get-commit}
use swift_chat_system.Group.Data.{
  GroupData, key_group, serialize_group, deserialize-serialize_group,
}
use swift_chat_system.Group.Store.{
  get_group, dissolve_batch, dissolve_found, dissolve_group, member_ids,
}
use swift_chat_system.Group.Dissolve.{after-evict_group}
use swift_chat_system.Group.Transfer.{owner_of}
use swift_chat_system.Chat.Data.{ConversationData}
use swift_chat_system.Chat.Conversations
use swift_chat_system.Chat.Service.{Stores, group_chat, is_dissolved, deleted}
use swift_chat_system.Chat.Sync.{
  without_dissolved, sync_conversations, delete_found, delete_conversation,
}

-- The list has a conversation of the group.
unfoldable pub lists : Text → List ConversationData → Bool
lists g [] = false
lists g (c ∷ cs) = (group_chat c.chat_type && text_eq c.conversation_id g) || lists g cs

module _ (D : Db) (J : Json) (law : IsLawful D) (json_law : Json.IsLawful J) where
  lists-without_dissolved :
      (group : D.State) (g : Text) (cs : List ConversationData)
      → is_dissolved (get_group D J group g) ≡ true
      → lists g (without_dissolved D J group cs) ≡ false
  unfolding lists without_dissolved
  lists-without_dissolved group g [] gone = refl
  lists-without_dissolved group g (c ∷ cs) gone =
      ground (arith, lists-without_dissolved group g cs gone, text_eq_iff c.conversation_id g)

  dissolve_found-dissolved :
      (s t : D.State) (g : Text) (o : Option GroupData)
      → is_empty g ≡ false
      → get_group D J s g ≡ o
      → dissolve_found D J s g o ≡ (t, true)
      → is_dissolved (get_group D J t g) ≡ true
  unfolding dissolve_found get_group after to_int32
  dissolve_found-dissolved s t g none given found e = cc
  dissolve_found-dissolved s t g (some x) given found e =
      let y : GroupData = record x { status = pos 1; member_count = pos 0 } in
      ground (
        arith,
        get-commit D law s (dissolve_batch D J s g x) (key_group g),
        after-evict_group g (member_ids D J s g) g (some (serialize_group J y)),
        text_eq_refl (key_group g),
        deserialize-serialize_group J json_law y,
      )

  dissolve_group-dissolved :
      (s t : D.State) (g : Text)
      → dissolve_group D J s g ≡ (t, true)
      → is_dissolved (get_group D J t g) ≡ true
  unfolding dissolve_group
  dissolve_group-dissolved s t g e =
      ground (arith, dissolve_found-dissolved s t g (get_group D J s g))

  delete_found-dissolved :
      (s t : Stores D) (u g : Text) (o : Option GroupData)
      → get_group D J s.group g ≡ o
      → delete_found D J s u g o ≡ (t, deleted)
      → (owner_of o ≡ some u) × (is_dissolved (get_group D J t.group g) ≡ true)
  unfolding delete_found
  delete_found-dissolved s t u g none found e = cc
  delete_found-dissolved s t u g (some x) found e = (
    ground (arith, text_eq_iff x.owner_id u),
    ground (arith, dissolve_group-dissolved s.group (dissolve_group D J s.group g).0 g),
  )

  delete_conversation-found :
      (s t : Stores D) (u g : Text) (chat_type : ℤ)
      → delete_conversation D J s u g chat_type ≡ (t, deleted)
      → (group_chat chat_type ≡ true)
        × (delete_found D J s u g (get_group D J s.group g) ≡ (t, deleted))
  unfolding delete_conversation
  delete_conversation-found s t u g chat_type e = (ground arith, ground arith)

  -- DeleteConversation succeeds for the owner of a group only, and no user's list of conversations
  -- then has the group.
  pub delete_conversation-lists :
      (s t : Stores D) (u g : Text) (chat_type : ℤ) (w : Text)
      → delete_conversation D J s u g chat_type ≡ (t, deleted)
      → (group_chat chat_type ≡ true)
        × (owner_of (get_group D J s.group g) ≡ some u)
        × (lists g (sync_conversations D J t w) ≡ false)
  unfolding sync_conversations lists
  delete_conversation-lists s t u g chat_type w e =
      let f = delete_conversation-found s t u g chat_type e in
      let d = delete_found-dissolved s t u g (get_group D J s.group g) refl f.1 in
      let l = lists-without_dissolved t.group g (Conversations.get_list D J t.conv w) d.1 in
      (f.0, d.0, ground arith)

-- ===== src/Friend/Invariant/Reads.antt =====
-- The friends that GetFriends returns stand under the keys that DeleteGroup writes.
use mathlib.Core.List.{append_assoc}
use swift_chat_system.Common.{
  ◌≡◌, sym, ◌∙◌, true, some, [], ◌∷◌, ◌++◌, arith, All, is_some, length, drop, Option-cases, inl,
  inr, Bool-cases,
}
use swift_chat_system.Common.Text.{Text, text_eq_iff, append-drop_prefix, is_empty}
use swift_chat_system.Common.Text.Fields.{IsColonFree}
use swift_chat_system.Json.{Json}
use swift_chat_system.Storage.{Db, IsLawful}
use swift_chat_system.Storage.Order.{Entries}
use swift_chat_system.Storage.Batch.{Valued}
use swift_chat_system.Storage.Scan.{IsEntry, scan_IsEntry}
use swift_chat_system.Friend.Data.{FriendData, deserialize_friend}
use swift_chat_system.Friend.Keys.{key_friend, prefix_friend}
use swift_chat_system.Friend.Store.{read_friends, get_friends}
use swift_chat_system.Friend.Invariant.{IsGoodEntry}

append-prefix_friend : (u f : Text) → prefix_friend u ++ f ≡ key_friend u f
unfolding prefix_friend key_friend
append-prefix_friend u f = simp append_assoc

module _ (D : Db) (J : Json) (s : D.State) (u : Text) where
  abbrev pub IsStored : FriendData → Type 0
  IsStored d = is_some (D.get s (key_friend u d.friend_id)) ≡ true

module _ (D : Db) (J : Json) (s : D.State) (u : Text) (free : IsColonFree u)
    (good : Valued D (IsGoodEntry J) s) where
  IsStored-entry :
      (k v : Text) (d : FriendData)
      → IsEntry D s (prefix_friend u) (k, v)
      → deserialize_friend J v ≡ some d
      → IsStored D J s u d
  IsStored-entry k v d (found, under) read =
      let f : Text = drop (length (prefix_friend u)) k in
      let split : k ≡ key_friend u f =
        sym (append-drop_prefix (prefix_friend u) k under) ∙ append-prefix_friend u f in
      let same : d.friend_id ≡ f = (good k v found).0 u f free ((text_eq_iff _ _).1 split) d read in
      rw (same, ← split, found)

  read_friends-IsStored :
      (g : Text) (es : Entries)
      → All (IsEntry D s (prefix_friend u)) es
      → All (IsStored D J s u) (read_friends D J g es)
  unfolding read_friends
  read_friends-IsStored g [] h = tt
  read_friends-IsStored g ((k, v) ∷ es) h = elim (Option-cases (deserialize_friend J v)) [
    | inl e ↦ rw (e, read_friends) (read_friends-IsStored g es h.1)
    | inr (d, e) ↦
        rw (e, read_friends)
          (ground (arith, read_friends-IsStored g es h.1, IsStored-entry k v d h.0 e))
  ]

  pub get_friends-IsStored :
      (law : IsLawful D) (g : Text) → All (IsStored D J s u) (get_friends D J s u g)
  unfolding get_friends
  get_friends-IsStored law g = elim (Bool-cases (is_empty u)) [
    | inl e ↦ rw e tt
    | inr e ↦ rw e (read_friends-IsStored g _ (scan_IsEntry D law s (prefix_friend u)))
  ]

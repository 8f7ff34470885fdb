-- ===== src/Friend/Store/Cases.antt =====
-- Each operation of the store that writes does nothing, or commits one batch.
use mathlib.Core.Option.{some-injective}
use swift_chat_system.Common.{
  ◌≡◌, refl, ◌⊎◌, inl, inr, Bool, false, Option, none, some, [], ◌∷◌, arith, Option-cases,
  Bool-cases, sym,
}
use swift_chat_system.Common.Int.{ℤ}
use swift_chat_system.Common.Text.{Text, codes, is_empty}
use swift_chat_system.Json.{Json}
use swift_chat_system.Storage.{Db, put, delete, commit}
use swift_chat_system.Friend.Data.{
  FriendData, FriendRequestData, FriendGroupData, serialize_request, serialize_group,
  serialize_friend, deserialize_friend,
}
use swift_chat_system.Friend.Keys.{key_friend, key_friend_req, key_friend_group, key_block}
use swift_chat_system.Friend.Store.{
  friend_batch, add_friend, remove_friend, request_batch, create_request, get_request, store_status,
  update_request_status, create_group, block, unblock, change_friend, to_default_group, get_friends,
  delete_group,
}

module _ (D : Db) (J : Json) (s : D.State) where
  pub add_friend_cases :
      (d : FriendData)
      → (add_friend D J s d ≡ (s, false)) ⊎ (add_friend D J s d ≡ commit D s (friend_batch D J d))
  unfolding add_friend
  add_friend_cases d = ground arith

  pub remove_friend_cases :
      (u f : Text)
      → (remove_friend D J s u f ≡ (s, false))
        ⊎ (remove_friend D J s u f
            ≡ commit D s (delete (key_friend u f) ∷ delete (key_friend f u) ∷ []))
  unfolding remove_friend
  remove_friend_cases u f = ground arith

  pub create_request_cases :
      (r : FriendRequestData)
      → (create_request D J s r ≡ (s, false))
        ⊎ (create_request D J s r ≡ commit D s (request_batch D J r))
  unfolding create_request
  create_request_cases r = ground arith

  pub create_group_cases :
      (g : FriendGroupData)
      → (create_group D J s g ≡ (s, false))
        ⊎ (create_group D J s g
            ≡ commit D s (put (key_friend_group g.user_id g.group_id) (serialize_group J g) ∷ []))
  unfolding create_group
  create_group_cases g = ground arith

  pub block_cases :
      (u t : Text)
      → (block D J s u t ≡ (s, false))
        ⊎ (block D J s u t ≡ commit D s (put (key_block u t) (codes "1") ∷ []))
  unfolding block
  block_cases u t = ground arith

  pub unblock_cases :
      (u t : Text)
      → (unblock D J s u t ≡ (s, false))
        ⊎ (unblock D J s u t ≡ commit D s (delete (key_block u t) ∷ []))
  unfolding unblock
  unblock_cases u t = ground arith

  pub delete_group_cases :
      (u g : Text)
      → (delete_group D J s u g ≡ (s, false))
        ⊎ (delete_group D J s u g
            ≡ commit D s
                (delete (key_friend_group u g) ∷ to_default_group D J u (get_friends D J s u g)))
  unfolding delete_group
  delete_group_cases u g = ground arith

  pub update_request_status_cases :
      (i : Text) (n : ℤ)
      → (update_request_status D J s i n ≡ (s, false))
        ⊎ ((r : FriendRequestData) × (get_request D J s i ≡ some r)
            × (update_request_status D J s i n
                ≡ commit D s
                    (put (key_friend_req i) (serialize_request J (record r { status = n })) ∷ [])))
  unfolding update_request_status store_status
  update_request_status_cases i n = elim (Option-cases (get_request D J s i)) [
    | inl e ↦ inl (ground arith)
    | inr (r, e) ↦ elim (Bool-cases (is_empty i)) [
      | inl missing ↦ inl (ground arith)
      | inr given ↦ inr (r, e, ground arith)
    ]
  ]

  pub change_friend_cases :
      (t : D.State) (u f : Text) (change : FriendData → FriendData) (o : Option Text) (ok : Bool)
      → change_friend D J s u f change o ≡ some (t, ok)
      → (t ≡ s)
        ⊎ ((v : Text) × (d : FriendData) × (o ≡ some v)
            × (deserialize_friend J v ≡ some d)
            × ((t, ok) ≡ commit D s (put (key_friend u f) (serialize_friend J (change d)) ∷ [])))
  unfolding change_friend
  change_friend_cases t u f change none ok e = ground arith
  change_friend_cases t u f change (some v) ok e = elim (Option-cases (deserialize_friend J v)) [
    | inl fails ↦ cc (rw fails at e)
    | inr (d, read) ↦ inr (v, d, refl, read, some-injective _ _ (sym (rw read at e)))
  ]

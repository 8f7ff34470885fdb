-- ===== src/Friend/Store/Frame.antt =====
-- What each operation of the store leaves alone: the keys that start with a prefix which none of
-- its writes has.
use swift_chat_system.Common.{◌≡◌, refl, true, false, Option, none, some, [], ◌∷◌, arith}
use swift_chat_system.Common.Int.{ℤ}
use swift_chat_system.Common.Text.{Text, codes, starts_with}
use swift_chat_system.Json.{Json}
use swift_chat_system.Storage.{Db, IsLawful, put, delete}
use swift_chat_system.Storage.Batch.{Avoids, get-commit-Avoids}
use swift_chat_system.Friend.Data.{FriendData, FriendRequestData, FriendGroupData, serialize_group}
use swift_chat_system.Friend.Keys.{key_friend, key_friend_req, key_friend_group, key_block}
use swift_chat_system.Friend.Store.{
  friend_batch, add_friend, remove_friend, request_batch, create_request, get_request, store_status,
  update_request_status, create_group, block, unblock,
}

module _ (D : Db) (J : Json) (law : IsLawful D) (s : D.State) where
  pub get-add_friend :
      (d : FriendData) (p k : Text)
      → Avoids p (friend_batch D J d)
      → starts_with p k ≡ true
      → D.get (add_friend D J s d).0 k ≡ D.get s k
  unfolding add_friend
  get-add_friend d p k a h = ground (arith, get-commit-Avoids D law s p (friend_batch D J d) k a h)

  pub get-remove_friend :
      (u f p k : Text)
      → Avoids p (delete (key_friend u f) ∷ delete (key_friend f u) ∷ [])
      → starts_with p k ≡ true
      → D.get (remove_friend D J s u f).0 k ≡ D.get s k
  unfolding remove_friend
  get-remove_friend u f p k a h = ground (
    arith,
    get-commit-Avoids D law s p (delete (key_friend u f) ∷ delete (key_friend f u) ∷ []) k a h,
  )

  pub get-create_request :
      (r : FriendRequestData) (p k : Text)
      → Avoids p (request_batch D J r)
      → starts_with p k ≡ true
      → D.get (create_request D J s r).0 k ≡ D.get s k
  unfolding create_request
  get-create_request r p k a h =
      ground (arith, get-commit-Avoids D law s p (request_batch D J r) k a h)

  get-store_status :
      (i : Text) (n : ℤ) (o : Option FriendRequestData) (p k : Text)
      → starts_with p (key_friend_req i) ≡ false
      → starts_with p k ≡ true
      → D.get (store_status D J s i n o).0 k ≡ D.get s k
  unfolding store_status
  get-store_status i n none p k a h = refl
  get-store_status i n (some req) p k a h = get-commit-Avoids D law s p _ k (a, tt) h

  pub get-update_request_status :
      (i : Text) (n : ℤ) (p k : Text)
      → starts_with p (key_friend_req i) ≡ false
      → starts_with p k ≡ true
      → D.get (update_request_status D J s i n).0 k ≡ D.get s k
  unfolding update_request_status
  get-update_request_status i n p k a h =
      ground (arith, get-store_status i n (get_request D J s i) p k a h)

  pub get-create_group :
      (g : FriendGroupData) (p k : Text)
      → starts_with p (key_friend_group g.user_id g.group_id) ≡ false
      → starts_with p k ≡ true
      → D.get (create_group D J s g).0 k ≡ D.get s k
  unfolding create_group
  get-create_group g p k a h = ground (
    arith,
    get-commit-Avoids D law s p
        (put (key_friend_group g.user_id g.group_id) (serialize_group J g) ∷ []) k (a, tt) h,
  )

  pub get-block :
      (u t p k : Text)
      → starts_with p (key_block u t) ≡ false
      → starts_with p k ≡ true
      → D.get (block D J s u t).0 k ≡ D.get s k
  unfolding block
  get-block u t p k a h =
      ground (arith, get-commit-Avoids D law s p (put (key_block u t) (codes "1") ∷ []) k (a, tt) h)

  pub get-unblock :
      (u t p k : Text)
      → starts_with p (key_block u t) ≡ false
      → starts_with p k ≡ true
      → D.get (unblock D J s u t).0 k ≡ D.get s k
  unfolding unblock
  get-unblock u t p k a h =
      ground (arith, get-commit-Avoids D law s p (delete (key_block u t) ∷ []) k (a, tt) h)

-- ===== src/Friend/Store.antt =====
-- RocksDBFriendStore of friendsvr/internal/store/friend_store.cpp, over any database and any JSON
-- library. An operation that writes returns the database and its Boolean result; `none` beside
-- them in UpdateRemark and MoveFriend is the exception of a record that cannot be read, which
-- these two do not catch. The handle `impl_->db` is set by the constructor, or it throws.
pub mod Cases
pub mod Frame
pub mod Relation
use swift_chat_system.Common.{
  Bool, true, false, ◌&&◌, ◌||◌, not, Option, none, some, List, [], ◌∷◌, if◌then◌else◌, is_some,
  length, drop, leb, ◌>>=◌,
}
use swift_chat_system.Common.Int.{ℤ}
use swift_chat_system.Common.Text.{Text, text_eq, is_empty, codes}
use swift_chat_system.Json.{Json}
use swift_chat_system.Storage.{Db, Op, put, delete, commit}
use swift_chat_system.Storage.Order.{Entries}
use swift_chat_system.Friend.Data.{
  FriendData, FriendRequestData, FriendGroupData, default_friend_group_id, serialize_friend,
  deserialize_friend, serialize_request, deserialize_request, serialize_group, deserialize_group,
}
use swift_chat_system.Friend.Keys.{
  key_friend, key_friend_req, key_friend_req_to, key_friend_req_from, key_friend_group, key_block,
  prefix_friend, prefix_friend_req_to, prefix_friend_req_from, prefix_friend_group, prefix_block,
}

-- The record of the other direction.
abbrev pub reverse_of : FriendData → FriendData
reverse_of d = record {
  user_id = d.friend_id;
  friend_id = d.user_id;
  remark = [];
  group_id = default_friend_group_id;
  added_at = d.added_at;
}

module _ (D : Db) (J : Json) where
  unfoldable pub is_friend : D.State → Text → Text → Bool
  is_friend s user_id friend_id =
      if is_empty user_id || is_empty friend_id
      then false
      else is_some (D.get s (key_friend user_id friend_id))

  -- The two records that AddFriend writes.
  abbrev pub friend_batch : FriendData → List Op
  friend_batch d =
      put (key_friend d.user_id d.friend_id) (serialize_friend J d)
      ∷ put (key_friend d.friend_id d.user_id) (serialize_friend J (reverse_of d))
      ∷ []

  unfoldable pub add_friend : D.State → FriendData → D.State × Bool
  add_friend s d =
      if is_empty d.user_id || is_empty d.friend_id
      then (s, false)
      else if is_friend s d.user_id d.friend_id
      then (s, false)
      else commit D s (friend_batch d)

  unfoldable pub remove_friend : D.State → Text → Text → D.State × Bool
  remove_friend s user_id friend_id =
      if is_empty user_id || is_empty friend_id
      then (s, false)
      else commit D s
          (delete (key_friend user_id friend_id) ∷ delete (key_friend friend_id user_id) ∷ [])

  -- The loop of GetFriends: unreadable records and those with no group are skipped.
  unfoldable pub read_friends : Text → Entries → List FriendData
  read_friends group_id [] = []
  read_friends group_id ((k, v) ∷ es) =
      let rest = read_friends group_id es in
      elim (deserialize_friend J v) [
        | none ↦ rest
        | some d ↦
            if is_empty d.group_id
            then rest
            else if is_empty group_id || text_eq d.group_id group_id
            then d ∷ rest
            else rest
      ]

  unfoldable pub get_friends : D.State → Text → Text → List FriendData
  get_friends s user_id group_id =
      if is_empty user_id then [] else read_friends group_id (D.scan s (prefix_friend user_id))

  -- The end of UpdateRemark and MoveFriend: the record that was read, with one field changed.
  unfoldable pub change_friend :
      D.State → Text → Text → (FriendData → FriendData) → Option Text → Option (D.State × Bool)
  change_friend s user_id friend_id change none = some (s, false)
  change_friend s user_id friend_id change (some value) = do
    d ← deserialize_friend J value
    some (commit D s (put (key_friend user_id friend_id) (serialize_friend J (change d)) ∷ []))

  unfoldable pub update_remark : D.State → Text → Text → Text → Option (D.State × Bool)
  update_remark s user_id friend_id remark =
      if is_empty user_id || is_empty friend_id
      then some (s, false)
      else change_friend s user_id friend_id (λ d. record d { remark = remark })
          (D.get s (key_friend user_id friend_id))

  unfoldable pub move_friend : D.State → Text → Text → Text → Option (D.State × Bool)
  move_friend s user_id friend_id to_group_id =
      if is_empty user_id || is_empty friend_id
      then some (s, false)
      else change_friend s user_id friend_id (λ d. record d { group_id = to_group_id })
          (D.get s (key_friend user_id friend_id))

  -- The request and its two index entries.
  abbrev pub request_batch : FriendRequestData → List Op
  request_batch req =
      put (key_friend_req req.request_id) (serialize_request J req)
      ∷ put (key_friend_req_to req.to_user_id req.request_id) []
      ∷ put (key_friend_req_from req.from_user_id req.request_id) []
      ∷ []

  unfoldable pub create_request : D.State → FriendRequestData → D.State × Bool
  create_request s req =
      if is_empty req.request_id || is_empty req.from_user_id || is_empty req.to_user_id
      then (s, false)
      else if is_some (D.get s (key_friend_req req.request_id))
      then (s, false)
      else commit D s (request_batch req)

  unfoldable pub get_request : D.State → Text → Option FriendRequestData
  get_request s request_id =
      if is_empty request_id
      then none
      else (do value ← D.get s (key_friend_req request_id); deserialize_request J value)

  -- The request that was read, with its new status.
  unfoldable pub store_status : D.State → Text → ℤ → Option FriendRequestData → D.State × Bool
  store_status s request_id status none = (s, false)
  store_status s request_id status (some req) =
      commit D s (
        put (key_friend_req request_id) (serialize_request J (record req { status = status })) ∷ [])

  unfoldable pub update_request_status : D.State → Text → ℤ → D.State × Bool
  update_request_status s request_id status =
      if is_empty request_id
      then (s, false)
      else store_status s request_id status (get_request s request_id)

  -- The loop of GetReceivedRequests and GetSentRequests over the index entries.
  unfoldable pub read_requests : D.State → Text → Entries → List FriendRequestData
  read_requests s prefix [] = []
  read_requests s prefix ((key, v) ∷ es) =
      let rest = read_requests s prefix es in
      let pos = length prefix in
      if leb (length key) pos
      then rest
      else elim (get_request s (drop pos key)) [ none ↦ rest | some req ↦ req ∷ rest ]

  unfoldable pub get_received_requests : D.State → Text → List FriendRequestData
  get_received_requests s user_id =
      let prefix = prefix_friend_req_to user_id in
      if is_empty user_id then [] else read_requests s prefix (D.scan s prefix)

  unfoldable pub get_sent_requests : D.State → Text → List FriendRequestData
  get_sent_requests s user_id =
      let prefix = prefix_friend_req_from user_id in
      if is_empty user_id then [] else read_requests s prefix (D.scan s prefix)

  unfoldable pub create_group : D.State → FriendGroupData → D.State × Bool
  create_group s group =
      let key = key_friend_group group.user_id group.group_id in
      if is_empty group.user_id || is_empty group.group_id
      then (s, false)
      else if is_some (D.get s key)
      then (s, false)
      else commit D s (put key (serialize_group J group) ∷ [])

  unfoldable pub read_groups : Entries → List FriendGroupData
  read_groups [] = []
  read_groups ((k, v) ∷ es) =
      let rest = read_groups es in elim (deserialize_group J v) [ none ↦ rest | some g ↦ g ∷ rest ]

  unfoldable pub get_groups : D.State → Text → List FriendGroupData
  get_groups s user_id =
      if is_empty user_id then [] else read_groups (D.scan s (prefix_friend_group user_id))

  -- The loop of DeleteGroup: every friend of the group moves to the default group.
  unfoldable pub to_default_group : Text → List FriendData → List Op
  to_default_group user_id [] = []
  to_default_group user_id (f ∷ fs) =
      put (key_friend user_id f.friend_id)
        (serialize_friend J (record f { group_id = default_friend_group_id }))
      ∷ to_default_group user_id fs

  unfoldable pub delete_group : D.State → Text → Text → D.State × Bool
  delete_group s user_id group_id =
      if is_empty user_id || is_empty group_id
      then (s, false)
      else commit D s (
          delete (key_friend_group user_id group_id)
          ∷ to_default_group user_id (get_friends s user_id group_id))

  unfoldable pub block : D.State → Text → Text → D.State × Bool
  block s user_id target_id =
      if is_empty user_id || is_empty target_id
      then (s, false)
      else commit D s (put (key_block user_id target_id) (codes "1") ∷ [])

  unfoldable pub unblock : D.State → Text → Text → D.State × Bool
  unblock s user_id target_id =
      if is_empty user_id || is_empty target_id
      then (s, false)
      else commit D s (delete (key_block user_id target_id) ∷ [])

  unfoldable pub is_blocked : D.State → Text → Text → Bool
  is_blocked s user_id target_id =
      if is_empty user_id || is_empty target_id
      then false
      else is_some (D.get s (key_block user_id target_id))

  unfoldable pub read_targets : Text → Entries → List Text
  read_targets prefix [] = []
  read_targets prefix ((key, v) ∷ es) =
      let rest = read_targets prefix es in
      let pos = length prefix in if leb (length key) pos then rest else drop pos key ∷ rest

  unfoldable pub get_block_list : D.State → Text → List Text
  get_block_list s user_id =
      let prefix = prefix_block user_id in
      if is_empty user_id then [] else read_targets prefix (D.scan s prefix)

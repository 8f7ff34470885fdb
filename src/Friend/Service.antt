-- ===== src/Friend/Service.antt =====
-- FriendService of friendsvr/internal/service/friend_service.cpp. What a call draws from outside
-- is an argument: the identifier that GenerateShortId returned, and the time of the clock. Calls
-- run one after another.
use swift_chat_system.Common.{
  Bool, false, ◌&&◌, ◌||◌, not, Option, none, some, List, [], ◌∷◌, ◌++◌, if◌then◌else◌,
}
use swift_chat_system.Common.Int.{ℤ, pos, eq_ℤ}
use swift_chat_system.Common.Text.{Text, text_eq, is_empty}
use swift_chat_system.Json.{Json}
use swift_chat_system.Storage.{Db}
use swift_chat_system.Friend.Data.{
  FriendData, FriendRequestData, FriendGroupData, default_friend_group_id,
  default_friend_group_name,
}
use swift_chat_system.ErrorCode.{ErrorCode}
use swift_chat_system.Friend.Store

-- The loop of AddFriend over the requests that the other user received.
unfoldable pub has_pending : Text → List FriendRequestData → Bool
has_pending user_id [] = false
has_pending user_id (r ∷ rs) =
    (text_eq r.from_user_id user_id && eq_ℤ r.status (pos 0)) || has_pending user_id rs

unfoldable pub has_group : Text → List FriendGroupData → Bool
has_group group_id [] = false
has_group group_id (g ∷ gs) = text_eq g.group_id group_id || has_group group_id gs

-- The record of the friend that an accepted request makes.
abbrev pub accepted_friend : Text → FriendRequestData → Text → ℤ → FriendData
accepted_friend user_id req group_id now = record {
  user_id = user_id;
  friend_id = req.from_user_id;
  remark = [];
  group_id = if is_empty group_id then default_friend_group_id else group_id;
  added_at = now;
}

module _ (D : Db) (J : Json) where
  unfoldable pub add_friend : D.State → Text → Text → Text → Text → ℤ → D.State × Bool
  add_friend s user_id friend_id remark new_id now =
      let req : FriendRequestData = record {
        request_id = new_id;
        from_user_id = user_id;
        to_user_id = friend_id;
        remark = remark;
        status = pos 0;
        created_at = now;
      } in
      if is_empty user_id || is_empty friend_id
      then (s, false)
      else if text_eq user_id friend_id
      then (s, false)
      else if Store.is_friend D J s user_id friend_id
      then (s, false)
      else if Store.is_blocked D J s friend_id user_id
      then (s, false)
      else if has_pending user_id (Store.get_received_requests D J s friend_id)
      then (s, false)
      else Store.create_request D J s req

  unfoldable pub ensure_default_group : D.State → Text → D.State
  ensure_default_group s user_id =
      let def : FriendGroupData = record {
        group_id = default_friend_group_id;
        user_id = user_id;
        group_name = default_friend_group_name;
        sort_order = pos 0;
      } in
      if is_empty user_id
      then s
      else if has_group default_friend_group_id (Store.get_groups D J s user_id)
      then s
      else (Store.create_group D J s def).0

  -- The branch of HandleRequest that accepts.
  unfoldable pub accept_request :
      D.State → Text → Text → FriendRequestData → Text → ℤ → D.State × Bool
  accept_request s user_id request_id req group_id now =
      let s' = ensure_default_group s user_id in
      let added = Store.add_friend D J s' (accepted_friend user_id req group_id now) in
      if not added.1
      then (added.0, false)
      else Store.update_request_status D J added.0 request_id (pos 1)

  -- HandleRequest from the request that was read.
  unfoldable pub handle_found :
      D.State → Text → Text → Bool → Text → ℤ → Option FriendRequestData → D.State × Bool
  handle_found s user_id request_id accept group_id now none = (s, false)
  handle_found s user_id request_id accept group_id now (some req) =
      if not (text_eq req.to_user_id user_id)
      then (s, false)
      else if not (eq_ℤ req.status (pos 0))
      then (s, false)
      else if accept
      then accept_request s user_id request_id req group_id now
      else Store.update_request_status D J s request_id (pos 2)

  unfoldable pub handle_request : D.State → Text → Text → Bool → Text → ℤ → D.State × Bool
  handle_request s user_id request_id accept group_id now =
      if is_empty user_id || is_empty request_id
      then (s, false)
      else handle_found s user_id request_id accept group_id now
          (Store.get_request D J s request_id)

  unfoldable pub remove_friend : D.State → Text → Text → D.State × Bool
  remove_friend s user_id friend_id =
      if is_empty user_id || is_empty friend_id
      then (s, false)
      else if not (Store.is_friend D J s user_id friend_id)
      then (s, false)
      else Store.remove_friend D J s user_id friend_id

  unfoldable pub get_friends : D.State → Text → Text → List FriendData
  get_friends s user_id group_id =
      if is_empty user_id then [] else Store.get_friends D J s user_id group_id

  unfoldable pub block : D.State → Text → Text → D.State × Bool
  block s user_id target_id =
      if is_empty user_id || is_empty target_id
      then (s, false)
      else if text_eq user_id target_id
      then (s, false)
      else Store.block D J s user_id target_id

  unfoldable pub unblock : D.State → Text → Text → D.State × Bool
  unblock s user_id target_id =
      if is_empty user_id || is_empty target_id
      then (s, false)
      else Store.unblock D J s user_id target_id

  unfoldable pub get_block_list : D.State → Text → List Text
  get_block_list s user_id = if is_empty user_id then [] else Store.get_block_list D J s user_id

  -- The identifier of the new group comes back on success.
  unfoldable pub create_friend_group : D.State → Text → Text → Text → D.State × Option Text
  create_friend_group s user_id group_name new_id =
      let created = Store.create_group D J s (record {
        group_id = new_id;
        user_id = user_id;
        group_name = group_name;
        sort_order = pos 0;
      }) in
      if is_empty user_id || is_empty group_name
      then (s, none)
      else if not created.1
      then (created.0, none)
      else (created.0, some new_id)

  unfoldable pub get_friend_groups : D.State → Text → D.State × List FriendGroupData
  get_friend_groups s user_id =
      let s' = ensure_default_group s user_id in
      if is_empty user_id then (s, []) else (s', Store.get_groups D J s' user_id)

  unfoldable pub delete_friend_group : D.State → Text → Text → D.State × ErrorCode
  delete_friend_group s user_id group_id =
      let deleted = Store.delete_group D J s user_id group_id in
      if is_empty user_id
      then (s, ErrorCode.invalid_param)
      else if is_empty group_id || text_eq group_id default_friend_group_id
      then (s, ErrorCode.friend_group_default)
      else if not (has_group group_id (Store.get_groups D J s user_id))
      then (s, ErrorCode.friend_group_not_found)
      else if not deleted.1
      then (deleted.0, ErrorCode.internal_error)
      else (deleted.0, ErrorCode.ok)

  unfoldable pub move_friend : D.State → Text → Text → Text → Option (D.State × Bool)
  move_friend s user_id friend_id to_group_id =
      if is_empty user_id || is_empty friend_id
      then some (s, false)
      else if not (Store.is_friend D J s user_id friend_id)
      then some (s, false)
      else Store.move_friend D J s user_id friend_id to_group_id

  unfoldable pub set_remark : D.State → Text → Text → Text → Option (D.State × Bool)
  set_remark s user_id friend_id remark =
      if is_empty user_id || is_empty friend_id
      then some (s, false)
      else if not (Store.is_friend D J s user_id friend_id)
      then some (s, false)
      else Store.update_remark D J s user_id friend_id remark

  -- `type` 1: received; 2: sent; any other: the received ones, then the sent ones.
  unfoldable pub get_friend_requests : D.State → Text → ℤ → List FriendRequestData
  get_friend_requests s user_id type =
      if is_empty user_id
      then []
      else if eq_ℤ type (pos 1)
      then Store.get_received_requests D J s user_id
      else if eq_ℤ type (pos 2)
      then Store.get_sent_requests D J s user_id
      else Store.get_received_requests D J s user_id ++ Store.get_sent_requests D J s user_id

-- ===== src/Friend/Data.antt =====
-- friendsvr/internal/store/friend_store.h and the serialisation in friend_store.cpp
pub mod Roundtrip
use swift_chat_system.Common.{ℕ, Option, none, some, List, [], ◌∷◌, ◌>>=◌}
use swift_chat_system.Common.Int.{ℤ, pos}
use swift_chat_system.Common.Text.{Text, codes}
use swift_chat_system.Json.{Json, Object, str, int, text_value, int_value}

pub record FriendData : Type 0 where
  pub user_id : Text
  pub friend_id : Text
  pub remark : Text
  pub group_id : Text
  pub added_at : ℤ

pub record FriendRequestData : Type 0 where
  pub request_id : Text
  pub from_user_id : Text
  pub to_user_id : Text
  pub remark : Text
  pub status : ℤ
  pub created_at : ℤ

pub record FriendGroupData : Type 0 where
  pub group_id : Text
  pub user_id : Text
  pub group_name : Text
  pub sort_order : ℤ

-- kDefaultFriendGroupId, and the UTF-8 bytes of kDefaultFriendGroupName.
abbrev pub default_friend_group_id : Text
default_friend_group_id = codes "default"

abbrev pub default_friend_group_name : Text
default_friend_group_name =
    0xe6 ∷ 0x88 ∷ 0x91 ∷ 0xe7 ∷ 0x9a ∷ 0x84 ∷ 0xe5 ∷ 0xa5 ∷ 0xbd ∷ 0xe5 ∷ 0x8f ∷ 0x8b ∷ []

-- The object that Serialize fills, and what Deserialize reads of one.
abbrev pub friend_object : FriendData → Object
friend_object d =
    (codes "user_id", str d.user_id)
    ∷ (codes "friend_id", str d.friend_id)
    ∷ (codes "remark", str d.remark)
    ∷ (codes "group_id", str d.group_id)
    ∷ (codes "added_at", int d.added_at)
    ∷ []

abbrev pub read_friend : Object → Option FriendData
read_friend j = do
  user_id ← text_value j (codes "user_id") []
  friend_id ← text_value j (codes "friend_id") []
  remark ← text_value j (codes "remark") []
  group_id ← text_value j (codes "group_id") []
  added_at ← int_value j (codes "added_at") (pos 0)
  some (record {
    user_id = user_id;
    friend_id = friend_id;
    remark = remark;
    group_id = group_id;
    added_at = added_at;
  })

-- The object that Serialize fills, and what Deserialize reads of one.
abbrev pub request_object : FriendRequestData → Object
request_object r =
    (codes "request_id", str r.request_id)
    ∷ (codes "from_user_id", str r.from_user_id)
    ∷ (codes "to_user_id", str r.to_user_id)
    ∷ (codes "remark", str r.remark)
    ∷ (codes "status", int r.status)
    ∷ (codes "created_at", int r.created_at)
    ∷ []

abbrev pub read_request : Object → Option FriendRequestData
read_request j = do
  request_id ← text_value j (codes "request_id") []
  from_user_id ← text_value j (codes "from_user_id") []
  to_user_id ← text_value j (codes "to_user_id") []
  remark ← text_value j (codes "remark") []
  status ← int_value j (codes "status") (pos 0)
  created_at ← int_value j (codes "created_at") (pos 0)
  some (record {
    request_id = request_id;
    from_user_id = from_user_id;
    to_user_id = to_user_id;
    remark = remark;
    status = status;
    created_at = created_at;
  })

-- The object that Serialize fills, and what Deserialize reads of one.
abbrev pub group_object : FriendGroupData → Object
group_object g =
    (codes "group_id", str g.group_id)
    ∷ (codes "user_id", str g.user_id)
    ∷ (codes "group_name", str g.group_name)
    ∷ (codes "sort_order", int g.sort_order)
    ∷ []

abbrev pub read_group : Object → Option FriendGroupData
read_group j = do
  group_id ← text_value j (codes "group_id") []
  user_id ← text_value j (codes "user_id") []
  group_name ← text_value j (codes "group_name") []
  sort_order ← int_value j (codes "sort_order") (pos 0)
  some (record {
    group_id = group_id;
    user_id = user_id;
    group_name = group_name;
    sort_order = sort_order;
  })

module _ (J : Json) where
  unfoldable pub serialize_friend : FriendData → Text
  serialize_friend d = J.dump (friend_object d)

  unfoldable pub deserialize_friend : Text → Option FriendData
  deserialize_friend text = do j ← J.parse text; read_friend j

  unfoldable pub serialize_request : FriendRequestData → Text
  serialize_request r = J.dump (request_object r)

  unfoldable pub deserialize_request : Text → Option FriendRequestData
  deserialize_request text = do j ← J.parse text; read_request j

  unfoldable pub serialize_group : FriendGroupData → Text
  serialize_group g = J.dump (group_object g)

  unfoldable pub deserialize_group : Text → Option FriendGroupData
  deserialize_group text = do j ← J.parse text; read_group j

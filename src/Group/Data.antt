-- ===== src/Group/Data.antt =====
-- The records of chatsvr/internal/store/group_store.h, their serialisation, and the keys.
use swift_chat_system.Common.{◌≡◌, Option, some, [], ◌∷◌, ◌++◌, ◌>>=◌, ◌&&◌, ◌∙◌}
use swift_chat_system.Common.Int.{ℤ, pos, to_int32}
use swift_chat_system.Common.Text.{Text, codes, text_eq}
use swift_chat_system.Common.Text.Fields.{IsColonFree, join, text_eq-append_left, text_eq-join}
use swift_chat_system.Json.{
  Json, IsLawful, Object, find, str, int, text_value, int64_value, int_value,
}

pub record GroupData : Type 0 where
  pub group_id : Text
  pub group_name : Text
  pub avatar_url : Text
  pub owner_id : Text
  pub member_count : ℤ
  pub announcement : Text
  pub created_at : ℤ
  pub updated_at : ℤ
  pub status : ℤ

pub record GroupMemberData : Type 0 where
  pub user_id : Text
  pub role : ℤ
  pub nickname : Text
  pub joined_at : ℤ

abbrev pub group_object : GroupData → Object
group_object g =
    (codes "group_id", str g.group_id)
    ∷ (codes "group_name", str g.group_name)
    ∷ (codes "avatar_url", str g.avatar_url)
    ∷ (codes "owner_id", str g.owner_id)
    ∷ (codes "member_count", int g.member_count)
    ∷ (codes "announcement", str g.announcement)
    ∷ (codes "created_at", int g.created_at)
    ∷ (codes "updated_at", int g.updated_at)
    ∷ (codes "status", int g.status)
    ∷ []

abbrev pub read_group : Object → Option GroupData
read_group j = do
  group_id ← text_value j (codes "group_id") []
  group_name ← text_value j (codes "group_name") []
  avatar_url ← text_value j (codes "avatar_url") []
  owner_id ← text_value j (codes "owner_id") []
  member_count ← int_value j (codes "member_count") (pos 0)
  announcement ← text_value j (codes "announcement") []
  created_at ← int64_value j (codes "created_at") (pos 0)
  updated_at ← int64_value j (codes "updated_at") (pos 0)
  status ← int_value j (codes "status") (pos 0)
  some (record {
    group_id = group_id;
    group_name = group_name;
    avatar_url = avatar_url;
    owner_id = owner_id;
    member_count = member_count;
    announcement = announcement;
    created_at = created_at;
    updated_at = updated_at;
    status = status;
  })

abbrev pub member_object : GroupMemberData → Object
member_object m =
    (codes "user_id", str m.user_id)
    ∷ (codes "role", int m.role)
    ∷ (codes "nickname", str m.nickname)
    ∷ (codes "joined_at", int m.joined_at)
    ∷ []

abbrev pub read_member : Object → Option GroupMemberData
read_member j = do
  user_id ← text_value j (codes "user_id") []
  role ← int_value j (codes "role") (pos 1)
  nickname ← text_value j (codes "nickname") []
  joined_at ← int64_value j (codes "joined_at") (pos 0)
  some (record { user_id = user_id; role = role; nickname = nickname; joined_at = joined_at })

module _ (J : Json) where
  unfoldable pub serialize_group : GroupData → Text
  serialize_group g = J.dump (group_object g)

  unfoldable pub deserialize_group : Text → Option GroupData
  deserialize_group text = do j ← J.parse text; read_group j

  unfoldable pub serialize_member : GroupMemberData → Text
  serialize_member m = J.dump (member_object m)

  unfoldable pub deserialize_member : Text → Option GroupMemberData
  deserialize_member text = do j ← J.parse text; read_member j

  module _ (law : IsLawful J) where
    -- A group comes back as it was, its two `int` fields as the `int` of their low 32 bits.
    pub deserialize-serialize_group :
        (g : GroupData)
        → deserialize_group (serialize_group g)
          ≡ some (record g { member_count = to_int32 g.member_count; status = to_int32 g.status })
    unfolding deserialize_group serialize_group find text_eq
    deserialize-serialize_group g =
        let (j, parsed, same) = law.parse-dump (group_object g) in rw parsed (simp same)

    -- A member comes back as it was, its role as the `int` of its low 32 bits.
    pub deserialize-serialize_member :
        (m : GroupMemberData)
        → deserialize_member (serialize_member m) ≡ some (record m { role = to_int32 m.role })
    unfolding deserialize_member serialize_member find text_eq
    deserialize-serialize_member m =
        let (j, parsed, same) = law.parse-dump (member_object m) in rw parsed (simp same)

unfoldable pub key_group : Text → Text
key_group group_id = codes "group:" ++ group_id

unfoldable pub key_group_member : Text → Text → Text
key_group_member group_id user_id = codes "group_member:" ++ join group_id user_id

unfoldable pub key_user_group : Text → Text → Text
key_user_group user_id group_id = codes "user_groups:" ++ join user_id group_id

unfoldable pub prefix_group_member : Text → Text
prefix_group_member group_id = codes "group_member:" ++ join group_id []

unfoldable pub prefix_user_groups : Text → Text
prefix_user_groups user_id = codes "user_groups:" ++ join user_id []

pub text_eq-key_group : (g h : Text) → text_eq (key_group g) (key_group h) ≡ text_eq g h
unfolding key_group
text_eq-key_group g h = text_eq-append_left (codes "group:") g h

pub text_eq-key_group_member :
    (g u h v : Text)
    → IsColonFree g
    → IsColonFree h
    → text_eq (key_group_member g u) (key_group_member h v) ≡ (text_eq g h && text_eq u v)
unfolding key_group_member
text_eq-key_group_member g u h v a b =
    text_eq-append_left (codes "group_member:") (join g u) (join h v) ∙ text_eq-join g u h v a b

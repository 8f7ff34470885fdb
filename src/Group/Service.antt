-- ===== src/Group/Service.antt =====
-- GroupService of chatsvr/internal/service/group_service.cpp. The clock and the random identifier
-- are arguments.
use swift_chat_system.Common.{
  ℕ, Bool, false, not, ◌&&◌, ◌||◌, Option, none, some, List, [], ◌∷◌, if◌then◌else◌, length, ltb,
}
use swift_chat_system.Common.Int.{ℤ, pos, eq_ℤ, to_int32}
use swift_chat_system.Common.Text.{Text, text_eq, text_lt, is_empty}
use swift_chat_system.ErrorCode.{
  ErrorCode, ok, invalid_param, internal_error, permission_denied, group_not_found, not_group_owner,
  not_group_member, group_members_too_few,
}
use swift_chat_system.Json.{Json}
use swift_chat_system.Storage.{Db}
use swift_chat_system.Group.Data.{GroupData, GroupMemberData}
use swift_chat_system.Group.Store
use swift_chat_system.Group.Store.{or_else}

abbrev pub role_owner : ℤ
role_owner = pos 0

abbrev pub role_member : ℤ
role_member = pos 1

abbrev pub role_admin : ℤ
role_admin = pos 2

-- "群聊" in UTF-8.
abbrev pub default_name : Text
default_name = 231 ∷ 190 ∷ 164 ∷ 232 ∷ 129 ∷ 138 ∷ []

-- The insertion into a `std::set`.
unfoldable pub insert_id : Text → List Text → List Text
insert_id u [] = u ∷ []
insert_id u (v ∷ vs) =
    let rest = insert_id u vs in
    if text_lt u v then u ∷ v ∷ vs else if text_eq u v then v ∷ vs else v ∷ rest

-- The creator and the members that are named, without the empty ones.
unfoldable pub insert_ids : List Text → List Text → List Text
insert_ids set [] = set
insert_ids set (u ∷ us) = if is_empty u then insert_ids set us else insert_ids (insert_id u set) us

abbrev pub unique_ids : Text → List Text → List Text
unique_ids creator_id member_ids = insert_ids (creator_id ∷ []) member_ids

-- The record of a user that joins.
abbrev pub new_member : Text → ℤ → ℤ → GroupMemberData
new_member uid role now = record { user_id = uid; role = role; nickname = []; joined_at = now }

-- The record of a group that is created.
abbrev pub new_group : Text → Text → Text → Text → List Text → ℤ → GroupData
new_group group_id creator_id group_name avatar_url unique now = record {
  group_id = group_id;
  group_name = if is_empty group_name then default_name else group_name;
  avatar_url = avatar_url;
  owner_id = creator_id;
  member_count = to_int32 (pos (length unique));
  announcement = [];
  created_at = now;
  updated_at = now;
  status = pos 0;
}

-- The answer of a call of the store.
abbrev pub answer {ℓ} : {S : Type ℓ} → S × Bool → S × ErrorCode
answer r = (r.0, if r.1 then ok else internal_error)

abbrev pub is_admin : Option GroupMemberData → Bool
is_admin none = false
is_admin (some m) = eq_ℤ m.role role_admin

module _ (D : Db) (J : Json) where
  -- The loop of CreateGroup over the other members.
  unfoldable pub add_others : D.State → Text → Text → ℤ → List Text → D.State
  add_others s group_id creator_id now [] = s
  add_others s group_id creator_id now (uid ∷ uids) =
      let s' =
        if text_eq uid creator_id
        then s
        else (Store.add_member D J s group_id (new_member uid role_member now)).0 in
      add_others s' group_id creator_id now uids

  -- CreateGroup once the group is stored.
  unfoldable pub add_all : D.State × Bool → Text → Text → List Text → ℤ → D.State × ErrorCode × Text
  add_all stored group_id creator_id unique now =
      let owned = Store.add_member D J stored.0 group_id (new_member creator_id role_owner now) in
      if not stored.1
      then (stored.0, internal_error, [])
      else if not owned.1
      then ((Store.delete_group D J owned.0 group_id).0, internal_error, [])
      else (add_others owned.0 group_id creator_id now unique, ok, group_id)

  unfoldable pub create_group :
      D.State → Text → Text → Text → List Text → Text → ℤ → D.State × ErrorCode × Text
  create_group s creator_id group_name avatar_url member_ids new_id now =
      let unique = unique_ids creator_id member_ids in
      if is_empty creator_id
      then (s, invalid_param, [])
      else if ltb (length unique) 3
      then (s, group_members_too_few, [])
      else add_all
          (Store.create_group D J s (new_group new_id creator_id group_name avatar_url unique now))
          new_id creator_id unique now

  unfoldable pub dismiss_found : D.State → Text → Text → Option GroupData → D.State × ErrorCode
  dismiss_found s group_id operator_id none = (s, group_not_found)
  dismiss_found s group_id operator_id (some g) =
      if not (text_eq g.owner_id operator_id)
      then (s, not_group_owner)
      else answer (Store.delete_group D J s group_id)

  unfoldable pub dismiss_group : D.State → Text → Text → D.State × ErrorCode
  dismiss_group s group_id operator_id =
      if is_empty group_id || is_empty operator_id
      then (s, invalid_param)
      else dismiss_found s group_id operator_id (Store.get_group D J s group_id)

  -- The loop of InviteMembers.
  unfoldable pub invite : D.State → Text → ℤ → List Text → D.State
  invite s group_id now [] = s
  invite s group_id now (uid ∷ uids) =
      let s' =
        if is_empty uid || Store.is_member D J s group_id uid
        then s
        else (Store.add_member D J s group_id (new_member uid role_member now)).0 in
      invite s' group_id now uids

  unfoldable pub invite_members : D.State → Text → Text → List Text → ℤ → D.State × ErrorCode
  invite_members s group_id inviter_id member_ids now =
      if is_empty group_id || is_empty inviter_id
      then (s, invalid_param)
      else elim (Store.get_group D J s group_id) [
        | none ↦ (s, group_not_found)
        | some g ↦
            if not (Store.is_member D J s group_id inviter_id)
            then (s, not_group_member)
            else (invite s group_id now member_ids, ok)
      ]

  unfoldable pub update_found :
      D.State → Text → Text → Text → Text → Text → ℤ → Option GroupData → D.State × ErrorCode
  update_found s group_id operator_id group_name avatar_url announcement now none =
      (s, group_not_found)
  update_found s group_id operator_id group_name avatar_url announcement now (some g) =
      if not (text_eq g.owner_id operator_id)
        && not (is_admin (Store.get_member D J s group_id operator_id))
      then (s, permission_denied)
      else answer (
          Store.update_group D J s group_id (or_else group_name g.group_name)
            (or_else avatar_url g.avatar_url) announcement now)

  unfoldable pub update_group : D.State → Text → Text → Text → Text → Text → ℤ → D.State × ErrorCode
  update_group s group_id operator_id group_name avatar_url announcement now =
      if is_empty group_id || is_empty operator_id
      then (s, invalid_param)
      else update_found s group_id operator_id group_name avatar_url announcement now
          (Store.get_group D J s group_id)

  -- The groups that are found, of a list of identifiers.
  unfoldable pub read_groups : D.State → List Text → List GroupData
  read_groups s [] = []
  read_groups s (gid ∷ gids) =
      let rest = read_groups s gids in
      elim (Store.get_group D J s gid) [ none ↦ rest | some g ↦ g ∷ rest ]

  unfoldable pub get_user_groups : D.State → Text → List GroupData
  get_user_groups s user_id =
      if is_empty user_id then [] else read_groups s (Store.get_user_group_ids D J s user_id)

  unfoldable pub get_group_info : D.State → Text → Option GroupData
  get_group_info s group_id = if is_empty group_id then none else Store.get_group D J s group_id

  -- The members of a page, and the number of all.
  unfoldable pub get_group_members : D.State → Text → ℤ → ℤ → List GroupMemberData × ℕ
  get_group_members s group_id page page_size =
      if is_empty group_id then ([], 0) else Store.get_members D J s group_id page page_size

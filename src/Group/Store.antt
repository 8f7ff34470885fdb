-- ===== src/Group/Store.antt =====
-- RocksDBGroupStore of chatsvr/internal/store/group_store.cpp.
use swift_chat_system.Common.{
  ℕ, ◌-◌, ◌*◌, Bool, true, false, not, ◌||◌, Option, none, some, List, [], ◌∷◌, if◌then◌else◌,
  is_some, length, take, drop, ltb, ◌>>=◌,
}
use swift_chat_system.Common.Int.{ℤ, pos, ◌+ℤ◌, ◌-ℤ◌, leb_ℤ, ltb_ℤ, eq_ℤ, to_int32, pos_part}
use swift_chat_system.Common.Text.{Text, is_empty}
use swift_chat_system.Json.{Json}
use swift_chat_system.Storage.{Db, Op, put, delete, commit}
use swift_chat_system.Storage.Order.{Entries}
use swift_chat_system.Group.Data.{
  GroupData, GroupMemberData, serialize_group, deserialize_group, serialize_member,
  deserialize_member, key_group, key_group_member, key_user_group, prefix_group_member,
  prefix_user_groups,
}

-- The loops over the keys of an index: what stands behind the prefix.
unfoldable pub read_ids : Text → Entries → List Text
read_ids prefix [] = []
read_ids prefix ((key, v) ∷ es) =
    let rest = read_ids prefix es in
    let at = length prefix in if ltb at (length key) then drop at key ∷ rest else rest

-- The loops of DeleteGroup and DissolveGroup that take the members out.
unfoldable pub evict : Text → List Text → List Op
evict group_id [] = []
evict group_id (uid ∷ uids) =
    delete (key_group_member group_id uid)
    ∷ delete (key_user_group uid group_id)
    ∷ evict group_id uids

-- A text that replaces another unless it is empty.
abbrev pub or_else : Text → Text → Text
or_else new old = if is_empty new then old else new

module _ (D : Db) (J : Json) where
  unfoldable pub create_group : D.State → GroupData → D.State × Bool
  create_group s g =
      if is_empty g.group_id || is_empty g.owner_id
      then (s, false)
      else if is_some (D.get s (key_group g.group_id))
      then (s, false)
      else commit D s (put (key_group g.group_id) (serialize_group J g) ∷ [])

  unfoldable pub get_group : D.State → Text → Option GroupData
  get_group s group_id =
      if is_empty group_id
      then none
      else (do value ← D.get s (key_group group_id); deserialize_group J value)

  -- The group that was found, changed and written back.
  unfoldable pub write_group :
      D.State → Text → (GroupData → GroupData) → Option GroupData → D.State × Bool
  write_group s group_id change none = (s, false)
  write_group s group_id change (some g) =
      commit D s (put (key_group group_id) (serialize_group J (change g)) ∷ [])

  unfoldable pub update_group : D.State → Text → Text → Text → Text → ℤ → D.State × Bool
  update_group s group_id group_name avatar_url announcement updated_at =
      if is_empty group_id
      then (s, false)
      else write_group s group_id
          (λ g. record g {
            group_name = or_else group_name g.group_name;
            avatar_url = or_else avatar_url g.avatar_url;
            announcement = announcement;
            updated_at = if eq_ℤ updated_at (pos 0) then g.updated_at else updated_at;
          })
          (get_group s group_id)

  unfoldable pub update_group_owner : D.State → Text → Text → D.State × Bool
  update_group_owner s group_id new_owner_id =
      if is_empty group_id || is_empty new_owner_id
      then (s, false)
      else write_group s group_id (λ g. record g { owner_id = new_owner_id }) (get_group s group_id)

  -- The identifiers of the members.
  abbrev pub member_ids : D.State → Text → List Text
  member_ids s group_id =
      read_ids (prefix_group_member group_id) (D.scan s (prefix_group_member group_id))

  unfoldable pub delete_group : D.State → Text → D.State × Bool
  delete_group s group_id =
      if is_empty group_id
      then (s, false)
      else commit D s (delete (key_group group_id) ∷ evict group_id (member_ids s group_id))

  -- The batch of DissolveGroup.
  abbrev pub dissolve_batch : D.State → Text → GroupData → List Op
  dissolve_batch s group_id g =
      put (key_group group_id)
        (serialize_group J (record g { status = pos 1; member_count = pos 0 }))
      ∷ evict group_id (member_ids s group_id)

  unfoldable pub dissolve_found : D.State → Text → Option GroupData → D.State × Bool
  dissolve_found s group_id none = (s, false)
  dissolve_found s group_id (some g) =
      if eq_ℤ g.status (pos 1) then (s, true) else commit D s (dissolve_batch s group_id g)

  unfoldable pub dissolve_group : D.State → Text → D.State × Bool
  dissolve_group s group_id =
      if is_empty group_id then (s, false) else dissolve_found s group_id (get_group s group_id)

  -- The batch of AddMember.
  abbrev pub join_batch : Text → GroupMemberData → GroupData → List Op
  join_batch group_id member g =
      put (key_group_member group_id member.user_id) (serialize_member J member)
      ∷ put (key_user_group member.user_id group_id) []
      ∷ put (key_group group_id) (
          serialize_group J
            (record g { member_count = to_int32 (g.member_count +ℤ pos 1); updated_at = pos 0 }))
      ∷ []

  unfoldable pub join_found : D.State → Text → GroupMemberData → Option GroupData → D.State × Bool
  join_found s group_id member none = (s, false)
  join_found s group_id member (some g) = commit D s (join_batch group_id member g)

  unfoldable pub add_member : D.State → Text → GroupMemberData → D.State × Bool
  add_member s group_id member =
      if is_empty group_id || is_empty member.user_id
      then (s, false)
      else if is_some (D.get s (key_group_member group_id member.user_id))
      then (s, false)
      else join_found s group_id member (get_group s group_id)

  -- `std::max(0, n - 1)`
  abbrev pub one_less : ℤ → ℤ
  one_less n = let m = to_int32 (n -ℤ pos 1) in if ltb_ℤ (pos 0) m then m else pos 0

  -- The batch of RemoveMember.
  abbrev pub leave_batch : Text → Text → GroupData → List Op
  leave_batch group_id user_id g =
      delete (key_group_member group_id user_id)
      ∷ delete (key_user_group user_id group_id)
      ∷ put (key_group group_id)
          (serialize_group J (record g { member_count = one_less g.member_count }))
      ∷ []

  unfoldable pub leave_found : D.State → Text → Text → Option GroupData → D.State × Bool
  leave_found s group_id user_id none = (s, false)
  leave_found s group_id user_id (some g) = commit D s (leave_batch group_id user_id g)

  unfoldable pub remove_member : D.State → Text → Text → D.State × Bool
  remove_member s group_id user_id =
      if is_empty group_id || is_empty user_id
      then (s, false)
      else if not (is_some (D.get s (key_group_member group_id user_id)))
      then (s, false)
      else leave_found s group_id user_id (get_group s group_id)

  unfoldable pub get_member : D.State → Text → Text → Option GroupMemberData
  get_member s group_id user_id =
      if is_empty group_id || is_empty user_id
      then none
      else (do value ← D.get s (key_group_member group_id user_id); deserialize_member J value)

  unfoldable pub read_members : Entries → List GroupMemberData
  read_members [] = []
  read_members ((k, v) ∷ es) =
      let rest = read_members es in
      elim (deserialize_member J v) [ none ↦ rest | some m ↦ m ∷ rest ]

  -- `n` if it is positive, and a default otherwise.
  abbrev pub positive_or : ℤ → ℕ → ℕ
  positive_or n d = if leb_ℤ n (pos 0) then d else pos_part n

  -- A page of the members, and the number of all. The products are taken to fit into an `int`.
  unfoldable pub get_members : D.State → Text → ℤ → ℤ → List GroupMemberData × ℕ
  get_members s group_id page page_size =
      let all = read_members (D.scan s (prefix_group_member group_id)) in
      let rows = positive_or page_size 50 in
      let offset = (positive_or page 1 - 1) * rows in
      if is_empty group_id then ([], 0) else (take rows (drop offset all), length all)

  -- The member that was found, with the new role.
  unfoldable pub role_found : D.State → Text → Text → ℤ → Option GroupMemberData → D.State × Bool
  role_found s group_id user_id role none = (s, false)
  role_found s group_id user_id role (some m) =
      commit D s (
        put (key_group_member group_id user_id) (serialize_member J (record m { role = role }))
        ∷ [])

  unfoldable pub update_member_role : D.State → Text → Text → ℤ → D.State × Bool
  update_member_role s group_id user_id role =
      if is_empty group_id || is_empty user_id
      then (s, false)
      else role_found s group_id user_id role (get_member s group_id user_id)

  unfoldable pub is_member : D.State → Text → Text → Bool
  is_member s group_id user_id =
      if is_empty group_id || is_empty user_id
      then false
      else is_some (D.get s (key_group_member group_id user_id))

  unfoldable pub get_user_group_ids : D.State → Text → List Text
  get_user_group_ids s user_id =
      let prefix = prefix_user_groups user_id in
      if is_empty user_id then [] else read_ids prefix (D.scan s prefix)

-- ===== src/Group/Roles.antt =====
-- The operations of chatsvr/internal/service/group_service.cpp that depend on roles.
use swift_chat_system.Common.{
  Bool, true, false, not, ◌&&◌, ◌||◌, Option, none, some, if◌then◌else◌, is_some,
}
use swift_chat_system.Common.Int.{ℤ, eq_ℤ}
use swift_chat_system.Common.Text.{Text, text_eq, is_empty}
use swift_chat_system.ErrorCode.{
  ErrorCode, ok, invalid_param, internal_error, permission_denied, group_not_found, not_group_owner,
  not_group_member, kick_not_allowed, owner_cannot_leave,
}
use swift_chat_system.Json.{Json}
use swift_chat_system.Storage.{Db}
use swift_chat_system.Group.Data.{GroupData, GroupMemberData}
use swift_chat_system.Group.Store
use swift_chat_system.Group.Service.{role_owner, role_member, role_admin, answer}

-- `op` may take `target` out.
unfoldable pub kick_code : GroupMemberData → GroupMemberData → ErrorCode
kick_code op target =
    if eq_ℤ target.role role_owner
    then kick_not_allowed
    else if not (eq_ℤ op.role role_owner) && not (eq_ℤ op.role role_admin)
    then permission_denied
    else if eq_ℤ op.role role_admin && eq_ℤ target.role role_admin
    then kick_not_allowed
    else ok

abbrev pub is_ok : ErrorCode → Bool
is_ok ok = true
is_ok _ = false

module _ (D : Db) (J : Json) where
  -- RemoveMember from the records of the operator and of the member.
  unfoldable pub kick :
      D.State → Text → Text → Option GroupMemberData → Option GroupMemberData → D.State × ErrorCode
  kick s group_id member_id none target = (s, not_group_member)
  kick s group_id member_id (some op) none = (s, not_group_member)
  kick s group_id member_id (some op) (some target) =
      if is_ok (kick_code op target)
      then answer (Store.remove_member D J s group_id member_id)
      else (s, kick_code op target)

  unfoldable pub remove_member : D.State → Text → Text → Text → D.State × ErrorCode
  remove_member s group_id operator_id member_id =
      if is_empty group_id || (is_empty operator_id || is_empty member_id)
      then (s, invalid_param)
      else if not (is_some (Store.get_group D J s group_id))
      then (s, group_not_found)
      else if not (Store.is_member D J s group_id member_id)
      then (s, not_group_member)
      else kick s group_id member_id (Store.get_member D J s group_id operator_id)
          (Store.get_member D J s group_id member_id)

  unfoldable pub leave_found : D.State → Text → Text → Option GroupData → D.State × ErrorCode
  leave_found s group_id user_id none = (s, group_not_found)
  leave_found s group_id user_id (some g) =
      if text_eq g.owner_id user_id
      then (s, owner_cannot_leave)
      else if not (Store.is_member D J s group_id user_id)
      then (s, not_group_member)
      else answer (Store.remove_member D J s group_id user_id)

  unfoldable pub leave_group : D.State → Text → Text → D.State × ErrorCode
  leave_group s group_id user_id =
      if is_empty group_id || is_empty user_id
      then (s, invalid_param)
      else leave_found s group_id user_id (Store.get_group D J s group_id)

  -- The three writes of TransferOwner. One that fails leaves those before it.
  unfoldable pub hand_over : D.State → Text → Text → Text → D.State × ErrorCode
  hand_over s group_id old_owner_id new_owner_id =
      let first = Store.update_member_role D J s group_id old_owner_id role_member in
      let second = Store.update_member_role D J first.0 group_id new_owner_id role_owner in
      if not first.1
      then (first.0, internal_error)
      else if not second.1
      then (second.0, internal_error)
      else answer (Store.update_group_owner D J second.0 group_id new_owner_id)

  unfoldable pub transfer_found :
      D.State → Text → Text → Text → Option GroupData → D.State × ErrorCode
  transfer_found s group_id old_owner_id new_owner_id none = (s, group_not_found)
  transfer_found s group_id old_owner_id new_owner_id (some g) =
      if not (text_eq g.owner_id old_owner_id)
      then (s, not_group_owner)
      else if not (Store.is_member D J s group_id new_owner_id)
      then (s, not_group_member)
      else hand_over s group_id old_owner_id new_owner_id

  unfoldable pub transfer_owner : D.State → Text → Text → Text → D.State × ErrorCode
  transfer_owner s group_id old_owner_id new_owner_id =
      if is_empty group_id || (is_empty old_owner_id || is_empty new_owner_id)
      then (s, invalid_param)
      else transfer_found s group_id old_owner_id new_owner_id (Store.get_group D J s group_id)

  -- SetMemberRole from the record of the member.
  unfoldable pub set_role : D.State → Text → Text → ℤ → Option GroupMemberData → D.State × ErrorCode
  set_role s group_id member_id role none = (s, not_group_member)
  set_role s group_id member_id role (some target) =
      if eq_ℤ target.role role_owner
      then (s, permission_denied)
      else answer (Store.update_member_role D J s group_id member_id role)

  unfoldable pub set_member_role : D.State → Text → Text → Text → ℤ → D.State × ErrorCode
  set_member_role s group_id operator_id member_id role =
      if is_empty group_id || (is_empty operator_id || is_empty member_id)
      then (s, invalid_param)
      else elim (Store.get_group D J s group_id) [
        | none ↦ (s, group_not_found)
        | some g ↦
            if not (text_eq g.owner_id operator_id)
            then (s, not_group_owner)
            else set_role s group_id member_id role (Store.get_member D J s group_id member_id)
      ]

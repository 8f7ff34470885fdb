-- ===== src/Tests/Group.antt =====
-- RocksDBGroupStore at concrete inputs: a group with two members, that is dissolved.
use swift_chat_system.Common.{
  ◌≡◌, refl, true, not, ◌&&◌, some, none, Option, [], ◌∷◌, if◌then◌else◌,
}
use swift_chat_system.Common.Int.{ℤ, pos, to_int32}
use swift_chat_system.Common.Text.{Text, codes, text_eq, starts_with, text_lt}
use swift_chat_system.Json.{find}
use swift_chat_system.Json.Codec.{codec, codec-IsLawful}
use swift_chat_system.Storage.{commit}
use swift_chat_system.Storage.Memory.{memory, memory-IsLawful, no_entries}
use swift_chat_system.Group.Data.{
  GroupData, GroupMemberData, serialize_group, deserialize_group, serialize_member,
  deserialize_member, key_group, key_group_member, key_user_group, prefix_group_member,
}
use swift_chat_system.Group.Store.{
  create_group, get_group, add_member, remove_member, dissolve_group, dissolve_found, is_member,
  join_found, read_ids, evict, leave_found, get_member, update_member_role, role_found,
  update_group_owner, write_group,
}
use swift_chat_system.Group.Service
use swift_chat_system.Group.Service.{role_owner, role_member}
use swift_chat_system.Group.Roles
use swift_chat_system.Group.Roles.{transfer_owner, transfer_found, hand_over}
use swift_chat_system.Group.Rules.{MayKick, remove_member-MayKick}
use swift_chat_system.Group.Transfer.{role_of, owner_of, transfer_owner-roles}
use swift_chat_system.ErrorCode.{ok, group_members_too_few}
use swift_chat_system.Group.Dissolve.{is_member-dissolve_group}

abbrev count_of : Option GroupData → Option ℤ
count_of none = none
count_of (some g) = some g.member_count

abbrev club : Text
club = codes "g"

abbrev alice : Text
alice = codes "a"

abbrev group : GroupData
group = record {
  group_id = club;
  group_name = [];
  avatar_url = [];
  owner_id = alice;
  member_count = pos 0;
  announcement = [];
  created_at = pos 5;
  updated_at = pos 5;
  status = pos 0;
}

abbrev owner : GroupMemberData
owner = record { user_id = alice; role = pos 0; nickname = []; joined_at = pos 5 }

abbrev created : memory.State
created = (create_group memory codec no_entries group).0

abbrev joined : memory.State
joined = (add_member memory codec created club owner).0

abbrev dissolved : memory.State
dissolved = (dissolve_group memory codec joined club).0

abbrev one_member : GroupData
one_member = record group { member_count = pos 1; updated_at = pos 0 }

joined_group : get_group memory codec joined club ≡ some one_member
unfolding memory codec no_entries commit text_eq text_lt starts_with find create_group add_member
    join_found get_group serialize_group deserialize_group serialize_member key_group
    key_group_member key_user_group to_int32
joined_group = refl

is_member-dissolve_group_example : is_member memory codec dissolved club alice ≡ (
    is_member memory codec joined club alice
    && not ((dissolve_group memory codec joined club).1 && text_eq club club))
is_member-dissolve_group_example =
    is_member-dissolve_group memory codec memory-IsLawful joined club one_member club alice
      (refl, tt) (refl, tt) joined_group refl

dissolve_succeeds : dissolve_group memory codec joined club ≡ (dissolved, true)
unfolding memory codec no_entries commit text_eq text_lt starts_with find create_group add_member
    join_found get_group serialize_group deserialize_group serialize_member key_group
    key_group_member key_user_group to_int32 dissolve_group dissolve_found read_ids evict
    prefix_group_member
dissolve_succeeds = refl

abbrev bob : Text
bob = codes "b"

abbrev carol : Text
carol = codes "c"

abbrev team : memory.State
team =
    (Service.create_group memory codec no_entries alice [] [] (bob ∷ carol ∷ bob ∷ []) club
      (pos 5)).0

create_group_two :
    (Service.create_group memory codec no_entries alice [] [] (alice ∷ bob ∷ []) club (pos 5)).1
    ≡ group_members_too_few
unfolding Service.insert_ids Service.insert_id text_lt text_eq Service.create_group Service.add_all
create_group_two = refl

-- The three members of the new group are counted twice.
counted_twice : count_of (get_group memory codec team club) ≡ some (pos 6)
unfolding memory codec no_entries commit text_eq text_lt starts_with find create_group add_member
    join_found get_group serialize_group deserialize_group serialize_member key_group
    key_group_member key_user_group to_int32 Service.insert_ids Service.insert_id
    Service.create_group Service.add_all Service.add_others
counted_twice = refl

abbrev handed : memory.State
handed = (transfer_owner memory codec team club alice bob).0

transfer_succeeds : transfer_owner memory codec team club alice bob ≡ (handed, ok)
unfolding memory codec no_entries commit text_eq text_lt starts_with find create_group add_member
    join_found get_group serialize_group deserialize_group serialize_member deserialize_member
    key_group key_group_member key_user_group to_int32 Service.insert_ids Service.insert_id
    Service.create_group Service.add_all Service.add_others transfer_owner transfer_found hand_over
    update_member_role role_found get_member update_group_owner write_group is_member
transfer_succeeds = refl

transfer_owner-roles_example :
    (owner_of (get_group memory codec team club) ≡ some alice)
    × (is_member memory codec team club bob ≡ true)
    × (owner_of (get_group memory codec handed club) ≡ some bob)
    × (role_of (get_member memory codec handed club carol) ≡ (
        if text_eq bob carol
        then some role_owner
        else if text_eq alice carol
        then some role_member
        else role_of (get_member memory codec team club carol)))
transfer_owner-roles_example =
    transfer_owner-roles memory codec memory-IsLawful codec-IsLawful team handed club alice bob
      carol (refl, tt) transfer_succeeds

abbrev kicked : memory.State
kicked = (Roles.remove_member memory codec team club alice carol).0

kick_succeeds : Roles.remove_member memory codec team club alice carol ≡ (kicked, ok)
unfolding memory codec no_entries commit text_eq text_lt starts_with find create_group add_member
    join_found get_group serialize_group deserialize_group serialize_member deserialize_member
    key_group key_group_member key_user_group to_int32 Service.insert_ids Service.insert_id
    Service.create_group Service.add_all Service.add_others Roles.remove_member Roles.kick
    Roles.kick_code remove_member leave_found get_member is_member
kick_succeeds = refl

remove_member-MayKick_example :
    MayKick memory codec team club alice carol
    × (is_member memory codec kicked club carol ≡ (
        is_member memory codec team club carol && not (text_eq club club && text_eq carol carol)))
remove_member-MayKick_example =
    remove_member-MayKick memory codec memory-IsLawful team kicked club alice carol club carol
      (refl, tt) (refl, tt) kick_succeeds

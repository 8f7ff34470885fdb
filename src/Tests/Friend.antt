-- ===== src/Tests/Friend.antt =====
-- FriendService at concrete inputs: bob accepts a request of alice.
use swift_chat_system.Common.{◌≡◌, refl, true, false, ◌↔◌, some, List, [], ◌∷◌}
use swift_chat_system.Common.Int.{pos, to_int32, IsInt32}
use swift_chat_system.Common.Text.{Text, codes, text_eq, starts_with, text_lt}
use swift_chat_system.Json.{find}
use swift_chat_system.Json.Codec.{codec, codec-IsLawful}
use swift_chat_system.Storage.{commit}
use swift_chat_system.Storage.Memory.{memory, memory-IsLawful, no_entries}
use swift_chat_system.Friend.Data.{
  FriendData, serialize_request, deserialize_request, serialize_friend, serialize_group,
  deserialize_friend,
}
use swift_chat_system.Friend.Data.Roundtrip.{friend_roundtrip_iff}
use swift_chat_system.Friend.Keys.{
  key_friend, key_friend_req, key_friend_req_to, key_friend_req_from, key_friend_group, key_block,
  prefix_friend_req_to, prefix_friend_group,
}
use swift_chat_system.Friend.Store
use swift_chat_system.Friend.Service
use swift_chat_system.Friend.History.{Call, add_friend, remove_friend, run, HasPlainIds}
use swift_chat_system.Friend.History
use swift_chat_system.Friend.History.Symmetry.{is_friend_symmetric}
use swift_chat_system.Friend.Requests.Handle.{IsHandled, handle_request-IsHandled}
use swift_chat_system.Friend.Requests.Settled.Calls.{handle_request_once}
use swift_chat_system.Friend.Requests.Pending.{add_friend_once}

abbrev alice : Text
alice = codes "a"

abbrev bob : Text
bob = codes "b"

abbrev request : Text
request = codes "r"

abbrev asked : memory.State
asked = (Service.add_friend memory codec no_entries alice bob [] request (pos 5)).0

abbrev accepted : memory.State
accepted = (Service.handle_request memory codec asked bob request true [] (pos 6)).0

add_friend_succeeds :
    Service.add_friend memory codec no_entries alice bob [] request (pos 5) ≡ (asked, true)
unfolding memory codec no_entries Service.add_friend Service.has_pending Store.is_friend
    Store.is_blocked Store.get_received_requests Store.read_requests Store.create_request commit
    text_eq starts_with text_lt key_friend key_block key_friend_req key_friend_req_to
    key_friend_req_from prefix_friend_req_to serialize_request
add_friend_succeeds = refl

handle_request_succeeds :
    Service.handle_request memory codec asked bob request true [] (pos 6) ≡ (accepted, true)
unfolding memory codec no_entries Service.add_friend Service.has_pending Store.is_friend
    Store.is_blocked Store.get_received_requests Store.read_requests Store.create_request commit
    text_eq starts_with text_lt key_friend key_block key_friend_req key_friend_req_to
    key_friend_req_from prefix_friend_req_to serialize_request deserialize_request find
    Service.handle_request Service.handle_found Service.accept_request Service.ensure_default_group
    Service.has_group Store.get_groups Store.read_groups Store.create_group Store.add_friend
    Store.get_request Store.update_request_status Store.store_status key_friend_group
    prefix_friend_group serialize_friend serialize_group to_int32
handle_request_succeeds = refl

handle_request-IsHandled_example :
    IsHandled memory codec memory-IsLawful codec-IsLawful asked accepted bob request true
handle_request-IsHandled_example =
    handle_request-IsHandled memory codec memory-IsLawful codec-IsLawful asked accepted bob request
      true [] (pos 6) handle_request_succeeds

-- The friends part, and a new request draws the identifier of the old one.
abbrev later : List Call
later = remove_friend alice bob ∷ add_friend alice bob [] request (pos 8) ∷ []

handle_request_once_example :
    Service.handle_request memory codec
      (run memory codec accepted later)
      bob
      request
      false
      []
      (pos 9)
    ≡ (run memory codec accepted later, false)
handle_request_once_example =
    handle_request_once memory codec memory-IsLawful codec-IsLawful request asked accepted bob true
      [] (pos 6) later bob false [] (pos 9) handle_request_succeeds

add_friend_once_example :
    Service.add_friend memory codec asked alice bob [] (codes "q") (pos 7) ≡ (asked, false)
add_friend_once_example =
    add_friend_once memory codec memory-IsLawful codec-IsLawful no_entries asked asked alice bob []
      request (pos 5) [] (codes "q") (pos 7) add_friend_succeeds refl

abbrev friendship : FriendData
friendship = record {
  user_id = alice;
  friend_id = bob;
  remark = [];
  group_id = codes "default";
  added_at = pos 6;
}

friend_roundtrip_iff_example :
    (deserialize_friend codec (serialize_friend codec friendship) ≡ some friendship)
    ↔ IsInt32 (pos 6)
friend_roundtrip_iff_example = friend_roundtrip_iff codec codec-IsLawful friendship

abbrev calls : List Call
calls =
    History.add_friend alice bob [] request (pos 5)
    ∷ History.handle_request bob request true [] (pos 6)
    ∷ History.remove_friend alice bob
    ∷ []

is_friend_symmetric_example :
    Store.is_friend memory codec (run memory codec no_entries calls) alice bob
    ≡ Store.is_friend memory codec (run memory codec no_entries calls) bob alice
unfolding memory no_entries
is_friend_symmetric_example =
    is_friend_symmetric memory codec memory-IsLawful codec-IsLawful no_entries calls alice bob
      (λ k. refl) ((refl, tt), ((refl, tt), (((refl, tt), (refl, tt)), tt))) (refl, tt) (refl, tt)

abbrev shut : memory.State
shut = (Service.block memory codec no_entries bob alice).0

block_succeeds : Service.block memory codec no_entries bob alice ≡ (shut, true)
unfolding memory no_entries Service.block Store.block commit text_eq text_lt
block_succeeds = refl

asked-request :
    Store.get_request memory codec asked request
    ≡ some (record {
      request_id = request;
      from_user_id = alice;
      to_user_id = bob;
      remark = [];
      status = pos 0;
      created_at = pos 5;
    })
unfolding memory codec no_entries Service.add_friend Service.has_pending Store.is_friend
    Store.is_blocked Store.get_received_requests Store.read_requests Store.create_request commit
    text_eq starts_with text_lt key_friend key_block key_friend_req key_friend_req_to
    key_friend_req_from prefix_friend_req_to serialize_request deserialize_request find
    Store.get_request to_int32
asked-request = refl

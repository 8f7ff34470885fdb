-- ===== src/Tests/Zone.antt =====
-- ZoneSvr at concrete inputs: gates that acknowledge every push, under their addresses.
use swift_chat_system.Common.{
  ◌≡◌, refl, true, false, ◌&&◌, none, some, List, [], ◌∷◌, ◌++◌, if◌then◌else◌, arith,
}
use swift_chat_system.Common.Int.{pos}
use swift_chat_system.Common.Text.{Text, codes, text_eq}
use swift_chat_system.Common.Dict.{lookup}
use swift_chat_system.Zone.Store.{
  UserSession, GateNode, Call, answers, call, promise, set_online, set_offline, is_online,
  register_gate, update_gate_heartbeat, get_gate, get_sessions, update_last_active,
}
use swift_chat_system.Zone.Memory.{Tables, memory_store}
use swift_chat_system.Zone.Memory
use swift_chat_system.Zone.Memory.Refines.{memory_store-promise}
use swift_chat_system.Zone.Gates.{Gates, IsLawful, Push}
use swift_chat_system.Zone.Service.{Links, user_online, user_offline, route_to_user}
use swift_chat_system.Zone.Routing.{IsLinked, route_to_user-user_online, route_to_user-user_offline}

abbrev node : GateNode
node = record {
  gate_id = codes "g";
  address = codes "h:1";
  current_connections = pos 0;
  registered_at = pos 5;
  last_heartbeat = pos 5;
}

abbrev session : UserSession
session = record {
  user_id = codes "u";
  gate_id = codes "g";
  gate_addr = codes "h:1";
  device_type = [];
  device_id = [];
  online_at = pos 6;
  last_active_at = pos 6;
}

abbrev calls : List Call
calls =
    register_gate node
    ∷ set_online session
    ∷ update_last_active (codes "u") (pos 9)
    ∷ get_sessions (codes "u" ∷ codes "v" ∷ [])
    ∷ set_offline (codes "u")
    ∷ is_online (codes "u")
    ∷ update_gate_heartbeat (codes "g") (pos 3) (pos 8)
    ∷ get_gate (codes "g")
    ∷ []

memory_store-promise_example :
    answers (call memory_store) (record { sessions = []; gates = [] }) calls
    ≡ answers promise (record { sessions = λ u. none; gates = λ g. none }) calls
memory_store-promise_example = memory_store-promise calls

abbrev net : Gates
net = record {
  State = Text → List Push;
  Client = Text;
  connect = λ s a. (s, some a);
  is_connected = λ s c. true;
  disconnect = λ s c. s;
  push_message = λ s c p. (λ b. if text_eq c b then s b ++ p ∷ [] else s b, true);
  acknowledged = λ s b. s b;
  address = λ c. c;
}

net-IsLawful : IsLawful net
net-IsLawful = record {
  address-connect = λ s a c e. ground arith;
  acknowledged-connect = λ s a b. refl;
  acknowledged-disconnect = λ s c b. refl;
  acknowledged-push_message = λ s c p b. refl;
}

abbrev tables : Tables
tables = record { sessions = []; gates = (codes "g", node) ∷ [] }

abbrev links : Links net
links = record { net = λ b. []; gate_clients = [] }

no_clients : IsLinked net net-IsLawful links
unfolding lookup
no_clients a c e = absurd (ground arith)

gate_found : Memory.get_gate tables (codes "g") ≡ some node
unfolding Memory.get_gate lookup text_eq
gate_found = refl

route_to_user-user_online_example :
    let p : Push = record { user_id = codes "u"; cmd = codes "c"; payload = [] } in
    let online = user_online memory_store tables (codes "u") (codes "g") [] [] (pos 6) in
    let routed = route_to_user memory_store net online.0 links p in
    (routed.1.user_online ≡ true)
    × (routed.1.gate_id ≡ codes "g")
    × ((b : Text)
        → net.acknowledged routed.0.net b ≡ (
            if routed.1.delivered && text_eq node.address b
            then net.acknowledged links.net b ++ p ∷ []
            else net.acknowledged links.net b))
    × IsLinked net net-IsLawful routed.0
route_to_user-user_online_example =
    route_to_user-user_online net net-IsLawful tables links node (codes "u") (codes "g") [] []
      (codes "c") [] (pos 6) no_clients gate_found

route_to_user-user_offline_example :
    let online = user_online memory_store tables (codes "u") (codes "g") [] [] (pos 6) in
    let gone = user_offline memory_store online.0 (codes "u") (codes "old") in
    route_to_user memory_store net gone.0 links
      (record { user_id = codes "u"; cmd = codes "c"; payload = [] })
    ≡ (links, record { delivered = false; user_online = false; gate_id = [] })
route_to_user-user_offline_example =
    route_to_user-user_offline net net-IsLawful tables links (codes "u") (codes "old") (codes "g")
      [] [] (codes "c") [] (pos 6)

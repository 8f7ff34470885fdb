-- ===== src/Zone/Memory.antt =====
-- MemorySessionStore of zonesvr/internal/store/session_store.cpp: two hash maps.
pub mod Refines
use swift_chat_system.Common.{
  ◌≡◌, Bool, true, false, Option, none, some, List, [], ◌∷◌, if◌then◌else◌, is_some,
}
use swift_chat_system.Common.Int.{ℤ}
use swift_chat_system.Common.Text.{Text}
use swift_chat_system.Common.Dict.{Dict, lookup, insert, erase}
use swift_chat_system.Zone.Store.{UserSession, GateNode, SessionStore}

pub record Tables : Type 0 where
  pub sessions : Dict UserSession
  pub gates : Dict GateNode

unfoldable pub set_online : Tables → UserSession → Tables × Bool
set_online t x = (record t { sessions = insert x.user_id x t.sessions }, true)

unfoldable pub set_offline : Tables → Text → Tables × Bool
set_offline t user_id = (record t { sessions = erase user_id t.sessions }, true)

unfoldable pub get_session : Tables → Text → Option UserSession
get_session t user_id = lookup user_id t.sessions

unfoldable pub get_sessions : Tables → List Text → List UserSession
get_sessions t [] = []
get_sessions t (uid ∷ uids) = elim (lookup uid t.sessions) [
  | none ↦ get_sessions t uids
  | some x ↦ x ∷ get_sessions t uids
]

unfoldable pub is_online : Tables → Text → Bool
is_online t user_id = is_some (lookup user_id t.sessions)

-- The session is written in its place.
unfoldable pub update_last_active : Tables → Text → ℤ → Tables × Bool
update_last_active t user_id timestamp = elim (lookup user_id t.sessions) [
  | none ↦ (t, false)
  | some x ↦ (
    record t { sessions = insert user_id (record x { last_active_at = timestamp }) t.sessions },
    true,
  )
]

unfoldable pub register_gate : Tables → GateNode → Tables × Bool
register_gate t node = (record t { gates = insert node.gate_id node t.gates }, true)

unfoldable pub unregister_gate : Tables → Text → Tables × Bool
unregister_gate t gate_id = (record t { gates = erase gate_id t.gates }, true)

unfoldable pub update_gate_heartbeat : Tables → Text → ℤ → ℤ → Tables × Bool
update_gate_heartbeat t gate_id connections now_seconds = elim (lookup gate_id t.gates) [
  | none ↦ (t, false)
  | some g ↦ (
    record t {
      gates =
          insert gate_id
            (record g { current_connections = connections; last_heartbeat = now_seconds }) t.gates;
    },
    true,
  )
]

unfoldable pub get_gate : Tables → Text → Option GateNode
get_gate t gate_id = lookup gate_id t.gates

abbrev nodes : Dict GateNode → List GateNode
nodes [] = []
nodes ((k, g) ∷ d) = g ∷ nodes d

unfoldable pub get_all_gates : Tables → List GateNode
get_all_gates t = nodes t.gates

abbrev pub memory_store : SessionStore
memory_store = record {
  State = Tables;
  set_online = set_online;
  set_offline = set_offline;
  get_session = get_session;
  get_sessions = get_sessions;
  is_online = is_online;
  update_last_active = update_last_active;
  register_gate = register_gate;
  unregister_gate = unregister_gate;
  update_gate_heartbeat = update_gate_heartbeat;
  get_gate = get_gate;
  get_all_gates = get_all_gates;
}

-- ===== src/Zone/Service.antt =====
-- ZoneServiceImpl of zonesvr/internal/service/zone_service.h and zone_service.cpp over a session store
-- and the clients of the gates. The clock, in milliseconds, is an argument.
use swift_chat_system.Common.{
  ℕ, suc, Bool, true, false, Option, none, some, List, [], ◌∷◌, if◌then◌else◌, length, ◌==◌,
}
use swift_chat_system.Common.Int.{ℤ, pos}
use swift_chat_system.Common.Text.{Text, codes, is_empty}
use swift_chat_system.Common.Dict.{Dict, lookup, insert}
use swift_chat_system.ErrorCode.{error_code_to_int, error_code_to_string, unsupported}
use swift_chat_system.Zone.Store.{UserSession, GateNode, SessionStore}
use swift_chat_system.Zone.Gates.{Gates, Push}

pub record RouteResult : Type 0 where
  pub delivered : Bool
  pub user_online : Bool
  pub gate_id : Text

pub record BroadcastResult : Type 0 where
  pub online_count : ℕ
  pub delivered_count : ℕ

pub record HandleClientRequestResult : Type 0 where
  pub code : ℕ
  pub message : Text
  pub payload : Text
  pub request_id : Text

module _ (S : SessionStore) where
  -- UserOnline at the gate that was found.
  unfoldable pub online_found :
      S.State → Text → Text → Text → Text → ℤ → Option GateNode → S.State × Bool
  online_found s user_id gate_id device_type device_id now none = (s, false)
  online_found s user_id gate_id device_type device_id now (some gate) = S.set_online s (record {
    user_id = user_id;
    gate_id = gate_id;
    gate_addr = gate.address;
    device_type = device_type;
    device_id = device_id;
    online_at = now;
    last_active_at = now;
  })

  unfoldable pub user_online : S.State → Text → Text → Text → Text → ℤ → S.State × Bool
  user_online s user_id gate_id device_type device_id now =
      online_found s user_id gate_id device_type device_id now (S.get_gate s gate_id)

  -- The gate is not looked at.
  unfoldable pub user_offline : S.State → Text → Text → S.State × Bool
  user_offline s user_id gate_id = S.set_offline s user_id

  unfoldable pub get_user_session : S.State → Text → Option UserSession
  get_user_session s user_id = S.get_session s user_id

  unfoldable pub get_user_statuses : S.State → List Text → List UserSession
  get_user_statuses s user_ids = S.get_sessions s user_ids

  unfoldable pub register_gate : S.State → Text → Text → ℤ → S.State × Bool
  register_gate s gate_id address now = S.register_gate s (record {
    gate_id = gate_id;
    address = address;
    current_connections = pos 0;
    registered_at = now;
    last_heartbeat = now;
  })

  unfoldable pub gate_heartbeat : S.State → Text → ℤ → ℤ → S.State × Bool
  gate_heartbeat s gate_id connections now_seconds =
      S.update_gate_heartbeat s gate_id connections now_seconds

  -- The reason is not looked at, and the gate is not told.
  unfoldable pub kick_user : S.State → Text → Text → S.State × Bool
  kick_user s user_id reason = S.set_offline s user_id

-- `gate_clients_` and the network.
pub record Links (G : Gates) : Type 0 where
  pub net : G.State
  pub gate_clients : Dict G.Client

module _ (G : Gates) where
  -- A client that is not connected any more is disconnected and replaced; where the new one does not
  -- connect, the old one stays in the map.
  unfoldable pub connect_gate : Links G → Text → Links G × Option G.Client
  connect_gate l gate_addr =
      let tried = G.connect l.net gate_addr in
      elim tried.1 [
        | none ↦ (record l { net = tried.0 }, none)
        | some client ↦ (
          record { net = tried.0; gate_clients = insert gate_addr client l.gate_clients },
          some client,
        )
      ]

  unfoldable pub client_found : Links G → Text → Option G.Client → Links G × Option G.Client
  client_found l gate_addr none = connect_gate l gate_addr
  client_found l gate_addr (some client) =
      let again = connect_gate (record l { net = G.disconnect l.net client }) gate_addr in
      if G.is_connected l.net client then (l, some client) else again

  unfoldable pub get_or_create_gate_client : Links G → Text → Links G × Option G.Client
  get_or_create_gate_client l gate_addr =
      if is_empty gate_addr
      then (l, none)
      else client_found l gate_addr (lookup gate_addr l.gate_clients)

  unfoldable pub push_by : Links G × Option G.Client → Push → Links G × Bool
  push_by (l, none) p = (l, false)
  push_by (l, some client) p =
      let pushed = G.push_message l.net client p in (record l { net = pushed.0 }, pushed.1)

  unfoldable pub push_to_gate : Links G → Text → Push → Links G × Bool
  push_to_gate l gate_addr p = push_by (get_or_create_gate_client l gate_addr) p

  -- The loop of Broadcast: the number of the pushes that were delivered.
  unfoldable pub push_all : Links G → List UserSession → Text → Text → Links G × ℕ
  push_all l [] cmd payload = (l, 0)
  push_all l (x ∷ xs) cmd payload =
      let pushed =
        push_to_gate l x.gate_addr (record { user_id = x.user_id; cmd = cmd; payload = payload }) in
      let rest = push_all pushed.0 xs cmd payload in if pushed.1 then (rest.0, suc rest.1) else rest

module _ (S : SessionStore) (G : Gates) where
  -- RouteToUser from the session that was found.
  unfoldable pub route_found : Links G → Push → Option UserSession → Links G × RouteResult
  route_found l p none = (l, record { delivered = false; user_online = false; gate_id = [] })
  route_found l p (some x) =
      let pushed = push_to_gate G l x.gate_addr p in
      (pushed.0, record { delivered = pushed.1; user_online = true; gate_id = x.gate_id })

  unfoldable pub route_to_user : S.State → Links G → Push → Links G × RouteResult
  route_to_user s l p = route_found l p (S.get_session s p.user_id)

  unfoldable pub broadcast : S.State → Links G → List Text → Text → Text → Links G × BroadcastResult
  broadcast s l user_ids cmd payload =
      let sessions = S.get_sessions s user_ids in
      let pushed = push_all G l sessions cmd payload in
      (pushed.0, record { online_count = length sessions; delivered_count = pushed.1 })

-- A handler of one area: the user, the command, the payload, the request and the token.
abbrev pub Handler : Type 0 → Type 0
Handler W = W → Text → Text → Text → Text → Text → W × HandleClientRequestResult

-- The five areas.
pub record Handlers (W : Type 0) : Type 0 where
  pub handle_auth : Handler W
  pub handle_chat : Handler W
  pub handle_friend : Handler W
  pub handle_group : Handler W
  pub handle_file : Handler W

-- The command up to its first dot.
unfoldable pub prefix : Text → Text
prefix [] = []
prefix (c ∷ cs) = let rest = prefix cs in if c == b'.' then [] else c ∷ rest

abbrev pub not_implemented : Text → HandleClientRequestResult
not_implemented request_id = record {
  code = error_code_to_int unsupported;
  message = error_code_to_string unsupported;
  payload = [];
  request_id = request_id;
}

module _ {W : Type 0} (H : Handlers W) where
  abbrev pub get_prefix_handlers : Dict (Handler W)
  get_prefix_handlers =
      (codes "auth", H.handle_auth)
      ∷ (codes "chat", H.handle_chat)
      ∷ (codes "friend", H.handle_friend)
      ∷ (codes "group", H.handle_group)
      ∷ (codes "file", H.handle_file)
      ∷ []

  -- With a manager, as main sets it. The connection is not looked at.
  unfoldable pub handle_client_request :
      W → Text → Text → Text → Text → Text → Text → W × HandleClientRequestResult
  handle_client_request w conn_id user_id cmd payload request_id token =
      elim (lookup (prefix cmd) get_prefix_handlers) [
        | none ↦ (w, not_implemented request_id)
        | some handler ↦ handler w user_id cmd payload request_id token
      ]

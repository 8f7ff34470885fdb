-- ===== src/Gate/Sending.antt =====
-- What gatesvr/internal/service/gate_service.cpp sends to connections, and when it has one closed.
use swift_chat_system.Common.{Bool, false, Option, none, some, List, [], ◌∷◌, if◌then◌else◌}
use swift_chat_system.Common.Int.{ℤ, pos, ◌-ℤ◌, ltb_ℤ, mul_ℤ}
use swift_chat_system.Common.Text.{Text, codes, is_empty}
use swift_chat_system.Common.Dict.{Dict, lookup}
use swift_chat_system.Gate.State.{Connection, sent, closing, Gate}
use swift_chat_system.Gate.Zone.{ServerMessage, Proto}
use swift_chat_system.Gate.Connections.{emit, get_conn_id_by_user}

-- SendToConn from the callback that was found: `fn && fn(data)`.
unfoldable pub send_found : Gate → Text → Text → Option (Option Bool) → Gate × Bool
send_found g conn_id bytes none = (g, false)
send_found g conn_id bytes (some none) = (g, false)
send_found g conn_id bytes (some (some ok)) = (emit (sent conn_id bytes) g, ok)

unfoldable pub send_to_conn : Gate → Text → Text → Gate × Bool
send_to_conn g conn_id bytes = send_found g conn_id bytes (lookup conn_id g.send_callbacks)

-- A message whose serialisation failed is not sent.
unfoldable pub send_serialized : Gate → Text → Option Text → Gate × Bool
send_serialized g conn_id none = (g, false)
send_serialized g conn_id (some bytes) = send_to_conn g conn_id bytes

-- CloseConnection from the callback that was found.
unfoldable pub close_found : Gate → Text → Option Bool → Gate
close_found g conn_id none = g
close_found g conn_id (some fn) = if fn then emit (closing conn_id) g else g

unfoldable pub close_connection : Gate → Text → Gate
close_connection g conn_id = close_found g conn_id (lookup conn_id g.close_callbacks)

-- `now_ms - c.last_heartbeat > timeout_ms`
abbrev pub is_stale : ℤ → ℤ → Connection → Bool
is_stale now timeout_ms c = ltb_ℤ timeout_ms (now -ℤ c.last_heartbeat)

-- The first loop of CheckHeartbeat.
unfoldable pub to_close : ℤ → ℤ → Dict Connection → List Text
to_close now timeout_ms [] = []
to_close now timeout_ms ((conn_id, c) ∷ cs) =
    let rest = to_close now timeout_ms cs in
    if is_stale now timeout_ms c then conn_id ∷ rest else rest

unfoldable pub close_all : Gate → List Text → Gate
close_all g [] = g
close_all g (conn_id ∷ ids) = close_all (close_connection g conn_id) ids

abbrev pub timeout_ms_of : Gate → ℤ
timeout_ms_of g = mul_ℤ g.heartbeat_timeout_seconds 1000

unfoldable pub check_heartbeat : Gate → ℤ → Gate
check_heartbeat g now = close_all g (to_close now (timeout_ms_of g) g.connections)

-- The message of PushToUser.
abbrev pub pushed_message : Text → Text → ServerMessage
pushed_message cmd payload = record {
  cmd = if is_empty cmd then codes "message" else cmd;
  request_id = [];
  code = pos 0;
  message = [];
  payload = payload;
}

module _ (P : Proto) where
  -- `payload` is set where it is not empty, and empty otherwise: the field's default.
  unfoldable pub send_response : Gate → Text → Text → Text → ℤ → Text → Text → Gate × Bool
  send_response g conn_id cmd request_id code message payload = send_serialized g conn_id (
      P.server_message (record {
        cmd = cmd;
        request_id = request_id;
        code = code;
        message = message;
        payload = payload;
      }))

  unfoldable pub push_to_user : Gate → Text → Text → Text → Gate × Bool
  push_to_user g user_id cmd payload =
      let conn_id = get_conn_id_by_user g user_id in
      if is_empty conn_id
      then (g, false)
      else send_serialized g conn_id (P.server_message (pushed_message cmd payload))

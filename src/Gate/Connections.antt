-- ===== src/Gate/Connections.antt =====
-- The tables of gatesvr/internal/service/gate_service.cpp: connections, users and callbacks.
use swift_chat_system.Common.{
  Bool, true, false, not, Option, none, some, [], ◌∷◌, if◌then◌else◌, length,
}
use swift_chat_system.Common.Int.{ℤ, pos, to_int32}
use swift_chat_system.Common.Text.{Text, text_eq, is_empty}
use swift_chat_system.Common.Dict.{Dict, lookup, insert, erase}
use swift_chat_system.Gate.State.{Connection, Event, user_offline, Gate}

-- A member of the event list.
abbrev pub emit : Event → Gate → Gate
emit e g = record g { events = e ∷ g.events }

-- A connection as AddConnection makes it.
abbrev pub fresh_connection : Text → ℤ → Connection
fresh_connection conn_id now = record {
  conn_id = conn_id;
  user_id = [];
  token = [];
  device_id = [];
  device_type = [];
  connected_at = now;
  last_heartbeat = now;
  authenticated = false;
}

unfoldable pub add_connection : Gate → Text → ℤ → Gate
add_connection g conn_id now = record g {
  connections = insert conn_id (fresh_connection conn_id now) g.connections;
}

unfoldable pub notify_user_offline : Gate → Text → Gate
notify_user_offline g user_id =
    if not g.has_zone then g else emit (user_offline user_id g.gate_id) g

-- RemoveConnection from the connection that was found.
unfoldable pub remove_found : Gate → Text → Option Connection → Gate
remove_found g conn_id none = g
remove_found g conn_id (some c) =
    if is_empty c.user_id
    then record g { connections = erase conn_id g.connections }
    else notify_user_offline
        (record g {
          user_to_conn = erase c.user_id g.user_to_conn;
          connections = erase conn_id g.connections;
        })
        c.user_id

unfoldable pub remove_connection : Gate → Text → Gate
remove_connection g conn_id = remove_found g conn_id (lookup conn_id g.connections)

unfoldable pub get_connection : Gate → Text → Option Connection
get_connection g conn_id = lookup conn_id g.connections

-- The connection that BindUser writes.
abbrev pub bound_connection : Connection → Text → Text → Text → Text → Connection
bound_connection c user_id token device_id device_type = record c {
  user_id = user_id;
  token = token;
  device_id = device_id;
  device_type = device_type;
  authenticated = true;
}

-- BindUser from the connection that was found.
unfoldable pub bind_found :
    Gate → Text → Text → Text → Text → Text → Option Connection → Gate × Bool
bind_found g conn_id user_id token device_id device_type none = (g, false)
bind_found g conn_id user_id token device_id device_type (some c) =
    let users =
      if not (is_empty c.user_id) then erase c.user_id g.user_to_conn else g.user_to_conn in
    (
      record g {
        connections =
            insert conn_id (bound_connection c user_id token device_id device_type) g.connections;
        user_to_conn = insert user_id conn_id users;
      },
      true,
    )

unfoldable pub bind_user : Gate → Text → Text → Text → Text → Text → Gate × Bool
bind_user g conn_id user_id token device_id device_type =
    bind_found g conn_id user_id token device_id device_type (lookup conn_id g.connections)

-- The connection that UnbindUser writes: its token stays.
abbrev pub unbound_connection : Connection → Connection
unbound_connection c = record c {
  user_id = [];
  device_id = [];
  device_type = [];
  authenticated = false;
}

-- The loop of UnbindUser: the first connection of the user.
unfoldable pub unbind_first : Text → Dict Connection → Dict Connection
unbind_first user_id [] = []
unbind_first user_id ((cid, c) ∷ cs) =
    let rest = unbind_first user_id cs in
    if text_eq c.user_id user_id then (cid, unbound_connection c) ∷ cs else (cid, c) ∷ rest

unfoldable pub unbind_user : Gate → Text → Gate
unbind_user g user_id = record g {
  user_to_conn = erase user_id g.user_to_conn;
  connections = unbind_first user_id g.connections;
}

unfoldable pub get_conn_id_by_user : Gate → Text → Text
get_conn_id_by_user g user_id = elim (lookup user_id g.user_to_conn) [
  | none ↦ []
  | some conn_id ↦ conn_id
]

unfoldable pub get_connection_by_user_id : Gate → Text → Option Connection
get_connection_by_user_id g user_id = elim (lookup user_id g.user_to_conn) [
  | none ↦ none
  | some conn_id ↦ lookup conn_id g.connections
]

unfoldable pub set_close_callback : Gate → Text → Bool → Gate
set_close_callback g conn_id fn = record g { close_callbacks = insert conn_id fn g.close_callbacks }

unfoldable pub remove_close_callback : Gate → Text → Gate
remove_close_callback g conn_id = record g { close_callbacks = erase conn_id g.close_callbacks }

unfoldable pub set_send_callback : Gate → Text → Option Bool → Gate
set_send_callback g conn_id fn = record g { send_callbacks = insert conn_id fn g.send_callbacks }

unfoldable pub remove_send_callback : Gate → Text → Gate
remove_send_callback g conn_id = record g { send_callbacks = erase conn_id g.send_callbacks }

-- `static_cast<int>(connections_.size())`
unfoldable pub get_connection_count : Gate → ℤ
get_connection_count g = to_int32 (pos (length g.connections))

-- UpdateHeartbeat from the connection that was found.
unfoldable pub beat_found : Gate → Text → ℤ → Option Connection → Gate
beat_found g conn_id now none = g
beat_found g conn_id now (some c) = record g {
  connections = insert conn_id (record c { last_heartbeat = now }) g.connections;
}

unfoldable pub update_heartbeat : Gate → Text → ℤ → Gate
update_heartbeat g conn_id now = beat_found g conn_id now (lookup conn_id g.connections)

-- ===== src/Gate/History.antt =====
-- What happens to a gate, one event after another: sessions of websocket/ws_listener.cpp begin,
-- send frames and end, timers fire, and ZoneSvr calls. Each event runs to its end before the next.
pub mod Routes
use swift_chat_system.Common.{◌≡◌, Bool, Option, none}
use swift_chat_system.Common.Int.{ℤ}
use swift_chat_system.Common.Text.{Text}
use swift_chat_system.Common.Dict.{lookup}
use swift_chat_system.Gate.State.{Gate}
use swift_chat_system.Gate.Zone.{Reply, Proto}
use swift_chat_system.Gate.Connections.{unbind_user}
use swift_chat_system.Gate.Sending.{check_heartbeat}
use swift_chat_system.Gate.Messages.{
  on_message, push_message, disconnect_user, register_gate, send_heartbeat, on_accept,
  close_session,
}

-- A new session has an identifier of its own: GenerateConnId counts the sessions.
pub data Step (P : Proto) : Gate → Gate → Type 0 where
  accept :
      (g : Gate) (conn_id : Text) (now : ℤ)
      → lookup conn_id g.connections ≡ none
      → Step P g (on_accept g conn_id now)
  message :
      (g : Gate) (conn_id frame : Text) (now server_time : ℤ) (reply : Reply)
      → Step P g (on_message P g conn_id frame now server_time reply)
  close : (g : Gate) (conn_id : Text) → Step P g (close_session g conn_id)
  heartbeat_timer : (g : Gate) (now : ℤ) → Step P g (check_heartbeat g now)
  push : (g : Gate) (user_id cmd payload : Text) → Step P g (push_message P g user_id cmd payload).0
  disconnect : (g : Gate) (user_id : Text) → Step P g (disconnect_user g user_id).0
  unbind : (g : Gate) (user_id : Text) → Step P g (unbind_user g user_id)
  register : (g : Gate) (address : Text) (ok : Bool) → Step P g (register_gate g address ok).0
  beat : (g : Gate) (ok : Bool) → Step P g (send_heartbeat g ok).0

pub data Reach (P : Proto) (s : Gate) : Gate → Type 0 where
  here : Reach P s s
  next : {g h : Gate} → Reach P s g → Step P g h → Reach P s h

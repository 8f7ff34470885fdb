-- ===== src/Gate/State.antt =====
-- The state of gatesvr/internal/service/gate_service.h, and what the gate does to the outside.
use swift_chat_system.Common.{Bool, Option, List}
use swift_chat_system.Common.Int.{ℤ}
use swift_chat_system.Common.Text.{Text}
use swift_chat_system.Common.Dict.{Dict}

pub record Connection : Type 0 where
  pub conn_id : Text
  pub user_id : Text
  pub token : Text
  pub device_id : Text
  pub device_type : Text
  pub connected_at : ℤ
  pub last_heartbeat : ℤ
  pub authenticated : Bool

-- What leaves the gate: bytes to a connection, the request to its session that it close, and the
-- calls of ZoneSvr with their arguments.
pub data Event : Type 0 where
  sent : Text → Text → Event
  closing : Text → Event
  client_request : Text → Text → Text → Text → Text → Text → Event
  user_online : Text → Text → Text → Text → Event
  user_offline : Text → Text → Event
  gate_register : Text → Text → ℤ → Event
  gate_heartbeat : Text → ℤ → Event

-- A send callback is known by the answer of a call, `none` for an empty function; a close callback
-- by whether it can be called. `has_zone` says whether `zone_client_` is set. The newest event is
-- the first.
pub record Gate : Type 0 where
  pub connections : Dict Connection
  pub user_to_conn : Dict Text
  pub send_callbacks : Dict (Option Bool)
  pub close_callbacks : Dict Bool
  pub gate_id : Text
  pub heartbeat_timeout_seconds : ℤ
  pub has_zone : Bool
  pub events : List Event

-- ===== src/Gate/Zone.antt =====
-- What the gate learns from outside: the outcome of the call of ZoneSvr in
-- gatesvr/internal/rpc/zone_rpc_client.cpp, and the messages of the generated protobuf code.
use swift_chat_system.Common.{Bool, true, false, Option, []}
use swift_chat_system.Common.Int.{ℤ, pos, negsuc}
use swift_chat_system.Common.Text.{Text}

-- The remote procedure call: no stub, a status that is not ok with its message, or the fields of
-- the response (code, message, payload, request_id).
pub data Reply : Type 0 where
  no_stub : Reply
  failed : Text → Reply
  response : ℤ → Text → Text → Text → Reply

pub record HandleClientRequestResult : Type 0 where
  pub code : ℤ
  pub message : Text
  pub payload : Text
  pub request_id : Text

-- HandleClientRequest: its result, from the defaults of the struct, and its return value.
abbrev pub result_of : Text → Reply → HandleClientRequestResult
result_of request_id no_stub = record { code = pos 0; message = []; payload = []; request_id = [] }
result_of request_id (failed message) = record {
  code = negsuc 0;
  message = message;
  payload = [];
  request_id = request_id;
}
result_of request_id (response code message payload id) = record {
  code = code;
  message = message;
  payload = payload;
  request_id = id;
}

abbrev pub is_answered : Reply → Bool
is_answered no_stub = false
is_answered (failed _) = false
is_answered (response _ _ _ _) = true

pub record ServerMessage : Type 0 where
  pub cmd : Text
  pub request_id : Text
  pub code : ℤ
  pub message : Text
  pub payload : Text

-- The generated classes: SerializeToString and ParseFromString, `none` where they return false.
pub record Proto : Type 0 where
  pub server_message : ServerMessage → Option Text
  pub heartbeat_response : ℤ → Option Text
  -- cmd, payload and request_id of a ClientMessage
  pub client_message : Text → Option (Text × Text × Text)
  -- device_id and device_type of an AuthLoginPayload
  pub login_payload : Text → Option (Text × Text)
  -- user_id and token of an AuthLoginResponsePayload
  pub login_response : Text → Option (Text × Text)
  -- token of an AuthValidateTokenPayload
  pub validate_payload : Text → Option Text
  -- user_id of an AuthValidateTokenResponsePayload
  pub validate_response : Text → Option Text

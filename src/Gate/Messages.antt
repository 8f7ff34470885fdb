-- ===== src/Gate/Messages.antt =====
-- The messages of clients in gatesvr/internal/service/gate_service.cpp, the calls of
-- handler/gate_internal_grpc_handler.cpp and handler/websocket_handler.cpp, and what a session of
-- websocket/ws_listener.cpp does to the service when it begins and ends.
use swift_chat_system.Common.{
  Bool, true, false, not, ◌&&◌, ◌||◌, Option, none, some, [], if◌then◌else◌,
}
use swift_chat_system.Common.Int.{ℤ, pos, ltb_ℤ, eq_ℤ}
use swift_chat_system.Common.Text.{Text, codes, text_eq, is_empty, starts_with}
use swift_chat_system.ErrorCode.{ErrorCode, error_code_to_int, error_code_to_string}
use swift_chat_system.Gate.State.{
  Connection, client_request, user_online, gate_register, gate_heartbeat, Gate,
}
use swift_chat_system.Gate.Zone.{Reply, HandleClientRequestResult, result_of, is_answered, Proto}
use swift_chat_system.Gate.Connections.{
  emit, add_connection, remove_connection, get_connection, bind_user, get_conn_id_by_user,
  set_close_callback, remove_close_callback, set_send_callback, remove_send_callback,
  get_connection_count, update_heartbeat,
}
use swift_chat_system.Gate.Sending.{close_connection, send_response, push_to_user}

abbrev pub code_of : ErrorCode → ℤ
code_of e = pos (error_code_to_int e)

-- The code and the message of a call that failed.
abbrev pub failure_code : HandleClientRequestResult → ℤ
failure_code r = if ltb_ℤ r.code (pos 0) then code_of ErrorCode.rpc_failed else r.code

abbrev pub failure_message : HandleClientRequestResult → Text
failure_message r =
    if is_empty r.message then error_code_to_string ErrorCode.rpc_failed else r.message

-- A field of a message that may not have been parsed: empty then.
abbrev pub parsed_or_empty : Option Text → Text
parsed_or_empty none = []
parsed_or_empty (some t) = t

-- The user and the token that a request is forwarded with.
abbrev pub identity : Option Connection → Text × Text
identity none = ([], [])
identity (some c) = (c.user_id, c.token)

-- The commands of the last branch that is forwarded.
abbrev pub is_business : Text → Bool
is_business cmd =
    starts_with (codes "chat.") cmd
    || starts_with (codes "friend.") cmd
    || starts_with (codes "group.") cmd
    || starts_with (codes "file.") cmd

module _ (P : Proto) where
  -- An answer with the number and the text of an error code.
  unfoldable pub send_error : Gate → Text → Text → Text → ErrorCode → Gate
  send_error g conn_id cmd request_id e =
      (send_response P g conn_id cmd request_id (code_of e) (error_code_to_string e) []).0

  -- An answer with what ZoneSvr answered.
  unfoldable pub send_result : Gate → Text → Text → HandleClientRequestResult → Gate
  send_result g conn_id cmd r =
      (send_response P g conn_id cmd r.request_id r.code r.message r.payload).0

  -- The end of HandleLogin, from the device that the client named and the user and the token that
  -- ZoneSvr confirmed.
  unfoldable pub finish_login :
      Gate → Text → Text → HandleClientRequestResult → Text × Text → Option (Text × Text) → Gate
  finish_login g conn_id request_id r device none =
      send_error g conn_id (codes "auth.login") request_id ErrorCode.internal_error
  finish_login g conn_id request_id r (device_id, device_type) (some (user_id, token)) =
      let bound = bind_user g conn_id user_id token device_id device_type in
      if is_empty user_id || is_empty token
      then send_error g conn_id (codes "auth.login") request_id ErrorCode.internal_error
      else if not bound.1
      then send_error bound.0 conn_id (codes "auth.login") request_id ErrorCode.internal_error
      else send_result (emit (user_online user_id g.gate_id device_type device_id) bound.0) conn_id
          (codes "auth.login") r

  -- HandleLogin from the parsed payload.
  unfoldable pub login_parsed : Gate → Text → Text → Text → Reply → Option (Text × Text) → Gate
  login_parsed g conn_id payload request_id reply none =
      send_error g conn_id (codes "auth.login") request_id ErrorCode.invalid_param
  login_parsed g conn_id payload request_id reply (some device) =
      let asked = emit (client_request conn_id [] (codes "auth.login") payload request_id []) g in
      let r = result_of request_id reply in
      if not (is_answered reply)
      then (send_response P asked conn_id (codes "auth.login") request_id (failure_code r)
          (failure_message r) []).0
      else if not (eq_ℤ r.code (code_of ErrorCode.ok))
      then send_result asked conn_id (codes "auth.login") r
      else finish_login asked conn_id request_id r device (P.login_response r.payload)

  unfoldable pub handle_login : Gate → Text → Text → Text → Reply → Gate
  handle_login g conn_id payload request_id reply =
      if not g.has_zone
      then send_error g conn_id (codes "auth.login") request_id ErrorCode.upstream_unavailable
      else login_parsed g conn_id payload request_id reply (P.login_payload payload)

  -- HandleHeartbeat from the serialised answer.
  unfoldable pub answer_heartbeat : Gate → Text → Text → Option Text → Gate
  answer_heartbeat g conn_id request_id none = g
  answer_heartbeat g conn_id request_id (some payload) =
      (send_response P g conn_id (codes "heartbeat") request_id (code_of ErrorCode.ok)
        (error_code_to_string ErrorCode.ok) payload).0

  unfoldable pub handle_heartbeat : Gate → Text → Text → ℤ → ℤ → Gate
  handle_heartbeat g conn_id request_id now server_time =
      answer_heartbeat (update_heartbeat g conn_id now) conn_id request_id
        (P.heartbeat_response server_time)

  -- The branch of ForwardToZone for a token that was validated, from the connection that was found.
  unfoldable pub bind_validated : Gate → Text → Text → Text → Option Connection → Gate
  bind_validated g conn_id user_id token none =
      emit (user_online user_id g.gate_id [] []) (bind_user g conn_id user_id token [] []).0
  bind_validated g conn_id user_id token (some c) =
      emit (user_online user_id g.gate_id c.device_type c.device_id)
        (bind_user g conn_id user_id token c.device_id c.device_type).0

  unfoldable pub after_validate : Gate → Text → Text → Text → HandleClientRequestResult → Gate
  after_validate g conn_id cmd payload r =
      let user_id = parsed_or_empty (P.validate_response r.payload) in
      let token = parsed_or_empty (P.validate_payload payload) in
      if text_eq cmd (codes "auth.validate_token") && eq_ℤ r.code (code_of ErrorCode.ok)
      then (if not (is_empty user_id) && not (is_empty token)
          then bind_validated g conn_id user_id token (get_connection g conn_id)
          else g)
      else g

  unfoldable pub forward_to_zone : Gate → Text → Text → Text → Text → Reply → Gate
  forward_to_zone g conn_id cmd payload request_id reply =
      let who = identity (get_connection g conn_id) in
      let asked = emit (client_request conn_id who.0 cmd payload request_id who.1) g in
      let r = result_of request_id reply in
      if not g.has_zone
      then send_error g conn_id cmd request_id ErrorCode.upstream_unavailable
      else if not (is_answered reply)
      then (send_response P asked conn_id cmd request_id (failure_code r) (failure_message r) []).0
      else send_result (after_validate asked conn_id cmd payload r) conn_id cmd r

  -- The arguments after those of HandleClientMessage: the two times of the clock and the outcome of
  -- the call of ZoneSvr, for the branches that use them.
  unfoldable pub handle_client_message : Gate → Text → Text → Text → Text → ℤ → ℤ → Reply → Gate
  handle_client_message g conn_id cmd payload request_id now server_time reply =
      if text_eq cmd (codes "auth.login")
      then handle_login g conn_id payload request_id reply
      else if text_eq cmd (codes "auth.register")
      then forward_to_zone g conn_id cmd payload request_id reply
      else if text_eq cmd (codes "heartbeat")
      then handle_heartbeat g conn_id request_id now server_time
      else if text_eq cmd (codes "auth.logout") || text_eq cmd (codes "auth.validate_token")
      then forward_to_zone g conn_id cmd payload request_id reply
      else if is_business cmd
      then forward_to_zone g conn_id cmd payload request_id reply
      else send_error g conn_id cmd request_id ErrorCode.unsupported

  -- OnMessage of the WebSocket handler, from the parsed frame.
  unfoldable pub message_parsed : Gate → Text → ℤ → ℤ → Reply → Option (Text × Text × Text) → Gate
  message_parsed g conn_id now server_time reply none = g
  message_parsed g conn_id now server_time reply (some (cmd, payload, request_id)) =
      handle_client_message g conn_id cmd payload request_id now server_time reply

  unfoldable pub on_message : Gate → Text → Text → ℤ → ℤ → Reply → Gate
  on_message g conn_id bytes now server_time reply =
      message_parsed g conn_id now server_time reply (P.client_message bytes)

  -- PushMessage of the internal handler: the code of its response.
  unfoldable pub push_message : Gate → Text → Text → Text → Gate × ErrorCode
  push_message g user_id cmd payload =
      let pushed =
        push_to_user P g user_id (if is_empty cmd then codes "message" else cmd) payload in
      (pushed.0, if pushed.1 then ErrorCode.ok else ErrorCode.user_offline)

-- DisconnectUser of the internal handler.
unfoldable pub disconnect_user : Gate → Text → Gate × ErrorCode
disconnect_user g user_id =
    let conn_id = get_conn_id_by_user g user_id in
    (if not (is_empty conn_id) then close_connection g conn_id else g, ErrorCode.ok)

unfoldable pub register_gate : Gate → Text → Bool → Gate × Bool
register_gate g address ok =
    if not g.has_zone
    then (g, false)
    else (emit (gate_register g.gate_id address (get_connection_count g)) g, ok)

unfoldable pub send_heartbeat : Gate → Bool → Gate × Bool
send_heartbeat g ok =
    if not g.has_zone
    then (g, false)
    else (emit (gate_heartbeat g.gate_id (get_connection_count g)) g, ok)

-- WsSession::OnAccept: its send callback posts the data and answers true.
unfoldable pub on_accept : Gate → Text → ℤ → Gate
on_accept g conn_id now =
    set_close_callback (set_send_callback (add_connection g conn_id now) conn_id (some true))
      conn_id true

-- WsSession::Close, once per session.
unfoldable pub close_session : Gate → Text → Gate
close_session g conn_id =
    remove_connection (remove_send_callback (remove_close_callback g conn_id) conn_id) conn_id

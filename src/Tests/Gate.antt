-- ===== src/Tests/Gate.antt =====
-- A gate at concrete inputs: the user "b" logs in on the connection "c".
use swift_chat_system.Common.{◌≡◌, ◌≢◌, ◌⊎◌, refl, true, false, none, some, [], ◌∷◌}
use swift_chat_system.Common.Int.{pos}
use swift_chat_system.Common.Text.{Text, codes, text_eq}
use swift_chat_system.Common.Dict.{lookup, insert, erase}
use swift_chat_system.ErrorCode.{error_code_to_int, error_code_to_string}
use swift_chat_system.Gate.State.{Gate, sent}
use swift_chat_system.Gate.Zone.{Proto, Reply, response}
use swift_chat_system.Gate.Connections
use swift_chat_system.Gate.Sending
use swift_chat_system.Gate.Messages
use swift_chat_system.Gate.Invariant.{user_of, was_announced}
use swift_chat_system.Gate.History.{Reach, here, next, accept, message}
use swift_chat_system.Gate.History.Routes.{
  push_to_user-user_of, user_of-was_announced, close_session-gone,
}
use swift_chat_system.Gate.Identity.Frames.{IsLoggedInBy, user_of-on_message}
use swift_chat_system.Gate.Takeover.{stranded_push_to_user}

-- Every frame is a login; a message is printed as its payload.
abbrev proto : Proto
proto = record {
  server_message = λ m. some m.payload;
  heartbeat_response = λ n. some [];
  client_message = λ frame. some (codes "auth.login", frame, []);
  login_payload = λ p. some ([], []);
  login_response = λ p. some (p, p);
  validate_payload = λ p. none;
  validate_response = λ p. none;
}

abbrev idle : Gate
idle = record {
  connections = [];
  user_to_conn = [];
  send_callbacks = [];
  close_callbacks = [];
  gate_id = codes "g";
  heartbeat_timeout_seconds = pos 90;
  has_zone = true;
  events = [];
}

abbrev answer : Reply
answer = response (pos 0) [] (codes "b") []

abbrev opened : Gate
opened = Messages.on_accept idle (codes "c") (pos 1)

abbrev online : Gate
online = Messages.on_message proto opened (codes "c") [] (pos 2) (pos 3) answer

abbrev pushed : Gate
pushed = (Sending.push_to_user proto online (codes "b") [] (codes "p")).0

online_reached : Reach proto idle online
unfolding lookup
online_reached =
    next (next here (accept idle (codes "c") (pos 1) refl))
      (message opened (codes "c") [] (pos 2) (pos 3) answer)

push_succeeds : Sending.push_to_user proto online (codes "b") [] (codes "p") ≡ (pushed, true)
unfolding lookup insert erase text_eq Messages.on_message Messages.message_parsed
    Messages.handle_client_message Messages.handle_login Messages.on_accept
    Connections.set_close_callback Connections.set_send_callback Connections.add_connection
    Messages.login_parsed error_code_to_int error_code_to_string Messages.finish_login
    Connections.bind_user Connections.bind_found Messages.send_result Sending.send_response
    Sending.send_serialized Sending.send_to_conn Sending.send_found Sending.push_to_user
    Connections.get_conn_id_by_user
push_succeeds = refl

bob_is_online : user_of online (codes "c") ≡ some (codes "b")
unfolding lookup insert erase text_eq Messages.on_message Messages.message_parsed
    Messages.handle_client_message Messages.handle_login Messages.on_accept
    Connections.set_close_callback Connections.set_send_callback Connections.add_connection
    Messages.login_parsed error_code_to_int error_code_to_string Messages.finish_login
    Connections.bind_user Connections.bind_found Messages.send_result Sending.send_response
    Sending.send_serialized Sending.send_to_conn Sending.send_found
bob_is_online = refl

push_to_user-user_of_example :
    (c : Text) × (frame : Text) × (pushed.events ≡ sent c frame ∷ online.events)
    × (user_of online c ≡ some (codes "b"))
push_to_user-user_of_example =
    push_to_user-user_of proto idle online pushed (codes "b") [] (codes "p") (refl, refl)
      online_reached push_succeeds

user_of-was_announced_example : was_announced (codes "b") online.events ≡ true
user_of-was_announced_example =
    user_of-was_announced proto idle online (codes "b") (codes "c") (refl, refl) online_reached
      bob_is_online refl

close_session-gone_example :
    (lookup (codes "c") (Messages.close_session online (codes "c")).connections ≡ none)
    × (lookup (codes "c") (Messages.close_session online (codes "c")).send_callbacks ≡ none)
    × (lookup (codes "c") (Messages.close_session online (codes "c")).close_callbacks ≡ none)
    × (lookup (codes "b") (Messages.close_session online (codes "c")).user_to_conn
        ≢ some (codes "c"))
close_session-gone_example =
    close_session-gone proto idle online (codes "c") (codes "b") (refl, refl) online_reached

user_of-on_message_example :
    (user_of opened (codes "c") ≡ some (codes "b"))
    ⊎ ((codes "c" ≡ codes "c") × IsLoggedInBy proto answer (codes "c") [] (codes "b"))
user_of-on_message_example =
    user_of-on_message proto answer (codes "c") opened [] (pos 2) (pos 3) (codes "c") (codes "b")
      refl bob_is_online

-- Two connections, both open.
abbrev both : Gate
both = Messages.on_accept opened (codes "d") (pos 2)

abbrev stranded : Gate
stranded =
    Connections.remove_connection
      (Connections.bind_user (Connections.bind_user both (codes "c") (codes "b") [] [] []).0
        (codes "d") (codes "b") [] [] []).0
      (codes "c")

stranded_push_to_user_example :
    (user_of stranded (codes "d") ≡ some (codes "b"))
    × (Sending.push_to_user proto stranded (codes "b") [] (codes "p") ≡ (stranded, false))
unfolding lookup insert text_eq Messages.on_accept Connections.set_close_callback
    Connections.set_send_callback Connections.add_connection
stranded_push_to_user_example =
    stranded_push_to_user proto both (codes "b") refl (codes "c") (codes "d") [] [] [] [] [] [] []
      (codes "p") (Connections.fresh_connection (codes "c") (pos 1))
      (Connections.fresh_connection (codes "d") (pos 2)) refl refl refl

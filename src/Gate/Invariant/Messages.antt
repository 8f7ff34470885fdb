-- ===== src/Gate/Invariant/Messages.antt =====
-- Sending, closing and the messages of clients keep the invariant of the gate.
use mathlib.Core.Path.{subst}
use swift_chat_system.Common.{
  ◌≡◌, refl, Bool, true, false, not, ◌&&◌, ◌||◌, Option, none, some, List, [], ◌∷◌, if◌then◌else◌,
  arith, Bool-cases, inl, inr, sym,
}
use swift_chat_system.Common.Int.{ℤ}
use swift_chat_system.Common.Text.{Text, codes, text_eq, is_empty, text_eq_refl}
use swift_chat_system.Common.Dict.{lookup}
use swift_chat_system.ErrorCode.{ErrorCode}
use swift_chat_system.Gate.State.{Connection, Event, user_online, Gate}
use swift_chat_system.Gate.Zone.{Reply, HandleClientRequestResult, Proto}
use swift_chat_system.Gate.Connections
use swift_chat_system.Gate.Connections.{emit, bind_user, get_conn_id_by_user}
use swift_chat_system.Gate.Sending
use swift_chat_system.Gate.Messages
use swift_chat_system.Gate.Invariant.{Inv}
use swift_chat_system.Gate.Invariant.Tables.{Inv-if, Inv-emit, Inv-bind_user, Inv-update_heartbeat}

-- A bind that fails changes nothing.
bind_user_unchanged :
    (g : Gate) (c u t d k : Text)
    → (bind_user g c u t d k).1 ≡ false
    → (bind_user g c u t d k).0 ≡ g
unfolding bind_user Connections.bind_found
bind_user_unchanged g c u t d k failed = go (lookup c g.connections) failed
  where
    go :
        (o : Option Connection)
        → (Connections.bind_found g c u t d k o).1 ≡ false
        → (Connections.bind_found g c u t d k o).0 ≡ g
    go none e = refl
    go (some x) e = cc

Inv-send_found :
    (g : Gate) (c t : Text) (o : Option (Option Bool)) → Inv g → Inv (Sending.send_found g c t o).0
unfolding Sending.send_found
Inv-send_found g c t none v = v
Inv-send_found g c t (some none) v = v
Inv-send_found g c t (some (some ok)) v = Inv-emit g _ v

Inv-send_serialized :
    (g : Gate) (c : Text) (o : Option Text) → Inv g → Inv (Sending.send_serialized g c o).0
unfolding Sending.send_serialized Sending.send_to_conn
Inv-send_serialized g c none v = v
Inv-send_serialized g c (some t) v = Inv-send_found g c t _ v

Inv-close_found : (g : Gate) (c : Text) (o : Option Bool) → Inv g → Inv (Sending.close_found g c o)
unfolding Sending.close_found
Inv-close_found g c none v = v
Inv-close_found g c (some fn) v = Inv-if fn _ g (Inv-emit g _ v) v

pub Inv-close_connection : (g : Gate) (c : Text) → Inv g → Inv (Sending.close_connection g c)
unfolding Sending.close_connection
Inv-close_connection g c v = Inv-close_found g c _ v

Inv-close_all : (g : Gate) (ids : List Text) → Inv g → Inv (Sending.close_all g ids)
unfolding Sending.close_all
Inv-close_all g [] v = v
Inv-close_all g (c ∷ ids) v =
    Inv-close_all (Sending.close_connection g c) ids (Inv-close_connection g c v)

pub Inv-check_heartbeat : (g : Gate) (now : ℤ) → Inv g → Inv (Sending.check_heartbeat g now)
unfolding Sending.check_heartbeat
Inv-check_heartbeat g now v = Inv-close_all g _ v

module _ (P : Proto) where
  Inv-send_response :
      (g : Gate) (c cmd id : Text) (n : ℤ) (m p : Text)
      → Inv g
      → Inv (Sending.send_response P g c cmd id n m p).0
  unfolding Sending.send_response
  Inv-send_response g c cmd id n m p v = Inv-send_serialized g c _ v

  Inv-push_to_user : (g : Gate) (u cmd p : Text) → Inv g → Inv (Sending.push_to_user P g u cmd p).0
  unfolding Sending.push_to_user
  Inv-push_to_user g u cmd p v = elim (Bool-cases (is_empty (get_conn_id_by_user g u))) [
    | inl away ↦ rw away v
    | inr here ↦ rw here (Inv-send_serialized g _ _ v)
  ]

  pub Inv-push_message :
      (g : Gate) (u cmd p : Text) → Inv g → Inv (Messages.push_message P g u cmd p).0
  unfolding Messages.push_message
  Inv-push_message g u cmd p v = Inv-push_to_user g u _ p v

  Inv-send_error :
      (g : Gate) (c cmd id : Text) (e : ErrorCode)
      → Inv g
      → Inv (Messages.send_error P g c cmd id e)
  unfolding Messages.send_error
  Inv-send_error g c cmd id e v = Inv-send_response g c cmd id _ _ _ v

  Inv-send_result :
      (g : Gate) (c cmd : Text) (r : HandleClientRequestResult)
      → Inv g
      → Inv (Messages.send_result P g c cmd r)
  unfolding Messages.send_result
  Inv-send_result g c cmd r v = Inv-send_response g c cmd _ _ _ _ v

  -- The end of a login: an error if the connection has gone, and the result otherwise.
  Inv-kept_or_done :
      (c cmd id : Text) (e : ErrorCode) (r : HandleClientRequestResult) (bound : Gate × Bool)
      (online : Event) (g : Gate)
      → (bound.1 ≡ false → bound.0 ≡ g)
      → Inv g
      → Inv (emit online bound.0)
      → Inv (
          if not bound.1
          then Messages.send_error P bound.0 c cmd id e
          else Messages.send_result P (emit online bound.0) c cmd r)
  Inv-kept_or_done c cmd id e r (h, true) online g same v done = Inv-send_result _ c cmd r done
  Inv-kept_or_done c cmd id e r (h, false) online g same v done =
      Inv-send_error h c cmd id e (subst Inv (sym (same refl)) v)

  Inv-finish_login :
      (g : Gate) (c id : Text) (r : HandleClientRequestResult) (d : Text × Text)
      (o : Option (Text × Text))
      → Inv g
      → Inv (Messages.finish_login P g c id r d o)
  unfolding Messages.finish_login
  Inv-finish_login g c id r d none v = Inv-send_error g c _ id _ v
  Inv-finish_login g c id r (device, type) (some (u, t)) v =
      elim (Bool-cases (is_empty u || is_empty t)) [
        | inl missing ↦ rw missing (Inv-send_error g c _ id _ v)
        | inr given ↦ rw given (
            Inv-kept_or_done c _ id ErrorCode.internal_error r (bind_user g c u t device type) _ g
              (bind_user_unchanged g c u t device type) v
              (Inv-bind_user g c u t device type (user_online u g.gate_id type device)
                (ground arith) (text_eq_refl u) v))
      ]

  Inv-login_parsed :
      (g : Gate) (c p id : Text) (reply : Reply) (o : Option (Text × Text))
      → Inv g
      → Inv (Messages.login_parsed P g c p id reply o)
  unfolding Messages.login_parsed
  Inv-login_parsed g c p id reply none v = Inv-send_error g c _ id _ v
  Inv-login_parsed g c p id reply (some d) v =
      let asked = Inv-emit g _ v in
      Inv-if _ _ _ (Inv-send_response _ c _ id _ _ _ asked)
        (Inv-if _ _ _ (Inv-send_result _ c _ _ asked) (Inv-finish_login _ c id _ d _ asked))

  Inv-handle_login :
      (g : Gate) (c p id : Text) (reply : Reply)
      → Inv g
      → Inv (Messages.handle_login P g c p id reply)
  unfolding Messages.handle_login
  Inv-handle_login g c p id reply v =
      Inv-if _ _ _ (Inv-send_error g c _ id _ v) (Inv-login_parsed g c p id reply _ v)

  Inv-answer_heartbeat :
      (g : Gate) (c id : Text) (o : Option Text)
      → Inv g
      → Inv (Messages.answer_heartbeat P g c id o)
  unfolding Messages.answer_heartbeat
  Inv-answer_heartbeat g c id none v = v
  Inv-answer_heartbeat g c id (some p) v = Inv-send_response g c _ id _ _ p v

  Inv-handle_heartbeat :
      (g : Gate) (c id : Text) (now time : ℤ)
      → Inv g
      → Inv (Messages.handle_heartbeat P g c id now time)
  unfolding Messages.handle_heartbeat
  Inv-handle_heartbeat g c id now time v =
      Inv-answer_heartbeat _ c id _ (Inv-update_heartbeat g c now v)

  Inv-bind_validated :
      (g : Gate) (c u t : Text) (o : Option Connection)
      → is_empty u ≡ false
      → Inv g
      → Inv (Messages.bind_validated P g c u t o)
  unfolding Messages.bind_validated
  Inv-bind_validated g c u t none user v = Inv-bind_user g c u t [] [] _ user (text_eq_refl u) v
  Inv-bind_validated g c u t (some x) user v =
      Inv-bind_user g c u t x.device_id x.device_type _ user (text_eq_refl u) v

  Inv-after_validate :
      (g : Gate) (c cmd p : Text) (r : HandleClientRequestResult)
      → Inv g
      → Inv (Messages.after_validate P g c cmd p r)
  unfolding Messages.after_validate
  Inv-after_validate g c cmd p r v =
      let u = Messages.parsed_or_empty (P.validate_response r.payload) in
      let t = Messages.parsed_or_empty (P.validate_payload p) in
      let bound : Inv (if not (is_empty u) && not (is_empty t) then _ else g) =
        elim (Bool-cases (not (is_empty u) && not (is_empty t))) [
          | inl given ↦
              rw given
                (Inv-bind_validated g c u t (Connections.get_connection g c) (ground arith) v)
          | inr missing ↦ rw missing v
        ] in
      Inv-if _ _ _ bound v

  Inv-forward_to_zone :
      (g : Gate) (c cmd p id : Text) (reply : Reply)
      → Inv g
      → Inv (Messages.forward_to_zone P g c cmd p id reply)
  unfolding Messages.forward_to_zone
  Inv-forward_to_zone g c cmd p id reply v =
      let asked = Inv-emit g _ v in
      Inv-if _ _ _ (Inv-send_error g c cmd id _ v) (
        Inv-if _ _ _ (Inv-send_response _ c cmd id _ _ _ asked)
          (Inv-send_result _ c cmd _ (Inv-after_validate _ c cmd p _ asked)))

  Inv-handle_client_message :
      (g : Gate) (c cmd p id : Text) (now time : ℤ) (reply : Reply)
      → Inv g
      → Inv (Messages.handle_client_message P g c cmd p id now time reply)
  unfolding Messages.handle_client_message
  Inv-handle_client_message g c cmd p id now time reply v =
      let forwarded = Inv-forward_to_zone g c cmd p id reply v in
      Inv-if _ _ _ (Inv-handle_login g c p id reply v) (
        Inv-if (text_eq cmd (codes "auth.register")) _ _ forwarded (
          Inv-if (text_eq cmd (codes "heartbeat")) _ _ (Inv-handle_heartbeat g c id now time v) (
            Inv-if (text_eq cmd (codes "auth.logout") || text_eq cmd (codes "auth.validate_token"))
              _ _ forwarded
              (Inv-if (Messages.is_business cmd) _ _ forwarded
                (Inv-send_error g c cmd id ErrorCode.unsupported v)))))

  Inv-message_parsed :
      (g : Gate) (c : Text) (now time : ℤ) (reply : Reply) (o : Option (Text × Text × Text))
      → Inv g
      → Inv (Messages.message_parsed P g c now time reply o)
  unfolding Messages.message_parsed
  Inv-message_parsed g c now time reply none v = v
  Inv-message_parsed g c now time reply (some (cmd, p, id)) v =
      Inv-handle_client_message g c cmd p id now time reply v

  pub Inv-on_message :
      (g : Gate) (c t : Text) (now time : ℤ) (reply : Reply)
      → Inv g
      → Inv (Messages.on_message P g c t now time reply)
  unfolding Messages.on_message
  Inv-on_message g c t now time reply v = Inv-message_parsed g c now time reply _ v

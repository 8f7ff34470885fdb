-- ===== src/Gate/Identity/Frames.antt =====
-- The frames of clients: who is logged in after one.
use swift_chat_system.Common.{
  ◌≡◌, refl, sym, ap, ◌∙◌, ◌⊎◌, inl, inr, true, false, not, ◌&&◌, ◌||◌, Option, none, some, [],
  arith, Bool-cases,
}
use swift_chat_system.Common.Int.{ℤ, pos, eq_ℤ, eq_ℤ_iff}
use swift_chat_system.Common.Text.{Text, codes, text_eq, is_empty, text_eq_iff}
use swift_chat_system.ErrorCode.{ErrorCode, error_code_to_int}
use swift_chat_system.Gate.State.{Connection, client_request, user_online, Gate}
use swift_chat_system.Gate.Zone.{Reply, result_of, is_answered, Proto}
use swift_chat_system.Gate.Connections
use swift_chat_system.Gate.Connections.{emit, bind_user, bind_found, bound_connection}
use swift_chat_system.Gate.Messages
use swift_chat_system.Gate.Invariant.{user_of}
use swift_chat_system.Gate.Identity.{
  Confirms, Grants, Grants-bind_user, Grants-emit, Grants-if, Grants-refl, Grants-same,
  Grants-send_error, Grants-send_response, Grants-send_result, confirmed, nonempty_parsed,
  user_of-update_heartbeat,
}

module _ (P : Proto) (cmd : Text) (reply : Reply) (c : Text) where
  module _ (g : Gate) (id : Text) (answered : is_answered reply ≡ true)
      (ok : (result_of id reply).code ≡ pos 0) where
    Grants-finish_login :
        (login : cmd ≡ codes "auth.login") (h : Gate) (k : Text × Text) (o : Option (Text × Text))
        → h.connections ≡ g.connections
        → P.login_response (result_of id reply).payload ≡ o
        → Grants P cmd reply c g (Messages.finish_login P h c id (result_of id reply) k o)
    unfolding Messages.finish_login
    Grants-finish_login login h k none same parsed =
        Grants-send_error P cmd reply c g h (Grants-same P cmd reply c g h same) _ id _
    Grants-finish_login login h (dev, typ) (some (w, t)) same parsed =
        let bound = bind_user h c w t dev typ in
        let online = emit (user_online w h.gate_id typ dev) bound.0 in
        let before : Grants P cmd reply c g h = Grants-same P cmd reply c g h same in
        let granted : Grants P cmd reply c g bound.0 =
          Grants-bind_user P cmd reply c g h w t dev typ before (λ u names user.
            confirmed P cmd reply id u answered ok
              (inl (login, (t, parsed ∙ ap (λ x. some (x, t)) names)))) in
        Grants-if P cmd reply c g (is_empty w || is_empty t) _ _
          (Grants-send_error P cmd reply c g h before _ id _)
          (Grants-if P cmd reply c g (not bound.1) _ _
            (Grants-send_error P cmd reply c g bound.0 granted _ id _)
            (Grants-send_result P cmd reply c g online
              (Grants-emit P cmd reply c g bound.0 _ granted) _ _))

    named :
        (asked : cmd ≡ codes "auth.validate_token") (w : Text)
        → Messages.parsed_or_empty (P.validate_response (result_of id reply).payload) ≡ w
        → (u : Text) → w ≡ u
        → is_empty u ≡ false
        → Confirms P cmd reply u
    named asked w parsed u names user =
        confirmed P cmd reply id u answered ok
          (inr (asked, nonempty_parsed _ u (parsed ∙ names) user))

    Grants-bind_validated :
        (asked : cmd ≡ codes "auth.validate_token") (h : Gate) (w t : Text) (o : Option Connection)
        → h.connections ≡ g.connections
        → Messages.parsed_or_empty (P.validate_response (result_of id reply).payload) ≡ w
        → Grants P cmd reply c g (Messages.bind_validated P h c w t o)
    unfolding Messages.bind_validated
    Grants-bind_validated asked h w t none same parsed = Grants-emit P cmd reply c g _ _ (
        Grants-bind_user P cmd reply c g h w t [] [] (Grants-same P cmd reply c g h same)
          (named asked w parsed))
    Grants-bind_validated asked h w t (some x) same parsed = Grants-emit P cmd reply c g _ _ (
        Grants-bind_user P cmd reply c g h w t x.device_id x.device_type
          (Grants-same P cmd reply c g h same) (named asked w parsed))

  Grants-after_validate :
      (g h : Gate) (p id : Text)
      → is_answered reply ≡ true
      → h.connections ≡ g.connections
      → Grants P cmd reply c g (Messages.after_validate P h c cmd p (result_of id reply))
  unfolding Messages.after_validate error_code_to_int
  Grants-after_validate g h p id answered same =
      let r = result_of id reply in
      let u = Messages.parsed_or_empty (P.validate_response r.payload) in
      let t = Messages.parsed_or_empty (P.validate_payload p) in
      let asked =
        text_eq cmd (codes "auth.validate_token") && eq_ℤ r.code (Messages.code_of ErrorCode.ok) in
      elim (Bool-cases asked) [
        | inr other ↦ rw other (Grants-same P cmd reply c g h same)
        | inl validated ↦ rw validated (
            Grants-if P cmd reply c g (not (is_empty u) && not (is_empty t)) _ _
              (Grants-bind_validated g id answered (ground (arith, eq_ℤ_iff r.code (pos 0)))
                (ground (arith, text_eq_iff cmd (codes "auth.validate_token"))) h u t _ same refl)
              (Grants-same P cmd reply c g h same))
      ]

  Grants-forward_to_zone :
      (g : Gate) (p id : Text)
      → Grants P cmd reply c g (Messages.forward_to_zone P g c cmd p id reply)
  unfolding Messages.forward_to_zone
  Grants-forward_to_zone g p id =
      let who = Messages.identity (Connections.get_connection g c) in
      let asked = emit (client_request c who.0 cmd p id who.1) g in
      let before = Grants-same P cmd reply c g asked refl in
      Grants-if P cmd reply c g (not g.has_zone) _ _
        (Grants-send_error P cmd reply c g g (Grants-refl P cmd reply c g) cmd id _)
        (elim (Bool-cases (is_answered reply)) [
          | inr missing ↦
              rw missing (Grants-send_response P cmd reply c g asked before cmd id _ _ _)
          | inl answered ↦ rw answered (
              Grants-send_result P cmd reply c g _
                (Grants-after_validate g asked p id answered refl) cmd _)
        ])

  Grants-login_parsed :
      (login : cmd ≡ codes "auth.login") (g : Gate) (p id : Text) (o : Option (Text × Text))
      → Grants P cmd reply c g (Messages.login_parsed P g c p id reply o)
  unfolding Messages.login_parsed error_code_to_int
  Grants-login_parsed login g p id none =
      Grants-send_error P cmd reply c g g (Grants-refl P cmd reply c g) _ id _
  Grants-login_parsed login g p id (some k) =
      let r = result_of id reply in
      let asked = emit (client_request c [] (codes "auth.login") p id []) g in
      let before = Grants-same P cmd reply c g asked refl in
      elim (Bool-cases (is_answered reply)) [
        | inr missing ↦ rw missing (Grants-send_response P cmd reply c g asked before _ id _ _ _)
        | inl answered ↦ rw answered (elim (Bool-cases (eq_ℤ r.code (pos 0))) [
          | inr refused ↦ rw refused (Grants-send_result P cmd reply c g asked before _ r)
          | inl ok ↦ rw ok (
              Grants-finish_login g id answered ((eq_ℤ_iff r.code (pos 0)).0 ok) login asked k _
                refl refl)
        ])
      ]

  Grants-answer_heartbeat :
      (g h : Gate) (id : Text) (o : Option Text)
      → Grants P cmd reply c g h
      → Grants P cmd reply c g (Messages.answer_heartbeat P h c id o)
  unfolding Messages.answer_heartbeat
  Grants-answer_heartbeat g h id none k = k
  Grants-answer_heartbeat g h id (some p) k = Grants-send_response P cmd reply c g h k _ id _ _ p

  Grants-handle_heartbeat :
      (g : Gate) (id : Text) (now time : ℤ)
      → Grants P cmd reply c g (Messages.handle_heartbeat P g c id now time)
  unfolding Messages.handle_heartbeat
  Grants-handle_heartbeat g id now time =
      Grants-answer_heartbeat g (Connections.update_heartbeat g c now) id _
        (record { from = λ d u user owns. inl (sym (user_of-update_heartbeat g c now d) ∙ owns) })

  Grants-handle_client_message :
      (g : Gate) (p id : Text) (now time : ℤ)
      → Grants P cmd reply c g (Messages.handle_client_message P g c cmd p id now time reply)
  unfolding Messages.handle_client_message Messages.handle_login
  Grants-handle_client_message g p id now time =
      let refused = Grants-send_error P cmd reply c g g (Grants-refl P cmd reply c g) in
      let forwarded = Grants-forward_to_zone g p id in
      elim (Bool-cases (text_eq cmd (codes "auth.login"))) [
        | inl login ↦ rw login (
            Grants-if P cmd reply c g (not g.has_zone) _ _ (refused _ id _)
              (Grants-login_parsed ((text_eq_iff cmd (codes "auth.login")).0 login) g p id _))
        | inr other ↦ rw other (
            Grants-if P cmd reply c g (text_eq cmd (codes "auth.register")) _ _ forwarded (
              Grants-if P cmd reply c g (text_eq cmd (codes "heartbeat")) _ _
                (Grants-handle_heartbeat g id now time)
                (Grants-if P cmd reply c g
                  (text_eq cmd (codes "auth.logout") || text_eq cmd (codes "auth.validate_token")) _
                  _ forwarded
                  (Grants-if P cmd reply c g (Messages.is_business cmd) _ _ forwarded
                    (refused cmd id _)))))
      ]

module _ (P : Proto) (reply : Reply) (c : Text) where
  -- The frame is a request whose answer confirms the user.
  abbrev pub IsLoggedInBy : Text → Text → Type 0
  IsLoggedInBy frame u =
      (cmd : Text) × (p : Text) × (id : Text) × (P.client_message frame ≡ some (cmd, p, id))
      × Confirms P cmd reply u

  user_of-message_parsed :
      (g : Gate) (frame : Text) (now time : ℤ) (o : Option (Text × Text × Text)) (d u : Text)
      → P.client_message frame ≡ o
      → is_empty u ≡ false
      → user_of (Messages.message_parsed P g c now time reply o) d ≡ some u
      → (user_of g d ≡ some u) ⊎ ((d ≡ c) × IsLoggedInBy frame u)
  unfolding Messages.message_parsed
  user_of-message_parsed g frame now time none d u read user owns = inl owns
  user_of-message_parsed g frame now time (some (cmd, p, id)) d u read user owns =
      let grants = Grants-handle_client_message P cmd reply c g p id now time in
      elim (grants.from d u user owns) [
        | inl old ↦ inl old
        | inr (at, confirms) ↦ inr (at, (cmd, p, id, read, confirms))
      ]

  -- Whatever frame a connection sends, afterwards each connection with a user had that user before,
  -- or it is the connection of the frame, the frame is a login or asks for the validation of a
  -- token, and ZoneSvr answered that with the code for success and an answer that names the user.
  pub user_of-on_message :
      (g : Gate) (frame : Text) (now time : ℤ) (d u : Text)
      → is_empty u ≡ false
      → user_of (Messages.on_message P g c frame now time reply) d ≡ some u
      → (user_of g d ≡ some u) ⊎ ((d ≡ c) × IsLoggedInBy frame u)
  unfolding Messages.on_message
  user_of-on_message g frame now time d u user owns =
      user_of-message_parsed g frame now time (P.client_message frame) d u refl user owns

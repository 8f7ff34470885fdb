-- ===== src/Gate/History/Routes.antt =====
-- The routes of a gate in every state that it reaches.
use swift_chat_system.Common.{
  ◌≡◌, ◌≢◌, Option-cases, ap, sym, ◌∷◌, refl, Bool, true, false, not, Option, none, some, [], arith,
  inl, inr, if◌then◌else◌,
}
use swift_chat_system.Common.Int.{ℤ}
use swift_chat_system.Common.Text.{Text, is_empty, text_eq_refl}
use swift_chat_system.Common.Dict.{lookup, erase, lookup-erase}
use swift_chat_system.Gate.State.{sent, Gate, Connection}
use swift_chat_system.Gate.Zone.{Proto}
use swift_chat_system.Gate.Connections.{
  set_send_callback, set_close_callback, remove_send_callback, remove_close_callback,
  add_connection, get_conn_id_by_user, remove_found, remove_connection, notify_user_offline,
}
use swift_chat_system.Gate.Sending.{
  close_connection, pushed_message, push_to_user, send_serialized, send_to_conn, send_found,
}
use swift_chat_system.Gate.Messages.{
  disconnect_user, register_gate, send_heartbeat, on_accept, close_session,
}
use swift_chat_system.Gate.Invariant.{Inv, user_of, was_announced}
use swift_chat_system.Gate.Invariant.Tables.{
  Inv-if, Inv-emit, Inv-add_connection, Inv-remove_connection, Inv-callbacks, Inv-unbind_user,
}
use swift_chat_system.Gate.Invariant.Messages.{
  Inv-close_connection, Inv-check_heartbeat, Inv-push_message, Inv-on_message,
}
use swift_chat_system.Gate.History.{
  Step, accept, message, close, heartbeat_timer, push, disconnect, unbind, register, beat, Reach,
  here, next,
}

-- A gate before its first session.
abbrev pub IsIdle : Gate → Type 0
IsIdle g = (g.connections ≡ []) × (g.user_to_conn ≡ [])

idle-Inv : (g : Gate) → IsIdle g → Inv g
unfolding lookup
idle-Inv g (c, u) = record { routed = λ w d e. cc; named = λ w d e. cc; announced = λ w d e k. cc }

Inv-on_accept :
    (g : Gate) (c : Text) (now : ℤ)
    → lookup c g.connections ≡ none
    → Inv g
    → Inv (on_accept g c now)
unfolding on_accept set_send_callback set_close_callback
Inv-on_accept g c now new v =
    Inv-callbacks (add_connection g c now) _ _ (Inv-add_connection g c now new v)

Inv-close_session : (g : Gate) (c : Text) → Inv g → Inv (close_session g c)
unfolding close_session remove_send_callback remove_close_callback
Inv-close_session g c v =
    Inv-remove_connection _ c
      (Inv-callbacks g (erase c g.send_callbacks) (erase c g.close_callbacks) v)

Inv-disconnect_user : (g : Gate) (u : Text) → Inv g → Inv (disconnect_user g u).0
unfolding disconnect_user
Inv-disconnect_user g u v =
    Inv-if (not (is_empty (get_conn_id_by_user g u))) (close_connection g (get_conn_id_by_user g u))
      g (Inv-close_connection g _ v) v

Inv-if_fst {ℓ} :
    {A : Type ℓ} (b : Bool) (x y : Gate × A) → Inv x.0 → Inv y.0 → Inv (if b then x else y).0
Inv-if_fst true x y h k = h
Inv-if_fst false x y h k = k

Inv-register_gate : (g : Gate) (a : Text) (ok : Bool) → Inv g → Inv (register_gate g a ok).0
unfolding register_gate
Inv-register_gate g a ok v = Inv-if_fst (not g.has_zone) _ _ v (Inv-emit g _ v)

Inv-send_heartbeat : (g : Gate) (ok : Bool) → Inv g → Inv (send_heartbeat g ok).0
unfolding send_heartbeat
Inv-send_heartbeat g ok v = Inv-if_fst (not g.has_zone) _ _ v (Inv-emit g _ v)

-- A frame that was sent is the newest event.
send_found-sent :
    (g h : Gate) (c t : Text) (o : Option (Option Bool))
    → send_found g c t o ≡ (h, true)
    → h.events ≡ sent c t ∷ g.events
unfolding send_found
send_found-sent g h c t none e = cc
send_found-sent g h c t (some none) e = cc
send_found-sent g h c t (some (some ok)) e = sym (ap (λ (x : Gate × Bool). x.0.events) e)

send_serialized-sent :
    (g h : Gate) (c : Text) (o : Option Text)
    → send_serialized g c o ≡ (h, true)
    → (frame : Text) × (h.events ≡ sent c frame ∷ g.events)
unfolding send_serialized send_to_conn
send_serialized-sent g h c none e = cc
send_serialized-sent g h c (some t) e = (t, send_found-sent g h c t (lookup c g.send_callbacks) e)

-- What RemoveConnection takes away, and what it leaves.
remove_found-tables :
    (g : Gate) (c : Text) (o : Option Connection)
    → lookup c g.connections ≡ o
    → (lookup c (remove_found g c o).connections ≡ none)
      × ((remove_found g c o).send_callbacks ≡ g.send_callbacks)
      × ((remove_found g c o).close_callbacks ≡ g.close_callbacks)
unfolding remove_found notify_user_offline
remove_found-tables g c none found = (found, refl, refl)
remove_found-tables g c (some x) found =
    (ground (arith, lookup-erase c c g.connections, text_eq_refl c), ground arith, ground arith)

lookup-close_session :
    (g : Gate) (c : Text)
    → (lookup c (close_session g c).connections ≡ none)
      × (lookup c (close_session g c).send_callbacks ≡ none)
      × (lookup c (close_session g c).close_callbacks ≡ none)
unfolding close_session remove_connection remove_send_callback remove_close_callback
lookup-close_session g c =
    let closed = remove_send_callback (remove_close_callback g c) c in
    let (gone, sends, closes) = remove_found-tables closed c (lookup c g.connections) refl in
    (
      gone,
      ground (arith, ap (lookup c) sends, lookup-erase c c g.send_callbacks, text_eq_refl c),
      ground (arith, ap (lookup c) closes, lookup-erase c c g.close_callbacks, text_eq_refl c),
    )

module _ (P : Proto) where
  pub Inv-Step : (g h : Gate) → Step P g h → Inv g → Inv h
  Inv-Step _ _ (accept g c now new) v = Inv-on_accept g c now new v
  Inv-Step _ _ (message g c frame now time reply) v = Inv-on_message P g c frame now time reply v
  Inv-Step _ _ (close g c) v = Inv-close_session g c v
  Inv-Step _ _ (heartbeat_timer g now) v = Inv-check_heartbeat g now v
  Inv-Step _ _ (push g u cmd p) v = Inv-push_message P g u cmd p v
  Inv-Step _ _ (disconnect g u) v = Inv-disconnect_user g u v
  Inv-Step _ _ (unbind g u) v = Inv-unbind_user g u v
  Inv-Step _ _ (register g a ok) v = Inv-register_gate g a ok v
  Inv-Step _ _ (beat g ok) v = Inv-send_heartbeat g ok v

  pub Inv-Reach : (s g : Gate) → Reach P s g → Inv s → Inv g
  Inv-Reach s _ here v = v
  Inv-Reach s _ (next {g} {h} r t) v = Inv-Step g h t (Inv-Reach s g r v)

  -- PushToUser reaches the user and nobody else: in a state that a gate reaches from before its
  -- first session, a push that returns true sends one frame, to a connection of that user.
  pub push_to_user-user_of :
      (s g h : Gate) (u cmd p : Text)
      → IsIdle s
      → Reach P s g
      → push_to_user P g u cmd p ≡ (h, true)
      → (c : Text) × (frame : Text) × (h.events ≡ sent c frame ∷ g.events) × (user_of g c ≡ some u)
  unfolding push_to_user get_conn_id_by_user
  push_to_user-user_of s g h u cmd p idle r e =
      let v = Inv-Reach s g r (idle-Inv s idle) in
      elim (Option-cases (lookup u g.user_to_conn)) [
        | inl away ↦ absurd (ground arith)
        | inr (c, route) ↦
            let message = P.server_message (pushed_message cmd p) in
            let done : send_serialized g c message ≡ (h, true) = ground arith in
            let (frame, newest) = send_serialized-sent g h c message done in
            (c, frame, newest, v.routed u c route)
      ]

  -- Nobody is logged in unannounced: in a state that a gate reaches from before its first session,
  -- the user of a connection, if it has one, was announced to ZoneSvr.
  pub user_of-was_announced :
      (s g : Gate) (u c : Text)
      → IsIdle s
      → Reach P s g
      → user_of g c ≡ some u
      → is_empty u ≡ false
      → was_announced u g.events ≡ true
  user_of-was_announced s g u c idle r = (Inv-Reach s g r (idle-Inv s idle)).announced u c

  -- A session that has closed leaves nothing behind: in a state that a gate reaches from before its
  -- first session, Close takes away the connection, both callbacks, and every route to it.
  pub close_session-gone :
      (s g : Gate) (c u : Text)
      → IsIdle s
      → Reach P s g
      → (lookup c (close_session g c).connections ≡ none)
        × (lookup c (close_session g c).send_callbacks ≡ none)
        × (lookup c (close_session g c).close_callbacks ≡ none)
        × (lookup u (close_session g c).user_to_conn ≢ some c)
  close_session-gone s g c u idle r =
      let gone = lookup-close_session g c in
      let v = Inv-close_session g c (Inv-Reach s g r (idle-Inv s idle)) in
      (gone.0, gone.1, gone.2, λ route. ground (arith, v.routed u c route, gone.0))

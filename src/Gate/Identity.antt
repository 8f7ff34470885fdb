-- ===== src/Gate/Identity.antt =====
-- Where the user of a connection comes from: an answer of ZoneSvr to a request of that connection.
pub mod Frames
use swift_chat_system.Common.{
  ◌≡◌, refl, sym, ap, ◌∙◌, ◌⊎◌, inl, inr, Bool, true, false, not, ◌&&◌, ◌||◌, Option, none, some,
  [], if◌then◌else◌, arith, Bool-cases, Option-cases,
}
use swift_chat_system.Common.Int.{ℤ, pos, eq_ℤ, eq_ℤ_iff}
use swift_chat_system.Common.Text.{Text, codes, text_eq, is_empty, text_eq_iff}
use swift_chat_system.Common.Dict.{Dict, lookup, insert, lookup-insert}
use swift_chat_system.ErrorCode.{ErrorCode, error_code_to_int}
use swift_chat_system.Gate.State.{Connection, Event, client_request, user_online, Gate}
use swift_chat_system.Gate.Zone.{
  Reply, response, HandleClientRequestResult, result_of, is_answered, no_stub, failed, Proto,
}
use swift_chat_system.Gate.Connections
use swift_chat_system.Gate.Connections.{emit, bind_user, bind_found, bound_connection}
use swift_chat_system.Gate.Sending
use swift_chat_system.Gate.Messages
use swift_chat_system.Gate.Invariant.{user_of, owner}

-- Sends leave the connections alone.
connections-send_found :
    (g : Gate) (c t : Text) (o : Option (Option Bool))
    → (Sending.send_found g c t o).0.connections ≡ g.connections
unfolding Sending.send_found
connections-send_found g c t none = refl
connections-send_found g c t (some none) = refl
connections-send_found g c t (some (some ok)) = refl

connections-send_serialized :
    (g : Gate) (c : Text) (o : Option Text)
    → (Sending.send_serialized g c o).0.connections ≡ g.connections
unfolding Sending.send_serialized Sending.send_to_conn
connections-send_serialized g c none = refl
connections-send_serialized g c (some t) = connections-send_found g c t (lookup c g.send_callbacks)

-- BindUser gives the user to the one connection, if it is there.
user_of-bind_found :
    (g : Gate) (c u t k l : Text) (o : Option Connection) (d w : Text)
    → user_of (bind_found g c u t k l o).0 d ≡ some w
    → (user_of g d ≡ some w) ⊎ ((d ≡ c) × (u ≡ w))
unfolding bind_found
user_of-bind_found g c u t k l none d w owns = inl owns
user_of-bind_found g c u t k l (some x) d w owns =
    ground (arith, lookup-insert d c (bound_connection x u t k l) g.connections, text_eq_iff c d)

pub user_of-bind_user :
    (g : Gate) (c u t k l d w : Text)
    → user_of (bind_user g c u t k l).0 d ≡ some w
    → (user_of g d ≡ some w) ⊎ ((d ≡ c) × (u ≡ w))
unfolding bind_user
user_of-bind_user g c u t k l d w owns =
    user_of-bind_found g c u t k l (lookup c g.connections) d w owns

user_of-beat_found :
    (g : Gate) (c : Text) (now : ℤ) (o : Option Connection) (d : Text)
    → lookup c g.connections ≡ o
    → user_of (Connections.beat_found g c now o) d ≡ user_of g d
unfolding Connections.beat_found
user_of-beat_found g c now none d found = refl
user_of-beat_found g c now (some x) d found =
    ground
      (arith, lookup-insert d c (record x { last_heartbeat = now }) g.connections, text_eq_iff c d)

pub user_of-update_heartbeat :
    (g : Gate) (c : Text) (now : ℤ) (d : Text)
    → user_of (Connections.update_heartbeat g c now) d ≡ user_of g d
unfolding Connections.update_heartbeat
user_of-update_heartbeat g c now d = user_of-beat_found g c now _ d refl

-- ZoneSvr answered a request of the command with the code for success, and the answer names the
-- user: the command is a login, and the answer one to a login, or the validation of a token.
abbrev pub Confirms : Proto → Text → Reply → Text → Type 0
Confirms P cmd reply u =
    (message : Text) × (payload : Text) × (id : Text) × (reply
      ≡ response (pos 0) message payload id)
    × (((cmd ≡ codes "auth.login") × ((t : Text) × (P.login_response payload ≡ some (u, t))))
        ⊎ ((cmd ≡ codes "auth.validate_token") × (P.validate_response payload ≡ some u)))

pub confirmed :
    (P : Proto) (cmd : Text) (reply : Reply) (id u : Text)
    → is_answered reply ≡ true
    → (result_of id reply).code ≡ pos 0
    → ((cmd ≡ codes "auth.login")
        × ((t : Text) × (P.login_response (result_of id reply).payload ≡ some (u, t))))
      ⊎ ((cmd ≡ codes "auth.validate_token")
          × (P.validate_response (result_of id reply).payload ≡ some u))
    → Confirms P cmd reply u
confirmed P cmd no_stub id u answered ok named = cc
confirmed P cmd (failed m) id u answered ok named = cc
confirmed P cmd (response n m p i) id u answered ok named =
    (m, p, i, ap (λ a. response a m p i) ok, named)

pub nonempty_parsed :
    (o : Option Text) (u : Text) → Messages.parsed_or_empty o ≡ u → is_empty u ≡ false → o ≡ some u
nonempty_parsed none u e user = cc
nonempty_parsed (some w) u e user = ap (λ x. some x) e

module _ (P : Proto) (cmd : Text) (reply : Reply) (c : Text) where
  -- Each user of a connection of `h` was its user in `g`, or is confirmed for the connection `c`
  -- by the answer to its command.
  pub record Grants (g h : Gate) : Type 0 where
    pub from :
        (d u : Text)
        → is_empty u ≡ false
        → user_of h d ≡ some u
        → (user_of g d ≡ some u) ⊎ ((d ≡ c) × Confirms P cmd reply u)

  pub Grants-after : (g h h' : Gate) → h'.connections ≡ h.connections → Grants g h → Grants g h'
  Grants-after g h h' e k = record {
    from = λ d u user owns. k.from d u user (ap (λ cs. owner (lookup d cs)) (sym e) ∙ owns);
  }

  pub Grants-refl : (g : Gate) → Grants g g
  Grants-refl g = record { from = λ d u user owns. inl owns }

  pub Grants-same : (g h : Gate) → h.connections ≡ g.connections → Grants g h
  Grants-same g h e = Grants-after g g h e (Grants-refl g)

  pub Grants-if :
      (g : Gate) (b : Bool) (x y : Gate) → Grants g x → Grants g y → Grants g (if b then x else y)
  Grants-if g true x y h k = h
  Grants-if g false x y h k = k

  pub Grants-emit : (g h : Gate) (e : Event) → Grants g h → Grants g (emit e h)
  Grants-emit g h e k = Grants-after g h (emit e h) refl k

  -- A bind of a confirmed user.
  pub Grants-bind_user :
      (g h : Gate) (w t dev typ : Text)
      → Grants g h
      → ((u : Text) → w ≡ u → is_empty u ≡ false → Confirms P cmd reply u)
      → Grants g (bind_user h c w t dev typ).0
  Grants-bind_user g h w t dev typ k named = record {
    from = λ d u user owns. elim (user_of-bind_user h c w t dev typ d u owns) [
      | inl old ↦ k.from d u user old
      | inr (at, names) ↦ inr (at, named u names user)
    ];
  }

  module _ (g h : Gate) (k : Grants g h) where
    pub Grants-send_response :
        (to id : Text) (n : ℤ) (m p : Text) → Grants g (Sending.send_response P h c to id n m p).0
    unfolding Sending.send_response
    Grants-send_response to id n m p =
        Grants-after g h (Sending.send_serialized h c _).0 (connections-send_serialized h c _) k

    pub Grants-send_error :
        (to id : Text) (e : ErrorCode) → Grants g (Messages.send_error P h c to id e)
    unfolding Messages.send_error
    Grants-send_error to id e = Grants-send_response to id _ _ _

    pub Grants-send_result :
        (to : Text) (r : HandleClientRequestResult) → Grants g (Messages.send_result P h c to r)
    unfolding Messages.send_result
    Grants-send_result to r = Grants-send_response to _ _ _ _

-- ===== src/Zone/Routing.antt =====
-- Where a message to a user goes.
use swift_chat_system.Common.{
  ◌≡◌, refl, ◌∙◌, true, false, ◌&&◌, Option, none, some, [], ◌∷◌, ◌++◌, if◌then◌else◌, arith,
  Option-cases, Bool-cases, inl, inr,
}
use swift_chat_system.Common.Int.{ℤ}
use swift_chat_system.Common.Text.{Text, text_eq, text_eq_iff, text_eq_refl, is_empty}
use swift_chat_system.Common.Dict.{lookup, insert, lookup-insert, lookup-erase}
use swift_chat_system.Zone.Store.{UserSession, GateNode}
use swift_chat_system.Zone.Memory.{Tables, memory_store}
use swift_chat_system.Zone.Memory
use swift_chat_system.Zone.Gates.{Gates, IsLawful, Push}
use swift_chat_system.Zone.Service.{
  Links, online_found, user_online, user_offline, connect_gate, client_found,
  get_or_create_gate_client, push_by, push_to_gate, route_found, route_to_user,
}

module _ (G : Gates) (law : IsLawful G) where
  -- Every client of the map is connected to the address that it is kept under.
  abbrev pub IsLinked : Links G → Type 0
  IsLinked l = (a : Text) (c : G.Client) → lookup a l.gate_clients ≡ some c → G.address c ≡ a

  -- What a call leaves that looks for a client of an address.
  record Linked (l : Links G) (a : Text) (r : Links G × Option G.Client) : Type 0 where
    linked : IsLinked r.0
    same : (b : Text) → G.acknowledged r.0.net b ≡ G.acknowledged l.net b
    own : (c : G.Client) → r.1 ≡ some c → G.address c ≡ a

  connect_gate-Linked : (l : Links G) (a : Text) → IsLinked l → Linked l a (connect_gate G l a)
  unfolding connect_gate
  connect_gate-Linked l a linked = elim (Option-cases (G.connect l.net a).1) [
    | inl failed ↦
        rw (failed, connect_gate)
          (record {
            linked = linked;
            same = λ b. law.acknowledged-connect l.net a b;
            own = λ c e. absurd (ground arith);
          })
    | inr (c, made) ↦
        let at : G.address c ≡ a = law.address-connect l.net a c made in
        rw (made, connect_gate)
          (record {
            linked = λ b d found. elim (Bool-cases (text_eq a b)) [
              | inl hit ↦ ground (arith, at, lookup-insert b a c l.gate_clients, text_eq_iff a b)
              | inr miss ↦ linked b d (ground (arith, lookup-insert b a c l.gate_clients))
            ];
            same = λ b. law.acknowledged-connect l.net a b;
            own = λ d e. ground (arith, at);
          })
  ]

  client_found-Linked :
      (l : Links G) (a : Text)
      → IsLinked l
      → Linked l a (client_found G l a (lookup a l.gate_clients))
  unfolding client_found
  client_found-Linked l a linked = elim (Option-cases (lookup a l.gate_clients)) [
    | inl missing ↦ rw (missing, client_found) (connect_gate-Linked l a linked)
    | inr (c, there) ↦
        let cut : Links G = record l { net = G.disconnect l.net c } in
        let again = connect_gate-Linked cut a linked in
        elim (Bool-cases (G.is_connected l.net c)) [
          | inl up ↦
              rw (there, client_found, up)
                (record {
                  linked = linked;
                  same = λ b. refl;
                  own = λ d e. linked a d (ground (arith, there));
                })
          | inr down ↦
              rw (there, client_found, down)
                (record {
                  linked = again.linked;
                  same = λ b. again.same b ∙ law.acknowledged-disconnect l.net c b;
                  own = again.own;
                })
        ]
  ]

  get_or_create_gate_client-Linked :
      (l : Links G) (a : Text) → IsLinked l → Linked l a (get_or_create_gate_client G l a)
  unfolding get_or_create_gate_client
  get_or_create_gate_client-Linked l a linked = elim (Bool-cases (is_empty a)) [
    | inl missing ↦
        rw missing
          (record { linked = linked; same = λ b. refl; own = λ c e. absurd (ground arith) })
    | inr given ↦ rw given (client_found-Linked l a linked)
  ]

  push_by-acknowledged :
      (l : Links G) (a : Text) (p : Push) (r : Links G × Option G.Client)
      → Linked l a r
      → IsLinked (push_by G r p).0
        × ((b : Text)
            → G.acknowledged (push_by G r p).0.net b ≡ (
                if (push_by G r p).1 && text_eq a b
                then G.acknowledged l.net b ++ p ∷ []
                else G.acknowledged l.net b))
  unfolding push_by
  push_by-acknowledged l a p (m, none) k = (k.linked, λ b. k.same b)
  push_by-acknowledged l a p (m, some c) k = (
    k.linked,
    λ b. ground (arith, law.acknowledged-push_message m.net c p b, k.own c refl, k.same b),
  )

  -- A push that is delivered is acknowledged by the gate at the address, and by no other.
  push_to_gate-acknowledged :
      (l : Links G) (a : Text) (p : Push)
      → IsLinked l
      → IsLinked (push_to_gate G l a p).0
        × ((b : Text)
            → G.acknowledged (push_to_gate G l a p).0.net b ≡ (
                if (push_to_gate G l a p).1 && text_eq a b
                then G.acknowledged l.net b ++ p ∷ []
                else G.acknowledged l.net b))
  unfolding push_to_gate
  push_to_gate-acknowledged l a p linked =
      push_by-acknowledged l a p (get_or_create_gate_client G l a)
        (get_or_create_gate_client-Linked l a linked)

  -- With the store in memory, a user comes online at a gate that has registered. RouteToUser then
  -- answers that the user is online at this gate; the gate at the address that was registered has
  -- acknowledged the push if it was delivered; no other gate gets it; and the clients stay at
  -- their addresses. The clients of the map are at the addresses that they are kept under.
  pub route_to_user-user_online :
      (t : Tables) (l : Links G) (n : GateNode) (u g device_type device_id cmd payload : Text)
      (now : ℤ)
      → IsLinked l
      → Memory.get_gate t g ≡ some n
      → let p : Push = record { user_id = u; cmd = cmd; payload = payload } in
        let online = user_online memory_store t u g device_type device_id now in
        let routed = route_to_user memory_store G online.0 l p in
        (routed.1.user_online ≡ true)
        × (routed.1.gate_id ≡ g)
        × ((b : Text)
            → G.acknowledged routed.0.net b ≡ (
                if routed.1.delivered && text_eq n.address b
                then G.acknowledged l.net b ++ p ∷ []
                else G.acknowledged l.net b))
        × IsLinked routed.0
  unfolding user_online online_found route_to_user route_found Memory.set_online Memory.get_session
  route_to_user-user_online t l n u g device_type device_id cmd payload now linked there =
      let x : UserSession = record {
        user_id = u;
        gate_id = g;
        gate_addr = n.address;
        device_type = device_type;
        device_id = device_id;
        online_at = now;
        last_active_at = now;
      } in
      let p : Push = record { user_id = u; cmd = cmd; payload = payload } in
      let (linked', sent) = push_to_gate-acknowledged l n.address p linked in
      let sent_at : (b : Text)
          → G.acknowledged (push_to_gate G l n.address p).0.net b ≡ (
              if (push_to_gate G l n.address p).1 && text_eq n.address b
              then G.acknowledged l.net b ++ p ∷ []
              else G.acknowledged l.net b) =
        sent in
      let found : lookup u (insert u x t.sessions) ≡ some x =
        ground (arith, lookup-insert u u x t.sessions, text_eq_refl u) in
      rw (there, online_found, found, route_found) (refl, refl, sent_at, linked')

  -- UserOffline from any gate ends the session, also one that the user has just begun at another
  -- gate: with the store in memory, RouteToUser then answers that the user is offline, and no gate
  -- is called.
  pub route_to_user-user_offline :
      (t : Tables) (l : Links G) (u g g' device_type device_id cmd payload : Text) (now : ℤ)
      → let online = user_online memory_store t u g' device_type device_id now in
        let gone = user_offline memory_store online.0 u g in
        route_to_user memory_store G gone.0 l (record { user_id = u; cmd = cmd; payload = payload })
        ≡ (l, record { delivered = false; user_online = false; gate_id = [] })
  unfolding user_offline route_to_user route_found Memory.set_offline Memory.get_session
  route_to_user-user_offline t l u g g' device_type device_id cmd payload now =
      let online = user_online memory_store t u g' device_type device_id now in
      ground (arith, lookup-erase u u online.0.sessions, text_eq_refl u)

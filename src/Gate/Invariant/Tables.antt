-- ===== src/Gate/Invariant/Tables.antt =====
-- The operations on the tables keep the invariant of the gate.
use swift_chat_system.Common.{
  ◌≡◌, refl, Bool, true, false, not, Option, none, some, [], ◌∷◌, if◌then◌else◌, arith, Bool-cases,
  inl, inr, ◌⊎◌,
}
use swift_chat_system.Common.Int.{ℤ}
use swift_chat_system.Common.Text.{Text, is_empty, text_eq_iff}
use swift_chat_system.Common.Dict.{Dict, lookup, erase, lookup-insert, lookup-erase}
use swift_chat_system.Gate.State.{Connection, Event, Gate}
use swift_chat_system.Gate.Connections.{
  emit, fresh_connection, add_connection, notify_user_offline, remove_found, remove_connection,
  bound_connection, bind_found, bind_user, unbind_first, unbind_user, beat_found, update_heartbeat,
}
use swift_chat_system.Gate.Invariant.{Inv, owner, announces, was_announced}

-- A test keeps what its two branches keep.
pub Inv-if : (b : Bool) (x y : Gate) → Inv x → Inv y → Inv (if b then x else y)
Inv-if true x y h k = h
Inv-if false x y h k = k

module _ (g : Gate) where
  pub Inv-emit : (e : Event) → Inv g → Inv (emit e g)
  unfolding was_announced
  Inv-emit e v = record {
    routed = v.routed;
    named = v.named;
    announced = λ u c h k. ground (arith, v.announced u c h k);
  }

  pub Inv-add_connection :
      (conn_id : Text) (now : ℤ)
      → lookup conn_id g.connections ≡ none
      → Inv g
      → Inv (add_connection g conn_id now)
  unfolding add_connection
  Inv-add_connection conn_id now new v =
      let there : (c : Text) → _ =
        λ c. lookup-insert c conn_id (fresh_connection conn_id now) g.connections in
      record {
        routed = λ u c e. ground (arith, v.routed u c e, there c, text_eq_iff conn_id c, new);
        named = v.named;
        announced = λ u c h k. ground (arith, v.announced u c, there c);
      }

  Inv-notify_user_offline : (u : Text) → Inv g → Inv (notify_user_offline g u)
  unfolding notify_user_offline
  Inv-notify_user_offline u v = Inv-if (not g.has_zone) g _ v (Inv-emit _ v)

  -- What RemoveConnection does to the tables.
  abbrev cleared : Text → Connection → Gate
  cleared conn_id x = record g {
    user_to_conn = erase x.user_id g.user_to_conn;
    connections = erase conn_id g.connections;
  }

  Inv-cleared :
      (conn_id : Text) (x : Connection)
      → lookup conn_id g.connections ≡ some x
      → Inv g
      → Inv (cleared conn_id x)
  Inv-cleared conn_id x found v = record {
    routed = λ u c e. ground (
      arith,
      v.routed u c,
      lookup-erase u x.user_id g.user_to_conn,
      lookup-erase c conn_id g.connections,
      text_eq_iff x.user_id u,
      text_eq_iff conn_id c,
    );
    named = λ u c e. ground (arith, v.named u c, lookup-erase u x.user_id g.user_to_conn);
    announced = λ u c h k. ground (arith, v.announced u c, lookup-erase c conn_id g.connections);
  }

  -- A connection that no user is routed to goes.
  Inv-anonymous :
      (conn_id : Text) (x : Connection)
      → lookup conn_id g.connections ≡ some x
      → is_empty x.user_id ≡ true
      → Inv g
      → Inv (record g { connections = erase conn_id g.connections })
  Inv-anonymous conn_id x found nobody v = record {
    routed = λ u c e. ground (
      arith,
      v.routed u c e,
      v.named u c e,
      lookup-erase c conn_id g.connections,
      text_eq_iff conn_id c,
    );
    named = v.named;
    announced = λ u c h k. ground (arith, v.announced u c, lookup-erase c conn_id g.connections);
  }

module _ (g : Gate) where
  Inv-remove_found :
      (conn_id : Text) (o : Option Connection)
      → lookup conn_id g.connections ≡ o
      → Inv g
      → Inv (remove_found g conn_id o)
  unfolding remove_found
  Inv-remove_found conn_id none found v = v
  Inv-remove_found conn_id (some x) found v = elim (Bool-cases (is_empty x.user_id)) [
    | inl nobody ↦ rw nobody (Inv-anonymous g conn_id x found nobody v)
    | inr user ↦
        rw user (
          Inv-notify_user_offline (cleared g conn_id x) x.user_id (Inv-cleared g conn_id x found v))
  ]

  pub Inv-remove_connection : (conn_id : Text) → Inv g → Inv (remove_connection g conn_id)
  unfolding remove_connection
  Inv-remove_connection conn_id v = Inv-remove_found conn_id _ refl v

  -- A login: the user is bound, and then announced.
  Inv-bind_found :
      (conn_id u token device type : Text) (o : Option Connection) (e : Event)
      → lookup conn_id g.connections ≡ o
      → is_empty u ≡ false
      → announces u e ≡ true
      → Inv g
      → Inv (emit e (bind_found g conn_id u token device type o).0)
  unfolding bind_found was_announced
  Inv-bind_found conn_id u token device type none e found user tells v = Inv-emit g e v
  Inv-bind_found conn_id u token device type (some x) e found user tells v =
      let users : Dict Text =
        if not (is_empty x.user_id) then erase x.user_id g.user_to_conn else g.user_to_conn in
      let y = bound_connection x u token device type in
      record {
        routed = λ w c h. ground (
          arith,
          v.routed w c,
          v.named w c,
          lookup-insert w u conn_id users,
          lookup-erase w x.user_id g.user_to_conn,
          lookup-insert c conn_id y g.connections,
          text_eq_iff u w,
          text_eq_iff x.user_id w,
          text_eq_iff conn_id c,
        );
        named = λ w c h. ground (
          arith,
          v.named w c,
          lookup-insert w u conn_id users,
          lookup-erase w x.user_id g.user_to_conn,
          text_eq_iff u w,
        );
        announced =
            λ w c h k. ground (arith, v.announced w c, lookup-insert c conn_id y g.connections);
      }

  pub Inv-bind_user :
      (conn_id u token device type : Text) (e : Event)
      → is_empty u ≡ false
      → announces u e ≡ true
      → Inv g
      → Inv (emit e (bind_user g conn_id u token device type).0)
  unfolding bind_user
  Inv-bind_user conn_id u token device type e user tells v =
      Inv-bind_found conn_id u token device type _ e refl user tells v

  Inv-beat_found :
      (conn_id : Text) (now : ℤ) (o : Option Connection)
      → lookup conn_id g.connections ≡ o
      → Inv g
      → Inv (beat_found g conn_id now o)
  unfolding beat_found
  Inv-beat_found conn_id now none found v = v
  Inv-beat_found conn_id now (some x) found v =
      let there : (c : Text) → _ =
        λ c. lookup-insert c conn_id (record x { last_heartbeat = now }) g.connections in
      record {
        routed = λ u c e. ground (arith, v.routed u c e, there c, text_eq_iff conn_id c);
        named = v.named;
        announced = λ u c h k. ground (arith, v.announced u c, there c, text_eq_iff conn_id c);
      }

  pub Inv-update_heartbeat :
      (conn_id : Text) (now : ℤ) → Inv g → Inv (update_heartbeat g conn_id now)
  unfolding update_heartbeat
  Inv-update_heartbeat conn_id now v = Inv-beat_found conn_id now _ refl v

  -- The callbacks are no part of the invariant.
  pub Inv-callbacks :
      (sends : Dict (Option Bool)) (closes : Dict Bool)
      → Inv g
      → Inv (record g { send_callbacks = sends; close_callbacks = closes })
  Inv-callbacks sends closes v = record {
    routed = v.routed;
    named = v.named;
    announced = v.announced;
  }

-- UnbindUser: the first connection of the user loses it.
owner-unbind_first :
    (u c : Text) (cs : Dict Connection)
    → (owner (lookup c (unbind_first u cs)) ≡ owner (lookup c cs))
      ⊎ (owner (lookup c (unbind_first u cs)) ≡ some []) × (owner (lookup c cs) ≡ some u)
unfolding lookup unbind_first
owner-unbind_first u c [] = inl refl
owner-unbind_first u c ((cid, x) ∷ cs) =
    ground (arith, owner-unbind_first u c cs, text_eq_iff x.user_id u)

pub Inv-unbind_user : (g : Gate) (u : Text) → Inv g → Inv (unbind_user g u)
unfolding unbind_user
Inv-unbind_user g u v = record {
  routed = λ w c e. ground (
    arith,
    v.routed w c,
    owner-unbind_first u c g.connections,
    lookup-erase w u g.user_to_conn,
    text_eq_iff u w,
  );
  named = λ w c e. ground (arith, v.named w c, lookup-erase w u g.user_to_conn);
  announced = λ w c h k. ground (arith, v.announced w c, owner-unbind_first u c g.connections);
}

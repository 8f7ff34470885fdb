-- ===== src/Gate/Takeover.antt =====
-- A user who logs in on a second connection of a gate, and then leaves the first.
use swift_chat_system.Common.{
  ◌≡◌, ◌∙◌, ap, refl, true, false, Option, none, some, [], if◌then◌else◌, arith, not,
}
use swift_chat_system.Common.Text.{Text, text_eq, is_empty, text_eq_iff, text_eq_refl}
use swift_chat_system.Common.Dict.{lookup, erase, lookup-insert, lookup-erase}
use swift_chat_system.Gate.State.{Connection, Gate}
use swift_chat_system.Gate.Connections.{
  bound_connection, bind_user, bind_found, remove_connection, remove_found, notify_user_offline,
  get_conn_id_by_user,
}
use swift_chat_system.Gate.Zone.{Proto}
use swift_chat_system.Gate.Sending.{push_to_user}
use swift_chat_system.Gate.Invariant.{user_of, owner}

module _ (g : Gate) (u : Text) (user : is_empty u ≡ false) where
  -- BindUser routes the user to the connection, which is then the user's.
  lookup-bind_user :
      (a t d k : Text) (x : Connection)
      → lookup a g.connections ≡ some x
      → ((bind_user g a u t d k).1 ≡ true)
        × (get_conn_id_by_user (bind_user g a u t d k).0 u ≡ a)
        × (lookup a (bind_user g a u t d k).0.connections ≡ some (bound_connection x u t d k))
  unfolding bind_user bind_found get_conn_id_by_user
  lookup-bind_user a t d k x found =
      let y = bound_connection x u t d k in
      let users =
        if not (is_empty x.user_id) then erase x.user_id g.user_to_conn else g.user_to_conn in
      ground (
        arith,
        lookup-insert u u a users,
        lookup-insert a a y g.connections,
        text_eq_refl u,
        text_eq_refl a,
      )

  lookup-bind_user_other :
      (a b t d k : Text)
      → text_eq b a ≡ false
      → lookup a (bind_user g b u t d k).0.connections ≡ lookup a g.connections
  unfolding bind_user bind_found
  lookup-bind_user_other a b t d k apart = go (lookup b g.connections)
    where
      go :
          (o : Option Connection)
          → lookup a (bind_found g b u t d k o).0.connections ≡ lookup a g.connections
      go none = refl
      go (some y) = ground (arith, lookup-insert a b (bound_connection y u t d k) g.connections)

  -- RemoveConnection of a connection of the user ends the user's route, wherever it leads.
  remove_connection-route :
      (a : Text) (x : Connection)
      → lookup a g.connections ≡ some x
      → x.user_id ≡ u
      → get_conn_id_by_user (remove_connection g a) u ≡ []
  unfolding remove_connection remove_found notify_user_offline get_conn_id_by_user
  remove_connection-route a x found owns =
      ground (arith, lookup-erase u x.user_id g.user_to_conn, text_eq_iff x.user_id u)

  user_of-remove_connection :
      (a b : Text) (x : Connection)
      → lookup a g.connections ≡ some x
      → text_eq a b ≡ false
      → user_of (remove_connection g a) b ≡ user_of g b
  unfolding remove_connection remove_found notify_user_offline
  user_of-remove_connection a b x found apart = ground (arith, lookup-erase b a g.connections)

module _ (P : Proto) (g : Gate) (u : Text) (user : is_empty u ≡ false) where
  -- A user who is bound to one connection, then to another, and whose first connection goes, still
  -- owns the second, but PushToUser finds no route to it and returns false.
  pub stranded_push_to_user :
      (a b t d k t' d' k' cmd p : Text) (x y : Connection)
      → lookup a g.connections ≡ some x
      → lookup b g.connections ≡ some y
      → text_eq a b ≡ false
      → let h = bind_user (bind_user g a u t d k).0 b u t' d' k' in
        let left = remove_connection h.0 a in
        (user_of left b ≡ some u) × (push_to_user P left u cmd p ≡ (left, false))
  unfolding push_to_user
  stranded_push_to_user a b t d k t' d' k' cmd p x y found_a found_b apart =
      let g1 = (bind_user g a u t d k).0 in
      let g2 = (bind_user g1 b u t' d' k').0 in
      let (_, _, at_a) = lookup-bind_user g u user a t d k x found_a in
      let apart' : text_eq b a ≡ false =
        ground (arith, text_eq_iff a b, text_eq_iff b a, text_eq_refl a) in
      let b_before : lookup b g1.connections ≡ some y =
        lookup-bind_user_other g u user b a t d k apart ∙ found_b in
      let (_, _, at_b) = lookup-bind_user g1 u user b t' d' k' y b_before in
      let a_after : lookup a g2.connections ≡ some (bound_connection x u t d k) =
        lookup-bind_user_other g1 u user a b t' d' k' apart' ∙ at_a in
      let gone = remove_connection-route g2 u user a (bound_connection x u t d k) a_after refl in
      let stays =
        user_of-remove_connection g2 u user a b (bound_connection x u t d k) a_after apart in
      (stays ∙ ap owner at_b, ground arith)

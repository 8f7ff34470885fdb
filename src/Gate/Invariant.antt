-- ===== src/Gate/Invariant.antt =====
-- The invariant of the gate's tables: a user's route leads to a connection of that user, and every
-- user of a connection was announced to ZoneSvr.
pub mod Tables
pub mod Messages
use swift_chat_system.Common.{◌≡◌, Bool, true, false, ◌||◌, Option, none, some, List, [], ◌∷◌}
use swift_chat_system.Common.Text.{Text, text_eq, is_empty}
use swift_chat_system.Common.Dict.{Dict, lookup}
use swift_chat_system.Gate.State.{
  Connection, Event, sent, closing, client_request, user_online, user_offline, gate_register,
  gate_heartbeat, Gate,
}

abbrev pub owner : Option Connection → Option Text
owner none = none
owner (some c) = some c.user_id

-- The user that a connection belongs to; empty before a login.
abbrev pub user_of : Gate → Text → Option Text
user_of g conn_id = owner (lookup conn_id g.connections)

abbrev pub announces : Text → Event → Bool
announces u (user_online v _ _ _) = text_eq v u
announces u _ = false

unfoldable pub was_announced : Text → List Event → Bool
was_announced u [] = false
was_announced u (e ∷ es) = announces u e || was_announced u es

pub record Inv (g : Gate) : Type 0 where
  pub routed : (u c : Text) → lookup u g.user_to_conn ≡ some c → user_of g c ≡ some u
  pub named : (u c : Text) → lookup u g.user_to_conn ≡ some c → is_empty u ≡ false
  pub announced :
      (u c : Text) → user_of g c ≡ some u → is_empty u ≡ false → was_announced u g.events ≡ true

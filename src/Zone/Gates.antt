-- ===== src/Zone/Gates.antt =====
-- The way to the gates: GateRpcClient of zonesvr/internal/rpc/gate_rpc_client.h, a client of gRPC, as
-- an interface.
use swift_chat_system.Common.{◌≡◌, Bool, Option, some, List, [], ◌∷◌, ◌++◌, if◌then◌else◌}
use swift_chat_system.Common.Text.{Text, text_eq}

-- A message to a user: the user, the command and the payload.
pub record Push : Type 0 where
  pub user_id : Text
  pub cmd : Text
  pub payload : Text

pub record Gates : Type 1 where
  -- The network and the gates behind it.
  pub State : Type 0
  pub Client : Type 0
  -- A new client, `Connect` and `InitStub`; `none` where Connect returns false.
  pub connect : State → Text → State × Option Client
  pub is_connected : State → Client → Bool
  pub disconnect : State → Client → State
  pub push_message : State → Client → Push → State × Bool
  -- The pushes that the gate at an address has answered with success, and the address of a client.
  pub acknowledged : State → Text → List Push
  pub address : Client → Text

pub record IsLawful (G : Gates) : Type 0 where
  pub address-connect :
      (s : G.State) (a : Text) (c : G.Client) → (G.connect s a).1 ≡ some c → G.address c ≡ a
  pub acknowledged-connect :
      (s : G.State) (a b : Text) → G.acknowledged (G.connect s a).0 b ≡ G.acknowledged s b
  pub acknowledged-disconnect :
      (s : G.State) (c : G.Client) (b : Text)
      → G.acknowledged (G.disconnect s c) b ≡ G.acknowledged s b
  -- A push that was answered with success is the one that the gate of the client got.
  pub acknowledged-push_message :
      (s : G.State) (c : G.Client) (p : Push) (b : Text)
      → G.acknowledged (G.push_message s c p).0 b ≡ (
          if (G.push_message s c p).1
          then (if text_eq (G.address c) b
              then G.acknowledged s b ++ p ∷ []
              else G.acknowledged s b)
          else G.acknowledged s b)

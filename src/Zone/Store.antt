-- ===== src/Zone/Store.antt =====
-- UserSession, GateNode and the interface SessionStore of zonesvr/internal/store/session_store.h,
-- with what a store promises: the two tables as functions, and each operation by what it does to
-- them.
use swift_chat_system.Common.{Bool, true, Option, none, some, List, [], ◌∷◌, if◌then◌else◌, is_some}
use swift_chat_system.Common.Int.{ℤ}
use swift_chat_system.Common.Text.{Text, text_eq}

pub record UserSession : Type 0 where
  pub user_id : Text
  pub gate_id : Text
  pub gate_addr : Text
  pub device_type : Text
  pub device_id : Text
  pub online_at : ℤ
  pub last_active_at : ℤ

pub record GateNode : Type 0 where
  pub gate_id : Text
  pub address : Text
  pub current_connections : ℤ
  pub registered_at : ℤ
  pub last_heartbeat : ℤ

-- The clock of a heartbeat, in seconds, is an argument.
pub record SessionStore : Type 1 where
  pub State : Type 0
  pub set_online : State → UserSession → State × Bool
  pub set_offline : State → Text → State × Bool
  pub get_session : State → Text → Option UserSession
  pub get_sessions : State → List Text → List UserSession
  pub is_online : State → Text → Bool
  pub update_last_active : State → Text → ℤ → State × Bool
  pub register_gate : State → GateNode → State × Bool
  pub unregister_gate : State → Text → State × Bool
  pub update_gate_heartbeat : State → Text → ℤ → ℤ → State × Bool
  pub get_gate : State → Text → Option GateNode
  pub get_all_gates : State → List GateNode

-- The promise, as a store of its own: two functions.
pub record Directory : Type 0 where
  pub sessions : Text → Option UserSession
  pub gates : Text → Option GateNode

abbrev pub assign {ℓ} : {V : Type ℓ} → Text → Option V → (Text → Option V) → Text → Option V
assign k v f i = if text_eq k i then v else f i

-- The entries of the keys that are there, in the order of the keys.
unfoldable pub found {ℓ} : {V : Type ℓ} → (Text → Option V) → List Text → List V
found f [] = []
found f (k ∷ ks) = elim (f k) [ none ↦ found f ks | some v ↦ v ∷ found f ks ]

-- A call of the store, and its answer. GetAllGates has no order and is left out.
pub data Call : Type 0 where
  set_online : UserSession → Call
  set_offline get_session is_online unregister_gate get_gate : Text → Call
  get_sessions : List Text → Call
  update_last_active : Text → ℤ → Call
  register_gate : GateNode → Call
  update_gate_heartbeat : Text → ℤ → ℤ → Call

pub data Answer : Type 0 where
  done : Bool → Answer
  session : Option UserSession → Answer
  sessions : List UserSession → Answer
  gate : Option GateNode → Answer

-- What a store answers.
unfoldable pub call : (S : SessionStore) → S.State → Call → S.State × Answer
call S s (set_online x) = let r = S.set_online s x in (r.0, done r.1)
call S s (set_offline u) = let r = S.set_offline s u in (r.0, done r.1)
call S s (get_session u) = (s, session (S.get_session s u))
call S s (get_sessions us) = (s, sessions (S.get_sessions s us))
call S s (is_online u) = (s, done (S.is_online s u))
call S s (update_last_active u t) = let r = S.update_last_active s u t in (r.0, done r.1)
call S s (register_gate n) = let r = S.register_gate s n in (r.0, done r.1)
call S s (unregister_gate g) = let r = S.unregister_gate s g in (r.0, done r.1)
call S s (update_gate_heartbeat g n now) =
    let r = S.update_gate_heartbeat s g n now in (r.0, done r.1)
call S s (get_gate g) = (s, gate (S.get_gate s g))

abbrev pub active : ℤ → Option UserSession → Option UserSession
active t none = none
active t (some x) = some (record x { last_active_at = t })

abbrev pub beating : ℤ → ℤ → Option GateNode → Option GateNode
beating n now none = none
beating n now (some g) = some (record g { current_connections = n; last_heartbeat = now })

-- What it promises to answer.
unfoldable pub promise : Directory → Call → Directory × Answer
promise d (set_online x) = (record d { sessions = assign x.user_id (some x) d.sessions }, done true)
promise d (set_offline u) = (record d { sessions = assign u none d.sessions }, done true)
promise d (get_session u) = (d, session (d.sessions u))
promise d (get_sessions us) = (d, sessions (found d.sessions us))
promise d (is_online u) = (d, done (is_some (d.sessions u)))
promise d (update_last_active u t) = (
  record d { sessions = assign u (active t (d.sessions u)) d.sessions },
  done (is_some (d.sessions u)),
)
promise d (register_gate n) = (record d { gates = assign n.gate_id (some n) d.gates }, done true)
promise d (unregister_gate g) = (record d { gates = assign g none d.gates }, done true)
promise d (update_gate_heartbeat g n now) =
    (record d { gates = assign g (beating n now (d.gates g)) d.gates }, done (is_some (d.gates g)))
promise d (get_gate g) = (d, gate (d.gates g))

-- The answers to a sequence of calls.
unfoldable pub answers {ℓ} : {S : Type ℓ} → (S → Call → S × Answer) → S → List Call → List Answer
answers step s [] = []
answers step s (c ∷ cs) = (step s c).1 ∷ answers step (step s c).0 cs

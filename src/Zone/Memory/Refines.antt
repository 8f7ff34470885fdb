-- ===== src/Zone/Memory/Refines.antt =====
-- MemorySessionStore keeps the promise of SessionStore.
use swift_chat_system.Common.{
  ◌≡◌, refl, ap, none, List, [], ◌∷◌, is_some, arith, Option-cases, inl, inr,
}
use swift_chat_system.Common.Text.{Text, text_eq_iff}
use swift_chat_system.Common.Dict.{lookup, lookup-insert, lookup-erase}
use swift_chat_system.Zone.Store.{
  UserSession, GateNode, SessionStore, Directory, assign, found, Call, Answer, call, promise,
  answers, active, beating,
}
use swift_chat_system.Zone.Store
use swift_chat_system.Zone.Memory.{
  Tables, memory_store, set_online, set_offline, get_session, get_sessions, is_online,
  update_last_active, register_gate, unregister_gate, update_gate_heartbeat, get_gate,
}

-- The two tables have what the two functions say.
pub record Agrees (t : Tables) (d : Directory) : Type 0 where
  pub sessions : (u : Text) → lookup u t.sessions ≡ d.sessions u
  pub gates : (g : Text) → lookup g t.gates ≡ d.gates g

get_sessions-found :
    (t : Tables) (d : Directory) (us : List Text)
    → Agrees t d
    → get_sessions t us ≡ found d.sessions us
unfolding get_sessions found
get_sessions-found t d [] a = refl
get_sessions-found t d (u ∷ us) a = ground (arith, a.sessions u, get_sessions-found t d us a)

call-promise :
    (t : Tables) (d : Directory) (c : Call)
    → Agrees t d
    → Agrees (call memory_store t c).0 (promise d c).0
      × ((call memory_store t c).1 ≡ (promise d c).1)
unfolding call promise set_online set_offline get_session is_online update_last_active register_gate
    unregister_gate update_gate_heartbeat get_gate
call-promise t d (Store.Call.set_online x) a = (
  record {
    sessions = λ u. ground (arith, lookup-insert u x.user_id x t.sessions, a.sessions u);
    gates = a.gates;
  },
  refl,
)
call-promise t d (Store.Call.set_offline v) a = (
  record {
    sessions = λ u. ground (arith, lookup-erase u v t.sessions, a.sessions u);
    gates = a.gates;
  },
  refl,
)
call-promise t d (Store.Call.get_session u) a = (a, ap Store.session (a.sessions u))
call-promise t d (Store.Call.get_sessions us) a =
    (a, ap Store.Answer.sessions (get_sessions-found t d us a))
call-promise t d (Store.Call.is_online u) a = (a, ap (λ o. Store.done (is_some o)) (a.sessions u))
call-promise t d (Store.Call.get_gate g) a = (a, ap Store.gate (a.gates g))
call-promise t d (Store.Call.register_gate n) a = (
  record {
    sessions = a.sessions;
    gates = λ g. ground (arith, lookup-insert g n.gate_id n t.gates, a.gates g);
  },
  refl,
)
call-promise t d (Store.Call.unregister_gate h) a = (
  record {
    sessions = a.sessions;
    gates = λ g. ground (arith, lookup-erase g h t.gates, a.gates g);
  },
  refl,
)
call-promise t d (Store.Call.update_last_active v now) a =
    elim (Option-cases (lookup v t.sessions)) [
      | inl missing ↦ (
        record {
          sessions = λ u. ground (arith, missing, a.sessions v, a.sessions u, text_eq_iff v u);
          gates = λ g. ground (arith, missing, a.gates g);
        },
        ground (arith, missing, a.sessions v),
      )
      | inr (x, there) ↦ (
        record {
          sessions = λ u. ground (
            arith,
            there,
            lookup-insert u v (record x { last_active_at = now }) t.sessions,
            a.sessions v,
            a.sessions u,
          );
          gates = λ g. ground (arith, there, a.gates g);
        },
        ground (arith, there, a.sessions v),
      )
    ]
call-promise t d (Store.Call.update_gate_heartbeat h n now) a =
    elim (Option-cases (lookup h t.gates)) [
      | inl missing ↦ (
        record {
          sessions = λ u. ground (arith, missing, a.sessions u);
          gates = λ g. ground (arith, missing, a.gates h, a.gates g, text_eq_iff h g);
        },
        ground (arith, missing, a.gates h),
      )
      | inr (x, there) ↦ (
        record {
          sessions = λ u. ground (arith, there, a.sessions u);
          gates = λ g. ground (
            arith,
            there,
            lookup-insert g h (record x { current_connections = n; last_heartbeat = now }) t.gates,
            a.gates h,
            a.gates g,
          );
        },
        ground (arith, there, a.gates h),
      )
    ]

answers_agree :
    (t : Tables) (d : Directory) (cs : List Call)
    → Agrees t d
    → answers (call memory_store) t cs ≡ answers promise d cs
unfolding answers
answers_agree t d [] a = refl
answers_agree t d (c ∷ cs) a =
    let (next, same) = call-promise t d c a in
    rw (same, answers_agree (call memory_store t c).0 (promise d c).0 cs next) refl

-- From two empty tables, MemorySessionStore answers every sequence of calls but those of GetAllGates,
-- which has no order, as the promise of SessionStore says.
pub memory_store-promise :
    (cs : List Call)
    → answers (call memory_store) (record { sessions = []; gates = [] }) cs
      ≡ answers promise (record { sessions = λ u. none; gates = λ g. none }) cs
unfolding lookup
memory_store-promise cs =
    answers_agree (record { sessions = []; gates = [] })
      (record { sessions = λ u. none; gates = λ g. none }) cs
      (record { sessions = λ u. refl; gates = λ g. refl })

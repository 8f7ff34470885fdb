-- ===== src/Logger/Delivery.antt =====
-- What was accepted is delivered, once and in order, or still waits in the buffer.
use mathlib.Core.List.{append_assoc, append-nil}
use swift_chat_system.Common.{
  ◌≡◌, ◌≢◌, refl, sym, ap, ◌∙◌, ◌≤◌, true, false, List, [], ◌∷◌, ◌++◌, arith, length, Bool-cases,
  inl, inr, leb,
}
use swift_chat_system.Logger.Buffer.{LogEntry, push_locked, swap_and_get, stop, push_locked-bound}
use swift_chat_system.Logger.Thread.{
  Logger, closed, finish, fetch, Step, begin_push, finish_push, round, stop_running, stop_buffer,
  leave, drain, Reach, here, next,
}

pub record Inv (l : Logger) : Type 0 where
  pub ordered : l.accepted ≡ l.delivered ++ l.buffer.front_buffer
  pub bounded : length l.buffer.front_buffer ≤ l.buffer.capacity

-- Before the first step.
abbrev pub IsNew : Logger → Type 0
IsNew l = (l.buffer.front_buffer ≡ []) × (l.accepted ≡ []) × (l.delivered ≡ [])

new-Inv : (l : Logger) → IsNew l → Inv l
new-Inv l (front, accepted, delivered) = record {
  ordered = rw (front, accepted, delivered) refl;
  bounded = rw front (ground arith);
}

finish-Inv : (l : Logger) (e : LogEntry) (rest : List LogEntry) → Inv l → Inv (finish l e rest)
unfolding finish push_locked
finish-Inv l e rest v = elim (Bool-cases (leb l.buffer.capacity (length l.buffer.front_buffer))) [
  | inl full ↦ record { ordered = rw full v.ordered; bounded = rw full v.bounded }
  | inr room ↦ record {
    ordered = rw room (
        ap (λ a. a ++ (e ∷ [])) v.ordered
        ∙ append_assoc l.delivered l.buffer.front_buffer (e ∷ []));
    bounded = push_locked-bound l.buffer e v.bounded;
  }
]

fetch-Inv : (l : Logger) → Inv l → Inv (fetch l)
unfolding fetch swap_and_get
fetch-Inv l v = record {
  ordered = v.ordered ∙ sym (append-nil (l.delivered ++ l.buffer.front_buffer));
  bounded = ground arith;
}

Inv-Step : (l m : Logger) → Step l m → Inv l → Inv m
unfolding stop
Inv-Step _ _ (begin_push l e going) v = record { ordered = v.ordered; bounded = v.bounded }
Inv-Step _ _ (finish_push l before e after split) v = finish-Inv l e (before ++ after) v
Inv-Step _ _ (round l loops) v = fetch-Inv l v
Inv-Step _ _ (stop_running l) v = record { ordered = v.ordered; bounded = v.bounded }
Inv-Step _ _ (stop_buffer l off) v = record { ordered = v.ordered; bounded = v.bounded }
Inv-Step _ _ (leave l loops off empty) v = record { ordered = v.ordered; bounded = v.bounded }
Inv-Step _ _ (drain l gone off) v =
    let w = fetch-Inv l v in record { ordered = w.ordered; bounded = w.bounded }

Inv-Reach : (s l : Logger) → Reach s l → Inv s → Inv l
Inv-Reach s _ here v = v
Inv-Reach s _ (next {l} {m} r t) v = Inv-Step l m t (Inv-Reach s l r v)

-- In every state that a logger reaches, however the producers, the thread and Stop interleave, the
-- accepted entries are the delivered ones and then those in the buffer, in order, and the buffer is
-- not over its capacity.
pub accepted_in_order :
    (s l : Logger)
    → IsNew s
    → Reach s l
    → (l.accepted ≡ l.delivered ++ l.buffer.front_buffer)
      × (length l.buffer.front_buffer ≤ l.buffer.capacity)
accepted_in_order s l new r = let v = Inv-Reach s l r (new-Inv s new) in (v.ordered, v.bounded)

-- After the last drain, with no push under way.
record Quiet (l : Logger) : Type 0 where
  is_closed : l.phase ≡ closed
  is_stopped : l.buffer.stopped ≡ true
  is_idle : l.in_flight ≡ []
  is_complete : l.accepted ≡ l.delivered

occupied : (xs : List LogEntry) (e : LogEntry) (ys : List LogEntry) → xs ++ (e ∷ ys) ≢ []
occupied [] e ys h = cc
occupied (x ∷ xs) e ys h = cc

Quiet-Step : (l m : Logger) → Step l m → Quiet l → Quiet m
unfolding stop
Quiet-Step _ _ (begin_push l e going) q = absurd (ground (arith, q.is_stopped))
Quiet-Step _ _ (finish_push l before e after split) q =
    absurd (occupied before e after (sym split ∙ q.is_idle))
Quiet-Step _ _ (round l loops) q = absurd (ground (arith, q.is_closed))
Quiet-Step _ _ (stop_running l) q = record {
  is_closed = q.is_closed;
  is_stopped = q.is_stopped;
  is_idle = q.is_idle;
  is_complete = q.is_complete;
}
Quiet-Step _ _ (stop_buffer l off) q = record {
  is_closed = q.is_closed;
  is_stopped = refl;
  is_idle = q.is_idle;
  is_complete = q.is_complete;
}
Quiet-Step _ _ (leave l loops off empty) q = absurd (ground (arith, q.is_closed))
Quiet-Step _ _ (drain l gone off) q = absurd (ground (arith, q.is_closed))

Quiet-Reach : (s l : Logger) → Reach s l → Quiet s → Quiet l
Quiet-Reach s _ here q = q
Quiet-Reach s _ (next {l} {m} r t) q = Quiet-Step l m t (Quiet-Reach s l r q)

drain-Quiet :
    (l : Logger)
    → Inv l
    → l.buffer.stopped ≡ true
    → l.in_flight ≡ []
    → Quiet (record (fetch l) { phase = closed })
unfolding fetch swap_and_get
drain-Quiet l v off idle = record {
  is_closed = refl;
  is_stopped = off;
  is_idle = idle;
  is_complete = v.ordered;
}

closing-Quiet :
    (l m : Logger)
    → Step l m
    → Inv l
    → l.phase ≢ closed
    → m.phase ≡ closed
    → l.in_flight ≡ []
    → Quiet m
unfolding finish fetch
closing-Quiet _ _ (begin_push l e going) v open_ shut idle = absurd (open_ shut)
closing-Quiet _ _ (finish_push l before e after split) v open_ shut idle = absurd (open_ shut)
closing-Quiet _ _ (round l loops) v open_ shut idle = absurd (open_ shut)
closing-Quiet _ _ (stop_running l) v open_ shut idle = absurd (open_ shut)
closing-Quiet _ _ (stop_buffer l off) v open_ shut idle = absurd (open_ shut)
closing-Quiet _ _ (leave l loops off empty) v open_ shut idle = absurd (ground arith)
closing-Quiet _ _ (drain l gone off) v open_ shut idle = drain-Quiet l v off idle

-- Nothing is lost on shutdown: when a step closes the logger with no push under way, every entry
-- that was ever accepted has been delivered, then and in every later state.
pub drain_complete :
    (s l m n : Logger)
    → IsNew s
    → Reach s l
    → Step l m
    → l.phase ≢ closed
    → m.phase ≡ closed
    → l.in_flight ≡ []
    → Reach m n
    → n.accepted ≡ n.delivered
drain_complete s l m n new r step open_ shut idle after =
    (Quiet-Reach m n after
      (closing-Quiet l m step (Inv-Reach s l r (new-Inv s new)) open_ shut idle)).is_complete

-- Once closed, nothing more is delivered.
record Shut (ds : List LogEntry) (l : Logger) : Type 0 where
  is_closed : l.phase ≡ closed
  is_fixed : l.delivered ≡ ds

Shut-Step : (ds : List LogEntry) (l m : Logger) → Step l m → Shut ds l → Shut ds m
unfolding finish
Shut-Step ds _ _ (begin_push l e going) q = record {
  is_closed = q.is_closed;
  is_fixed = q.is_fixed;
}
Shut-Step ds _ _ (finish_push l before e after split) q = record {
  is_closed = q.is_closed;
  is_fixed = q.is_fixed;
}
Shut-Step ds _ _ (round l loops) q = absurd (ground (arith, q.is_closed))
Shut-Step ds _ _ (stop_running l) q = record { is_closed = q.is_closed; is_fixed = q.is_fixed }
Shut-Step ds _ _ (stop_buffer l off) q = record { is_closed = q.is_closed; is_fixed = q.is_fixed }
Shut-Step ds _ _ (leave l loops off empty) q = absurd (ground (arith, q.is_closed))
Shut-Step ds _ _ (drain l gone off) q = absurd (ground (arith, q.is_closed))

Shut-Reach : (ds : List LogEntry) (s l : Logger) → Reach s l → Shut ds s → Shut ds l
Shut-Reach ds s _ here q = q
Shut-Reach ds s _ (next {l} {m} r t) q = Shut-Step ds l m t (Shut-Reach ds s l r q)

-- A push that tested `stopped_` before Stop and takes the lock after the last drain is accepted if
-- there is room, and its entry is never delivered.
pub late_push_lost :
    (l m : Logger) (e : LogEntry) (rest : List LogEntry)
    → l.phase ≡ closed
    → l.in_flight ≡ e ∷ rest
    → leb l.buffer.capacity (length l.buffer.front_buffer) ≡ false
    → Reach (finish l e rest) m
    → ((finish l e rest).accepted ≡ l.accepted ++ (e ∷ [])) × (m.delivered ≡ l.delivered)
unfolding finish push_locked
late_push_lost l m e rest shut waits room after = (
  rw room refl,
  (Shut-Reach l.delivered _ m after (record { is_closed = shut; is_fixed = refl })).is_fixed,
)

-- ===== src/Logger/Thread.antt =====
-- The producers and the thread of component/asynclogger/src/backend_thread.cpp as steps. A Push is
-- two steps, the test of `stopped_` and the part under the lock, between which the others run.
use swift_chat_system.Common.{◌≡◌, Bool, true, false, List, [], ◌∷◌, ◌++◌, if◌then◌else◌}
use swift_chat_system.Logger.Buffer.{
  LogEntry, RingBuffer, push_locked, swap_and_get, is_empty_buffer, stop,
}

-- Where the thread and Stop stand: in the loop of Run, after it, and after the last drain of Stop.
pub data Phase : Type 0 where
  looping : Phase
  left : Phase
  closed : Phase

-- `in_flight` are the entries of pushes between the two steps. `accepted` and `delivered` record
-- the entries of the pushes that returned true and those that ProcessEntries was given, in order.
pub record Logger : Type 0 where
  pub buffer : RingBuffer
  pub running : Bool
  pub phase : Phase
  pub in_flight : List LogEntry
  pub accepted : List LogEntry
  pub delivered : List LogEntry

-- The end of a push.
unfoldable pub finish : Logger → LogEntry → List LogEntry → Logger
finish l e rest =
    let pushed = push_locked l.buffer e in
    record l {
      buffer = pushed.0;
      in_flight = rest;
      accepted = if pushed.1 then l.accepted ++ (e ∷ []) else l.accepted;
    }

-- SwapAndGet and ProcessEntries.
unfoldable pub fetch : Logger → Logger
fetch l =
    let swapped = swap_and_get l.buffer in
    record l { buffer = swapped.0; delivered = l.delivered ++ swapped.1 }

pub data Step : Logger → Logger → Type 0 where
  begin_push :
      (l : Logger) (e : LogEntry)
      → l.buffer.stopped ≡ false
      → Step l (record l { in_flight = e ∷ l.in_flight })
  finish_push :
      (l : Logger) (before : List LogEntry) (e : LogEntry) (after : List LogEntry)
      → l.in_flight ≡ before ++ (e ∷ after)
      → Step l (finish l e (before ++ after))
  -- One round of the loop of Run.
  round : (l : Logger) → l.phase ≡ looping → Step l (fetch l)
  -- The two stores at the beginning of Stop.
  stop_running : (l : Logger) → Step l (record l { running = false })
  stop_buffer : (l : Logger) → l.running ≡ false → Step l (record l { buffer = stop l.buffer })
  -- The loop ends, and Stop joins the thread.
  leave :
      (l : Logger)
      → l.phase ≡ looping
      → l.running ≡ false
      → is_empty_buffer l.buffer ≡ true
      → Step l (record l { phase = left })
  -- The last drain of Stop, after which the sinks are closed.
  drain :
      (l : Logger)
      → l.phase ≡ left
      → l.buffer.stopped ≡ true
      → Step l (record (fetch l) { phase = closed })

pub data Reach (s : Logger) : Logger → Type 0 where
  here : Reach s s
  next : {l m : Logger} → Reach s l → Step l m → Reach s m

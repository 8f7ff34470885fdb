-- ===== src/Logger/Buffer.antt =====
-- RingBuffer of component/asynclogger/src/ring_buffer.cpp. A call runs under its lock. The wait of
-- SwapAndGet ends at any time, so that a call is what it does after the wait; `back_buffer_` is
-- empty outside a call. Notifications only end waits.
use swift_chat_system.Common.{
  ℕ, ◌≤◌, ◌/◌, Bool, true, false, List, [], ◌∷◌, ◌++◌, if◌then◌else◌, arith, length, leb, ltb,
  length-append, not, ◌==◌,
}
use swift_chat_system.Common.Int.{ℤ, ltb_ℤ}
use swift_chat_system.Common.Text.{Text}

pub record LogEntry : Type 0 where
  pub timestamp : ℤ
  pub level : ℤ
  pub line : ℤ
  pub file : Text
  pub message : Text
  pub tags : Text

pub record RingBuffer : Type 0 where
  pub capacity : ℕ
  pub front_buffer : List LogEntry
  pub stopped : Bool

-- The part of Push under the lock.
unfoldable pub push_locked : RingBuffer → LogEntry → RingBuffer × Bool
push_locked b entry =
    if leb b.capacity (length b.front_buffer)
    then (b, false)
    else (record b { front_buffer = b.front_buffer ++ (entry ∷ []) }, true)

unfoldable pub push : RingBuffer → LogEntry → RingBuffer × Bool
push b entry = if b.stopped then (b, false) else push_locked b entry

-- The entries and, as the count, their length.
unfoldable pub swap_and_get : RingBuffer → RingBuffer × List LogEntry
swap_and_get b = (record b { front_buffer = [] }, b.front_buffer)

unfoldable pub size : RingBuffer → ℕ
size b = length b.front_buffer

unfoldable pub is_empty_buffer : RingBuffer → Bool
is_empty_buffer b = length b.front_buffer == 0

unfoldable pub stop : RingBuffer → RingBuffer
stop b = record b { stopped = true }

-- The capacity that AsyncLogger::Init chooses for a buffer of `buffer_size` bytes.
unfoldable pub buffer_entries : ℕ → ℕ
buffer_entries buffer_size =
    let entries = buffer_size / 256 in if ltb entries 1024 then 1024 else entries

-- Log of async_logger.cpp, from `initialized_` and `min_level_`: the result of Push is dropped.
unfoldable pub log : Bool → ℤ → RingBuffer → LogEntry → RingBuffer
log initialized min_level b entry =
    if not initialized then b else if ltb_ℤ entry.level min_level then b else (push b entry).0

pub push_locked-bound :
    (b : RingBuffer) (e : LogEntry)
    → length b.front_buffer ≤ b.capacity
    → length (push_locked b e).0.front_buffer ≤ (push_locked b e).0.capacity
unfolding push_locked
push_locked-bound b e h = ground (arith, length-append b.front_buffer (e ∷ []))

-- ===== src/Tests/Logger.antt =====
-- The logger at concrete inputs: one entry is pushed, and the logger stops.
use swift_chat_system.Common.{◌≡◌, refl, ◌≤◌, true, false, [], ◌∷◌, ◌++◌, length}
use swift_chat_system.Common.Int.{pos}
use swift_chat_system.Logger.Buffer.{LogEntry, push_locked, swap_and_get, is_empty_buffer, stop}
use swift_chat_system.Logger.Thread.{
  Logger, looping, left, closed, finish, fetch, begin_push, finish_push, round, stop_running,
  stop_buffer, leave, drain, Reach, here, next,
}
use swift_chat_system.Logger.Delivery.{accepted_in_order, drain_complete, late_push_lost}

abbrev entry : LogEntry
entry = record {
  timestamp = pos 0;
  level = pos 2;
  line = pos 1;
  file = [];
  message = [];
  tags = [];
}

abbrev new_logger : Logger
new_logger = record {
  buffer = record { capacity = 2; front_buffer = []; stopped = false };
  running = true;
  phase = looping;
  in_flight = [];
  accepted = [];
  delivered = [];
}

abbrev pushing : Logger
pushing = record new_logger { in_flight = entry ∷ [] }

abbrev pushed : Logger
pushed = finish pushing entry []

pushed_reached : Reach new_logger pushed
pushed_reached =
    next (next here (begin_push new_logger entry refl)) (finish_push pushing [] entry [] refl)

accepted_in_order_example :
    (pushed.accepted ≡ pushed.delivered ++ pushed.buffer.front_buffer)
    × (length pushed.buffer.front_buffer ≤ pushed.buffer.capacity)
accepted_in_order_example = accepted_in_order new_logger pushed (refl, refl, refl) pushed_reached

abbrev fetched : Logger
fetched = fetch pushed

abbrev stopping : Logger
stopping = record fetched { running = false; buffer = stop fetched.buffer }

abbrev joined : Logger
joined = record stopping { phase = left }

joined_reached : Reach new_logger joined
unfolding finish push_locked fetch swap_and_get is_empty_buffer stop
joined_reached =
    next
      (next (next (next pushed_reached (round pushed refl)) (stop_running fetched))
        (stop_buffer (record fetched { running = false }) refl))
      (leave stopping refl refl refl)

abbrev drained : Logger
drained = record (fetch joined) { phase = closed }

drain_complete_example : drained.accepted ≡ drained.delivered
unfolding finish fetch stop
drain_complete_example =
    drain_complete new_logger joined drained drained (refl, refl, refl) joined_reached
      (drain joined refl refl) (λ e. cc) refl refl here

abbrev late : Logger
late = record new_logger { phase = closed; in_flight = entry ∷ []; running = false }

late_push_lost_example :
    ((finish late entry []).accepted ≡ late.accepted ++ (entry ∷ []))
    × ((finish late entry []).delivered ≡ late.delivered)
late_push_lost_example = late_push_lost late (finish late entry []) entry [] refl refl refl here

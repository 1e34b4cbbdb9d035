-- ===== src/Gateway/Tests.antt =====
-- Runs of the command queue, and the theorems about it at concrete histories.
use rav_bot.Prelude.{ℕ, ◌+◌, ◌≤◌, ◌≡◌, refl, true, none, some, List, [], ◌∷◌, length}
use rav_bot.Prelude.Int.{pos, ◌+ℤ◌}
use rav_bot.Prelude.Text.{Str, bytes, str_eq, find}
use rav_bot.Prelude.Decimal.{to_string, stoi}
use rav_bot.Prelude.Map.{lookup, insert, erase}
use rav_bot.Gateway.Types.{
  QueueMode, collect, steer, interrupt, drop_oldest, reject, QueueConfig, QueuedCommand, State,
}
use rav_bot.Gateway.Lane.{
  SessionLane, apply_cap_overflow, overflow_loop, drop_one, try_activate, enqueue, interrupt_active,
  keep_last, complete_active,
}
use rav_bot.Gateway.Lane.Summary.{merge_messages, collapsed_count, summary_content}
use rav_bot.Gateway.Lane.Overflow.{kept, gone, apply_cap_overflow-kept}
use rav_bot.Gateway.CommandQueue.{
  CommandQueue, init, submit, submit_lane, get_lane, dispatch, batch, finish, start,
}
use rav_bot.Gateway.CommandQueue.Events.{
  Event, starts, submits, dispatches, finishes, apply, run, count_session, active_in,
}
use rav_bot.Gateway.CommandQueue.Counting.{IsCounted, run-IsCounted}
use rav_bot.Gateway.CommandQueue.Serial.{run-Serial}
use rav_bot.Gateway.CommandQueue.Interrupts.{interrupt_runs_two}

-- JSON objects stand as texts, and a write replaces the text.
abbrev put : Str → Str → Str → Str
put json key value = value

abbrev config : QueueConfig
config = record {
  max_concurrent = pos 2;
  debounce_ms = pos 0;
  cap = pos 2;
  drop = drop_oldest;
  default_mode = collect;
}

abbrev command : Str → QueueMode → QueuedCommand Str
command id mode = record {
  id = id;
  session_key = bytes "s";
  message = id;
  params = [];
  connection_id = bytes "c";
  rpc_request_id = bytes "r";
  mode = mode;
  enqueued_at = 0;
  state = State.pending;
}

abbrev one : QueuedCommand Str
one = command (bytes "1") collect

abbrev two : QueuedCommand Str
two = command (bytes "2") collect

abbrev three : QueuedCommand Str
three = command (bytes "3") collect

program : Unit {0}
unfolding apply run init start submit submit_lane get_lane dispatch batch finish str_eq lookup
    insert erase apply_cap_overflow overflow_loop drop_one try_activate enqueue interrupt_active
    keep_last complete_active
program = tt

abbrev history : List (Event Str)
history =
    starts
    ∷ submits one
    ∷ dispatches 5
    ∷ submits two
    ∷ dispatches 6
    ∷ finishes 0 true []
    ∷ dispatches 7
    ∷ []

-- The second message waits until the first run ends.
history_runs : (run put (init config) history).active_count ≡ 1
unfolding program
history_runs = refl

run-IsCounted_example : IsCounted config (run put (init config) history)
run-IsCounted_example =
    run-IsCounted put config history (tt, (tt, (tt, (tt, (tt, (tt, (tt, tt)))))))

run-Serial_example :
    (count_session (bytes "s") (run put (init config) history).workers
      ≡ active_in (bytes "s") (run put (init config) history).lanes)
    × (count_session (bytes "s") (run put (init config) history).workers ≤ 1)
unfolding program
run-Serial_example =
    run-Serial put config history (bytes "s") (tt, (refl, (tt, (refl, (tt, (tt, (tt, tt)))))))

abbrev busy : CommandQueue Str
busy = unfold program in run put (init config) (starts ∷ submits one ∷ dispatches 5 ∷ [])

abbrev busy_lane : SessionLane Str
busy_lane = record {
  session_key = bytes "s";
  mode = collect;
  debounce_ms = pos 0;
  cap = pos 2;
  drop = drop_oldest;
  pending = [];
  active_command = some (record one { state = State.active });
}

interrupt_runs_two_example :
    2
    ≤ count_session
        (bytes "s")
        (dispatch put 6 (submit (command (bytes "2") interrupt) busy).0).workers
unfolding program
interrupt_runs_two_example =
    interrupt_runs_two put 6 (command (bytes "2") interrupt) busy_lane 1 busy [] refl refl refl refl
      refl refl refl refl refl

abbrev idle_lane : SessionLane Str
idle_lane = record busy_lane { mode = steer; cap = pos 7; active_command = none }

abbrev full_lane : SessionLane Str
full_lane = record busy_lane { drop = reject; pending = one ∷ two ∷ three ∷ [] }

apply_cap_overflow-kept_example :
    let (after, dropped) = apply_cap_overflow full_lane in
    (length full_lane.pending ≤ 2 → (after ≡ full_lane) × (dropped ≡ []))
    × ((extra : ℕ)
        → length full_lane.pending ≡ 2 + extra
        → (after.pending ≡ kept reject 2 extra full_lane.pending)
          × (dropped ≡ gone reject 2 extra full_lane.pending)
          × (length after.pending ≡ 2)
          × (length dropped ≡ extra))
apply_cap_overflow-kept_example = apply_cap_overflow-kept full_lane 1 refl

rejects_newest :
    apply_cap_overflow full_lane ≡ (record full_lane { pending = one ∷ two ∷ [] }, bytes "3" ∷ [])
unfolding program
rejects_newest = refl

merged :
    merge_messages (merge_messages (bytes "hello") (bytes "you")) (bytes "there")
    ≡ bytes "[Queue summary: 3 messages] hello | you | there"
unfolding merge_messages collapsed_count summary_content find to_string stoi ◌+ℤ◌
merged = refl

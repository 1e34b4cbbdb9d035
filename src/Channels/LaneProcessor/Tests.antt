-- ===== src/Channels/LaneProcessor/Tests.antt =====
-- The theorems about the lane processor at concrete inputs.
use rav_bot.Prelude.{ℕ, ◌+◌, ◌≤◌, ◌≡◌, refl, true, false, [], ◌∷◌, ◌++◌, length}
use rav_bot.Channels.LaneProcessor.{
  ended, executing, Lane, new_lane, holds_mutex, push, pushed, entered, took, ran, left, Steps,
  no_step, ◌then◌,
}
use rav_bot.Channels.LaneProcessor.Order.{current, reached-InOrder}
use rav_bot.Channels.LaneProcessor.Stopping.{to_come, executed-shut}

-- Two tasks are submitted, and the worker has taken the first.
abbrev busy : Lane ℕ
busy = record {
  queue = 8 ∷ [];
  running = true;
  worker = executing 7;
  submitted = 7 ∷ 8 ∷ [];
  executed = [];
}

busy_reached : Steps new_lane busy
unfolding push holds_mutex
busy_reached =
    pushed 7 refl then pushed 8 refl then entered refl refl then took refl refl then no_step

reached-InOrder_example : busy.executed ++ current busy.worker ++ busy.queue ≡ busy.submitted
reached-InOrder_example = reached-InOrder busy busy_reached

-- Shutdown comes while the first task runs: the second is lost.
abbrev stopping : Lane ℕ
stopping = record busy { running = false }

abbrev stopped : Lane ℕ
stopped = record stopping { worker = ended; executed = 7 ∷ [] }

executed-shut_example : length stopped.executed ≤ length stopping.executed + to_come stopping.worker
executed-shut_example =
    executed-shut stopping stopped refl (ran refl then left refl refl then no_step)

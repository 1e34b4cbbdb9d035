-- ===== src/Gateway/CommandQueue/Events.antt =====
-- Histories of a command queue: the steps that callers, the dispatcher and the workers take, in
-- the order in which they hold the mutex.
use rav_bot.Prelude.{ℕ, Bool, List, [], ◌∷◌, none, some, if◌then◌else◌, ◌+◌}
use rav_bot.Prelude.Int.{ℤ}
use rav_bot.Prelude.Text.{Str, str_eq}
use rav_bot.Prelude.Map.{Map, lookup}
use rav_bot.Gateway.Types.{QueueMode, QueueConfig, QueuedCommand}
use rav_bot.Gateway.Lane.{SessionLane, has_active}
use rav_bot.Gateway.CommandQueue.{
  CommandQueue, start, stop, submit, cancel, abort_session, configure_session, set_config, dispatch,
  finish,
}

pub data Event (Json : Type 0) : Type 0 where
  starts stops : Event Json
  submits : QueuedCommand Json → Event Json
  cancels aborts : Str → Event Json
  configures : Str → QueueMode → ℤ → ℤ → Str → Event Json
  sets_config : QueueConfig → Event Json
  dispatches : ℕ → Event Json
  finishes : ℕ → Bool → Json → Event Json

module _ {Json : Type 0} (put : Json → Str → Str → Json) where
  unfoldable pub apply : CommandQueue Json → Event Json → CommandQueue Json
  apply q starts = start q
  apply q stops = stop q
  apply q (submits cmd) = (submit cmd q).0
  apply q (cancels id) = (cancel id q).1
  apply q (aborts key) = (abort_session key q).1
  apply q (configures key mode debounce_ms cap drop) =
      configure_session key mode debounce_ms cap drop q
  apply q (sets_config config) = set_config config q
  apply q (dispatches now) = dispatch put now q
  apply q (finishes i ok result) = (finish i ok result q).0

  unfoldable pub run : CommandQueue Json → List (Event Json) → CommandQueue Json
  run q [] = q
  run q (e ∷ es) = run (apply q e) es

module _ {Json : Type 0} where
  -- How many worker threads run for a session.
  abbrev pub count_session : Str → List (QueuedCommand Json) → ℕ
  count_session key [] = 0
  count_session key (cmd ∷ ws) =
      (if str_eq cmd.session_key key then 1 else 0) + count_session key ws

  -- 1 if the session's lane holds an active command, and else 0.
  abbrev pub active_in : Str → Map (SessionLane Json) → ℕ
  active_in key m = elim (lookup key m) [ none ↦ 0 | some lane ↦ if has_active lane then 1 else 0 ]

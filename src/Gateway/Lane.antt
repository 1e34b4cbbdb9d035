-- ===== src/Gateway/Lane.antt =====
-- class SessionLane: include/ravbot/gateway/command_queue.hpp and src/gateway/command_queue.cpp.
pub mod Summary
pub mod Overflow
use rav_bot.Prelude.{
  ℕ, zero, suc, ◌+◌, ◌-◌, ◌/◌, Bool, true, false, ◌&&◌, not, Option, none, some, List, [], ◌∷◌,
  ◌++◌, length, is_empty, is_some, ltb, leb, if◌then◌else◌,
}
use rav_bot.Prelude.Int.{ℤ, pos, sub_ℕ, ltb_ℤ, leb_ℤ}
use rav_bot.Prelude.Text.{Str, bytes, str_eq}
use rav_bot.Gateway.Types.{
  QueueMode, DropPolicy, summarize, drop_oldest, reject, QueueConfig, QueuedCommand, State, collect,
  active, complete,
}
use Summary.{merge_messages}

pub record SessionLane (Json : Type 0) : Type 0 where
  pub session_key : Str
  pub mode : QueueMode
  pub debounce_ms : ℤ
  pub cap : ℤ
  pub drop : DropPolicy
  pub pending : List (QueuedCommand Json)
  pub active_command : Option (QueuedCommand Json)

abbrev pub nanos_per_milli : ℕ
nanos_per_milli = 1_000_000

-- The age of a command in whole milliseconds, rounded towards zero.
abbrev pub elapsed : ℕ → ℕ → ℤ
elapsed now enqueued_at =
    sub_ℕ ((now - enqueued_at) / nanos_per_milli) ((enqueued_at - now) / nanos_per_milli)

module _ {Json : Type 0} where
  -- The constructor.
  unfoldable pub init : Str → SessionLane Json
  init key = record {
    session_key = key;
    mode = collect;
    debounce_ms = pos 1000;
    cap = pos 20;
    drop = summarize;
    pending = [];
    active_command = none;
  }

  unfoldable pub enqueue : QueuedCommand Json → SessionLane Json → SessionLane Json
  enqueue cmd lane = record lane { pending = lane.pending ++ cmd ∷ [] }

  abbrev pub has_pending : SessionLane Json → Bool
  has_pending lane = not (is_empty lane.pending)

  abbrev pub has_active : SessionLane Json → Bool
  has_active lane = is_some lane.active_command

  abbrev pub is_idle : SessionLane Json → Bool
  is_idle lane = not (has_active lane) && not (has_pending lane)

  unfoldable pub activate :
      ℕ
      → List (QueuedCommand Json)
      → Option (QueuedCommand Json)
      → SessionLane Json
      → Option (QueuedCommand Json) × SessionLane Json
  activate now [] running lane = (none, lane)
  activate now (front ∷ rest) (some cmd) lane = (none, lane)
  activate now (front ∷ rest) none lane =
      if ltb_ℤ (elapsed now front.enqueued_at) lane.debounce_ms then (none, lane) else (
        some (record front { state = active }),
        record lane { pending = rest; active_command = some (record front { state = active }) },
      )

  unfoldable pub try_activate :
      ℕ → SessionLane Json → Option (QueuedCommand Json) × SessionLane Json
  unfolding activate
  try_activate now lane = activate now lane.pending lane.active_command lane

  unfoldable pub complete_active : SessionLane Json → Option (QueuedCommand Json) × SessionLane Json
  complete_active lane = elim lane.active_command [
    | none ↦ (none, lane)
    | some cmd ↦ (some (record cmd { state = complete }), record lane { active_command = none })
  ]

  -- The front of a list without its last element, and the last element.
  abbrev pub unsnoc :
      QueuedCommand Json
      → List (QueuedCommand Json)
      → List (QueuedCommand Json) × QueuedCommand Json
  unsnoc x [] = ([], x)
  unsnoc x (y ∷ ys) = let (front, last) = unsnoc y ys in (x ∷ front, last)

  -- One round of the overflow loop on a queue: the queue after it and the IDs dropped.
  unfoldable pub drop_one :
      DropPolicy → List (QueuedCommand Json) → List (QueuedCommand Json) × List Str
  drop_one summarize (oldest ∷ second ∷ rest) = (
    record oldest { message = merge_messages oldest.message second.message } ∷ rest,
    second.id ∷ [],
  )
  drop_one summarize queue = (queue, [])
  drop_one drop_oldest (front ∷ rest) = (rest, front.id ∷ [])
  drop_one drop_oldest [] = ([], [])
  drop_one reject (front ∷ rest) = let (kept, last) = unsnoc front rest in (kept, last.id ∷ [])
  drop_one reject [] = ([], [])

  -- The loop, with a bound on its rounds.
  unfoldable pub overflow_loop :
      ℕ
      → ℤ
      → DropPolicy
      → List (QueuedCommand Json)
      → List Str
      → List (QueuedCommand Json) × List Str
  overflow_loop zero cap policy queue dropped = (queue, dropped)
  overflow_loop (suc rounds) cap policy queue dropped =
      let (queue', ids) = drop_one policy queue in
      let rest = overflow_loop rounds cap policy queue' (dropped ++ ids) in
      if ltb_ℤ cap (pos (length queue))
      then (if leb_ℤ cap (pos 0) then (queue', dropped ++ ids) else rest)
      else (queue, dropped)

  -- Each round but a last one makes the queue shorter, so as many rounds as it is long suffice.
  unfoldable pub apply_cap_overflow : SessionLane Json → SessionLane Json × List Str
  apply_cap_overflow lane =
      let (queue, dropped) =
        overflow_loop (length lane.pending) lane.cap lane.drop lane.pending [] in
      (record lane { pending = queue }, dropped)

  unfoldable pub join_messages : Str → List (QueuedCommand Json) → Str
  join_messages result [] = result
  join_messages result (cmd ∷ queue) =
      join_messages ((if is_empty result then result else result ++ 10 ∷ 10 ∷ []) ++ cmd.message)
        queue

  unfoldable pub drain_pending_as_steering_text : SessionLane Json → Str × SessionLane Json
  drain_pending_as_steering_text lane =
      (join_messages [] lane.pending, record lane { pending = [] })

  unfoldable pub remove_first : Str → List (QueuedCommand Json) → Bool × List (QueuedCommand Json)
  remove_first id [] = (false, [])
  remove_first id (cmd ∷ queue) =
      let (found, rest) = remove_first id queue in
      if str_eq cmd.id id then (true, queue) else (found, cmd ∷ rest)

  unfoldable pub cancel_pending : Str → SessionLane Json → Bool × SessionLane Json
  cancel_pending id lane =
      let (found, rest) = remove_first id lane.pending in (found, record lane { pending = rest })

  -- `while (pending_.size() > 1) pending_.pop_front();`
  unfoldable pub keep_last : List (QueuedCommand Json) → List (QueuedCommand Json)
  keep_last [] = []
  keep_last (cmd ∷ []) = cmd ∷ []
  keep_last (cmd ∷ next ∷ queue) = keep_last (next ∷ queue)

  unfoldable pub interrupt_active : SessionLane Json → Option Str × SessionLane Json
  interrupt_active lane = (
    elim lane.active_command [ none ↦ none | some cmd ↦ some cmd.id ],
    record lane { pending = keep_last lane.pending; active_command = none },
  )

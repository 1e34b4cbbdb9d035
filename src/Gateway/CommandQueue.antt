-- ===== src/Gateway/CommandQueue.antt =====
-- class CommandQueue of src/gateway/command_queue.cpp. The callers' and the dispatcher's work
-- under the mutex is one step each; the detached worker threads are the list `workers`. JSON values
-- with their operator[], the executor's results and the random IDs are parameters.
pub mod Events
pub mod Counting
mod Ownership
pub mod SerialLanes
pub mod Serial
pub mod Interrupts
pub mod Forgetting
use rav_bot.Prelude.{
  ℕ, zero, suc, ◌+◌, ◌-◌, Bool, true, false, ◌&&◌, not, Option, none, some, List, [], ◌∷◌, ◌++◌,
  length, map, filter, is_empty, ltb, leb, if◌then◌else◌, get_elem?,
}
use rav_bot.Prelude.Int.{ℤ, pos, ltb_ℤ, leb_ℤ}
use rav_bot.Prelude.Text.{Str, bytes, str_eq}
use rav_bot.Prelude.Map.{Map, lookup, insert, erase}
use rav_bot.Gateway.Types.{
  QueueMode, collect, followup, steer, steer_backlog, interrupt, DropPolicy,
  drop_policy_from_string, QueueConfig, QueuedCommand, pending,
}
use rav_bot.Gateway.Lane
use rav_bot.Gateway.Lane.{
  SessionLane, has_active, has_pending, is_idle, enqueue, try_activate, complete_active,
  apply_cap_overflow, drain_pending_as_steering_text, cancel_pending, interrupt_active,
}

pub record CommandQueue (Json : Type 0) : Type 0 where
  pub config : QueueConfig
  pub lanes : Map (SessionLane Json)
  pub command_to_session : Map Str
  pub active_count : ℕ
  pub running : Bool
  -- The commands whose worker threads run.
  pub workers : List (QueuedCommand Json)

-- What the queue sends to its clients.
pub data Output (Json : Type 0) : Type 0 where
  overflow : Str → Str → ℕ → DropPolicy → ℕ → Output Json
  started completed : Str → Str → Str → Output Json
  response : Str → Str → Bool → Json → Output Json

abbrev pub is_interrupt : QueueMode → Bool
is_interrupt interrupt = true
is_interrupt mode = false

abbrev pub is_steering : QueueMode → Bool
is_steering steer = true
is_steering steer_backlog = true
is_steering mode = false

abbrev pub erase_all : List Str → Map Str → Map Str
erase_all [] m = m
erase_all (id ∷ ids) m = erase_all ids (erase id m)

module _ {Json : Type 0} where
  unfoldable pub init : QueueConfig → CommandQueue Json
  init config = record {
    config = config;
    lanes = [];
    command_to_session = [];
    active_count = 0;
    running = false;
    workers = [];
  }

  unfoldable pub start : CommandQueue Json → CommandQueue Json
  start q = record q { running = true }

  unfoldable pub stop : CommandQueue Json → CommandQueue Json
  stop q = record q { running = false }

  -- A lane with the queue's defaults.
  unfoldable pub new_lane : QueueConfig → Str → SessionLane Json
  new_lane config key = record (Lane.init key) {
    mode = config.default_mode;
    debounce_ms = config.debounce_ms;
    cap = config.cap;
    drop = config.drop;
  }

  -- The lane of a session, which the caller writes back.
  unfoldable pub get_lane : Str → CommandQueue Json → SessionLane Json
  unfolding new_lane Lane.init
  get_lane key q = elim (lookup key q.lanes) [ none ↦ new_lane q.config key | some lane ↦ lane ]

  abbrev pub set_lane : Str → SessionLane Json → CommandQueue Json → CommandQueue Json
  set_lane key lane q = record q { lanes = insert key lane q.lanes }

  -- A command that did not specify a mode takes the session's.
  abbrev pub effective_mode : QueueMode → SessionLane Json → QueueMode
  effective_mode collect lane = lane.mode
  effective_mode mode lane = mode

  -- The part of Submit under the mutex, on the session's lane.
  unfoldable pub submit_lane : QueuedCommand Json → SessionLane Json → SessionLane Json × List Str
  submit_lane cmd lane =
      let lane' =
        if is_interrupt cmd.mode && has_active lane then (interrupt_active lane).1 else lane in
      if is_steering cmd.mode && has_active lane'
      then (enqueue cmd lane', [])
      else apply_cap_overflow (enqueue cmd lane')

  unfoldable pub submit :
      QueuedCommand Json → CommandQueue Json → CommandQueue Json × List (Output Json)
  submit cmd q =
      let lane = get_lane cmd.session_key q in
      let command = record cmd { mode = effective_mode cmd.mode lane; state = pending } in
      let (lane', dropped) = submit_lane command lane in
      (
        record q {
          lanes = insert cmd.session_key lane' q.lanes;
          command_to_session =
              erase_all dropped (insert cmd.id cmd.session_key q.command_to_session);
        },
        if is_empty dropped
            then []
            else overflow cmd.connection_id cmd.session_key (length dropped) lane'.drop
                (length lane'.pending)
              ∷ [],
      )

  unfoldable pub cancel : Str → CommandQueue Json → Bool × CommandQueue Json
  cancel id q = elim (lookup id q.command_to_session) [
    | none ↦ (false, q)
    | some key ↦
        let (cancelled, lane) = cancel_pending id (get_lane key q) in
        (
          cancelled,
          record q {
            lanes = insert key lane q.lanes;
            command_to_session = erase id q.command_to_session;
          },
        )
  ]

  abbrev pub aborted :
      Str → CommandQueue Json → Option Str × SessionLane Json → Bool × CommandQueue Json
  aborted key q (none, lane) = (false, set_lane key lane q)
  aborted key q (some id, lane) = (
    true,
    record q {
      lanes = insert key lane q.lanes;
      command_to_session = erase id q.command_to_session;
    },
  )

  unfoldable pub abort_session : Str → CommandQueue Json → Bool × CommandQueue Json
  abort_session key q = elim (lookup key q.lanes) [
    | none ↦ (false, q)
    | some lane ↦ aborted key q (interrupt_active lane)
  ]

  unfoldable pub configure_session :
      Str → QueueMode → ℤ → ℤ → Str → CommandQueue Json → CommandQueue Json
  configure_session key mode debounce_ms cap drop q =
      let lane = get_lane key q in
      set_lane key
        (record lane {
          mode = mode;
          debounce_ms = if leb_ℤ (pos 0) debounce_ms then debounce_ms else lane.debounce_ms;
          cap = if leb_ℤ (pos 0) cap then cap else lane.cap;
          drop = if is_empty drop then lane.drop else drop_policy_from_string drop;
        })
        q

  unfoldable pub set_config : QueueConfig → CommandQueue Json → CommandQueue Json
  set_config config q = record q { config = config }

  abbrev total_pending : Map (SessionLane Json) → ℕ
  total_pending [] = 0
  total_pending ((key, lane) ∷ m) = length lane.pending + total_pending m

  abbrev active_lanes : Map (SessionLane Json) → ℕ
  active_lanes [] = 0
  active_lanes ((key, lane) ∷ m) = (if has_active lane then 1 else 0) + active_lanes m

  -- GlobalStatus: activeLanes, activeCount, totalPending and totalLanes.
  unfoldable pub global_status : CommandQueue Json → ℕ × ℕ × ℕ × ℕ
  global_status q = (active_lanes q.lanes, q.active_count, total_pending q.lanes, length q.lanes)

  unfoldable pub clean_up : Map (SessionLane Json) → Map (SessionLane Json)
  clean_up [] = []
  clean_up ((key, lane) ∷ m) =
      let rest = clean_up m in if is_idle lane then rest else (key, lane) ∷ rest

  -- params["collectedMessages"] = steering
  module _ (put : Json → Str → Str → Json) where
    -- What the dispatcher does to the rest of the lane of a command that it has activated.
    unfoldable pub batch :
        QueuedCommand Json → SessionLane Json → QueuedCommand Json × SessionLane Json
    batch command lane = elim command.mode [
      | collect ↦
          if has_pending lane
          then (let (steering, drained) = drain_pending_as_steering_text lane in
              (
                if is_empty steering then command else record command {
                  params = put command.params (bytes "collectedMessages") steering;
                },
                drained,
              ))
          else (command, lane)
      | followup ↦
          if ltb 1 (length lane.pending)
          then (command, (drain_pending_as_steering_text lane).1)
          else (command, lane)
      | _ ↦ (command, lane)
    ]

    unfoldable pub dispatch_command :
        Str
        → Option (QueuedCommand Json) × SessionLane Json
        → CommandQueue Json × List (QueuedCommand Json)
        → CommandQueue Json × List (QueuedCommand Json)
    dispatch_command key (none, lane) (q, to_dispatch) = (q, to_dispatch)
    dispatch_command key (some cmd, lane) (q, to_dispatch) =
        let (command, lane') = batch cmd lane in
        (
          record q {
            lanes = insert key lane' q.lanes;
            active_count = q.active_count + 1;
            command_to_session = erase command.id q.command_to_session;
          },
          to_dispatch ++ command ∷ [],
        )

    unfoldable pub dispatch_lane :
        ℕ
        → Str
        → Option (SessionLane Json)
        → CommandQueue Json × List (QueuedCommand Json)
        → CommandQueue Json × List (QueuedCommand Json)
    unfolding dispatch_command
    dispatch_lane now key none s = s
    dispatch_lane now key (some lane) s =
        if has_active lane then s else dispatch_command key (try_activate now lane) s

    -- The loop over the session keys, which ends where the limit is reached.
    unfoldable pub dispatch_keys :
        ℕ
        → List Str
        → CommandQueue Json × List (QueuedCommand Json)
        → CommandQueue Json × List (QueuedCommand Json)
    unfolding dispatch_lane
    dispatch_keys now [] s = s
    dispatch_keys now (key ∷ keys) s = dispatch_keys now keys (
        if leb_ℤ s.0.config.max_concurrent (pos s.0.active_count)
        then s
        else dispatch_lane now key (lookup key s.0.lanes) s)

    -- The commands that one round activates, and the queue that it leaves under the mutex.
    abbrev pub activated : ℕ → CommandQueue Json → CommandQueue Json × List (QueuedCommand Json)
    activated now q = dispatch_keys now (map (λ e. e.0) q.lanes) (q, [])

    -- One round of the dispatcher's loop, from the wake-up to the start of the worker threads.
    unfoldable pub dispatch_round : Bool → ℕ → CommandQueue Json → CommandQueue Json
    dispatch_round false now q = q
    dispatch_round true now q = record (activated now q).0 {
      lanes = clean_up (activated now q).0.lanes;
      workers = q.workers ++ (activated now q).1;
    }

    unfoldable pub dispatch : ℕ → CommandQueue Json → CommandQueue Json
    unfolding dispatch_round dispatch_keys clean_up
    dispatch now q = dispatch_round q.running now q

  -- What execute_command sends before the executor runs.
  unfoldable pub execution_started : QueuedCommand Json → List (Output Json)
  execution_started cmd = started cmd.connection_id cmd.id cmd.session_key ∷ []

  abbrev pub without : ℕ → List (QueuedCommand Json) → List (QueuedCommand Json)
  without i [] = []
  without zero (w ∷ ws) = ws
  without (suc i) (w ∷ ws) = w ∷ without i ws

  -- The end of execute_command in the i-th worker: `ok` is whether the executor returned, and
  -- `result` what it returned or the error object.
  unfoldable pub finish :
      ℕ → Bool → Json → CommandQueue Json → CommandQueue Json × List (Output Json)
  finish i ok result q = elim (get_elem? q.workers i) [
    | none ↦ (q, [])
    | some cmd ↦ (
      record q {
        lanes = elim (lookup cmd.session_key q.lanes) [
          | none ↦ q.lanes
          | some lane ↦ insert cmd.session_key (complete_active lane).1 q.lanes
        ];
        active_count = q.active_count - 1;
        workers = without i q.workers;
      },
      (if is_empty cmd.rpc_request_id
            then []
            else response cmd.connection_id cmd.rpc_request_id ok result ∷ [])
          ++ completed cmd.connection_id cmd.id cmd.session_key ∷ [],
    )
  ]

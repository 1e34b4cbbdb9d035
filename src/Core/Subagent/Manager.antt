-- ===== src/Core/Subagent/Manager.antt =====
-- include/ravbot/core/subagent.hpp and src/core/subagent.cpp. Spawn takes the lock twice, once
-- to check the limit and once to add the run, and calls the agent between: its parts are
-- operations of their own. The random identifiers are arguments.
use rav_bot.Prelude.{
  ℕ, Bool, true, false, not, ◌&&◌, List, [], ◌∷◌, ◌++◌, map, Option, none, some, if◌then◌else◌,
  length, filter, any, take, is_empty,
}
use rav_bot.Prelude.Int.{ℤ, pos, leb_ℤ}
use rav_bot.Prelude.Text.{Str, bytes, str_eq}
use rav_bot.Prelude.Map.{Map, lookup, insert, erase}
use rav_bot.Prelude.Decimal.{to_string}
use rav_bot.Core.Subagent.Types.{
  RunState, SpawnMode, SpawnParams, SpawnResult, SpawnStatus, SubagentConfig, SubagentManager,
  SubagentRun, accepted, cancelled, completed, failed, forbidden, run_mode, running, session_mode,
  spawn_error,
}

unfoldable pub spawn_mode_to_string : SpawnMode → Str
spawn_mode_to_string run_mode = bytes "run"
spawn_mode_to_string session_mode = bytes "session"

unfoldable pub spawn_mode_from_string : Str → SpawnMode
unfolding str_eq
spawn_mode_from_string s = if str_eq s (bytes "session") then session_mode else run_mode

-- A new manager after Configure.
abbrev pub new_manager : SubagentConfig → SubagentManager
new_manager config = record { config = config; runs = []; parent_children = [] }

unfoldable pub configure : SubagentConfig → SubagentManager → SubagentManager
configure config m = record m { config = config }

unfoldable pub is_running : RunState → Bool
is_running running = true
is_running state = false

-- rit != runs_.end() && rit->second.state == kRunning
unfoldable pub runs_now : Map SubagentRun → Str → Bool
unfolding is_running
runs_now runs id = elim (lookup id runs) [ none ↦ false | some run ↦ is_running run.state ]

unfoldable pub active_count : Map SubagentRun → List Str → ℕ
unfolding runs_now
active_count runs ids = length (filter (runs_now runs) ids)

-- The check under the first lock.
unfoldable pub children_exceeded : Str → SubagentManager → Bool
unfolding active_count
children_exceeded parent m = elim (lookup parent m.parent_children) [
  | none ↦ false
  | some ids ↦ leb_ℤ m.config.max_children (pos (active_count m.runs ids))
]

unfoldable pub target_agent : SpawnParams → Str
target_agent params = if is_empty params.agent_id then bytes "default" else params.agent_id

-- The error of a rejected call, in the order of the checks.
unfoldable pub rejection : SpawnParams → Str → ℤ → SubagentManager → Option Str
unfolding children_exceeded target_agent to_string
rejection params parent depth m =
    if leb_ℤ m.config.max_depth depth
    then some (bytes "Max spawn depth (" ++ to_string m.config.max_depth ++ bytes ") exceeded")
    else if children_exceeded parent m
    then some
        (bytes "Max active children (" ++ to_string m.config.max_children ++ bytes ") exceeded")
    else if not (is_empty m.config.allowed_agents)
        && not (any (λ agent. str_eq agent (target_agent params)) m.config.allowed_agents)
    then some (bytes "Agent '" ++ target_agent params ++ bytes "' not in allowed list")
    else none

unfoldable pub new_run : Str → Str → SpawnParams → Str → SubagentRun
new_run run_id child_key params parent = record {
  run_id = run_id;
  child_session_key = child_key;
  parent_session_key = parent;
  label = if is_empty params.label then take 50 params.task else params.label;
  model = params.model;
  mode = params.mode;
  cleanup = params.cleanup;
  state = running;
  result_summary = [];
}

unfoldable pub children_of : Str → SubagentManager → List Str
children_of parent m = elim (lookup parent m.parent_children) [ none ↦ [] | some ids ↦ ids ]

-- The block under the second lock.
unfoldable pub register : Str → SubagentRun → SubagentManager → SubagentManager
unfolding children_of
register run_id run m = record m {
  runs = insert run_id run m.runs;
  parent_children =
      insert run.parent_session_key (children_of run.parent_session_key m ++ run_id ∷ [])
        m.parent_children;
}

unfoldable pub set_state : Str → RunState → Str → SubagentManager → SubagentManager
set_state run_id state summary m = elim (lookup run_id m.runs) [
  | none ↦ m
  | some run ↦ record m {
    runs = insert run_id (record run { state = state; result_summary = summary }) m.runs;
  }
]

unfoldable pub complete_run : Str → Str → SubagentManager → SubagentManager
unfolding set_state
complete_run run_id summary m = set_state run_id completed summary m

unfoldable pub fail_run : Str → Str → SubagentManager → SubagentManager
unfolding set_state
fail_run run_id error m = set_state run_id failed (bytes "Error: " ++ error) m

unfoldable pub cancel_run : Str → SubagentManager → Bool × SubagentManager
unfolding is_running
cancel_run run_id m = elim (lookup run_id m.runs) [
  | none ↦ (false, m)
  | some run ↦
      if is_running run.state
      then (true, record m { runs = insert run_id (record run { state = cancelled }) m.runs })
      else (false, m)
]

-- What the call of the agent does: it returns a text or throws.
pub data AgentOutcome : Type 0 where
  replied : Str → AgentOutcome
  raised : Str → AgentOutcome

-- The try block around the call: what it changes, and the error that it reports.
unfoldable pub after_agent :
    Str → Option AgentOutcome → SubagentManager → Option Str × SubagentManager
unfolding complete_run fail_run
after_agent run_id none m = (none, m)
after_agent run_id (some (replied [])) m = (none, m)
after_agent run_id (some (replied (c ∷ text))) m = (none, complete_run run_id (c ∷ text) m)
after_agent run_id (some (raised what)) m = (some what, fail_run run_id what m)

abbrev rejected : SpawnStatus → Str → SpawnResult
rejected status error = record {
  status = status;
  child_session_key = [];
  run_id = [];
  mode = run_mode;
  note = [];
  error = error;
}

unfoldable pub spawn_result : Str → Str → SpawnParams → Option Str → SpawnResult
spawn_result run_id child_key params (some what) = rejected spawn_error what
spawn_result run_id child_key params none = record {
  status = accepted;
  child_session_key = child_key;
  run_id = run_id;
  mode = params.mode;
  note = bytes "Subagent spawned successfully";
  error = [];
}

-- The parts of Spawn, between which other calls can come: the checks up to the end of the first
-- lock and of the agents, with the result of a call that is rejected; the new run, added under the
-- second lock; and the call of the agent with the result.
unfoldable pub spawn_check : SpawnParams → Str → ℤ → SubagentManager → Option SpawnResult
unfolding rejection
spawn_check params parent depth m = elim (rejection params parent depth m) [
  | some error ↦ some (rejected forbidden error)
  | none ↦ none
]

unfoldable pub spawn_register : Str → Str → SpawnParams → Str → SubagentManager → SubagentManager
unfolding new_run register
spawn_register run_id child_key params parent m =
    register run_id (new_run run_id child_key params parent) m

-- `agent` is what the agent does, if one is set.
unfoldable pub spawn_finish :
    Option AgentOutcome → Str → Str → SpawnParams → SubagentManager → SpawnResult × SubagentManager
unfolding after_agent spawn_result
spawn_finish agent run_id child_key params m =
    let after = after_agent run_id agent m in
    (spawn_result run_id child_key params after.0, after.1)

unfoldable pub running_runs : Map SubagentRun → List Str → List SubagentRun
unfolding is_running
running_runs runs [] = []
running_runs runs (id ∷ ids) =
    let rest = running_runs runs ids in
    elim (lookup id runs) [
      | none ↦ rest
      | some run ↦ if is_running run.state then run ∷ rest else rest
    ]

unfoldable pub active_children : Str → SubagentManager → List SubagentRun
unfolding children_of running_runs
active_children parent m = running_runs m.runs (children_of parent m)

unfoldable pub get_run : Str → SubagentManager → Option SubagentRun
get_run run_id m = lookup run_id m.runs

-- run.cleanup, and the run is over
unfoldable pub is_disposable : SubagentRun → Bool
unfolding is_running
is_disposable run = run.cleanup && not (is_running run.state)

unfoldable pub to_remove : Map SubagentRun → List Str
unfolding is_disposable
to_remove runs = map (λ e. e.0) (filter (λ e. is_disposable e.1) runs)

unfoldable pub drop_child : Str → Str → Map (List Str) → Map (List Str)
drop_child parent id children = elim (lookup parent children) [
  | none ↦ children
  | some ids ↦ insert parent (filter (λ i. not (str_eq i id)) ids) children
]

unfoldable pub remove_run : Str → SubagentManager → SubagentManager
unfolding drop_child
remove_run id m = elim (lookup id m.runs) [
  | none ↦ m
  | some run ↦ record m {
    parent_children = drop_child run.parent_session_key id m.parent_children;
    runs = erase id m.runs;
  }
]

unfoldable pub remove_runs : List Str → SubagentManager → SubagentManager
unfolding remove_run
remove_runs [] m = m
remove_runs (id ∷ ids) m = remove_runs ids (remove_run id m)

unfoldable pub cleanup_completed : SubagentManager → ℕ × SubagentManager
unfolding to_remove remove_runs
cleanup_completed m = let ids = to_remove m.runs in (length ids, remove_runs ids m)

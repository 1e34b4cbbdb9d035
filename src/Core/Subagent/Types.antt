-- ===== src/Core/Subagent/Types.antt =====
-- The enumerations and structs of include/ravbot/core/subagent.hpp.
use rav_bot.Prelude.{Bool, List}
use rav_bot.Prelude.Int.{ℤ}
use rav_bot.Prelude.Text.{Str}
use rav_bot.Prelude.Map.{Map}

pub data SpawnMode : Type 0 where
  run_mode : SpawnMode
  session_mode : SpawnMode

pub record SpawnParams : Type 0 where
  pub task : Str
  pub label : Str
  pub agent_id : Str
  pub model : Str
  pub thinking : Str
  pub timeout_seconds : ℤ
  pub mode : SpawnMode
  pub cleanup : Bool

pub data SpawnStatus : Type 0 where
  accepted : SpawnStatus
  forbidden : SpawnStatus
  spawn_error : SpawnStatus

pub record SpawnResult : Type 0 where
  pub status : SpawnStatus
  pub child_session_key : Str
  pub run_id : Str
  pub mode : SpawnMode
  pub note : Str
  pub error : Str

pub data RunState : Type 0 where
  running : RunState
  completed : RunState
  failed : RunState
  cancelled : RunState

pub record SubagentRun : Type 0 where
  pub run_id : Str
  pub child_session_key : Str
  pub parent_session_key : Str
  pub label : Str
  pub model : Str
  pub mode : SpawnMode
  pub cleanup : Bool
  pub state : RunState
  pub result_summary : Str

pub record SubagentConfig : Type 0 where
  pub max_depth : ℤ
  pub max_children : ℤ
  pub allowed_agents : List Str

pub record SubagentManager : Type 0 where
  pub config : SubagentConfig
  pub runs : Map SubagentRun
  pub parent_children : Map (List Str)

-- ===== src/Gateway/Types.antt =====
-- The enumerations and structs of include/ravbot/gateway/command_queue.hpp, and the conversions of
-- the enumerations in src/gateway/command_queue.cpp. A command's `params` are JSON, a parameter.
use rav_bot.Prelude.{ℕ, if◌then◌else◌}
use rav_bot.Prelude.Int.{ℤ}
use rav_bot.Prelude.Text.{Str, bytes, str_eq}

pub data QueueMode : Type 0 where
  collect followup steer steer_backlog interrupt : QueueMode

unfoldable pub queue_mode_from_string : Str → QueueMode
queue_mode_from_string s =
    if str_eq s (bytes "collect")
    then collect
    else if str_eq s (bytes "followup")
    then followup
    else if str_eq s (bytes "steer")
    then steer
    else if str_eq s (bytes "steer-backlog")
    then steer_backlog
    else if str_eq s (bytes "interrupt")
    then interrupt
    else collect

unfoldable pub queue_mode_to_string : QueueMode → Str
queue_mode_to_string collect = bytes "collect"
queue_mode_to_string followup = bytes "followup"
queue_mode_to_string steer = bytes "steer"
queue_mode_to_string steer_backlog = bytes "steer-backlog"
queue_mode_to_string interrupt = bytes "interrupt"

pub data DropPolicy : Type 0 where
  summarize drop_oldest reject : DropPolicy

unfoldable pub drop_policy_from_string : Str → DropPolicy
drop_policy_from_string s =
    if str_eq s (bytes "summarize")
    then summarize
    else if str_eq s (bytes "drop-oldest")
    then drop_oldest
    else if str_eq s (bytes "reject")
    then reject
    else summarize

unfoldable pub drop_policy_to_string : DropPolicy → Str
drop_policy_to_string summarize = bytes "summarize"
drop_policy_to_string drop_oldest = bytes "drop-oldest"
drop_policy_to_string reject = bytes "reject"

pub record QueueConfig : Type 0 where
  pub max_concurrent : ℤ
  pub debounce_ms : ℤ
  pub cap : ℤ
  pub drop : DropPolicy
  pub default_mode : QueueMode

pub data State : Type 0 where
  pending debouncing active complete dropped : State

pub record QueuedCommand (Json : Type 0) : Type 0 where
  pub id : Str
  pub session_key : Str
  pub message : Str
  pub params : Json
  pub connection_id : Str
  pub rpc_request_id : Str
  pub mode : QueueMode
  pub enqueued_at : ℕ
  pub state : State

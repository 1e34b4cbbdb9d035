-- ===== src/Core/Subagent/Tests.antt =====
-- The theorems about the subagents at concrete inputs.
use rav_bot.Prelude.{◌≡◌, ◌<◌, ◌+◌, refl, true, List, [], ◌∷◌, length, arith}
use rav_bot.Prelude.Int.{pos}
use rav_bot.Prelude.Text.{Str, bytes, str_eq}
use rav_bot.Prelude.Map.{lookup, insert, erase}
use rav_bot.Core.Subagent.Types.{SubagentManager, SubagentConfig, SpawnParams, run_mode, completed}
use rav_bot.Core.Subagent.Manager.{
  replied, new_run, active_children, cleanup_completed, cancel_run, after_agent, spawn_check,
  spawn_register,
}
use rav_bot.Core.Subagent.Histories.{
  Call, checked, registered, agent_ended, cancel_asked, cleaned, new_world, run, IsFair,
  active_children-run,
}
use rav_bot.Core.Subagent.Within.{limit}

abbrev config : SubagentConfig
config = record { max_depth = pos 5; max_children = pos 1; allowed_agents = [] }

abbrev params : SpawnParams
params = record {
  task = bytes "look";
  label = [];
  agent_id = [];
  model = [];
  thinking = [];
  timeout_seconds = pos 300;
  mode = run_mode;
  cleanup = true;
}

abbrev parent : Str
parent = bytes "agent:main:main"

-- Two calls at once pass the check, a third is rejected; then two children run, one ends, and
-- the history goes on.
abbrev calls : List Call
calls =
    checked params parent (pos 0)
    ∷ checked params parent (pos 0)
    ∷ registered (bytes "a") (bytes "ka") params parent
    ∷ checked params parent (pos 0)
    ∷ registered (bytes "b") (bytes "kb") params parent
    ∷ agent_ended (bytes "a") (replied (bytes "done"))
    ∷ cancel_asked (bytes "a")
    ∷ cleaned
    ∷ []

calls-IsFair : IsFair 2 calls (new_world config)
unfolding IsFair lookup insert str_eq spawn_check spawn_register
calls-IsFair = (omega arith, (omega arith, (refl, (omega arith, (refl, tt)))))

active_children-run_example :
    length (active_children parent (run calls (new_world config)).manager)
      + (run calls (new_world config)).in_flight parent
    < limit config + 2
active_children-run_example = active_children-run config 2 calls parent calls-IsFair (omega arith)

child_b :
    active_children parent (run calls (new_world config)).manager
    ≡ new_run (bytes "b") (bytes "kb") params parent ∷ []
unfolding run active_children new_run lookup insert erase str_eq cleanup_completed cancel_run
    after_agent spawn_check spawn_register
child_b = refl

abbrev manager : SubagentManager
unfolding new_run
manager = record {
  config = config;
  runs =
      (bytes "a", record (new_run (bytes "a") (bytes "ka") params parent) { state = completed })
      ∷ (bytes "b", new_run (bytes "b") (bytes "kb") params parent)
      ∷ [];
  parent_children = (parent, bytes "a" ∷ bytes "b" ∷ []) ∷ [];
}

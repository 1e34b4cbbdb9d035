-- ===== src/Core/Subagent/States.antt =====
-- What single calls do to a run, and to the limit.
use rav_bot.Prelude.{◌≡◌, true, [], none, some, arith}
use rav_bot.Prelude.Int.{ℤ, ◌<ℤ◌}
use rav_bot.Prelude.Text.{Str, str_eq_refl}
use rav_bot.Prelude.Map.{lookup, insert, lookup-insert}
use rav_bot.Core.Subagent.Types.{
  SubagentManager, SubagentRun, running, completed, cancelled, SpawnParams,
}
use rav_bot.Core.Subagent.Manager.{is_running, cancel_run, complete_run, get_run, rejection}

-- CompleteRun does not ask whether the run still runs: one that was cancelled counts as completed
-- when its agent ends.
complete_run-cancel_run :
    (id summary : Str) (run : SubagentRun) (m : SubagentManager)
    → get_run id m ≡ some run
    → run.state ≡ running
    → ((cancel_run id m).0 ≡ true)
      × (get_run id (cancel_run id m).1 ≡ some (record run { state = cancelled }))
      × (get_run id (complete_run id summary (cancel_run id m).1)
          ≡ some (record run { state = completed; result_summary = summary }))
unfolding get_run cancel_run complete_run is_running
complete_run-cancel_run id summary run m l r = ground (
  arith,
  lookup-insert id id (record run { state = cancelled }) m.runs,
  lookup-insert id id (record run { state = completed; result_summary = summary })
      (insert id (record run { state = cancelled }) m.runs),
  str_eq_refl id,
)

-- The limit on the children is not checked for a session without an entry: its first child is
-- accepted even where max_children is 0 or negative.
rejection_first_child :
    (params : SpawnParams) (parent : Str) (depth : ℤ) (m : SubagentManager)
    → depth <ℤ m.config.max_depth
    → m.config.allowed_agents ≡ []
    → lookup parent m.parent_children ≡ none
    → rejection params parent depth m ≡ none
unfolding rejection
rejection_first_child params parent depth m d a l = ground arith

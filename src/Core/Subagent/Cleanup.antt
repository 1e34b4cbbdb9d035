-- ===== src/Core/Subagent/Cleanup.antt =====
-- CleanupCompleted: which runs it removes.
use rav_bot.Prelude.{
  ◌≡◌, refl, ◌∙◌, Bool, false, List, [], ◌∷◌, Option, none, some, arith, if◌then◌else◌, any,
}
use rav_bot.Prelude.Text.{Str, str_eq, str_eq_iff}
use rav_bot.Prelude.Map.{Map, lookup, lookup-erase, Distinct}
use rav_bot.Core.Subagent.Types.{SubagentManager, SubagentRun}
use rav_bot.Core.Subagent.Manager.{
  is_disposable, to_remove, remove_run, remove_runs, cleanup_completed, get_run,
}

abbrev listed : Str → List Str → Bool
listed id ids = any (λ i. str_eq i id) ids

-- A run, unless it is over and to be removed then.
unfoldable pub kept : Option SubagentRun → Option SubagentRun
kept none = none
kept (some run) = if is_disposable run then none else some run

lookup-remove_run :
    (id i : Str) (m : SubagentManager)
    → lookup id (remove_run i m).runs ≡ (if str_eq i id then none else lookup id m.runs)
unfolding remove_run
lookup-remove_run id i m = ground (arith, lookup-erase i id m.runs, str_eq_iff i id)

lookup-remove_runs :
    (id : Str) (ids : List Str) (m : SubagentManager)
    → lookup id (remove_runs ids m).runs ≡ (if listed id ids then none else lookup id m.runs)
unfolding remove_runs
lookup-remove_runs id [] m = refl
lookup-remove_runs id (i ∷ ids) m =
    ground (arith, lookup-remove_run id i m, lookup-remove_runs id ids (remove_run i m))

listed-absent :
    (id : Str) (runs : Map SubagentRun) → lookup id runs ≡ none → listed id (to_remove runs) ≡ false
unfolding lookup to_remove
listed-absent id [] l = refl
listed-absent id ((i, run) ∷ runs) l = ground (arith, listed-absent id runs)

kept-to_remove :
    (id : Str) (runs : Map SubagentRun)
    → Distinct runs
    → (if listed id (to_remove runs) then none else lookup id runs) ≡ kept (lookup id runs)
unfolding lookup to_remove kept
kept-to_remove id [] d = refl
kept-to_remove id ((i, run) ∷ runs) d =
    ground (arith, kept-to_remove id runs d.1, listed-absent id runs, str_eq_iff i id)

-- CleanupCompleted removes exactly the runs that are over and were spawned with cleanup, and
-- leaves the others as they are.
get_run-cleanup_completed :
    (id : Str) (m : SubagentManager)
    → Distinct m.runs
    → get_run id (cleanup_completed m).1 ≡ kept (get_run id m)
unfolding get_run cleanup_completed
get_run-cleanup_completed id m d =
    lookup-remove_runs id (to_remove m.runs) m ∙ kept-to_remove id m.runs d

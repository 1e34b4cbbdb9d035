-- ===== src/Core/Subagent/Within.antt =====
-- The limit as an invariant of the single calls.
use rav_bot.Prelude.{
  ℕ, zero, suc, ◌≢◌, ◌≤◌, ◌<◌, ◌≡◌, refl, sym, subst, true, false, List, [], ◌∷◌, Option, none,
  some, arith, length, ◌⊎◌, inl, inr, Option-cases, Bool-cases,
}
use rav_bot.Prelude.Int.{ℤ, pos_part}
use rav_bot.Prelude.Text.{Str, str_eq, str_eq_iff}
use rav_bot.Prelude.Map.{Map, lookup, insert}
use rav_bot.Core.Subagent.Types.{
  SubagentManager, SubagentRun, SubagentConfig, RunState, completed, failed, cancelled, SpawnParams,
}
use rav_bot.Core.Subagent.Manager.{
  is_running, runs_now, active_count, children_exceeded, children_of, register, set_state,
  complete_run, fail_run, cancel_run, AgentOutcome, replied, raised, after_agent, spawn_check,
  spawn_register, rejection, new_run, running_runs, active_children, new_manager, remove_run,
  remove_runs,
}
use rav_bot.Core.Subagent.Children.{Holds}
use rav_bot.Core.Subagent.Limits.{
  children_of-some, IsBounded, IsBounded-Calms, children-Holds, Calms-insert, set_state-IsBounded,
  register-IsBounded,
}
use rav_bot.Core.Subagent.Removal.{remove_run-IsBounded}

-- The limit that the code keeps: a session without children so far is not checked.
unfoldable pub limit : SubagentConfig → ℕ
limit config = elim (pos_part config.max_children) [ zero ↦ 1 | suc n ↦ suc n ]

-- The configuration stays, and the running children of each session are within its bound.
unfoldable pub IsWithin : SubagentConfig → (Str → ℕ) → SubagentManager → Type 0
IsWithin config bound m = (m.config ≡ config) × IsBounded bound m

pub IsWithin-mono :
    (config : SubagentConfig) (few many : Str → ℕ) (m : SubagentManager)
    → ((parent : Str) → few parent ≤ many parent)
    → IsWithin config few m
    → IsWithin config many m
unfolding IsWithin Holds
IsWithin-mono config few many m le (same, h) =
    (same, λ parent ids l. let (known, n) = h parent ids l in (known, omega (arith, le parent)))

pub remove_runs-IsWithin :
    (config : SubagentConfig) (bound : Str → ℕ) (ids : List Str) (m : SubagentManager)
    → IsWithin config bound m
    → IsWithin config bound (remove_runs ids m)
unfolding remove_runs IsWithin
remove_runs-IsWithin config bound [] m h = h
remove_runs-IsWithin config bound (id ∷ ids) m h =
    remove_runs-IsWithin config bound ids (remove_run id m)
      (ground arith, remove_run-IsBounded bound id m h.1)

pub set_state-IsWithin :
    (config : SubagentConfig) (bound : Str → ℕ) (run_id summary : Str) (state : RunState)
    (m : SubagentManager)
    → is_running state ≡ false
    → IsWithin config bound m
    → IsWithin config bound (set_state run_id state summary m)
unfolding IsWithin set_state
set_state-IsWithin config bound run_id summary state m s h =
    (ground arith, set_state-IsBounded bound run_id summary state m s h.1)

rejection_room :
    (params : SpawnParams) (parent : Str) (depth : ℤ) (m : SubagentManager)
    → rejection params parent depth m ≡ none
    → active_count m.runs (children_of parent m) < limit m.config
unfolding rejection children_exceeded children_of limit
rejection_room params parent depth m h = ground arith

cancel_run_running :
    (run_id : Str) (run : SubagentRun) (m : SubagentManager)
    → lookup run_id m.runs ≡ some run
    → is_running run.state ≡ true
    → (cancel_run run_id m).1
      ≡ record m { runs = insert run_id (record run { state = cancelled }) m.runs }
unfolding cancel_run
cancel_run_running run_id run m l e = ground arith

cancel_run_idle :
    (run_id : Str) (m : SubagentManager)
    → (lookup run_id m.runs ≡ none)
      ⊎ ((run : SubagentRun) × (lookup run_id m.runs ≡ some run) × (is_running run.state ≡ false))
    → (cancel_run run_id m).1 ≡ m
unfolding cancel_run
cancel_run_idle run_id m (inl l) = ground arith
cancel_run_idle run_id m (inr (run, l, e)) = ground arith

cancelled-IsWithin :
    (config : SubagentConfig) (bound : Str → ℕ) (run_id : Str) (run : SubagentRun)
    (m : SubagentManager)
    → lookup run_id m.runs ≡ some run
    → IsWithin config bound m
    → IsWithin config bound
        (record m { runs = insert run_id (record run { state = cancelled }) m.runs })
unfolding IsWithin is_running
cancelled-IsWithin config bound run_id run m l (same, h) = (
  same,
  IsBounded-Calms bound m
      (record m { runs = insert run_id (record run { state = cancelled }) m.runs }) refl
      (Calms-insert m.runs run_id run _ l refl refl) h,
)

pub cancel_run-IsWithin :
    (config : SubagentConfig) (bound : Str → ℕ) (run_id : Str) (m : SubagentManager)
    → IsWithin config bound m
    → IsWithin config bound (cancel_run run_id m).1
cancel_run-IsWithin config bound run_id m h = elim (Option-cases (lookup run_id m.runs)) [
  | inl l ↦ subst (IsWithin config bound) (sym (cancel_run_idle run_id m (inl l))) h
  | inr (run, l) ↦ elim (Bool-cases (is_running run.state)) [
    | inr e ↦ subst (IsWithin config bound) (sym (cancel_run_idle run_id m (inr (run, l, e)))) h
    | inl e ↦
        subst (IsWithin config bound) (sym (cancel_run_running run_id run m l e))
          (cancelled-IsWithin config bound run_id run m l h)
  ]
]

pub register-IsWithin :
    (config : SubagentConfig) (bound : Str → ℕ) (run_id child_key : Str) (params : SpawnParams)
    (parent : Str) (m : SubagentManager)
    → lookup run_id m.runs ≡ none
    → active_count m.runs (children_of parent m) < bound parent
    → IsWithin config bound m
    → IsWithin config bound (spawn_register run_id child_key params parent m)
unfolding IsWithin spawn_register register new_run
register-IsWithin config bound run_id child_key params parent m fresh few (same, h) =
    (same, register-IsBounded bound run_id (new_run run_id child_key params parent) m fresh few h)

-- A call of Spawn that passes its check finds room.
pub spawn_check_room :
    (config : SubagentConfig) (bound : Str → ℕ) (params : SpawnParams) (parent : Str) (depth : ℤ)
    (m : SubagentManager)
    → spawn_check params parent depth m ≡ none
    → IsWithin config bound m
    → active_count m.runs (children_of parent m) < limit config
unfolding spawn_check IsWithin
spawn_check_room config bound params parent depth m h (same, _) =
    subst (λ c. active_count m.runs (children_of parent m) < limit c) same
      (rejection_room params parent depth m (ground arith))

pub active_count-IsWithin :
    (config : SubagentConfig) (bound : Str → ℕ) (parent : Str) (m : SubagentManager)
    → IsWithin config bound m
    → active_count m.runs (children_of parent m) ≤ bound parent
unfolding IsWithin Holds
active_count-IsWithin config bound parent m (same, h) = (children-Holds bound parent m h).1

-- A bound that is lower for one session, whose running children are within it.
pub IsWithin-tighter :
    (config : SubagentConfig) (bound tight : Str → ℕ) (parent : Str) (m : SubagentManager)
    → active_count m.runs (children_of parent m) ≤ tight parent
    → ((other : Str) → other ≢ parent → bound other ≤ tight other)
    → IsWithin config bound m
    → IsWithin config tight m
unfolding IsWithin Holds children_of
IsWithin-tighter config bound tight parent m few le (same, h) = (
  same,
  λ other ids l.
      let (known, n) = h other ids l in
      elim (Bool-cases (str_eq other parent)) [
        | inl e ↦
            let q = (str_eq_iff other parent).0 e in
            let here =
              children_of-some parent m (subst (λ p. lookup p m.parent_children ≡ some ids) q l) in
            (
              known,
              subst (λ p. active_count m.runs ids ≤ tight p) (sym q)
                  (subst (λ xs. active_count m.runs xs ≤ tight parent) here few),
            )
        | inr e ↦ (known, omega (arith, n, le other (λ q. ground (arith, str_eq_iff other parent))))
      ],
)

pub after_agent-IsWithin :
    (config : SubagentConfig) (bound : Str → ℕ) (run_id : Str) (agent : Option AgentOutcome)
    (m : SubagentManager)
    → IsWithin config bound m
    → IsWithin config bound (after_agent run_id agent m).1
unfolding after_agent complete_run fail_run is_running
after_agent-IsWithin config bound run_id none m h = h
after_agent-IsWithin config bound run_id (some (replied [])) m h = h
after_agent-IsWithin config bound run_id (some (replied (c ∷ text))) m h =
    set_state-IsWithin config bound run_id (c ∷ text) completed m refl h
after_agent-IsWithin config bound run_id (some (raised what)) m h =
    set_state-IsWithin config bound run_id _ failed m refl h

length-running_runs :
    (runs : Map SubagentRun) (ids : List Str)
    → length (running_runs runs ids) ≡ active_count runs ids
unfolding running_runs active_count runs_now
length-running_runs runs [] = refl
length-running_runs runs (id ∷ ids) = ground (arith, length-running_runs runs ids)

pub active_children-IsWithin :
    (config : SubagentConfig) (bound : Str → ℕ) (parent : Str) (m : SubagentManager)
    → IsWithin config bound m
    → length (active_children parent m) ≤ bound parent
unfolding IsWithin active_children Holds
active_children-IsWithin config bound parent m (same, h) =
    omega (
      arith,
      length-running_runs m.runs (children_of parent m),
      (children-Holds bound parent m h).1,
    )

pub new_manager-IsWithin :
    (config : SubagentConfig) (bound : Str → ℕ) → IsWithin config bound (new_manager config)
unfolding IsWithin lookup
new_manager-IsWithin config bound = (refl, λ parent ids l. ground arith)

-- ===== src/Core/Subagent/Histories.antt =====
-- Histories of calls. The parts of calls of Spawn may come between each other and between other
-- calls; the agent of a run may end at once, or later.
use rav_bot.Prelude.{
  ℕ, suc, ◌+◌, ◌-◌, ◌≤◌, ◌<◌, ◌≡◌, ◌≢◌, refl, List, [], ◌∷◌, Option, none, some, length, arith,
  if◌then◌else◌, inl, inr, Bool-cases, ltb,
}
use rav_bot.Prelude.Int.{ℤ}
use rav_bot.Prelude.Text.{Str, str_eq, str_eq_iff, str_eq_refl}
use rav_bot.Prelude.Map.{lookup}
use rav_bot.Core.Subagent.Types.{
  SubagentManager, SubagentConfig, completed, failed, SpawnParams, SpawnResult,
}
use rav_bot.Core.Subagent.Manager.{
  is_running, complete_run, fail_run, cancel_run, AgentOutcome, after_agent, spawn_check,
  spawn_register, cleanup_completed, to_remove, active_children, new_manager,
}
use rav_bot.Core.Subagent.Within.{
  limit, IsWithin, IsWithin-mono, IsWithin-tighter, register-IsWithin, spawn_check_room,
  active_count-IsWithin, remove_runs-IsWithin, set_state-IsWithin, cancel_run-IsWithin,
  after_agent-IsWithin, active_children-IsWithin, new_manager-IsWithin,
}

-- A manager, and how many calls of Spawn of each session have passed the check and not yet added
-- their run.
pub record World : Type 0 where
  pub manager : SubagentManager
  pub in_flight : Str → ℕ

abbrev pub new_world : SubagentConfig → World
new_world config = record { manager = new_manager config; in_flight = λ parent. 0 }

pub data Call : Type 0 where
  checked : SpawnParams → Str → ℤ → Call
  registered : Str → Str → SpawnParams → Str → Call
  agent_ended : Str → AgentOutcome → Call
  ended : Str → Str → Call
  broke : Str → Str → Call
  cancel_asked : Str → Call
  cleaned : Call

-- A count with another value for one session.
abbrev with_count : Str → ℕ → (Str → ℕ) → Str → ℕ
with_count parent n counts other = if str_eq other parent then n else counts other

unfoldable pub after_check : Str → Option SpawnResult → World → World
after_check parent (some result) w = w
after_check parent none w = record w {
  in_flight = with_count parent (suc (w.in_flight parent)) w.in_flight;
}

-- A run is added only by a call that has passed the check.
unfoldable pub step : Call → World → World
unfolding after_check
step (checked params parent depth) w =
    after_check parent (spawn_check params parent depth w.manager) w
step (registered run_id child_key params parent) w =
    if ltb 0 (w.in_flight parent)
    then record {
      manager = spawn_register run_id child_key params parent w.manager;
      in_flight = with_count parent (w.in_flight parent - 1) w.in_flight;
    }
    else w
step (agent_ended run_id outcome) w = record w {
  manager = (after_agent run_id (some outcome) w.manager).1;
}
step (ended run_id summary) w = record w { manager = complete_run run_id summary w.manager }
step (broke run_id error) w = record w { manager = fail_run run_id error w.manager }
step (cancel_asked run_id) w = record w { manager = (cancel_run run_id w.manager).1 }
step cleaned w = record w { manager = (cleanup_completed w.manager).1 }

unfoldable pub run : List Call → World → World
unfolding step
run [] w = w
run (c ∷ cs) w = run cs (step c w)

-- The random identifier of a new run is not in use, and no session has more than `most` calls of
-- Spawn in flight.
unfoldable pub IsFair : ℕ → List Call → World → Type 0
unfolding step
IsFair most [] w = Unit
IsFair most (checked params parent depth ∷ cs) w =
    ((step (checked params parent depth) w).in_flight parent ≤ most)
    × IsFair most cs (step (checked params parent depth) w)
IsFair most (registered run_id child_key params parent ∷ cs) w =
    (lookup run_id w.manager.runs ≡ none)
    × IsFair most cs (step (registered run_id child_key params parent) w)
IsFair most (c ∷ cs) w = IsFair most cs (step c w)

module _ (config : SubagentConfig) (most : ℕ) where
  -- What a session may have running besides its calls in flight.
  abbrev room : (Str → ℕ) → Str → ℕ
  room counts parent = limit config + most - 1 - counts parent

  record IsValid (w : World) : Type 0 where
    pub within : IsWithin config (room w.in_flight) w.manager
    pub few : (parent : Str) → w.in_flight parent ≤ most

  limit_positive : 1 ≤ limit config
  unfolding limit
  limit_positive = ground arith

  with_count_same :
      (parent : Str) (n : ℕ) (counts : Str → ℕ) → with_count parent n counts parent ≡ n
  with_count_same parent n counts = rw (str_eq_refl parent) refl

  with_count_other :
      (parent other : Str) (n : ℕ) (counts : Str → ℕ)
      → other ≢ parent
      → with_count parent n counts other ≡ counts other
  with_count_other parent other n counts d = ground (arith, str_eq_iff other parent)

  with_count-le :
      (parent : Str) (n : ℕ) (counts : Str → ℕ)
      → n ≤ most
      → ((other : Str) → counts other ≤ most)
      → (other : Str) → with_count parent n counts other ≤ most
  with_count-le parent n counts h few other = ground (arith, few other)

  after_check-IsValid :
      (params : SpawnParams) (parent : Str) (depth : ℤ) (w : World) (given : Option SpawnResult)
      → spawn_check params parent depth w.manager ≡ given
      → (after_check parent given w).in_flight parent ≤ most
      → IsValid w
      → IsValid (after_check parent given w)
  unfolding after_check
  after_check-IsValid params parent depth w (some result) c l v = v
  after_check-IsValid params parent depth w none c l v =
      let n = suc (w.in_flight parent) in
      let same = with_count_same parent n w.in_flight in
      record {
        within =
            IsWithin-tighter config (room w.in_flight) (room (with_count parent n w.in_flight))
              parent w.manager
              (omega (
                arith,
                same,
                l,
                spawn_check_room config (room w.in_flight) params parent depth w.manager c v.within,
              ))
              (λ other d. omega (arith, with_count_other parent other n w.in_flight d)) v.within;
        few = with_count-le parent n w.in_flight (omega (arith, same, l)) v.few;
      }

  registered-IsValid :
      (run_id child_key : Str) (params : SpawnParams) (parent : Str) (w : World)
      → lookup run_id w.manager.runs ≡ none
      → 0 < w.in_flight parent
      → IsValid w
      → IsValid (record {
        manager = spawn_register run_id child_key params parent w.manager;
        in_flight = with_count parent (w.in_flight parent - 1) w.in_flight;
      })
  registered-IsValid run_id child_key params parent w fresh some_one v =
      let n = w.in_flight parent - 1 in
      let same = with_count_same parent n w.in_flight in
      let more = room (with_count parent n w.in_flight) in
      record {
        within =
            register-IsWithin config more run_id child_key params parent w.manager fresh
              (omega (
                arith,
                same,
                v.few parent,
                limit_positive,
                active_count-IsWithin config (room w.in_flight) parent w.manager v.within,
              ))
              (IsWithin-mono config (room w.in_flight) more w.manager
                (λ other. ground (arith, str_eq_iff other parent)) v.within);
        few = with_count-le parent n w.in_flight (omega (arith, v.few parent)) v.few;
      }

  step-registered :
      (run_id child_key : Str) (params : SpawnParams) (parent : Str) (w : World)
      → lookup run_id w.manager.runs ≡ none
      → IsValid w
      → IsValid (step (registered run_id child_key params parent) w)
  unfolding step
  step-registered run_id child_key params parent w fresh v =
      elim (Bool-cases (ltb 0 (w.in_flight parent))) [
        | inl l ↦
            rw (step, l)
              (registered-IsValid run_id child_key params parent w fresh (ground arith) v)
        | inr l ↦ rw (step, l) v
      ]

  run-IsValid : (cs : List Call) (w : World) → IsFair most cs w → IsValid w → IsValid (run cs w)
  unfolding run IsFair step complete_run fail_run is_running cleanup_completed
  run-IsValid [] w f v = v
  run-IsValid (checked params parent depth ∷ cs) w (l, f) v =
      run-IsValid cs _ f (after_check-IsValid params parent depth w _ refl l v)
  run-IsValid (registered run_id child_key params parent ∷ cs) w (fresh, f) v =
      run-IsValid cs _ f (step-registered run_id child_key params parent w fresh v)
  run-IsValid (agent_ended run_id outcome ∷ cs) w f v = run-IsValid cs _ f (record {
    within =
        after_agent-IsWithin config (room w.in_flight) run_id (some outcome) w.manager v.within;
    few = v.few;
  })
  run-IsValid (ended run_id summary ∷ cs) w f v = run-IsValid cs _ f (record {
    within =
        set_state-IsWithin config (room w.in_flight) run_id summary completed w.manager refl
          v.within;
    few = v.few;
  })
  run-IsValid (broke run_id error ∷ cs) w f v = run-IsValid cs _ f (record {
    within = set_state-IsWithin config (room w.in_flight) run_id _ failed w.manager refl v.within;
    few = v.few;
  })
  run-IsValid (cancel_asked run_id ∷ cs) w f v = run-IsValid cs _ f (record {
    within = cancel_run-IsWithin config (room w.in_flight) run_id w.manager v.within;
    few = v.few;
  })
  run-IsValid (cleaned ∷ cs) w f v = run-IsValid cs _ f (record {
    within =
        remove_runs-IsWithin config (room w.in_flight) (to_remove w.manager.runs) w.manager
          v.within;
    few = v.few;
  })

  new_world-IsValid : IsValid (new_world config)
  new_world-IsValid = record {
    within = new_manager-IsWithin config (room (λ parent. 0));
    few = λ parent. omega arith;
  }

  -- Under one configuration, after any history of a new manager in which the parts of calls of
  -- Spawn come between each other and between other calls in any order, with identifiers that are
  -- not in use, and in which no session has more than `most` calls of Spawn at once between their
  -- check and the adding of their run: the running children of a session and its calls in flight
  -- are together fewer than max_children plus `most`, where a max_children below one counts as one.
  -- So one call at a time keeps the limit.
  pub active_children-run :
      (cs : List Call) (parent : Str)
      → IsFair most cs (new_world config)
      → 1 ≤ most
      → let w = run cs (new_world config) in
        length (active_children parent w.manager) + w.in_flight parent < limit config + most
  active_children-run cs parent f positive =
      let w = run cs (new_world config) in
      let v = run-IsValid cs (new_world config) f new_world-IsValid in
      omega (
        arith,
        limit_positive,
        v.few parent,
        active_children-IsWithin config (room w.in_flight) parent w.manager v.within,
      )

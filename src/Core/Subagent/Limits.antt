-- ===== src/Core/Subagent/Limits.antt =====
-- The limit on the running children of a session, over histories of calls.
use rav_bot.Prelude.{
  ℕ, ◌<◌, ◌≡◌, refl, sym, ap, ◌∙◌, subst, false, List, [], ◌∷◌, ◌++◌, none, some, arith, inl, inr,
  Option-cases, Bool-cases,
}
use rav_bot.Prelude.Text.{Str, str_eq, str_eq_iff, str_eq_refl}
use rav_bot.Prelude.Map.{Map, lookup, insert, lookup-insert}
use rav_bot.Core.Subagent.Types.{SubagentManager, SubagentRun, RunState}
use rav_bot.Core.Subagent.Manager.{is_running, active_count, children_of, register, set_state}
use rav_bot.Core.Subagent.Children.{
  Known, Holds, Calms, Known-Calms, active_count-Calms, Known-fresh, active_count-fresh,
  Known-append, active_count-append,
}

-- Every session's children are known, and at most `bound` of them run, a number of the session.
abbrev pub IsBounded : (Str → ℕ) → SubagentManager → Type 0
IsBounded bound m =
    (parent : Str) (ids : List Str)
    → lookup parent m.parent_children ≡ some ids
    → Holds (bound parent) m.runs parent ids

-- A call that lets every run keep its parent and starts none.
pub IsBounded-Calms :
    (bound : Str → ℕ) (m m' : SubagentManager)
    → m'.parent_children ≡ m.parent_children
    → Calms m.runs m'.runs
    → IsBounded bound m
    → IsBounded bound m'
unfolding Holds
IsBounded-Calms bound m m' same calms h parent ids l =
    let (known, few) = h parent ids (ap (lookup parent) (sym same) ∙ l) in
    (
      Known-Calms m.runs m'.runs parent ids calms known,
      omega (arith, active_count-Calms m.runs m'.runs parent ids calms known, few),
    )

pub Calms-insert :
    (runs : Map SubagentRun) (run_id : Str) (run run' : SubagentRun)
    → lookup run_id runs ≡ some run
    → run'.parent_session_key ≡ run.parent_session_key
    → is_running run'.state ≡ false
    → Calms runs (insert run_id run' runs)
Calms-insert runs run_id run run' l p s id old o = elim (Bool-cases (str_eq run_id id)) [
  | inl e ↦ (
    run',
    ground (arith, lookup-insert run_id id run' runs),
    ground (arith, str_eq_iff run_id id),
    λ t. ground arith,
  )
  | inr e ↦ (old, ground (arith, lookup-insert run_id id run' runs), refl, λ h. h)
]

set_state-none :
    (run_id summary : Str) (state : RunState) (m : SubagentManager)
    → lookup run_id m.runs ≡ none
    → set_state run_id state summary m ≡ m
unfolding set_state
set_state-none run_id summary state m l = ground arith

set_state-some :
    (run_id summary : Str) (state : RunState) (run : SubagentRun) (m : SubagentManager)
    → lookup run_id m.runs ≡ some run
    → set_state run_id state summary m ≡ record m {
      runs = insert run_id (record run { state = state; result_summary = summary }) m.runs;
    }
unfolding set_state
set_state-some run_id summary state run m l = ground arith

pub set_state-IsBounded :
    (bound : Str → ℕ) (run_id summary : Str) (state : RunState) (m : SubagentManager)
    → is_running state ≡ false
    → IsBounded bound m
    → IsBounded bound (set_state run_id state summary m)
set_state-IsBounded bound run_id summary state m s h = elim (Option-cases (lookup run_id m.runs)) [
  | inl l ↦ rw (set_state-none run_id summary state m l) h
  | inr (run, l) ↦ rw (set_state-some run_id summary state run m l) (
      IsBounded-Calms bound m
        (record m {
          runs = insert run_id (record run { state = state; result_summary = summary }) m.runs;
        })
        refl (Calms-insert m.runs run_id run _ l refl s) h)
]

children_of-none :
    (parent : Str) (m : SubagentManager)
    → lookup parent m.parent_children ≡ none
    → children_of parent m ≡ []
unfolding children_of
children_of-none parent m l = ground arith

pub children_of-some :
    (parent : Str) (m : SubagentManager) {ids : List Str}
    → lookup parent m.parent_children ≡ some ids
    → children_of parent m ≡ ids
unfolding children_of
children_of-some parent m l = ground arith

pub children-Holds :
    (bound : Str → ℕ) (parent : Str) (m : SubagentManager)
    → IsBounded bound m
    → Holds (bound parent) m.runs parent (children_of parent m)
unfolding Holds Known active_count
children-Holds bound parent m h = elim (Option-cases (lookup parent m.parent_children)) [
  | inl l ↦
      subst (Holds (bound parent) m.runs parent) (sym (children_of-none parent m l))
        (tt, omega arith)
  | inr (ids, l) ↦
      subst (Holds (bound parent) m.runs parent) (sym (children_of-some parent m l))
        (h parent ids l)
]

Holds-fresh :
    (bound : ℕ) (runs : Map SubagentRun) (parent id : Str) (run : SubagentRun) (ids : List Str)
    → lookup id runs ≡ none
    → Holds bound runs parent ids
    → Holds bound (insert id run runs) parent ids
unfolding Holds
Holds-fresh bound runs parent id run ids f (known, few) = (
  Known-fresh runs parent id run ids f known,
  omega (arith, active_count-fresh runs parent id run ids f known, few),
)

Holds-append :
    (bound : ℕ) (runs : Map SubagentRun) (id : Str) (run : SubagentRun) (ids : List Str)
    → lookup id runs ≡ none
    → Known runs run.parent_session_key ids
    → active_count runs ids < bound
    → Holds bound (insert id run runs) run.parent_session_key (ids ++ id ∷ [])
unfolding Holds
Holds-append bound runs id run ids f known few = (
  Known-append (insert id run runs) run.parent_session_key id run ids
      (ground (arith, lookup-insert id id run runs, str_eq_refl id)) refl
      (Known-fresh runs run.parent_session_key id run ids f known),
  omega (
    arith,
    active_count-append (insert id run runs) id ids,
    active_count-fresh runs run.parent_session_key id run ids f known,
    few,
  ),
)

pub register-IsBounded :
    (bound : Str → ℕ) (run_id : Str) (run : SubagentRun) (m : SubagentManager)
    → lookup run_id m.runs ≡ none
    → active_count m.runs (children_of run.parent_session_key m) < bound run.parent_session_key
    → IsBounded bound m
    → IsBounded bound (register run_id run m)
unfolding register Holds
register-IsBounded bound run_id run m fresh few h parent ids l =
    let kids = children_of run.parent_session_key m in
    let found =
      lookup-insert run.parent_session_key parent (kids ++ run_id ∷ []) m.parent_children in
    elim (Bool-cases (str_eq run.parent_session_key parent)) [
      | inl e ↦
          subst (λ p. Holds (bound p) (insert run_id run m.runs) p ids)
            ((str_eq_iff run.parent_session_key parent).0 e)
            (subst
              (Holds (bound run.parent_session_key) (insert run_id run m.runs)
                run.parent_session_key)
              (ground (arith, found))
              (Holds-append (bound run.parent_session_key) m.runs run_id run kids fresh
                (children-Holds bound run.parent_session_key m h).0 few))
      | inr e ↦
          Holds-fresh (bound parent) m.runs parent run_id run ids fresh
            (h parent ids (ground (arith, found)))
    ]

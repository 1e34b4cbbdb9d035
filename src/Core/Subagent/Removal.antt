-- ===== src/Core/Subagent/Removal.antt =====
-- The limit when runs are removed.
use rav_bot.Prelude.{
  ℕ, ◌≡◌, ◌≢◌, sym, ap, ◌∙◌, subst, List, none, some, arith, inl, inr, Option-cases, Bool-cases,
}
use rav_bot.Prelude.Text.{Str, str_eq, str_eq_iff}
use rav_bot.Prelude.Map.{Map, lookup, insert, erase, lookup-insert}
use rav_bot.Core.Subagent.Types.{SubagentManager, SubagentRun}
use rav_bot.Core.Subagent.Manager.{remove_run, drop_child}
use rav_bot.Core.Subagent.Children.{Holds, without, Known-erase, active_count-erase, without_other}
use rav_bot.Core.Subagent.Limits.{IsBounded}

Holds-erase :
    (bound : ℕ) (runs : Map SubagentRun) (parent id : Str) (ids : List Str)
    → Holds bound runs parent ids
    → Holds bound (erase id runs) parent (without id ids)
unfolding Holds
Holds-erase bound runs parent id ids (known, few) =
    (Known-erase runs parent id ids known, omega (arith, active_count-erase runs id ids, few))

drop_child-none :
    (parent id : Str) (children : Map (List Str))
    → lookup parent children ≡ none
    → drop_child parent id children ≡ children
unfolding drop_child
drop_child-none parent id children l = ground arith

drop_child-some :
    (parent id : Str) (children : Map (List Str)) {ids : List Str}
    → lookup parent children ≡ some ids
    → drop_child parent id children ≡ insert parent (without id ids) children
unfolding drop_child
drop_child-some parent id children l = ground arith

module _ (bound : Str → ℕ) (run_id : Str) (run : SubagentRun) (m : SubagentManager)
    (known : lookup run_id m.runs ≡ some run) (h : IsBounded bound m) where
  -- The list of the children of a session before its run is dropped.
  abbrev Before : Str → List Str → Type 0
  Before parent ids =
      (old : List Str) × (lookup parent m.parent_children ≡ some old) × (ids ≡ without run_id old)

  Before-other :
      (parent : Str) (ids : List Str)
      → run.parent_session_key ≢ parent
      → lookup parent m.parent_children ≡ some ids
      → Before parent ids
  unfolding Holds
  Before-other parent ids n l =
      (ids, l, sym (without_other m.runs parent run_id run ids known n (h parent ids l).0))

  drop_child-Before :
      (parent : Str) (ids : List Str)
      → lookup parent (drop_child run.parent_session_key run_id m.parent_children) ≡ some ids
      → Before parent ids
  drop_child-Before parent ids l =
      elim (Option-cases (lookup run.parent_session_key m.parent_children)) [
        | inl absent ↦
            let found =
              sym (
                ap (lookup parent)
                  (drop_child-none run.parent_session_key run_id m.parent_children absent))
              ∙ l in
            Before-other parent ids (λ e. ground arith) found
        | inr (kids, present) ↦
            let found =
              sym (
                lookup-insert run.parent_session_key parent (without run_id kids) m.parent_children)
              ∙ sym (
                  ap (lookup parent)
                    (drop_child-some run.parent_session_key run_id m.parent_children present))
              ∙ l in
            elim (Bool-cases (str_eq run.parent_session_key parent)) [
              | inl e ↦
                  (kids, ground (arith, str_eq_iff run.parent_session_key parent), ground arith)
              | inr e ↦
                  Before-other parent ids
                    (λ q. ground (arith, str_eq_iff run.parent_session_key parent)) (ground arith)
            ]
      ]

remove_run-none :
    (run_id : Str) (m : SubagentManager) → lookup run_id m.runs ≡ none → remove_run run_id m ≡ m
unfolding remove_run
remove_run-none run_id m l = ground arith

remove_run-some :
    (run_id : Str) (run : SubagentRun) (m : SubagentManager)
    → lookup run_id m.runs ≡ some run
    → remove_run run_id m ≡ record m {
      parent_children = drop_child run.parent_session_key run_id m.parent_children;
      runs = erase run_id m.runs;
    }
unfolding remove_run
remove_run-some run_id run m l = ground arith

pub remove_run-IsBounded :
    (bound : Str → ℕ) (run_id : Str) (m : SubagentManager)
    → IsBounded bound m
    → IsBounded bound (remove_run run_id m)
remove_run-IsBounded bound run_id m h = elim (Option-cases (lookup run_id m.runs)) [
  | inl l ↦ rw (remove_run-none run_id m l) h
  | inr (run, l) ↦ rw (remove_run-some run_id run m l) (λ parent ids found.
      let (old, was, now) = drop_child-Before bound run_id run m l h parent ids found in
      subst (Holds (bound parent) (erase run_id m.runs) parent) (sym now)
        (Holds-erase (bound parent) m.runs parent run_id old (h parent old was)))
]

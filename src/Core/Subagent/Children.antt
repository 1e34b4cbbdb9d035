-- ===== src/Core/Subagent/Children.antt =====
-- The children of a session as runs that are known, and how many of them run.
use rav_bot.Prelude.{
  ℕ, suc, ◌≤◌, ◌≡◌, ◌≢◌, refl, ◌∙◌, true, not, List, [], ◌∷◌, ◌++◌, none, some, arith, filter, inl,
  inr, Bool-cases,
}
use rav_bot.Prelude.Text.{Str, str_eq, str_eq_iff}
use rav_bot.Prelude.Map.{Map, lookup, insert, erase, lookup-insert, lookup-erase}
use rav_bot.Core.Subagent.Types.{SubagentRun}
use rav_bot.Core.Subagent.Manager.{is_running, runs_now, active_count}

-- The runs of these identifiers are known, as children of the session.
unfoldable pub Known : Map SubagentRun → Str → List Str → Type 0
Known runs parent [] = Unit
Known runs parent (id ∷ ids) =
    ((run : SubagentRun) × (lookup id runs ≡ some run) × (run.parent_session_key ≡ parent))
    × Known runs parent ids

-- At most `bound` of them run.
unfoldable pub Holds : ℕ → Map SubagentRun → Str → List Str → Type 0
unfolding Known
Holds bound runs parent ids = Known runs parent ids × (active_count runs ids ≤ bound)

-- A change of the runs that lets every run keep its parent and starts none.
abbrev pub Calms : Map SubagentRun → Map SubagentRun → Type 0
Calms before after =
    (id : Str) (run : SubagentRun)
    → lookup id before ≡ some run
    → (run' : SubagentRun) × (lookup id after ≡ some run')
      × (run'.parent_session_key ≡ run.parent_session_key)
      × (is_running run'.state ≡ true → is_running run.state ≡ true)

pub Known-Calms :
    (before after : Map SubagentRun) (parent : Str) (ids : List Str)
    → Calms before after
    → Known before parent ids
    → Known after parent ids
unfolding Known
Known-Calms before after parent [] c k = tt
Known-Calms before after parent (id ∷ ids) c ((run, l, p), ks) =
    let (run', l', p', _) = c id run l in
    ((run', l', p' ∙ p), Known-Calms before after parent ids c ks)

pub active_count-Calms :
    (before after : Map SubagentRun) (parent : Str) (ids : List Str)
    → Calms before after
    → Known before parent ids
    → active_count after ids ≤ active_count before ids
unfolding Known active_count runs_now
active_count-Calms before after parent [] c k = omega arith
active_count-Calms before after parent (id ∷ ids) c ((run, l, p), ks) =
    let (run', l', p', s) = c id run l in
    ground (arith, active_count-Calms before after parent ids c ks)

-- A new run beside known ones.
pub Known-fresh :
    (runs : Map SubagentRun) (parent id : Str) (run : SubagentRun) (ids : List Str)
    → lookup id runs ≡ none
    → Known runs parent ids
    → Known (insert id run runs) parent ids
unfolding Known
Known-fresh runs parent id run [] f k = tt
Known-fresh runs parent id run (i ∷ ids) f ((old, l, p), ks) = (
  (old, ground (arith, lookup-insert id i run runs, str_eq_iff id i), p),
  Known-fresh runs parent id run ids f ks,
)

pub active_count-fresh :
    (runs : Map SubagentRun) (parent id : Str) (run : SubagentRun) (ids : List Str)
    → lookup id runs ≡ none
    → Known runs parent ids
    → active_count (insert id run runs) ids ≡ active_count runs ids
unfolding Known active_count runs_now
active_count-fresh runs parent id run [] f k = refl
active_count-fresh runs parent id run (i ∷ ids) f ((old, l, p), ks) = ground (
  arith,
  lookup-insert id i run runs,
  str_eq_iff id i,
  active_count-fresh runs parent id run ids f ks,
)

-- The children of a session with one more that runs.
pub Known-append :
    (runs : Map SubagentRun) (parent id : Str) (run : SubagentRun) (ids : List Str)
    → lookup id runs ≡ some run
    → run.parent_session_key ≡ parent
    → Known runs parent ids
    → Known runs parent (ids ++ id ∷ [])
unfolding Known
Known-append runs parent id run [] f p k = ((run, f, p), tt)
Known-append runs parent id run (i ∷ ids) f p (k, ks) =
    (k, Known-append runs parent id run ids f p ks)

pub active_count-append :
    (runs : Map SubagentRun) (id : Str) (ids : List Str)
    → active_count runs (ids ++ id ∷ []) ≤ suc (active_count runs ids)
unfolding active_count
active_count-append runs id [] = ground arith
active_count-append runs id (i ∷ ids) = ground (arith, active_count-append runs id ids)

-- A removed run.
abbrev pub without : Str → List Str → List Str
without id ids = filter (λ i. not (str_eq i id)) ids

pub Known-erase :
    (runs : Map SubagentRun) (parent id : Str) (ids : List Str)
    → Known runs parent ids
    → Known (erase id runs) parent (without id ids)
unfolding Known
Known-erase runs parent id [] k = tt
Known-erase runs parent id (i ∷ ids) ((old, l, p), ks) = elim (Bool-cases (str_eq i id)) [
  | inl e ↦ rw e (Known-erase runs parent id ids ks)
  | inr e ↦ rw e (
    (old, ground (arith, lookup-erase id i runs, str_eq_iff i id, str_eq_iff id i), p),
    Known-erase runs parent id ids ks,
  )
]

pub active_count-erase :
    (runs : Map SubagentRun) (id : Str) (ids : List Str)
    → active_count (erase id runs) (without id ids) ≤ active_count runs ids
unfolding active_count runs_now
active_count-erase runs id [] = omega arith
active_count-erase runs id (i ∷ ids) = ground (
  arith,
  lookup-erase id i runs,
  str_eq_iff id i,
  str_eq_iff i id,
  active_count-erase runs id ids,
)

pub without_other :
    (runs : Map SubagentRun) (parent id : Str) (run : SubagentRun) (ids : List Str)
    → lookup id runs ≡ some run
    → run.parent_session_key ≢ parent
    → Known runs parent ids
    → without id ids ≡ ids
unfolding Known
without_other runs parent id run [] l n k = refl
without_other runs parent id run (i ∷ ids) l n ((old, o, p), ks) =
    ground (arith, str_eq_iff i id, without_other runs parent id run ids l n ks)

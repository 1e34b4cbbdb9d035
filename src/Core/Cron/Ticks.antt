-- ===== src/Core/Cron/Ticks.antt =====
-- The rounds of the scheduler, and loading.
use rav_bot.Prelude.{
  ℕ, ◌+◌, ◌<◌, ◌≡◌, refl, sym, ap, ◌∙◌, Bool, true, false, List, [], ◌∷◌, ◌++◌, Option, none, some,
  arith, if◌then◌else◌, is_empty, Bool-cases, Option-cases, inl, inr,
}
use rav_bot.Core.Cron.Expression.{
  CronExpression, Calendar, minute_after, matches, search_limit, next_after, parse,
}
use rav_bot.Core.Cron.Scheduler.{CronJob, is_due, advance, cons_job, tick, due_jobs, load}
use rav_bot.Core.Cron.Calendars.{IsCalendar, mktime-minute_at}
use rav_bot.Core.Cron.NextRun.{minute_at, Next, first_match, fallback, next_after-Next}

-- The minutes after a time start after it.
abbrev pub IsForward : Calendar → Type 0
IsForward cal = (t k : ℕ) → t < (cal.mktime (minute_at cal (minute_after cal t) k)).1

IsCalendar-IsForward : (cal : Calendar) → IsCalendar cal → IsForward cal
IsCalendar-IsForward cal v t k =
    omega (arith, ap (λ r. r.1) (mktime-minute_at cal v t k), v.seconds_bound t)

Next-lt :
    (cal : Calendar) (e : CronExpression) (t next : ℕ)
    → IsForward cal
    → Next cal e t next
    → t < next
Next-lt cal e t next f (first_match k l here before) = f t k
Next-lt cal e t next f (fallback never) = omega arith

next_after-lt :
    (cal : Calendar) (e : CronExpression) (t : ℕ) → IsForward cal → t < next_after cal e t
next_after-lt cal e t f = Next-lt cal e t (next_after cal e t) f (next_after-Next cal e t)

advance-not_due :
    (cal : Calendar) (now : ℕ) (job job' : CronJob)
    → IsForward cal
    → advance cal now job ≡ some job'
    → is_due now job' ≡ false
unfolding advance
advance-not_due cal now job job' f h = elim (Option-cases (parse job.schedule)) [
  | inl l ↦ ground arith
  | inr (e, l) ↦ ground (arith, next_after-lt cal e now f)
]

due_jobs_cons :
    (now : ℕ) (jobs : List CronJob) (one : Option CronJob) (rest : Option (List CronJob))
    → cons_job one rest ≡ some jobs
    → ((job : CronJob) → one ≡ some job → is_due now job ≡ false)
    → ((others : List CronJob) → rest ≡ some others → due_jobs now others ≡ [])
    → due_jobs now jobs ≡ []
unfolding cons_job due_jobs
due_jobs_cons now jobs (some job) (some others) h d r = ground (arith, d job refl, r others refl)
due_jobs_cons now jobs (some job) none h d r = ground arith
due_jobs_cons now jobs none rest h d r = ground arith

one_not_due :
    (cal : Calendar) (now : ℕ) (job job' : CronJob)
    → IsForward cal
    → (if is_due now job then advance cal now job else some job) ≡ some job'
    → is_due now job' ≡ false
one_not_due cal now job job' f h = elim (Bool-cases (is_due now job)) [
  | inl d ↦
      advance-not_due cal now job job' f
        (sym (ap (λ b. if b then advance cal now job else some job) d) ∙ h)
  | inr d ↦ ground arith
]

due_jobs-forward :
    (cal : Calendar) (now : ℕ) (jobs jobs' : List CronJob)
    → IsForward cal
    → tick cal now jobs ≡ some jobs'
    → due_jobs now jobs' ≡ []
unfolding tick
due_jobs-forward cal now [] jobs' f h = unfold due_jobs in ground arith
due_jobs-forward cal now (job ∷ jobs) jobs' f h =
    due_jobs_cons now jobs' _ (tick cal now jobs) h (λ job' o. one_not_due cal now job job' f o)
      (λ others r. due_jobs-forward cal now jobs others f r)

-- After a round that no exception leaves, no job is due at its time, with a calendar whose
-- localtime_r and mktime do as POSIX says.
pub due_jobs-tick :
    (cal : Calendar) (now : ℕ) (jobs jobs' : List CronJob)
    → IsCalendar cal
    → tick cal now jobs ≡ some jobs'
    → due_jobs now jobs' ≡ []
due_jobs-tick cal now jobs jobs' v h =
    due_jobs-forward cal now jobs jobs' (IsCalendar-IsForward cal v) h

Next-never :
    (cal : Calendar) (e : CronExpression) (t next : ℕ)
    → ((j : ℕ) → j < search_limit → matches e (minute_at cal (minute_after cal t) j) ≡ false)
    → Next cal e t next
    → next ≡ t + 3_600
Next-never cal e t next never (first_match k l here before) =
    absurd (contradiction (never k l) here)
  where
    contradiction : {b : Bool} → b ≡ false → b ≡ true → ⊥
    contradiction p q = ground arith
Next-never cal e t next never (fallback _) = refl

-- A job that is due, and whose expression matches none of the next 525960 minutes, is due again
-- after an hour.
tick_fallback :
    (cal : Calendar) (now : ℕ) (job : CronJob) (e : CronExpression)
    → is_due now job ≡ true
    → parse job.schedule ≡ some e
    → ((j : ℕ) → j < search_limit → matches e (minute_at cal (minute_after cal now) j) ≡ false)
    → let job' = record job { last_run = now; next_run = now + 3_600 } in
      (tick cal now (job ∷ []) ≡ some (job' ∷ [])) × (is_due (now + 3_600) job' ≡ true)
unfolding tick advance cons_job
tick_fallback cal now job e d p never =
    ground (arith, Next-never cal e now (next_after cal e now) never (next_after-Next cal e now))

-- A schedule in the file that does not parse makes Load leave out its job and all jobs behind it.
load-append :
    (cal : Calendar) (now : ℕ) (jobs rest : List CronJob) (job : CronJob)
    → is_empty job.id ≡ false
    → is_empty job.schedule ≡ false
    → parse job.schedule ≡ none
    → load cal now (jobs ++ job ∷ rest) ≡ load cal now jobs
unfolding load
load-append cal now [] rest job i s p = ground arith
load-append cal now (j ∷ jobs) rest job i s p =
    ground (arith, load-append cal now jobs rest job i s p)

-- ===== src/Core/Cron/Scheduler.antt =====
-- The class CronScheduler. A tick is one round of scheduler_loop; the thread, the file and the
-- random identifiers are left out: an identifier is an argument.
use rav_bot.Prelude.{
  ℕ, zero, suc, Bool, true, false, not, ◌&&◌, List, [], ◌∷◌, ◌++◌, Option, none, some,
  if◌then◌else◌, ltb, leb, length, filter, is_empty,
}
use rav_bot.Prelude.Text.{Str, str_eq, starts_with}
use rav_bot.Core.Cron.Expression.{Calendar, parse, next_after}

pub record CronJob : Type 0 where
  pub id : Str
  pub name : Str
  pub schedule : Str
  pub message : Str
  pub session_key : Str
  pub enabled : Bool
  pub last_run : ℕ
  pub next_run : ℕ

unfoldable pub new_job : Str → Str → Str → Str → Str → ℕ → CronJob
new_job id name schedule message session_key next = record {
  id = id;
  name = name;
  schedule = schedule;
  message = message;
  session_key = session_key;
  enabled = true;
  last_run = 0;
  next_run = next;
}

-- `none` where the expression does not parse: the exception leaves AddJob before it changes
-- anything.
unfoldable pub add_job :
    Calendar → ℕ → Str → Str → Str → Str → Str → List CronJob → Option (List CronJob)
unfolding parse next_after new_job
add_job cal now id name schedule message session_key jobs = elim (parse schedule) [
  | none ↦ none
  | some e ↦ some (jobs ++ new_job id name schedule message session_key (next_after cal e now) ∷ [])
]

-- jobs_.erase(jobs_.begin() + i)
abbrev pub erase_at : ℕ → List CronJob → List CronJob
erase_at i [] = []
erase_at zero (j ∷ js) = js
erase_at (suc i) (j ∷ js) = j ∷ erase_at i js

abbrev pub is_proper_prefix : Str → Str → Bool
is_proper_prefix id job_id = ltb (length id) (length job_id) && starts_with id job_id

-- How the loop over the jobs ends: at a job with the identifier, or with the indices of those
-- that it is a prefix of.
pub data Scan : Type 0 where
  exact : ℕ → Scan
  prefixes : List ℕ → Scan

unfoldable pub scan : Str → ℕ → List CronJob → List ℕ → Scan
unfolding str_eq starts_with
scan id i [] found = prefixes found
scan id i (j ∷ js) found =
    let rest = scan id (suc i) js (if is_proper_prefix id j.id then found ++ i ∷ [] else found) in
    if str_eq j.id id then exact i else rest

unfoldable pub erase_found : Scan → List CronJob → Bool × List CronJob
erase_found (exact i) jobs = (true, erase_at i jobs)
erase_found (prefixes (i ∷ [])) jobs = (true, erase_at i jobs)
erase_found (prefixes found) jobs = (false, jobs)

unfoldable pub remove_job : Str → List CronJob → Bool × List CronJob
unfolding scan erase_found
remove_job [] jobs = (false, jobs)
remove_job (c ∷ id) jobs = erase_found (scan (c ∷ id) 0 jobs []) jobs

abbrev pub is_due : ℕ → CronJob → Bool
is_due now job = job.enabled && leb job.next_run now

-- A due job after its handler: the handler's exceptions are caught, and `none` is the exception
-- of a schedule that does not parse.
unfoldable pub advance : Calendar → ℕ → CronJob → Option CronJob
unfolding parse next_after
advance cal now job = elim (parse job.schedule) [
  | none ↦ none
  | some e ↦ some (record job { last_run = now; next_run = next_after cal e now })
]

unfoldable pub cons_job : Option CronJob → Option (List CronJob) → Option (List CronJob)
cons_job (some job) (some jobs) = some (job ∷ jobs)
cons_job job jobs = none

-- The jobs after a round, when no other thread changes them meanwhile.
unfoldable pub tick : Calendar → ℕ → List CronJob → Option (List CronJob)
unfolding advance cons_job
tick cal now [] = some []
tick cal now (job ∷ jobs) =
    cons_job (if is_due now job then advance cal now job else some job) (tick cal now jobs)

-- The jobs that the handler is called with, in order.
unfoldable pub due_jobs : ℕ → List CronJob → List CronJob
due_jobs now jobs = filter (is_due now) jobs

-- CronJob::FromJson of what ToJson writes: the times are not read.
abbrev pub stored : CronJob → CronJob
stored job = record job { last_run = 0; next_run = 0 }

-- The part of Load after the file is read, on the jobs that it holds: a schedule that does not
-- parse ends the loop.
unfoldable pub load : Calendar → ℕ → List CronJob → List CronJob
unfolding parse next_after
load cal now [] = []
load cal now (job ∷ jobs) =
    let rest = load cal now jobs in
    if not (is_empty job.id) && not (is_empty job.schedule)
    then elim (parse job.schedule) [
      | none ↦ []
      | some e ↦ record (stored job) { next_run = next_after cal e now } ∷ rest
    ]
    else rest

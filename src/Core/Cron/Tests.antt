-- ===== src/Core/Cron/Tests.antt =====
-- The theorems about the cron scheduler at concrete inputs.
use Prim.Native.String.{String}
use rav_bot.Prelude.{ℕ, ◌+◌, ◌-◌, ◌*◌, ◌/◌, ◌%◌, ◌≡◌, ap, refl, true, [], ◌∷◌, some, arith}
use rav_bot.Prelude.Int.{pos, pos_part, ◌+ℤ◌}
use rav_bot.Prelude.Text.{bytes}
use rav_bot.Core.Cron.Expression.{
  Tm, Calendar, CronExpression, next_after, search_minutes, minute_after, next_minute, matches,
  field_matches,
}
use rav_bot.Core.Cron.Scheduler.{CronJob, tick, due_jobs, remove_job}
use rav_bot.Core.Cron.Calendars.{IsCalendar}
use rav_bot.Core.Cron.Earliest.{Earliest, next_after-Earliest}
use rav_bot.Core.Cron.Removal.{removal, remove_job-removal}
use rav_bot.Core.Cron.Ticks.{due_jobs-tick}

-- The fields of a calendar whose months all have 31 days, and the time that they say.
abbrev fields_of : ℕ → Tm
fields_of t = record {
  tm_sec = pos (t % 60);
  tm_min = pos (t / 60 % 60);
  tm_hour = pos (t / 3_600 % 24);
  tm_mday = pos (t / 86_400 % 31 + 1);
  tm_mon = pos (t / 86_400 / 31 % 12);
  tm_year = pos (t / 86_400 / 31 / 12);
  tm_wday = pos (t / 86_400 % 7);
  tm_isdst = pos 0;
}

abbrev time_of : Tm → ℕ
time_of tm =
    let month = pos_part tm.tm_year * 12 + pos_part tm.tm_mon in
    let day = month * 31 + pos_part tm.tm_mday - 1 in
    let hour = day * 24 + pos_part tm.tm_hour in
    (hour * 60 + pos_part tm.tm_min) * 60 + pos_part tm.tm_sec

abbrev calendar : Calendar
calendar = record { localtime = fields_of; mktime = λ tm. (fields_of (time_of tm), time_of tm) }

time_of-fields_of : (t : ℕ) → time_of (fields_of t) ≡ t
time_of-fields_of t = omega arith

pos_plus_one : (n : ℕ) → pos n +ℤ pos 1 ≡ pos (n + 1)
unfolding ◌+ℤ◌
pos_plus_one n = ground arith

time_of-whole_minute :
    (t : ℕ)
    → time_of (record (fields_of t) { tm_sec = pos 0; tm_min = (fields_of t).tm_min +ℤ pos 1 })
      ≡ t - t % 60 + 60
time_of-whole_minute t = rw (pos_plus_one (t / 60 % 60)) (omega arith)

time_of-one_minute :
    (t : ℕ) → time_of (record (fields_of t) { tm_min = (fields_of t).tm_min +ℤ pos 1 }) ≡ t + 60
time_of-one_minute t = rw (pos_plus_one (t / 60 % 60)) (omega arith)

calendar-IsCalendar : IsCalendar calendar
calendar-IsCalendar = record {
  seconds = λ t. t % 60;
  seconds_bound = λ t. (omega arith, omega arith);
  mktime-localtime = λ t. ap (λ u. (fields_of u, u)) (time_of-fields_of t);
  whole_minute = λ t. ap (λ u. (fields_of u, u)) (time_of-whole_minute t);
  one_minute = λ t. ap (λ u. (fields_of u, u)) (time_of-one_minute t);
}

abbrev half_hour : CronExpression
half_hour = record {
  minute = pos 30 ∷ [];
  hour = [];
  day_of_month = [];
  month = pos 1 ∷ [];
  day_of_week = [];
}

next_after-Earliest_example :
    Earliest calendar calendar-IsCalendar half_hour 100 (next_after calendar half_hour 100)
next_after-Earliest_example = next_after-Earliest calendar calendar-IsCalendar half_hour 100

-- Half past midnight, with the months counted from 1.
at_half_hour : next_after calendar half_hour 100 ≡ 1_800
unfolding next_after search_minutes minute_after next_minute matches field_matches ◌+ℤ◌
at_half_hour = refl

abbrev job_of : String → String → CronJob
job_of id schedule = record {
  id = bytes id;
  name = [];
  schedule = bytes schedule;
  message = [];
  session_key = [];
  enabled = true;
  last_run = 0;
  next_run = 60;
}

abbrev every : CronJob
every = job_of "a1" "* * * * *"

-- There is no month 13.
abbrev rare : CronJob
rare = job_of "b1" "0 0 1 13 *"

ticked :
    tick calendar 100 (every ∷ []) ≡ some (record every { last_run = 100; next_run = 120 } ∷ [])
unfolding tick ◌+ℤ◌
ticked = refl

due_jobs-tick_example : due_jobs 100 (record every { last_run = 100; next_run = 120 } ∷ []) ≡ []
due_jobs-tick_example =
    due_jobs-tick calendar 100 (every ∷ []) (record every { last_run = 100; next_run = 120 } ∷ [])
      calendar-IsCalendar ticked

remove_job-removal_example :
    remove_job (bytes "a1") (job_of "a12" "*" ∷ every ∷ rare ∷ [])
    ≡ removal (bytes "a1") (job_of "a12" "*" ∷ every ∷ rare ∷ [])
remove_job-removal_example =
    remove_job-removal b'a' (bytes "1") (job_of "a12" "*" ∷ every ∷ rare ∷ [])

-- ===== src/Core/Cron/Calendars.antt =====
-- What the scheduler relies on of localtime_r and mktime, and the minutes that it goes through.
use rav_bot.Prelude.{ℕ, zero, suc, ◌+◌, ◌-◌, ◌*◌, ◌≤◌, ◌<◌, ◌≡◌, ap, ◌∙◌, arith}
use rav_bot.Prelude.Int.{pos, ◌+ℤ◌}
use rav_bot.Core.Cron.Expression.{Calendar, minute_after, next_minute}
use rav_bot.Core.Cron.NextRun.{minute_at}

-- What POSIX says of localtime_r and mktime: the broken-down time of `t` is `seconds t` of at most
-- 59 seconds into its minute; mktime undoes localtime_r; and where the minutes of a broken-down time
-- are one more, mktime gives the time one minute later, in its own broken-down form.
pub record IsCalendar (cal : Calendar) : Type 0 where
  pub seconds : ℕ → ℕ
  pub seconds_bound : (t : ℕ) → (seconds t < 60) × (seconds t ≤ t)
  pub mktime-localtime : (t : ℕ) → cal.mktime (cal.localtime t) ≡ (cal.localtime t, t)
  pub whole_minute :
      (t : ℕ)
      → let tm = cal.localtime t in
        let later = t - seconds t + 60 in
        cal.mktime (record tm { tm_sec = pos 0; tm_min = tm.tm_min +ℤ pos 1 })
        ≡ (cal.localtime later, later)
  pub one_minute :
      (t : ℕ)
      → let tm = cal.localtime t in
        cal.mktime (record tm { tm_min = tm.tm_min +ℤ pos 1 }) ≡ (cal.localtime (t + 60), t + 60)

pub minute_after-localtime :
    (cal : Calendar) (v : IsCalendar cal) (t : ℕ)
    → minute_after cal t ≡ cal.localtime (t - v.seconds t + 60)
unfolding minute_after
minute_after-localtime cal v t = ap (λ r. r.0) (v.whole_minute t)

next_minute-localtime :
    (cal : Calendar) (v : IsCalendar cal) (t : ℕ)
    → next_minute cal (cal.localtime t) ≡ cal.localtime (t + 60)
unfolding next_minute
next_minute-localtime cal v t = ap (λ r. r.0) (v.one_minute t)

pub minute_at-localtime :
    (cal : Calendar) (v : IsCalendar cal) (t k : ℕ)
    → minute_at cal (cal.localtime t) k ≡ cal.localtime (t + k * 60)
minute_at-localtime cal v t zero = ap cal.localtime (omega arith)
minute_at-localtime cal v t (suc k) =
    ap (λ tm. minute_at cal tm k) (next_minute-localtime cal v t)
    ∙ minute_at-localtime cal v (t + 60) k
    ∙ ap cal.localtime (omega arith)

-- The first minute that starts after a time.
abbrev pub first_minute : (cal : Calendar) → IsCalendar cal → ℕ → ℕ
first_minute cal v t = t - v.seconds t + 60

-- The k-th minute that the search reads.
pub minute_at-minute_after :
    (cal : Calendar) (v : IsCalendar cal) (t k : ℕ)
    → minute_at cal (minute_after cal t) k ≡ cal.localtime (first_minute cal v t + k * 60)
minute_at-minute_after cal v t k =
    ap (λ tm. minute_at cal tm k) (minute_after-localtime cal v t)
    ∙ minute_at-localtime cal v (first_minute cal v t) k

pub mktime-minute_at :
    (cal : Calendar) (v : IsCalendar cal) (t k : ℕ)
    → cal.mktime (minute_at cal (minute_after cal t) k)
      ≡ (cal.localtime (first_minute cal v t + k * 60), first_minute cal v t + k * 60)
mktime-minute_at cal v t k =
    ap cal.mktime (minute_at-minute_after cal v t k)
    ∙ v.mktime-localtime (first_minute cal v t + k * 60)

-- ===== src/Core/Cron/Earliest.antt =====
-- The time of the next run, told apart from the search.
use rav_bot.Prelude.{
  ℕ, ◌+◌, ◌*◌, ◌<◌, ◌≡◌, refl, sym, ap, ◌∙◌, Bool, true, false, ◌&&◌, ◌||◌, any, is_empty, [], ◌∷◌,
}
use rav_bot.Prelude.Int.{ℤ, pos, ◌+ℤ◌, eq_ℤ}
use rav_bot.Core.Cron.Expression.{
  Field, CronExpression, Tm, Calendar, minute_after, field_matches, matches, next_after,
}
use rav_bot.Core.Cron.NextRun.{minute_at, Next, first_match, fallback, next_after-Next}
use rav_bot.Core.Cron.Calendars.{IsCalendar, first_minute, minute_at-minute_after, mktime-minute_at}

-- A field without values fits every value.
abbrev pub fits : Field → ℤ → Bool
fits field value = is_empty field || any (λ i. eq_ℤ i value) field

-- The expression has this minute; its months count from 1.
abbrev pub has_minute : CronExpression → Tm → Bool
has_minute e tm =
    fits e.minute tm.tm_min
    && fits e.hour tm.tm_hour
    && fits e.day_of_month tm.tm_mday
    && fits e.month (tm.tm_mon +ℤ pos 1)
    && fits e.day_of_week tm.tm_wday

-- The start of the first whole minute after `after` that the expression has, among 525960, or an
-- hour after `after` where it has none of them.
pub data Earliest (cal : Calendar) (v : IsCalendar cal) (e : CronExpression) (after : ℕ)
    : ℕ → Type 0 where
  at_minute :
      (k time : ℕ)
      → k < 525_960
      → time ≡ first_minute cal v after + k * 60
      → has_minute e (cal.localtime time) ≡ true
      → ((j : ℕ) → j < k → has_minute e (cal.localtime (first_minute cal v after + j * 60)) ≡ false)
      → Earliest cal v e after time
  none_of_them :
      ((j : ℕ)
        → j < 525_960
        → has_minute e (cal.localtime (first_minute cal v after + j * 60)) ≡ false)
      → Earliest cal v e after (after + 3_600)

field_matches-fits : (field : Field) (value : ℤ) → field_matches field value ≡ fits field value
unfolding field_matches
field_matches-fits [] value = refl
field_matches-fits (i ∷ field) value = refl

matches-has_minute : (e : CronExpression) (tm : Tm) → matches e tm ≡ has_minute e tm
unfolding matches
matches-has_minute e tm =
    rw
      (
        field_matches-fits e.minute tm.tm_min,
        field_matches-fits e.hour tm.tm_hour,
        field_matches-fits e.day_of_month tm.tm_mday,
        field_matches-fits e.month (tm.tm_mon +ℤ pos 1),
        field_matches-fits e.day_of_week tm.tm_wday,
      )
      refl

module _ (cal : Calendar) (v : IsCalendar cal) (e : CronExpression) (after : ℕ) where
  has_minute-matches :
      (j : ℕ) (b : Bool)
      → matches e (minute_at cal (minute_after cal after) j) ≡ b
      → has_minute e (cal.localtime (first_minute cal v after + j * 60)) ≡ b
  has_minute-matches j b h =
      sym (matches-has_minute e (cal.localtime (first_minute cal v after + j * 60)))
      ∙ ap (matches e) (sym (minute_at-minute_after cal v after j))
      ∙ h

  Next-Earliest : (given : ℕ) → Next cal e after given → Earliest cal v e after given
  Next-Earliest given (first_match k l hit before) =
      let starts = ap (λ r. r.1) (mktime-minute_at cal v after k) in
      at_minute k _ l starts
        (ap (λ t. has_minute e (cal.localtime t)) starts ∙ has_minute-matches k true hit)
        (λ j m. has_minute-matches j false (before j m))
  Next-Earliest given (fallback never) =
      none_of_them (λ j m. has_minute-matches j false (never j m))

  -- With a calendar whose localtime_r and mktime do as POSIX says, NextAfter gives the start of the
  -- first whole minute after the given time whose minute, hour, day, month and weekday the fields
  -- of the expression have, or leave open, if one of the next 525960 minutes is such, and otherwise
  -- the time one hour later.
  pub next_after-Earliest : Earliest cal v e after (next_after cal e after)
  next_after-Earliest = Next-Earliest (next_after cal e after) (next_after-Next cal e after)

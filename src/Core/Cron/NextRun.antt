-- ===== src/Core/Cron/NextRun.antt =====
-- The time of the next run.
use rav_bot.Prelude.{
  ℕ, zero, suc, ◌+◌, ◌<◌, ◌≡◌, inl, inr, true, false, Option, none, some, arith, Bool-cases,
}
use rav_bot.Core.Cron.Expression.{
  CronExpression, Tm, Calendar, minute_after, next_minute, matches, search_minutes, search_limit,
  next_after,
}

-- The k-th minute after a minute.
abbrev pub minute_at : Calendar → Tm → ℕ → Tm
minute_at cal tm zero = tm
minute_at cal tm (suc k) = minute_at cal (next_minute cal tm) k

-- The first of the next `n` minutes that matches, or that none does.
pub data Search (cal : Calendar) (e : CronExpression) (tm : Tm) (n : ℕ) : Option ℕ → Type 0 where
  found_minute :
      (k : ℕ)
      → k < n
      → matches e (minute_at cal tm k) ≡ true
      → ((j : ℕ) → j < k → matches e (minute_at cal tm j) ≡ false)
      → Search cal e tm n (some ((cal.mktime (minute_at cal tm k)).1))
  no_minute : ((j : ℕ) → j < n → matches e (minute_at cal tm j) ≡ false) → Search cal e tm n none

earlier :
    (cal : Calendar) (e : CronExpression) (tm : Tm) (k : ℕ)
    → matches e tm ≡ false
    → ((j : ℕ) → j < k → matches e (minute_at cal (next_minute cal tm) j) ≡ false)
    → (j : ℕ) → j < suc k
    → matches e (minute_at cal tm j) ≡ false
earlier cal e tm k miss rest zero l = miss
earlier cal e tm k miss rest (suc j) l = rest j (omega arith)

Search-next :
    (cal : Calendar) (e : CronExpression) (tm : Tm) (n : ℕ) (given : Option ℕ)
    → matches e tm ≡ false
    → Search cal e (next_minute cal tm) n given
    → Search cal e tm (suc n) given
Search-next cal e tm n given miss (found_minute k l hit before) =
    found_minute (suc k) (omega arith) hit (earlier cal e tm k miss before)
Search-next cal e tm n given miss (no_minute never) = no_minute (earlier cal e tm n miss never)

search_minutes-matches :
    (cal : Calendar) (e : CronExpression) (tm : Tm) (n : ℕ)
    → matches e tm ≡ true
    → search_minutes cal e (suc n) tm ≡ some (cal.mktime tm).1
unfolding search_minutes
search_minutes-matches cal e tm n h = ground arith

search_minutes_next :
    (cal : Calendar) (e : CronExpression) (tm : Tm) (n : ℕ)
    → matches e tm ≡ false
    → search_minutes cal e (suc n) tm ≡ search_minutes cal e n (next_minute cal tm)
unfolding search_minutes
search_minutes_next cal e tm n h = ground arith

search_minutes-Search :
    (cal : Calendar) (e : CronExpression) (n : ℕ) (tm : Tm)
    → Search cal e tm n (search_minutes cal e n tm)
search_minutes-Search cal e zero tm =
    unfold search_minutes in no_minute (λ j l. absurd (omega arith))
search_minutes-Search cal e (suc n) tm = elim (Bool-cases (matches e tm)) [
  | inl hit ↦
      rw (search_minutes-matches cal e tm n hit)
        (found_minute 0 (omega arith) hit (λ j l. absurd (omega arith)))
  | inr miss ↦ rw (search_minutes_next cal e tm n miss) (
      Search-next cal e tm n (search_minutes cal e n (next_minute cal tm)) miss
        (search_minutes-Search cal e n (next_minute cal tm)))
]

-- What NextAfter gives: the start of the first minute after `after` that matches, among
-- search_limit minutes, or an hour after `after` when none of them does.
pub data Next (cal : Calendar) (e : CronExpression) (after : ℕ) : ℕ → Type 0 where
  first_match :
      (k : ℕ)
      → k < search_limit
      → matches e (minute_at cal (minute_after cal after) k) ≡ true
      → ((j : ℕ) → j < k → matches e (minute_at cal (minute_after cal after) j) ≡ false)
      → Next cal e after ((cal.mktime (minute_at cal (minute_after cal after) k)).1)
  fallback :
      ((j : ℕ) → j < search_limit → matches e (minute_at cal (minute_after cal after) j) ≡ false)
      → Next cal e after (after + 3_600)

Next-given :
    (cal : Calendar) (e : CronExpression) (after : ℕ) (given : Option ℕ)
    → Search cal e (minute_after cal after) search_limit given
    → Next cal e after (elim given [ some t ↦ t | none ↦ after + 3_600 ])
Next-given cal e after given (found_minute k l hit before) = first_match k l hit before
Next-given cal e after given (no_minute never) = fallback never

-- NextAfter gives the start of the first minute after the given time that matches the expression,
-- if one of the next 525960 minutes does, and otherwise the time one hour later.
pub next_after-Next :
    (cal : Calendar) (e : CronExpression) (after : ℕ) → Next cal e after (next_after cal e after)
unfolding next_after
next_after-Next cal e after =
    Next-given cal e after _ (search_minutes-Search cal e search_limit (minute_after cal after))

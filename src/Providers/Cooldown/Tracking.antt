-- ===== src/Providers/Cooldown/Tracking.antt =====
-- What a client of the tracker sees after the calls that record an outcome.
use rav_bot.Prelude.{ℕ, ◌+◌, ◌*◌, ◌&&◌, ◌≡◌, false, arith, ltb, if◌then◌else◌}
use rav_bot.Prelude.Int.{ℤ}
use rav_bot.Prelude.Text.{Str, str_eq}
use rav_bot.Prelude.Map.{lookup-insert, lookup-erase}
use rav_bot.Providers.Error.{ProviderErrorKind}
use rav_bot.Providers.Cooldown.{
  CooldownTracker, second, failure_window_decay, state_of, next_failures, cooldown_seconds,
  is_in_cooldown, record_failure, record_success, failure_count,
}

-- After a failure at time `now` the key is in cooldown exactly until the Retry-After period, or
-- else the computed backoff, has passed; the answer for any other key is what it was.
pub is_in_cooldown-record_failure :
    (key other : Str) (kind : ProviderErrorKind) (retry_after : ℤ) (now t : ℕ) (s : CooldownTracker)
    → is_in_cooldown other t (record_failure key kind retry_after now s) ≡ (
        if str_eq key other
        then ltb t
            (now + cooldown_seconds kind retry_after (next_failures (state_of key s) now) * second)
        else is_in_cooldown other t s)
unfolding is_in_cooldown record_failure
is_in_cooldown-record_failure key other kind retry_after now t s =
    rw (lookup-insert, is_in_cooldown) (ground arith)

-- A failure counts one more than the failures before it, or as the first one where more than 24
-- hours have passed since the last; a success sets the count to zero and ends the cooldown. Other
-- keys keep their counts.
pub failure_count-record :
    (key other : Str) (kind : ProviderErrorKind) (retry_after : ℤ) (now t : ℕ) (s : CooldownTracker)
    → (failure_count other (record_failure key kind retry_after now s) ≡ (
        if str_eq key other
        then (if ltb 0 (failure_count key s)
              && ltb ((state_of key s).last_failure_at + failure_window_decay) now
            then 1
            else failure_count key s + 1)
        else failure_count other s))
      × (failure_count other (record_success key s)
          ≡ (if str_eq key other then 0 else failure_count other s))
      × (is_in_cooldown other t (record_success key s)
          ≡ (if str_eq key other then false else is_in_cooldown other t s))
unfolding failure_count record_failure record_success is_in_cooldown
failure_count-record key other kind retry_after now t s = (
  rw (lookup-insert, failure_count) (ground arith),
  rw (lookup-erase, failure_count) (ground arith),
  rw (lookup-erase, is_in_cooldown) (ground arith),
)

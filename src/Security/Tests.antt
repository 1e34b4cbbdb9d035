-- ===== src/Security/Tests.antt =====
-- Runs of the rate limiter, and the theorems about it at concrete histories.
use rav_bot.Prelude.{ℕ, ◌*◌, ◌≤◌, ◌≡◌, refl, true, List, [], ◌∷◌, length, arith}
use rav_bot.Prelude.Int.{pos}
use rav_bot.Prelude.Text.{bytes, str_eq}
use rav_bot.Prelude.Map.{lookup, insert}
use rav_bot.Security.RateLimiter.{
  Config, init, burst_exceeded, allow, retry_after, purge_old, timestamps, burst_count, has_room,
  second,
}
use rav_bot.Security.RateLimiter.Tracks.{in_window}
use rav_bot.Security.RateLimiter.Window.{
  Call, allows, key_resets, prunes, step, note, run, run_window_bound,
}
use rav_bot.Security.RateLimiter.Retry.{retry_after-allow}

abbrev two_a_minute : Config
two_a_minute = record { max_requests = pos 2; window_seconds = pos 60; burst_max = pos 0 }

abbrev history : List (ℕ × Call)
history =
    (10 * second, allows (bytes "a"))
    ∷ (20 * second, allows (bytes "a"))
    ∷ (25 * second, key_resets (bytes "b"))
    ∷ (30 * second, allows (bytes "a"))
    ∷ (71 * second, allows (bytes "a"))
    ∷ []

run_window_bound_example :
    let (l, h) = run (bytes "a") history (init two_a_minute) [] in
    (in_window two_a_minute (71 * second) h ≤ 2)
    × (in_window two_a_minute (71 * second) h
        ≡ length (purge_old two_a_minute (timestamps (bytes "a") l) (71 * second)))
run_window_bound_example =
    run_window_bound two_a_minute (bytes "a") history (71 * second) (omega arith) (omega arith)

-- The key's two requests of a minute, and another key's calls after them.
abbrev before : List (ℕ × Call)
before = (10 * second, allows (bytes "a")) ∷ (20 * second, allows (bytes "a")) ∷ []

abbrev between : List (ℕ × Call)
between = (40 * second, allows (bytes "b")) ∷ (50 * second, prunes) ∷ []

program : Unit {0}
unfolding init allow retry_after purge_old burst_count burst_exceeded has_room lookup insert str_eq
    run step note
program = tt

retry_after-allow_example :
    let (l, h) = run (bytes "a") before (init two_a_minute) [] in
    (allow
      (bytes "a")
      (71 * second)
      (run (bytes "a") between (retry_after (bytes "a") (30 * second) l).1 h).0).0
    ≡ true
unfolding program
retry_after-allow_example =
    retry_after-allow two_a_minute (bytes "a") before between (30 * second) (71 * second) 40
      (omega arith) (omega arith, (omega arith, tt)) (omega arith) refl
      (omega arith, (omega arith, tt)) (refl, (tt, tt)) (omega arith) (omega arith)

-- ===== src/Security/RateLimiter/Retry.antt =====
-- RetryAfter and Remaining against what Allow decides.
use rav_bot.Prelude.{
  ℕ, suc, ◌+◌, ◌*◌, ◌≤◌, ◌<◌, ◌≡◌, true, false, some, List, [], ◌∷◌, length, arith, Option-cases,
  Bool-cases, subst, sym, ap, refl, inl, inr,
}
use rav_bot.Prelude.Int.{pos, pos_part, neg_part, ◌≤ℤ◌, ◌<ℤ◌, lt_of_lt-pos_part}
use rav_bot.Prelude.Text.{Str, str_eq, str_eq_refl}
use rav_bot.Prelude.Map.{lookup, lookup-insert}
use rav_bot.Security.RateLimiter.{
  Config, RateLimiter, init, second, purge_old, timestamps, has_room, burst_exceeded, allow,
  retry_after, wait_for_oldest,
}
use rav_bot.Security.RateLimiter.Tracks.{in_window, IsTracked, length-purge_old-le, purge_old_twice}
use rav_bot.Security.RateLimiter.Window.{
  Call, allows, remains, retries, prunes, resets, key_resets, step, note, run, IsOrdered, end_time,
  init-IsTracked, run-IsTracked, retries-IsTracked,
}

-- The wait that is reported lets the oldest request leave the window.
wait_for_oldest-room :
    (c : Config) (ts : List ℕ) (now later wait : ℕ)
    → wait_for_oldest c ts now ≡ some (suc wait)
    → now + suc wait * second ≤ later
    → length (purge_old c ts later) < length ts
unfolding wait_for_oldest purge_old
wait_for_oldest-room c [] now later wait h le = cc
wait_for_oldest-room c (t ∷ ts) now later wait h le = ground (arith, length-purge_old-le c ts later)

-- A purged deque that is not over the limit has room again once it is shorter than the limit.
has_room-short :
    (c : Config) (ts : List ℕ) (now : ℕ)
    → c.burst_max ≤ℤ pos 0
    → pos (length ts) <ℤ c.max_requests
    → has_room c ts now ≡ true
unfolding has_room burst_exceeded
has_room-short c ts now b h = ground arith

timestamps-retry_after :
    (key : Str) (now wait : ℕ) (l : RateLimiter)
    → (retry_after key now l).0 ≡ some (suc wait)
    → ((timestamps key (retry_after key now l).1 ≡ purge_old l.config (timestamps key l) now)
        × ((retry_after key now l).1.config ≡ l.config)
        × (wait_for_oldest l.config (purge_old l.config (timestamps key l) now) now
            ≡ some (suc wait))
        × (l.config.max_requests ≤ℤ pos (length (purge_old l.config (timestamps key l) now))))
unfolding retry_after
timestamps-retry_after key now wait l h = elim (Option-cases (lookup key l.windows)) [
  | inl e ↦ ground arith
  | inr ([], e) ↦ ground arith
  | inr (t ∷ ts, e) ↦
      ground
        (arith, lookup-insert key key (purge_old l.config (t ∷ ts) now) l.windows, str_eq_refl key)
]

-- A call other than Allow of the key.
abbrev pub IsQuiet : Str → Call → Type 0
IsQuiet key (allows other) = str_eq other key ≡ false
IsQuiet key call = Unit

abbrev pub AreQuiet : Str → List (ℕ × Call) → Type 0
AreQuiet key [] = Unit
AreQuiet key ((now, call) ∷ calls) = IsQuiet key call × AreQuiet key calls

in_window-note :
    (c : Config) (key : Str) (call : Call) (now later : ℕ) (l : RateLimiter) (h : List ℕ)
    → IsQuiet key call
    → in_window c later (note key call now l h) ≤ in_window c later h
unfolding note
in_window-note c key (allows other) now later l h q = rw (note, q) (ground arith)
in_window-note c key (remains other) now later l h q = omega arith
in_window-note c key (retries other) now later l h q = omega arith
in_window-note c key prunes now later l h q = omega arith
in_window-note c key resets now later l h q = omega arith
in_window-note c key (key_resets other) now later l h q = elim (Bool-cases (str_eq other key)) [
  | inl e ↦ rw (note, e) (omega arith)
  | inr e ↦ rw (note, e) (omega arith)
]

-- Such calls admit nothing for the key.
in_window-run :
    (c : Config) (key : Str) (calls : List (ℕ × Call)) (later : ℕ) (l : RateLimiter) (h : List ℕ)
    → AreQuiet key calls
    → in_window c later (run key calls l h).1 ≤ in_window c later h
unfolding run
in_window-run c key [] later l h q = omega arith
in_window-run c key ((now, call) ∷ calls) later l h (q, qs) = omega (
  arith,
  in_window-note c key call now later l h q,
  in_window-run c key calls later (step call now l) (note key call now l h) qs,
)

allow-room :
    (key : Str) (now : ℕ) (l : RateLimiter)
    → has_room l.config (purge_old l.config (timestamps key l) now) now ≡ true
    → (allow key now l).0 ≡ true
unfolding allow
allow-room key now l h = rw (allow, h) refl

-- A tracked deque that RetryAfter finds full has room once the wait is over and nothing was added.
room-later :
    (c : Config) (key : Str) (now later wait last : ℕ) (l : RateLimiter) (h : List ℕ)
    → last ≤ now
    → now ≤ later
    → IsTracked c key l h last
    → (retry_after key now l).0 ≡ some (suc wait)
    → now + suc wait * second ≤ later
    → in_window c later h < pos_part c.max_requests
room-later c key now later wait last l h le lt v r over =
    let (deque, config, waits, full) = timestamps-retry_after key now wait l r in
    let purged = purge_old l.config (timestamps key l) now in
    let shorter = wait_for_oldest-room l.config purged now later wait waits over in
    let same = purge_old_twice l.config (timestamps key l) now later lt in
    let fewer : length (purge_old l.config (timestamps key l) later) < length (timestamps key l) =
      omega (arith, ap length same, shorter, length-purge_old-le l.config (timestamps key l) now) in
    let fewer' : length (purge_old c (timestamps key l) later) < length (timestamps key l) =
      subst (λ d. length (purge_old d (timestamps key l) later) < length (timestamps key l))
        v.same_config fewer in
    omega (arith, fewer', v.tracks.bounded, v.tracks.counts later (omega arith))

-- With no burst limit, from a fresh limiter and after any calls under one configuration: if
-- RetryAfter reports a positive number of seconds for a key, then after any calls but Allow of this
-- key, a request that comes at least that many seconds later is admitted.
pub retry_after-allow :
    (c : Config) (key : Str) (before between : List (ℕ × Call)) (now later wait : ℕ)
    → c.burst_max ≤ℤ pos 0
    → IsOrdered 0 before
    → end_time 0 before ≤ now
    → (retry_after key now (run key before (init c) []).0).0 ≡ some (suc wait)
    → IsOrdered now between
    → AreQuiet key between
    → end_time now between ≤ later
    → now + suc wait * second ≤ later
    → let (l, h) = run key before (init c) [] in
      (allow key later (run key between (retry_after key now l).1 h).0).0 ≡ true
retry_after-allow c key before between now later wait burst o le r o' q le' over =
    let l = (run key before (init c) []).0 in
    let h = (run key before (init c) []).1 in
    let v = run-IsTracked key before (init c) [] 0 o (init-IsTracked c key) in
    let v' =
      run-IsTracked key between (retry_after key now l).1 h now o'
        (retries-IsTracked now le v key) in
    let m = (run key between (retry_after key now l).1 h).0 in
    let room = room-later c key now later wait (end_time 0 before) l h le (omega arith) v r over in
    let short : length (purge_old c (timestamps key m) later) < pos_part c.max_requests = omega (
      arith,
      room,
      in_window-run c key between later (retry_after key now l).1 h q,
      v'.tracks.counts later le',
    ) in
    allow-room key later m (
      subst (λ d. has_room d (purge_old d (timestamps key m) later) later ≡ true)
        (sym v'.same_config)
        (has_room-short c (purge_old c (timestamps key m) later) later burst
          (lt_of_lt-pos_part _ _ short)))

-- At the very instant at which the oldest request of a full deque reaches the age of the window,
-- Allow still refuses, and RetryAfter reports a wait of 0 seconds.
retry_after_boundary :
    (key : Str) (now oldest : ℕ) (rest : List ℕ) (l : RateLimiter)
    → lookup key l.windows ≡ some (oldest ∷ rest)
    → oldest + pos_part l.config.window_seconds * second
      ≡ now + neg_part l.config.window_seconds * second
    → l.config.max_requests ≤ℤ pos (length (oldest ∷ rest))
    → ((allow key now l).0 ≡ false) × ((retry_after key now l).0 ≡ some 0)
unfolding allow retry_after has_room purge_old wait_for_oldest
retry_after_boundary key now oldest rest l e at_edge full = ground arith

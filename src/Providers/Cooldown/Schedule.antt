-- ===== src/Providers/Cooldown/Schedule.antt =====
-- The length of a cooldown: CooldownTracker::ComputeCooldown.
use rav_bot.Prelude.{ℕ, zero, suc, ◌-◌, ◌*◌, ◌^◌, ◌≤◌, ◌<◌, min, ◌≡◌, refl, arith}
use rav_bot.Providers.Error.{
  ProviderErrorKind, rate_limit, auth_error, billing_error, transient, model_not_found, timeout,
  context_overflow, unknown,
}
use rav_bot.Providers.Cooldown.{
  Backoff, fixed, growing, grow, backoff, multiplier_loop, compute_cooldown,
}

-- The loop multiplies once for each failure after the first, four times at most.
multiplier_loop_closed : (failures : ℕ) → multiplier_loop 4 1 failures 1 ≡ 5 ^ (min failures 5 - 1)
unfolding multiplier_loop
multiplier_loop_closed zero = refl
multiplier_loop_closed (suc zero) = refl
multiplier_loop_closed (suc (suc zero)) = refl
multiplier_loop_closed (suc (suc (suc zero))) = refl
multiplier_loop_closed (suc (suc (suc (suc zero)))) = refl
multiplier_loop_closed (suc (suc (suc (suc (suc n))))) =
    let e : min (suc (suc (suc (suc (suc n))))) 5 ≡ 5 = omega arith in rw e (ground arith)

-- A fixed length, or a base that grows fivefold with each failure up to a cap; after the fifth it
-- grows no more.
abbrev pub schedule : Backoff → ℕ → ℕ
schedule (fixed s) failures = s
schedule (growing base cap) failures = min (base * 5 ^ (min failures 5 - 1)) cap

-- For every kind of error, the cooldown is the length that is fixed for the kind, or its base
-- times five for each failure after the first, at most four, and at most its cap.
compute_cooldown-schedule :
    (kind : ProviderErrorKind) (failures : ℕ)
    → compute_cooldown kind failures ≡ schedule (backoff kind) failures
unfolding compute_cooldown
compute_cooldown-schedule rate_limit n = rw multiplier_loop_closed
compute_cooldown-schedule auth_error n = refl
compute_cooldown-schedule billing_error n = rw multiplier_loop_closed
compute_cooldown-schedule transient n = rw multiplier_loop_closed
compute_cooldown-schedule model_not_found n = refl
compute_cooldown-schedule timeout n = rw multiplier_loop_closed
compute_cooldown-schedule context_overflow n = omega arith
compute_cooldown-schedule unknown n = rw multiplier_loop_closed

multiplier_loop_mono :
    (m n : ℕ)
    → m ≤ n
    → (multiplier_loop 4 1 m 1 ≤ multiplier_loop 4 1 n 1) × (multiplier_loop 4 1 n 1 ≤ 625)
unfolding multiplier_loop
multiplier_loop_mono m n h = ground arith

grow_mono : (b : Backoff) (m n : ℕ) → m ≤ n → (grow b m ≤ grow b n)
unfolding grow
grow_mono (fixed s) m n h = omega arith
grow_mono (growing zero cap) m n h = omega arith
grow_mono (growing (suc b) cap) m n h = grind (arith, multiplier_loop_mono m n h)

grow-le : (kind : ProviderErrorKind) (n : ℕ) → grow (backoff kind) n ≤ 86400
unfolding grow backoff
grow-le rate_limit n = omega arith
grow-le kind n = omega arith

-- A further failure never shortens the cooldown, and no cooldown is longer than a day.
compute_cooldown_mono :
    (kind : ProviderErrorKind) (m n : ℕ)
    → m ≤ n
    → (compute_cooldown kind m ≤ compute_cooldown kind n) × (compute_cooldown kind n ≤ 86400)
unfolding compute_cooldown
compute_cooldown_mono kind m n h = (grow_mono (backoff kind) m n h, grow-le kind n)

-- The `int` product of base and multiplier does not overflow, whatever the number of failures.
backoff_no_overflow :
    (kind : ProviderErrorKind) (base cap failures : ℕ)
    → backoff kind ≡ growing base cap
    → base * multiplier_loop 4 1 failures 1 < 2 ^ 31
unfolding backoff
backoff_no_overflow kind base cap failures e =
    ground (arith, multiplier_loop_mono failures failures)

-- ===== src/Providers/Cooldown.antt =====
-- include/ravbot/providers/cooldown_tracker.hpp and src/providers/cooldown_tracker.cpp. Times are
-- nanoseconds of the steady clock, an argument of each call; `a - b > c` on times is written
-- `b + c < a`, since a time is a natural number here. Counters do not wrap.
pub mod Schedule
pub mod Tracking
pub mod Probing
use rav_bot.Prelude.{
  ℕ, zero, suc, ◌+◌, ◌-◌, ◌*◌, ◌/◌, min, Bool, true, false, ◌&&◌, Option, none, some, List, [], ◌∷◌,
  ltb, leb, if◌then◌else◌,
}
use rav_bot.Prelude.Int.{ℤ, pos, pos_part, ltb_ℤ}
use rav_bot.Prelude.Text.{Str}
use rav_bot.Prelude.Map.{Map, lookup, insert, erase}
use rav_bot.Providers.Error.{
  ProviderErrorKind, rate_limit, auth_error, billing_error, transient, model_not_found, timeout,
  context_overflow, unknown,
}

abbrev pub second : ℕ
second = 1_000_000_000

-- kProbeInterval
abbrev pub probe_interval : ℕ
probe_interval = 30 * second

-- kFailureWindowDecay
abbrev pub failure_window_decay : ℕ
failure_window_decay = 24 * 3600 * second

pub record CooldownState : Type 0 where
  pub consecutive_failures : ℕ
  pub last_error : ProviderErrorKind
  pub cooldown_until : ℕ
  pub last_failure_at : ℕ
  pub last_probe_at : ℕ

-- What `states_[key]` creates.
abbrev pub initial_state : CooldownState
initial_state = record {
  consecutive_failures = 0;
  last_error = unknown;
  cooldown_until = 0;
  last_failure_at = 0;
  last_probe_at = 0;
}

abbrev pub CooldownTracker : Type 0
CooldownTracker = Map CooldownState

-- `for (int i = 1; i < failure_count && i < 5; ++i) multiplier *= 5;` with rounds left.
unfoldable pub multiplier_loop : ℕ → ℕ → ℕ → ℕ → ℕ
multiplier_loop zero i failure_count multiplier = multiplier
multiplier_loop (suc rounds) i failure_count multiplier =
    let rest = multiplier_loop rounds (i + 1) failure_count (multiplier * 5) in
    if ltb i failure_count && ltb i 5 then rest else multiplier

-- base_s and cap_s of the `switch`, with the fixed results in `fixed`.
pub data Backoff : Type 0 where
  fixed : ℕ → Backoff
  growing : ℕ → ℕ → Backoff

unfoldable pub backoff : ProviderErrorKind → Backoff
backoff rate_limit = growing 60 3600
backoff auth_error = fixed 3600
backoff billing_error = growing 18000 86400
backoff transient = growing 60 3600
backoff model_not_found = fixed 0
backoff timeout = growing 30 300
backoff unknown = growing 60 600
backoff context_overflow = growing 0 0

grow : Backoff → ℕ → ℕ
unfolding multiplier_loop
grow (fixed s) failure_count = s
grow (growing zero cap) failure_count = 0
grow (growing (suc b) cap) failure_count = min (suc b * multiplier_loop 4 1 failure_count 1) cap

-- In seconds. Four rounds are enough for the loop, since it ends at i = 5.
unfoldable pub compute_cooldown : ProviderErrorKind → ℕ → ℕ
unfolding grow backoff
compute_cooldown kind failure_count = grow (backoff kind) failure_count

unfoldable pub is_in_cooldown : Str → ℕ → CooldownTracker → Bool
is_in_cooldown key now states = elim (lookup key states) [
  | none ↦ false
  | some state ↦ ltb now state.cooldown_until
]

abbrev pub state_of : Str → CooldownTracker → CooldownState
state_of key states = elim (lookup key states) [ none ↦ initial_state | some state ↦ state ]

-- The counter after the decay test, and incremented.
unfoldable pub next_failures : CooldownState → ℕ → ℕ
next_failures state now =
    if ltb 0 state.consecutive_failures && ltb (state.last_failure_at + failure_window_decay) now
    then 1
    else state.consecutive_failures + 1

-- The length of the cooldown in seconds: Retry-After, or the computed backoff.
unfoldable pub cooldown_seconds : ProviderErrorKind → ℤ → ℕ → ℕ
cooldown_seconds kind retry_after failures =
    if ltb_ℤ (pos 0) retry_after then pos_part retry_after else compute_cooldown kind failures

failed : CooldownState → ProviderErrorKind → ℤ → ℕ → CooldownState
unfolding next_failures cooldown_seconds
failed state kind retry_after now = record {
  consecutive_failures = next_failures state now;
  last_error = kind;
  cooldown_until = now + cooldown_seconds kind retry_after (next_failures state now) * second;
  last_failure_at = now;
  last_probe_at = now;
}

unfoldable pub record_failure : Str → ProviderErrorKind → ℤ → ℕ → CooldownTracker → CooldownTracker
unfolding failed
record_failure key kind retry_after now states =
    insert key (failed (state_of key states) kind retry_after now) states

unfoldable pub record_success : Str → CooldownTracker → CooldownTracker
record_success key states = erase key states

unfoldable pub cooldown_remaining : Str → ℕ → CooldownTracker → ℕ
cooldown_remaining key now states = elim (lookup key states) [
  | none ↦ 0
  | some state ↦ if leb state.cooldown_until now then 0 else (state.cooldown_until - now) / second
]

unfoldable pub reset : CooldownTracker → CooldownTracker
reset states = []

unfoldable pub failure_count : Str → CooldownTracker → ℕ
failure_count key states = elim (lookup key states) [
  | none ↦ 0
  | some state ↦ state.consecutive_failures
]

-- The answer, and the tracker with the probe's time written.
unfoldable pub try_probe : Str → ℕ → CooldownTracker → Bool × CooldownTracker
try_probe key now states = elim (lookup key states) [
  | none ↦ (false, states)
  | some state ↦
      if leb state.cooldown_until now
      then (false, states)
      else if ltb now (state.last_probe_at + probe_interval)
      then (false, states)
      else (true, insert key (record state { last_probe_at = now }) states)
]

-- GetAllStates, with the result map built entry by entry.
unfoldable pub get_all_states : ℕ → CooldownTracker → Map ℕ → Map ℕ
get_all_states now [] result = result
get_all_states now ((key, state) ∷ states) result = get_all_states now states (
    if ltb now state.cooldown_until
    then insert key ((state.cooldown_until - now) / second) result
    else result)

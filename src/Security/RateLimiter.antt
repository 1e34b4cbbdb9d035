-- ===== src/Security/RateLimiter.antt =====
-- include/ravbot/security/rate_limiter.hpp and src/security/rate_limiter.cpp. Times are
-- nanoseconds of the steady clock; `t < now - window` is written `t + window < now`, with the two
-- parts of a window that may be negative on its sides.
pub mod Tracks
pub mod Window
pub mod Retry
use rav_bot.Prelude.{
  ℕ, suc, ◌+◌, ◌-◌, ◌*◌, ◌/◌, Bool, true, false, ◌&&◌, Option, none, some, List, [], ◌∷◌, ◌++◌,
  length, ltb, leb, if◌then◌else◌,
}
use rav_bot.Prelude.Int.{ℤ, pos, pos_part, neg_part, ltb_ℤ, leb_ℤ, ◌-ℤ◌}
use rav_bot.Prelude.Text.{Str}
use rav_bot.Prelude.Map.{Map, lookup, insert, erase}
use mathlib.Core.List.{reverse}

abbrev pub second : ℕ
second = 1_000_000_000

pub record Config : Type 0 where
  pub max_requests : ℤ
  pub window_seconds : ℤ
  pub burst_max : ℤ

pub record RateLimiter : Type 0 where
  pub config : Config
  pub windows : Map (List ℕ)

abbrev pub default_config : Config
default_config = record { max_requests = pos 100; window_seconds = pos 60; burst_max = pos 20 }

unfoldable pub init : Config → RateLimiter
init c = record { config = c; windows = [] }

-- timestamps.front() < cutoff
abbrev pub is_old : Config → ℕ → ℕ → Bool
is_old c t now =
    ltb (t + pos_part c.window_seconds * second) (now + neg_part c.window_seconds * second)

unfoldable pub purge_old : Config → List ℕ → ℕ → List ℕ
purge_old c [] now = []
purge_old c (t ∷ ts) now = let rest = purge_old c ts now in if is_old c t now then rest else t ∷ ts

-- The loop of the burst test, over the timestamps from the newest on.
unfoldable pub burst_count : List ℕ → ℕ → ℕ
burst_count [] now = 0
burst_count (t ∷ ts) now =
    let rest = suc (burst_count ts now) in if leb now (t + second) then rest else 0

unfoldable pub burst_exceeded : Config → List ℕ → ℕ → Bool
burst_exceeded c ts now =
    ltb_ℤ (pos 0) c.burst_max && leb_ℤ c.burst_max (pos (burst_count (reverse ts) now))

abbrev pub timestamps : Str → RateLimiter → List ℕ
timestamps key l = elim (lookup key l.windows) [ none ↦ [] | some ts ↦ ts ]

-- Whether the purged timestamps leave room for a request.
unfoldable pub has_room : Config → List ℕ → ℕ → Bool
has_room c ts now =
    if leb_ℤ c.max_requests (pos (length ts))
    then false
    else if burst_exceeded c ts now
    then false
    else true

unfoldable pub write : Str → List ℕ → RateLimiter → RateLimiter
write key ts l = record l { windows = insert key ts l.windows }

unfoldable pub allow : Str → ℕ → RateLimiter → Bool × RateLimiter
unfolding write
allow key now l =
    let ts = purge_old l.config (timestamps key l) now in
    if has_room l.config ts now
    then (true, write key (ts ++ now ∷ []) l)
    else (false, write key ts l)

unfoldable pub remaining : Str → ℕ → RateLimiter → ℤ × RateLimiter
unfolding write
remaining key now l = elim (lookup key l.windows) [
  | none ↦ (l.config.max_requests, l)
  | some ts ↦
      let used = pos (length (purge_old l.config ts now)) in
      (
        (if ltb_ℤ (l.config.max_requests -ℤ used) (pos 0)
            then pos 0
            else l.config.max_requests -ℤ used),
        write key (purge_old l.config ts now) l,
      )
]

-- The seconds until the oldest request leaves the window; `none` is a read of the front of an
-- empty deque.
unfoldable pub wait_for_oldest : Config → List ℕ → ℕ → Option ℕ
wait_for_oldest c [] now = none
wait_for_oldest c (oldest ∷ ts) now =
    let expires_at = oldest + pos_part c.window_seconds * second in
    let now' = now + neg_part c.window_seconds * second in
    if leb expires_at now' then some 0 else some ((expires_at - now') / second + 1)

unfoldable pub retry_after : Str → ℕ → RateLimiter → Option ℕ × RateLimiter
unfolding write wait_for_oldest
retry_after key now l = elim (lookup key l.windows) [
  | none ↦ (some 0, l)
  | some [] ↦ (some 0, l)
  | some (t ∷ ts) ↦
      let purged = purge_old l.config (t ∷ ts) now in
      (
        (if ltb_ℤ (pos (length purged)) l.config.max_requests
            then some 0
            else wait_for_oldest l.config purged now),
        write key purged l,
      )
]

unfoldable pub reset : RateLimiter → RateLimiter
reset l = record l { windows = [] }

unfoldable pub reset_key : Str → RateLimiter → RateLimiter
reset_key key l = record l { windows = erase key l.windows }

unfoldable pub prune_windows : Config → ℕ → Map (List ℕ) → Map (List ℕ)
prune_windows c now [] = []
prune_windows c now ((key, ts) ∷ m) =
    let rest = prune_windows c now m in
    elim (purge_old c ts now) [ [] ↦ rest | t ∷ kept ↦ (key, t ∷ kept) ∷ rest ]

unfoldable pub prune : ℕ → RateLimiter → RateLimiter
unfolding prune_windows
prune now l = record l { windows = prune_windows l.config now l.windows }

unfoldable pub configure : Config → RateLimiter → RateLimiter
configure c l = record l { config = c }

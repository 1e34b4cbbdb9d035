-- ===== src/Security/RateLimiter/Window.antt =====
-- The limiter against the history of what it admitted.
use rav_bot.Prelude.{
  ℕ, ◌≤◌, ◌≡◌, subst, refl, true, false, ◌&&◌, List, [], ◌∷◌, ◌++◌, length, if◌then◌else◌, arith,
  Bool-cases, Option-cases, inl, inr,
}
use rav_bot.Prelude.Int.{pos_part}
use rav_bot.Prelude.Text.{Str, str_eq, str_eq_iff}
use rav_bot.Prelude.Map.{lookup, insert-Distinct, erase-Distinct, lookup-erase}
use rav_bot.Security.RateLimiter.{
  Config, RateLimiter, purge_old, timestamps, has_room, allow, remaining, retry_after, prune, write,
  reset, reset_key, init,
}
use rav_bot.Security.RateLimiter.Tracks.{
  in_window, Tracks, IsTracked, length-purge_old-le, Tracks-empty, Tracks-purge, Tracks-admit,
  timestamps-write, timestamps-prune, prune_windows-Distinct, Tracks-later,
}

-- The calls that a limiter serves under one configuration: Allow, Remaining, RetryAfter, the prune
-- of all keys, and both overloads of Reset.
pub data Call : Type 0 where
  allows remains retries : Str → Call
  prunes resets : Call
  key_resets : Str → Call

unfoldable pub step : Call → ℕ → RateLimiter → RateLimiter
step (allows key) now l = (allow key now l).1
step (remains key) now l = (remaining key now l).1
step (retries key) now l = (retry_after key now l).1
step prunes now l = prune now l
step resets now l = reset l
step (key_resets key) now l = reset_key key l

-- The history of a key's admitted requests since its last reset, oldest first.
unfoldable pub note : Str → Call → ℕ → RateLimiter → List ℕ → List ℕ
note key (allows other) now l h =
    if (allow other now l).0 && str_eq other key then h ++ now ∷ [] else h
note key (remains other) now l h = h
note key (retries other) now l h = h
note key prunes now l h = h
note key resets now l h = []
note key (key_resets other) now l h = if str_eq other key then [] else h

module _ {c : Config} {key : Str} {l : RateLimiter} {h : List ℕ} {last : ℕ} (now : ℕ)
    (le : last ≤ now) (v : IsTracked c key l h last) where
  purged :
      (other : Str)
      → str_eq other key ≡ true
      → Tracks c (purge_old l.config (timestamps other l) now) h now
  purged other same =
      rw ((str_eq_iff other key).0 same, v.same_config) (Tracks-purge now le v.tracks)

  written :
      (other : Str) (ts h' : List ℕ)
      → (str_eq other key ≡ true → Tracks c ts h' now)
      → (str_eq other key ≡ false → h' ≡ h)
      → IsTracked c key (write other ts l) h' now
  written other ts h' same differ = record {
    same_config = unfold write in v.same_config;
    distinct = unfold write in insert-Distinct other ts l.windows v.distinct;
    tracks = elim (Bool-cases (str_eq other key)) [
      | inl e ↦ rw (timestamps-write other key ts l, e) (same e)
      | inr e ↦ rw (timestamps-write other key ts l, e, differ e) (Tracks-later now le v.tracks)
    ];
  }

  unchanged : IsTracked c key l h now
  unchanged = record {
    same_config = v.same_config;
    distinct = v.distinct;
    tracks = Tracks-later now le v.tracks;
  }

  cleaned :
      (other : Str)
      → IsTracked c key (write other (purge_old l.config (timestamps other l) now) l) h now
  cleaned other = written other _ h (purged other) (λ _. refl)

  allows-IsTracked :
      (other : Str) → IsTracked c key (allow other now l).1 (note key (allows other) now l h) now
  unfolding allow note
  allows-IsTracked other =
      elim (Bool-cases (has_room l.config (purge_old l.config (timestamps other l) now) now)) [
        | inl room ↦
            rw (room, allow, note)
              (written other _ _
                (λ e. rw e (
                  Tracks-admit now (purged other e) (
                    subst (λ d. has_room d (purge_old l.config (timestamps other l) now) now ≡ true)
                      v.same_config room)))
                (λ e. rw e))
        | inr full ↦ rw (full, allow, note) (cleaned other)
      ]

  remains-IsTracked : (other : Str) → IsTracked c key (remaining other now l).1 h now
  unfolding remaining
  remains-IsTracked other = elim (Option-cases (lookup other l.windows)) [
    | inl e ↦ rw (e, remaining) unchanged
    | inr (ts, e) ↦ rw (e, remaining) (rw (e, timestamps) at (cleaned other))
  ]

  pub retries-IsTracked : (other : Str) → IsTracked c key (retry_after other now l).1 h now
  unfolding retry_after
  retries-IsTracked other = elim (Option-cases (lookup other l.windows)) [
    | inl e ↦ rw (e, retry_after) unchanged
    | inr ([], e) ↦ rw (e, retry_after) unchanged
    | inr (t ∷ ts, e) ↦ rw (e, retry_after) (rw (e, timestamps) at (cleaned other))
  ]

  prunes-IsTracked : IsTracked c key (prune now l) h now
  prunes-IsTracked = record {
    same_config = unfold prune in v.same_config;
    distinct = unfold prune in prune_windows-Distinct l.config now l.windows v.distinct;
    tracks =
        rw (timestamps-prune key now l v.distinct, v.same_config) (Tracks-purge now le v.tracks);
  }

  resets-IsTracked : IsTracked c key (reset l) [] now
  unfolding reset lookup
  resets-IsTracked = record {
    same_config = v.same_config;
    distinct = tt;
    tracks = Tracks-empty c now;
  }

  timestamps-reset_key :
      (other : Str)
      → timestamps key (reset_key other l) ≡ (if str_eq other key then [] else timestamps key l)
  unfolding reset_key
  timestamps-reset_key other = ground (arith, lookup-erase other key l.windows)

  key_resets-IsTracked :
      (other : Str) → IsTracked c key (reset_key other l) (if str_eq other key then [] else h) now
  key_resets-IsTracked other = record {
    same_config = unfold reset_key in v.same_config;
    distinct = unfold reset_key in erase-Distinct other l.windows v.distinct;
    tracks = elim (Bool-cases (str_eq other key)) [
      | inl e ↦ rw (timestamps-reset_key other, e) (Tracks-empty c now)
      | inr e ↦ rw (timestamps-reset_key other, e) (Tracks-later now le v.tracks)
    ];
  }

  step-IsTracked : (call : Call) → IsTracked c key (step call now l) (note key call now l h) now
  unfolding step note
  step-IsTracked (allows other) = allows-IsTracked other
  step-IsTracked (remains other) = remains-IsTracked other
  step-IsTracked (retries other) = retries-IsTracked other
  step-IsTracked prunes = prunes-IsTracked
  step-IsTracked resets = resets-IsTracked
  step-IsTracked (key_resets other) = key_resets-IsTracked other

pub init-IsTracked : (c : Config) (key : Str) → IsTracked c key (init c) [] 0
unfolding init lookup
init-IsTracked c key = record { same_config = refl; distinct = tt; tracks = Tracks-empty c 0 }

-- Calls in the order of their times, and what they leave: the limiter and the key's history.
unfoldable pub run : Str → List (ℕ × Call) → RateLimiter → List ℕ → RateLimiter × List ℕ
run key [] l h = (l, h)
run key ((now, call) ∷ calls) l h = run key calls (step call now l) (note key call now l h)

-- The clock never goes back: each call comes at the time of the one before it or later.
abbrev pub IsOrdered : ℕ → List (ℕ × Call) → Type 0
IsOrdered last [] = Unit
IsOrdered last ((now, call) ∷ calls) = (last ≤ now) × IsOrdered now calls

abbrev pub end_time : ℕ → List (ℕ × Call) → ℕ
end_time last [] = last
end_time last ((now, call) ∷ calls) = end_time now calls

pub run-IsTracked :
    {c : Config} (key : Str) (calls : List (ℕ × Call)) (l : RateLimiter) (h : List ℕ) (last : ℕ)
    → IsOrdered last calls
    → IsTracked c key l h last
    → IsTracked c key (run key calls l h).0 (run key calls l h).1 (end_time last calls)
unfolding run
run-IsTracked key [] l h last o v = v
run-IsTracked key ((now, call) ∷ calls) l h last o v =
    run-IsTracked key calls _ _ now o.1 (step-IsTracked now o.0 v call)

-- Under one configuration, from a fresh limiter, whatever calls of Allow, Remaining, RetryAfter,
-- Prune and Reset it serves for this and other keys, in the order of their times, and at every time
-- from the last call on: of the requests of the key that were admitted since it, or everything, was
-- last reset, the window that ends there holds at most max_requests; and the key's deque, purged,
-- holds exactly the requests of that window.
pub run_window_bound :
    (c : Config) (key : Str) (calls : List (ℕ × Call)) (now : ℕ)
    → IsOrdered 0 calls
    → end_time 0 calls ≤ now
    → let (l, h) = run key calls (init c) [] in
      (in_window c now h ≤ pos_part c.max_requests)
      × (in_window c now h ≡ length (purge_old c (timestamps key l) now))
run_window_bound c key calls now o le = (
  omega (
    arith,
    v.tracks.counts now le,
    length-purge_old-le c (timestamps key (run key calls (init c) []).0) now,
    v.tracks.bounded,
  ),
  v.tracks.counts now le,
)
  where
    v :
        IsTracked c key
          (run key calls (init c) []).0
          (run key calls (init c) []).1
          (end_time 0 calls)
    v = run-IsTracked key calls (init c) [] 0 o (init-IsTracked c key)

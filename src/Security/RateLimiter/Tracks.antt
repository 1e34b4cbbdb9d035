-- ===== src/Security/RateLimiter/Tracks.antt =====
-- A key's timestamps against the history of its admitted requests, and the writes to the map.
use rav_bot.Prelude.{
  ℕ, ◌+◌, ◌≤◌, ◌≡◌, refl, true, not, Option, none, some, List, [], ◌∷◌, ◌++◌, length, filter,
  length-append, All, All-append, if◌then◌else◌, arith,
}
use rav_bot.Prelude.Int.{pos_part}
use rav_bot.Prelude.Text.{Str, str_eq, str_eq_iff}
use rav_bot.Prelude.Map.{Map, lookup, Distinct, lookup-insert}
use rav_bot.Security.RateLimiter.{
  Config, RateLimiter, is_old, purge_old, timestamps, has_room, prune, prune_windows, write,
}

-- How many of the admitted requests lie in the window that ends at `now`.
abbrev pub in_window : Config → ℕ → List ℕ → ℕ
in_window c now h = length (filter (λ t. not (is_old c t now)) h)

pub purge_old_twice :
    (c : Config) (ts : List ℕ) (n now : ℕ)
    → n ≤ now
    → purge_old c (purge_old c ts n) now ≡ purge_old c ts now
unfolding purge_old
purge_old_twice c [] n now h = refl
purge_old_twice c (t ∷ ts) n now h = ground (arith, purge_old_twice c ts n now h)

pub length-purge_old-append :
    (c : Config) (ts : List ℕ) (n now : ℕ)
    → All (λ t. t ≤ n) ts
    → length (purge_old c (ts ++ n ∷ []) now)
      ≡ length (purge_old c ts now) + (if is_old c n now then 0 else 1)
unfolding purge_old
length-purge_old-append c [] n now h = ground arith
length-purge_old-append c (t ∷ ts) n now h =
    ground (arith, length-purge_old-append c ts n now h.1, length-append ts (n ∷ []))

pub in_window-append :
    (c : Config) (h : List ℕ) (n now : ℕ)
    → in_window c now (h ++ n ∷ []) ≡ in_window c now h + (if is_old c n now then 0 else 1)
in_window-append c [] n now = ground arith
in_window-append c (t ∷ h) n now = ground (arith, in_window-append c h n now)

pub length-purge_old-le :
    (c : Config) (ts : List ℕ) (now : ℕ) → length (purge_old c ts now) ≤ length ts
unfolding purge_old
length-purge_old-le c [] now = omega arith
length-purge_old-le c (t ∷ ts) now = ground (arith, length-purge_old-le c ts now)

pub All-purge_old :
    (c : Config) (ts : List ℕ) (n now : ℕ)
    → All (λ t. t ≤ n) ts
    → All (λ t. t ≤ n) (purge_old c ts now)
unfolding purge_old
All-purge_old c [] n now h = tt
All-purge_old c (t ∷ ts) n now h = ground (arith, All-purge_old c ts n now h.1)

pub All-mono : (ts : List ℕ) (m n : ℕ) → m ≤ n → All (λ t. t ≤ m) ts → All (λ t. t ≤ n) ts
All-mono [] m n h a = tt
All-mono (t ∷ ts) m n h a = (omega arith, All-mono ts m n h a.1)

-- The timestamps `ts` of a key stand for the history `h` of its admitted requests up to `last`.
pub record Tracks (c : Config) (ts h : List ℕ) (last : ℕ) : Type 0 where
  pub past : All (λ t. t ≤ last) ts
  pub bounded : length ts ≤ pos_part c.max_requests
  pub counts : (now : ℕ) → last ≤ now → in_window c now h ≡ length (purge_old c ts now)

pub Tracks-empty : (c : Config) (last : ℕ) → Tracks c [] [] last
unfolding purge_old
Tracks-empty c last = record { past = tt; bounded = omega arith; counts = λ now h. refl }

pub Tracks-purge :
    {c : Config} {ts h : List ℕ} {last : ℕ} (now : ℕ)
    → last ≤ now
    → Tracks c ts h last
    → Tracks c (purge_old c ts now) h now
Tracks-purge {c} {ts} {h} {last} now le t = record {
  past = All-purge_old c ts now now (All-mono ts last now le t.past);
  bounded = omega (arith, length-purge_old-le c ts now, t.bounded);
  counts = λ later l. rw (purge_old_twice c ts now later l) (t.counts later (omega arith));
}

pub Tracks-admit :
    {c : Config} {ts h : List ℕ} (now : ℕ)
    → Tracks c ts h now
    → has_room c ts now ≡ true
    → Tracks c (ts ++ now ∷ []) (h ++ now ∷ []) now
unfolding has_room
Tracks-admit {c} {ts} {h} now t room = record {
  past = All-append _ ts (now ∷ []) t.past (omega arith);
  bounded = ground (arith, length-append ts (now ∷ []));
  counts = λ later l. omega (
    arith,
    in_window-append c h now later,
    length-purge_old-append c ts now later t.past,
    t.counts later l,
  );
}

pub timestamps-write :
    (other key : Str) (ts : List ℕ) (l : RateLimiter)
    → timestamps key (write other ts l) ≡ (if str_eq other key then ts else timestamps key l)
unfolding write
timestamps-write other key ts l = ground (arith, lookup-insert other key ts l.windows)

-- An entry after pruning.
abbrev pruned : Config → ℕ → Option (List ℕ) → Option (List ℕ)
pruned c now none = none
pruned c now (some ts) = elim (purge_old c ts now) [ [] ↦ none | t ∷ kept ↦ some (t ∷ kept) ]

pub lookup-prune_windows :
    (key : Str) (c : Config) (now : ℕ) (m : Map (List ℕ))
    → Distinct m
    → lookup key (prune_windows c now m) ≡ pruned c now (lookup key m)
unfolding lookup prune_windows
lookup-prune_windows key c now [] d = refl
lookup-prune_windows key c now ((j, ts) ∷ m) d =
    ground (arith, lookup-prune_windows key c now m d.1, str_eq_iff j key)

pub timestamps-prune :
    (key : Str) (now : ℕ) (l : RateLimiter)
    → Distinct l.windows
    → timestamps key (prune now l) ≡ purge_old l.config (timestamps key l) now
unfolding prune purge_old
timestamps-prune key now l d = ground (arith, lookup-prune_windows key l.config now l.windows d)

pub prune_windows-Distinct :
    (c : Config) (now : ℕ) (m : Map (List ℕ)) → Distinct m → Distinct (prune_windows c now m)
unfolding prune_windows lookup
prune_windows-Distinct c now [] d = tt
prune_windows-Distinct c now ((j, ts) ∷ m) d =
    ground (arith, prune_windows-Distinct c now m d.1, lookup-prune_windows j c now m d.1)

-- A limiter whose entry for `key` stands for the history `h`.
pub record IsTracked (c : Config) (key : Str) (l : RateLimiter) (h : List ℕ) (last : ℕ)
    : Type 0 where
  pub same_config : l.config ≡ c
  pub distinct : Distinct l.windows
  pub tracks : Tracks c (timestamps key l) h last

pub Tracks-later :
    {c : Config} {ts h : List ℕ} {last : ℕ} (now : ℕ)
    → last ≤ now
    → Tracks c ts h last
    → Tracks c ts h now
Tracks-later {ts = ts} {last = last} now le t = record {
  past = All-mono ts last now le t.past;
  bounded = t.bounded;
  counts = λ later l. t.counts later (omega arith);
}

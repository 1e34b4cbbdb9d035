-- ===== src/Providers/Cooldown/Probing.antt =====
-- Probes of a key in cooldown: at most one in each interval of 30 seconds.
use rav_bot.Prelude.{
  ℕ, ◌+◌, ◌<◌, ◌≤◌, ◌≡◌, true, false, some, arith, leb, List, [], ◌∷◌, All, Option-cases, inl, inr,
  ◌&&◌,
}
use rav_bot.Prelude.Text.{Str, str_eq_iff, str_eq_refl}
use rav_bot.Prelude.Map.{lookup, lookup-insert}
use rav_bot.Providers.Cooldown.{
  CooldownTracker, CooldownState, probe_interval, state_of, is_in_cooldown, try_probe,
}

-- Probes of any keys, in order.
abbrev pub probe_all : List (Str × ℕ) → CooldownTracker → CooldownTracker
probe_all [] s = s
probe_all ((key, now) ∷ probes) s = probe_all probes (try_probe key now s).1

-- The key's last probe or failure is at `since` or later.
abbrev ProbedSince : Str → ℕ → CooldownTracker → Type 0
ProbedSince key since s =
    (state : CooldownState) → lookup key s ≡ some state → since ≤ state.last_probe_at

try_probe-ProbedSince :
    (key other : Str) (since now : ℕ) (s : CooldownTracker)
    → since ≤ now
    → ProbedSince key since s
    → ProbedSince key since (try_probe other now s).1
unfolding try_probe
try_probe-ProbedSince key other since now s h p state e = elim (Option-cases (lookup other s)) [
  | inl miss ↦ p state (ground arith)
  | inr (old, hit) ↦ ground (
    arith,
    lookup-insert other key (record old { last_probe_at = now }) s,
    str_eq_iff other key,
    p state,
    p old,
  )
]

probe_all-ProbedSince :
    (key : Str) (since : ℕ) (probes : List (Str × ℕ)) (s : CooldownTracker)
    → All (λ p. since ≤ p.1) probes
    → ProbedSince key since s
    → ProbedSince key since (probe_all probes s)
probe_all-ProbedSince key since [] s h p = p
probe_all-ProbedSince key since ((other, now) ∷ probes) s h p =
    probe_all-ProbedSince key since probes (try_probe other now s).1 h.1
      (try_probe-ProbedSince key other since now s h.0 p)

-- A probe that is let through writes its time.
try_probe_writes :
    (key : Str) (now : ℕ) (s : CooldownTracker)
    → (try_probe key now s).0 ≡ true
    → ProbedSince key now (try_probe key now s).1
unfolding try_probe
try_probe_writes key now s h state e = elim (Option-cases (lookup key s)) [
  | inl miss ↦ ground arith
  | inr (old, hit) ↦
      ground (arith, lookup-insert key key (record old { last_probe_at = now }) s, str_eq_refl key)
]

refused :
    (key : Str) (since now : ℕ) (s : CooldownTracker)
    → ProbedSince key since s
    → now < since + probe_interval
    → (try_probe key now s).0 ≡ false
unfolding try_probe
refused key since now s p h = elim (Option-cases (lookup key s)) [
  | inl miss ↦ ground arith
  | inr (old, hit) ↦ ground (arith, p old)
]

-- Once a probe of a key is let through, every probe of it in the next 30 seconds is refused,
-- whatever probes of this and other keys come in between.
pub try_probe_spacing :
    (key : Str) (first later : ℕ) (probes : List (Str × ℕ)) (s : CooldownTracker)
    → (try_probe key first s).0 ≡ true
    → All (λ p. first ≤ p.1) probes
    → later < first + probe_interval
    → (try_probe key later (probe_all probes (try_probe key first s).1)).0 ≡ false
try_probe_spacing key first later probes s let_through after soon =
    refused key first later _
      (probe_all-ProbedSince key first probes _ after (try_probe_writes key first s let_through))
      soon

-- A probe is let through exactly in a cooldown whose last failure or probe is 30 seconds old, and
-- it neither shortens nor ends any cooldown.
try_probe_exact :
    (key other : Str) (now t : ℕ) (s : CooldownTracker)
    → ((try_probe key now s).0
        ≡ (is_in_cooldown key now s && leb ((state_of key s).last_probe_at + probe_interval) now))
      × (is_in_cooldown other t (try_probe key now s).1 ≡ is_in_cooldown other t s)
unfolding try_probe is_in_cooldown
try_probe_exact key other now t s = elim (Option-cases (lookup key s)) [
  | inl miss ↦ (ground arith, ground arith)
  | inr (old, hit) ↦ (
    ground arith,
    ground (
      arith,
      lookup-insert key other (record old { last_probe_at = now }) s,
      str_eq_iff key other,
    ),
  )
]

-- ===== src/Core/Usage/Histories.antt =====
-- What the counters hold after any calls.
use rav_bot.Prelude.{
  inl, inr, Bool-cases, length, ◌≡◌, refl, ap, ◌∙◌, List, [], ◌∷◌, arith, if◌then◌else◌,
}
use rav_bot.Prelude.Int.{ℤ, pos, ◌+ℤ◌, ltb_ℤ}
use rav_bot.Prelude.Text.{Str, str_eq, str_eq_iff}
use rav_bot.Prelude.Map.{lookup, insert, lookup-insert, lookup-erase}
use rav_bot.Core.Usage.{
  TokenUsage, Stats, no_stats, UsageAccumulator, no_usage, add_usage, call_total, get_session,
  record_usage, reset_session, reset_all,
}

pub data Call : Type 0 where
  used : Str → TokenUsage → Call
  session_reset : Str → Call
  everything_reset : Call

unfoldable pub step : Call → UsageAccumulator → UsageAccumulator
unfolding record_usage reset_session reset_all
step (used key u) a = record_usage key u a
step (session_reset key) a = reset_session key a
step everything_reset a = reset_all a

unfoldable pub run : List Call → UsageAccumulator → UsageAccumulator
unfolding step
run [] a = a
run (c ∷ cs) a = run cs (step c a)

-- The calls of one session since its last reset, added up.
unfoldable pub session_total : Str → List Call → Stats → Stats
unfolding add_usage
session_total key [] s = s
session_total key (used k u ∷ cs) s =
    session_total key cs (if str_eq k key then add_usage u s else s)
session_total key (session_reset k ∷ cs) s =
    session_total key cs (if str_eq k key then no_stats else s)
session_total key (everything_reset ∷ cs) s = session_total key cs no_stats

-- The calls of all sessions since the last reset of everything, added up.
unfoldable pub global_total : List Call → Stats → Stats
unfolding add_usage
global_total [] s = s
global_total (used k u ∷ cs) s = global_total cs (add_usage u s)
global_total (session_reset k ∷ cs) s = global_total cs s
global_total (everything_reset ∷ cs) s = global_total cs no_stats

get_session-insert :
    (key k : Str) (s global : Stats) (a : UsageAccumulator)
    → get_session key (record { sessions = insert k s a.sessions; global = global })
      ≡ (if str_eq k key then s else get_session key a)
unfolding get_session
get_session-insert key k s global a = ground (arith, lookup-insert k key s a.sessions)

same_session :
    (key k : Str) (u : TokenUsage) (a : UsageAccumulator)
    → (if str_eq k key then add_usage u (get_session k a) else get_session key a)
      ≡ (if str_eq k key then add_usage u (get_session key a) else get_session key a)
same_session key k u a = ground (arith, str_eq_iff k key)

get_session-record_usage :
    (key k : Str) (u : TokenUsage) (a : UsageAccumulator)
    → get_session key (record_usage k u a)
      ≡ (if str_eq k key then add_usage u (get_session key a) else get_session key a)
unfolding record_usage
get_session-record_usage key k u a =
    get_session-insert key k (add_usage u (get_session k a)) (add_usage u a.global) a
    ∙ same_session key k u a

get_session-reset_session :
    (key k : Str) (a : UsageAccumulator)
    → get_session key (reset_session k a) ≡ (if str_eq k key then no_stats else get_session key a)
unfolding get_session reset_session
get_session-reset_session key k a = ground (arith, lookup-erase k key a.sessions)

get_session-run :
    (key : Str) (cs : List Call) (a : UsageAccumulator)
    → get_session key (run cs a) ≡ session_total key cs (get_session key a)
unfolding run step session_total
get_session-run key [] a = refl
get_session-run key (used k u ∷ cs) a =
    get_session-run key cs (record_usage k u a)
    ∙ ap (session_total key cs) (get_session-record_usage key k u a)
get_session-run key (session_reset k ∷ cs) a =
    get_session-run key cs (reset_session k a)
    ∙ ap (session_total key cs) (get_session-reset_session key k a)
get_session-run key (everything_reset ∷ cs) a =
    get_session-run key cs no_usage ∙ ap (session_total key cs) (unfold get_session lookup in refl)

global-run : (cs : List Call) (a : UsageAccumulator) → (run cs a).global ≡ global_total cs a.global
unfolding run step global_total record_usage reset_session reset_all
global-run [] a = refl
global-run (used k u ∷ cs) a = global-run cs (record_usage k u a)
global-run (session_reset k ∷ cs) a = global-run cs (reset_session k a)
global-run (everything_reset ∷ cs) a = global-run cs no_usage

-- The usages that count for a session after these calls, the newest first, onto those at hand.
unfoldable pub session_usages : Str → List Call → List TokenUsage → List TokenUsage
session_usages key [] us = us
session_usages key (used k u ∷ cs) us = session_usages key cs (if str_eq k key then u ∷ us else us)
session_usages key (session_reset k ∷ cs) us =
    session_usages key cs (if str_eq k key then [] else us)
session_usages key (everything_reset ∷ cs) us = session_usages key cs []

-- The same for all sessions.
unfoldable pub global_usages : List Call → List TokenUsage → List TokenUsage
global_usages [] us = us
global_usages (used k u ∷ cs) us = global_usages cs (u ∷ us)
global_usages (session_reset k ∷ cs) us = global_usages cs us
global_usages (everything_reset ∷ cs) us = global_usages cs []

-- The sum of a number of each usage.
abbrev pub sum_of : (TokenUsage → ℤ) → List TokenUsage → ℤ
sum_of f [] = pos 0
sum_of f (u ∷ us) = sum_of f us +ℤ f u

-- The number of the newest usage, or 0.
abbrev pub newest : (TokenUsage → ℤ) → List TokenUsage → ℤ
newest f [] = pos 0
newest f (u ∷ us) = f u

-- The tokens of a usage: the total that it reports, if that is positive, or its two parts.
abbrev pub tokens_of : TokenUsage → ℤ
tokens_of u =
    if ltb_ℤ (pos 0) u.total_tokens then u.total_tokens else u.prompt_tokens +ℤ u.completion_tokens

-- Counters that are the sums over the usages, their number and the newest of them.
abbrev pub sums : List TokenUsage → Stats
sums us = record {
  input_tokens = sum_of (λ u. u.prompt_tokens) us;
  output_tokens = sum_of (λ u. u.completion_tokens) us;
  cache_read_tokens = sum_of (λ u. u.cache_read_input_tokens) us;
  cache_write_tokens = sum_of (λ u. u.cache_creation_input_tokens) us;
  total_tokens = sum_of tokens_of us;
  turns = length us;
  last_input_tokens = newest (λ u. u.prompt_tokens) us;
  last_output_tokens = newest (λ u. u.completion_tokens) us;
  last_cache_read_tokens = newest (λ u. u.cache_read_input_tokens) us;
  last_cache_write_tokens = newest (λ u. u.cache_creation_input_tokens) us;
}

add_usage-sums : (u : TokenUsage) (us : List TokenUsage) → add_usage u (sums us) ≡ sums (u ∷ us)
unfolding add_usage call_total
add_usage-sums u us = ap (λ n. record (sums (u ∷ us)) { turns = n }) (omega arith)

session_total-sums :
    (key : Str) (cs : List Call) (us : List TokenUsage)
    → session_total key cs (sums us) ≡ sums (session_usages key cs us)
unfolding session_total session_usages
session_total-sums key [] us = refl
session_total-sums key (used k u ∷ cs) us = elim (Bool-cases (str_eq k key)) [
  | inl e ↦
      rw e (ap (session_total key cs) (add_usage-sums u us) ∙ session_total-sums key cs (u ∷ us))
  | inr e ↦ rw e (session_total-sums key cs us)
]
session_total-sums key (session_reset k ∷ cs) us = elim (Bool-cases (str_eq k key)) [
  | inl e ↦ rw e (session_total-sums key cs [])
  | inr e ↦ rw e (session_total-sums key cs us)
]
session_total-sums key (everything_reset ∷ cs) us = session_total-sums key cs []

global_total-sums :
    (cs : List Call) (us : List TokenUsage) → global_total cs (sums us) ≡ sums (global_usages cs us)
unfolding global_total global_usages
global_total-sums [] us = refl
global_total-sums (used k u ∷ cs) us =
    ap (global_total cs) (add_usage-sums u us) ∙ global_total-sums cs (u ∷ us)
global_total-sums (session_reset k ∷ cs) us = global_total-sums cs us
global_total-sums (everything_reset ∷ cs) us = global_total-sums cs []

get_session-none : (key : Str) → get_session key no_usage ≡ sums []
unfolding get_session lookup
get_session-none key = refl

-- After any calls the counters of a session are the sums over its own usages since it, or
-- everything, was reset, their number and the newest of them, and the global ones are those of
-- all usages since everything was: the sessions do not touch each other, and resetting one leaves
-- the global counters.
pub run-totals :
    (key : Str) (cs : List Call)
    → (get_session key (run cs no_usage) ≡ sums (session_usages key cs []))
      × ((run cs no_usage).global ≡ sums (global_usages cs []))
run-totals key cs = (
  get_session-run key cs no_usage
      ∙ ap (session_total key cs) (get_session-none key)
      ∙ session_total-sums key cs [],
  global-run cs no_usage ∙ global_total-sums cs [],
)

-- ===== src/Core/Usage.antt =====
-- include/ravbot/core/usage_accumulator.hpp and src/core/usage_accumulator.cpp. The counters do
-- not wrap; ToJson is left out.
pub mod Histories
mod Tests
use rav_bot.Prelude.{ℕ, ◌+◌, Bool, List, [], ◌∷◌, Option, none, some, if◌then◌else◌}
use rav_bot.Prelude.Int.{ℤ, pos, ◌+ℤ◌, ltb_ℤ}
use rav_bot.Prelude.Text.{Str}
use rav_bot.Prelude.Map.{Map, lookup, insert, erase}

-- include/ravbot/providers/llm_provider.hpp
pub record TokenUsage : Type 0 where
  pub prompt_tokens : ℤ
  pub completion_tokens : ℤ
  pub total_tokens : ℤ
  pub cache_read_input_tokens : ℤ
  pub cache_creation_input_tokens : ℤ

pub record Stats : Type 0 where
  pub input_tokens : ℤ
  pub output_tokens : ℤ
  pub cache_read_tokens : ℤ
  pub cache_write_tokens : ℤ
  pub total_tokens : ℤ
  pub turns : ℕ
  pub last_input_tokens : ℤ
  pub last_output_tokens : ℤ
  pub last_cache_read_tokens : ℤ
  pub last_cache_write_tokens : ℤ

abbrev pub no_stats : Stats
no_stats = record {
  input_tokens = pos 0;
  output_tokens = pos 0;
  cache_read_tokens = pos 0;
  cache_write_tokens = pos 0;
  total_tokens = pos 0;
  turns = 0;
  last_input_tokens = pos 0;
  last_output_tokens = pos 0;
  last_cache_read_tokens = pos 0;
  last_cache_write_tokens = pos 0;
}

pub record UsageAccumulator : Type 0 where
  pub sessions : Map Stats
  pub global : Stats

abbrev pub no_usage : UsageAccumulator
no_usage = record { sessions = []; global = no_stats }

-- The tokens of a call: those that the provider counts, or the sum of the two parts.
unfoldable pub call_total : TokenUsage → ℤ
call_total u =
    if ltb_ℤ (pos 0) u.total_tokens then u.total_tokens else u.prompt_tokens +ℤ u.completion_tokens

unfoldable pub add_usage : TokenUsage → Stats → Stats
unfolding call_total
add_usage u s = record {
  input_tokens = s.input_tokens +ℤ u.prompt_tokens;
  output_tokens = s.output_tokens +ℤ u.completion_tokens;
  cache_read_tokens = s.cache_read_tokens +ℤ u.cache_read_input_tokens;
  cache_write_tokens = s.cache_write_tokens +ℤ u.cache_creation_input_tokens;
  total_tokens = s.total_tokens +ℤ call_total u;
  turns = s.turns + 1;
  last_input_tokens = u.prompt_tokens;
  last_output_tokens = u.completion_tokens;
  last_cache_read_tokens = u.cache_read_input_tokens;
  last_cache_write_tokens = u.cache_creation_input_tokens;
}

unfoldable pub get_session : Str → UsageAccumulator → Stats
get_session key a = elim (lookup key a.sessions) [ none ↦ no_stats | some s ↦ s ]

unfoldable pub record_usage : Str → TokenUsage → UsageAccumulator → UsageAccumulator
unfolding add_usage get_session
record_usage key u a = record {
  sessions = insert key (add_usage u (get_session key a)) a.sessions;
  global = add_usage u a.global;
}

-- The overload that takes two counts.
unfoldable pub record_counts : Str → ℤ → ℤ → UsageAccumulator → UsageAccumulator
unfolding record_usage
record_counts key input_tokens output_tokens a =
    record_usage key
      (record {
        prompt_tokens = input_tokens;
        completion_tokens = output_tokens;
        total_tokens = input_tokens +ℤ output_tokens;
        cache_read_input_tokens = pos 0;
        cache_creation_input_tokens = pos 0;
      })
      a

unfoldable pub reset_session : Str → UsageAccumulator → UsageAccumulator
reset_session key a = record a { sessions = erase key a.sessions }

unfoldable pub reset_all : UsageAccumulator → UsageAccumulator
reset_all a = no_usage

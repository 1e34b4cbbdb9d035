-- ===== src/Core/Usage/Tests.antt =====
-- The theorem about the usage accumulator at a concrete history.
use rav_bot.Prelude.{◌≡◌, List, [], ◌∷◌}
use rav_bot.Prelude.Int.{pos}
use rav_bot.Prelude.Text.{bytes}
use rav_bot.Core.Usage.{TokenUsage, no_usage, get_session}
use rav_bot.Core.Usage.Histories.{
  Call, used, session_reset, run, session_usages, global_usages, sums, run-totals,
}

abbrev usage : TokenUsage
usage = record {
  prompt_tokens = pos 7;
  completion_tokens = pos 3;
  total_tokens = pos 0;
  cache_read_input_tokens = pos 2;
  cache_creation_input_tokens = pos 0;
}

abbrev calls : List Call
calls = used (bytes "a") usage ∷ used (bytes "b") usage ∷ session_reset (bytes "a") ∷ []

run-totals_example :
    (get_session (bytes "b") (run calls no_usage) ≡ sums (session_usages (bytes "b") calls []))
    × ((run calls no_usage).global ≡ sums (global_usages calls []))
run-totals_example = run-totals (bytes "b") calls

-- ===== src/Core/AgentLoop/Retry/Tests.antt =====
-- Retries and failovers at concrete inputs.
use rav_bot.Prelude.{ℕ, zero, suc, ◌≡◌, refl, true, false, some, List, [], ◌∷◌, arith, All}
use rav_bot.Prelude.Int.{pos}
use rav_bot.Prelude.Text.{bytes}
use rav_bot.Providers.Error.{rate_limit, context_overflow}
use rav_bot.Providers.Failover.{FailoverResolver}
use rav_bot.Core.AgentLoop.Retry.{
  CallResult, failed, Attempt, RetryState, start, Ending, ended, provider_failed,
  execute_with_retry,
}
use rav_bot.Core.AgentLoop.Retry.Ends.{IsWait, HangsOnly, execute_with_retry_ends}
use rav_bot.Core.AgentLoop.Retry.Escapes.{IsEscape, execute_with_retry-escapes}

abbrev resolver : FailoverResolver
resolver = record {
  fallback_chain = [];
  profiles = [];
  session_pins = [];
  cooldown = [];
  stats = record {
    total_requests = 0;
    successful_requests = 0;
    failed_requests = 0;
    failover_count = 0;
    provider_usage = [];
    profile_usage = [];
  };
  retry_config = record {
    max_retries = pos 1;
    initial_backoff_ms = pos 1000;
    backoff_multiplier = 2;
    max_backoff_ms = pos 60000;
  };
}

abbrev repeated : ℕ → Attempt → List Attempt
repeated zero a = []
repeated (suc n) a = a ∷ repeated n a

abbrev attempt_with : CallResult → Attempt
attempt_with result = record {
  stopped = false;
  result = result;
  slept = true;
  stopped_later = false;
  resolution = record {
    deadlocks = false;
    provider = some 1;
    provider_id = bytes "openai";
    profile_id = [];
    resolver = resolver;
  };
  now = 5;
}

abbrev limited : Attempt
limited = attempt_with (failed rate_limit (pos 7))

execute_with_retry_ends_example :
    (e : Ending) × (s : RetryState) × (execute_with_retry 1
        (bytes "main")
        (repeated 40 limited)
        (start 0 (bytes "anthropic") [] (some resolver))
      ≡ ended e s)
    × HangsOnly (repeated 40 limited) e
execute_with_retry_ends_example =
    execute_with_retry_ends 1 (bytes "main") 0 (bytes "anthropic") [] (some resolver)
      (repeated 40 limited) (omega arith)

-- A retry after seven seconds, and an overflow.
abbrev attempts : List Attempt
attempts = limited ∷ attempt_with (failed context_overflow (pos 0)) ∷ []

abbrev overflowed : RetryState
overflowed = record (start 0 (bytes "anthropic") [] (some resolver)) { retry = 1; waits = 7 ∷ [] }

attempts_run :
    execute_with_retry 1 (bytes "main") attempts (start 0 (bytes "anthropic") [] (some resolver))
    ≡ ended (provider_failed context_overflow) overflowed
unfolding execute_with_retry
attempts_run = refl

execute_with_retry-escapes_example :
    All IsWait overflowed.waits
    × IsEscape 1 (bytes "main") (provider_failed context_overflow) overflowed
execute_with_retry-escapes_example =
    execute_with_retry-escapes 1 (bytes "main") 0 (bytes "anthropic") [] (some resolver) attempts
      (provider_failed context_overflow) overflowed attempts_run

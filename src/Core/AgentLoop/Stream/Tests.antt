-- ===== src/Core/AgentLoop/Stream/Tests.antt =====
-- Streamed turns at concrete inputs.
use rav_bot.Prelude.{ℕ, ◌≡◌, refl, false, none, List, [], ◌∷◌, arith}
use rav_bot.Prelude.Int.{pos, ◌+ℤ◌}
use rav_bot.Prelude.Text.{Str, bytes}
use rav_bot.Providers.Error.{context_overflow}
use rav_bot.Core.Usage.{no_usage}
use rav_bot.Core.TurnValidator.{Message}
use rav_bot.Core.AgentLoop.{CallRun, gave, text_message, calls_message, results_message}
use rav_bot.Core.AgentLoop.Stream.{
  Chunk, StreamResult, Round, StreamState, Ending, finished, failed, ended, completed, cut_short,
  no_tokens, run, step, take_chunks, take_chunk, on_result, on_finished, on_failure, on_overflow,
  run_calls, run_call,
}
use rav_bot.Core.AgentLoop.Stream.Returned.{IsResult}
use rav_bot.Core.AgentLoop.Stream.Counting.{HangsOnly, stream_ends}
use rav_bot.Core.AgentLoop.Stream.Halved.{IsToolRound, text_after, tool_rounds_count_twice}
use rav_bot.Providers.Failover.{FailoverResolver}

abbrev resolver : FailoverResolver
resolver = record {
  fallback_chain = [];
  profiles = [];
  session_pins = [];
  cooldown = [];
  stats = record {
    total_requests = 0;
    successful_requests = 0;
    failed_requests = 0;
    failover_count = 0;
    provider_usage = [];
    profile_usage = [];
  };
  retry_config = record {
    max_retries = pos 1;
    initial_backoff_ms = pos 1000;
    backoff_multiplier = 2;
    max_backoff_ms = pos 60000;
  };
}

abbrev context : List (Message ℕ)
context =
    text_message 0 (bytes "assistant") (bytes "hello")
    ∷ text_message 0 (bytes "user") (bytes "hi")
    ∷ []

abbrev call : CallRun ℕ
call = record {
  call = record { id = bytes "t1"; name = bytes "read"; arguments = 7 };
  stopped = false;
  outcome = gave (bytes "ok");
}

abbrev chunk : Str → List (CallRun ℕ) → Chunk ℕ
chunk text calls = record {
  content = text;
  tool_calls = calls;
  prompt_tokens = pos 3;
  completion_tokens = pos 2;
}

abbrev round : List (Chunk ℕ) → StreamResult → Round ℕ
round chunks result = record {
  stopped = false;
  sent = context;
  chunks = chunks;
  result = result;
  stopped_later = false;
  resolution = record {
    deadlocks = false;
    provider = none;
    provider_id = [];
    profile_id = [];
    resolver = resolver;
  };
  now = 5;
}

abbrev tool_round : Round ℕ
tool_round =
    round (chunk (bytes "I look") [] ∷ chunk [] (call ∷ call ∷ []) ∷ chunk [] [] ∷ []) finished

abbrev text_round : Round ℕ
text_round = round (chunk (bytes "do") [] ∷ chunk (bytes "ne") [] ∷ []) finished

abbrev overflow : Round ℕ
overflow = round [] (failed context_overflow (pos 0))

abbrev started : StreamState ℕ
started = record {
  messages = context;
  new_messages = [];
  iterations = 0;
  overflow_retries = 0;
  full_response = [];
  stream_usage = no_tokens;
  usage = no_usage;
  provider = 1;
  provider_id = [];
  profile_id = [];
  resolver = none;
}

abbrev rounds : List (Round ℕ)
rounds =
    overflow ∷ tool_round ∷ text_round ∷ overflow ∷ overflow ∷ overflow ∷ text_round ∷ text_round
    ∷ []

-- The overflow, the calls and the text, and nothing of the other rounds.
run-rounds :
    run 0 4 [] [] [] rounds started
    ≡ ended completed (record started {
      messages = context;
      new_messages =
          calls_message 0 (bytes "I look") (call ∷ [])
          ∷ results_message 0 (call ∷ [])
          ∷ calls_message 0 [] (call ∷ [])
          ∷ results_message 0 (call ∷ [])
          ∷ text_message 0 (bytes "assistant") (bytes "done")
          ∷ [];
      iterations = 2;
      overflow_retries = 1;
      full_response = bytes "done";
      stream_usage = record no_tokens { prompt_tokens = pos 6; completion_tokens = pos 4 };
    })
unfolding run step on_result on_finished on_failure on_overflow take_chunks take_chunk run_calls
    run_call text_message calls_message results_message ◌+ℤ◌
run-rounds = refl

stream_ends_example :
    (e : Ending) × (s : StreamState ℕ) × (run 0 4 [] (bytes "main") (bytes "main") rounds started
      ≡ ended e s)
    × IsResult e s.new_messages
    × HangsOnly rounds e
stream_ends_example =
    stream_ends 0 4 [] (bytes "main") (bytes "main") rounds started refl (omega arith)

is_tool_round : IsToolRound tool_round
unfolding text_after
is_tool_round = (refl, refl, refl, refl)

tool_rounds_count_twice_example :
    (s : StreamState ℕ) × (run 0 4 []
        (bytes "main")
        (bytes "main")
        (tool_round ∷ tool_round ∷ tool_round ∷ [])
        started
      ≡ ended cut_short s)
tool_rounds_count_twice_example =
    tool_rounds_count_twice 0 4 [] (bytes "main") (bytes "main")
      (tool_round ∷ tool_round ∷ tool_round ∷ []) started
      (is_tool_round, (is_tool_round, (is_tool_round, tt))) refl (omega arith)

-- ===== src/Core/AgentLoop/Turn/Tests.antt =====
-- Turns at concrete inputs.
use rav_bot.Prelude.{ℕ, ◌≡◌, refl, true, false, List, [], ◌∷◌, ◌++◌, All}
use rav_bot.Prelude.Int.{pos}
use rav_bot.Prelude.Text.{Str, bytes, str_eq}
use rav_bot.Providers.Error.{context_overflow}
use rav_bot.Core.Usage.{TokenUsage, no_usage, record_usage}
use rav_bot.Core.TurnValidator.{Message}
use rav_bot.Core.AgentLoop.{CallRun, gave, text_message, calls_message, results_message}
use rav_bot.Core.AgentLoop.Turn.{
  Setting, Response, Round, LoopState, answered, failed, ended, returned, start, any_tool,
  auto_tool, run, step,
}
use rav_bot.Core.AgentLoop.Turn.Exchanges.{IsTurn}
use rav_bot.Core.AgentLoop.Turn.Returned.{run-IsTurn}
use rav_bot.Core.AgentLoop.Turn.Forced.{choices, choices_stay_forced}

abbrev setting : Setting
setting = record {
  max_iterations = 2;
  system_prompt = [];
  session_key = bytes "main";
  lookup_intent = true;
  looks_deferred = str_eq (bytes "wait");
  looks_like_dump = λ _. false;
}

abbrev used : TokenUsage
used = record {
  prompt_tokens = pos 3;
  completion_tokens = pos 2;
  total_tokens = pos 0;
  cache_read_input_tokens = pos 0;
  cache_creation_input_tokens = pos 0;
}

abbrev context : List (Message ℕ)
context = text_message 0 (bytes "user") (bytes "hi") ∷ []

abbrev call : Str → CallRun ℕ
call id = record {
  call = record { id = id; name = bytes "read"; arguments = 7 };
  stopped = false;
  outcome = gave (bytes "ok");
}

abbrev response : Str → List (CallRun ℕ) → Response ℕ
response content calls = record { content = content; tool_calls = calls; usage = used }

abbrev round : Str → List (CallRun ℕ) → Round ℕ
round content calls = record {
  stopped = false;
  sent = context;
  outcome = answered (response content calls);
  stopped_after = false;
}

abbrev overflow : Round ℕ
overflow = record (round [] []) { outcome = failed context_overflow }

abbrev calling : List (Round ℕ)
calling =
    round (bytes "I look") (call (bytes "t1") ∷ call (bytes "t2") ∷ [])
    ∷ round (bytes "done") []
    ∷ []

abbrev exchange : List (Message ℕ)
exchange =
    calls_message 0 (bytes "I look") (call (bytes "t1") ∷ call (bytes "t2") ∷ [])
    ∷ results_message 0 (call (bytes "t1") ∷ call (bytes "t2") ∷ [])
    ∷ []

abbrev after_calling : LoopState ℕ
after_calling = record (start setting context no_usage) {
  messages = context;
  new_messages = exchange ++ text_message 0 (bytes "assistant") (bytes "done") ∷ [];
  tool_choice = auto_tool;
  iterations = 1;
  usage = record_usage (bytes "main") used (record_usage (bytes "main") used no_usage);
}

run-calling : run 0 setting calling (start setting context no_usage) ≡ ended returned after_calling
unfolding run step start str_eq
run-calling = refl

run-IsTurn_example : IsTurn after_calling.new_messages
run-IsTurn_example = run-IsTurn 0 setting context no_usage calling after_calling run-calling

choices_stay_forced_example :
    All
      (λ choice. choice ≡ any_tool)
      (choices 0 setting (round (bytes "wait") [] ∷ calling) (start setting context no_usage))
unfolding str_eq
choices_stay_forced_example =
    choices_stay_forced 0 setting (response (bytes "wait") []) (round (bytes "wait") []) refl refl
      refl refl refl context no_usage calling

-- ===== src/Core/AgentLoop/Stream.antt =====
-- The loop of AgentLoop::ProcessMessageStream in src/core/agent_loop.cpp, from the first request
-- on. What happens outside is given round by round: stop_requested_ where the loop reads it, the
-- messages as they are sent, the chunks of the response, how the stream ends and what
-- resolve_provider finds. The events for the callback and the indexing of the messages are left
-- out.
pub mod Returned
pub mod Counting
pub mod Halved
mod Tests
use rav_bot.Prelude.{
  ℕ, ◌+◌, ◌-◌, Bool, true, false, ◌&&◌, not, Option, none, some, List, [], ◌∷◌, ◌++◌, map,
  if◌then◌else◌, length, drop, ltb, leb, ◌==◌, is_empty,
}
use rav_bot.Prelude.Int.{ℤ, pos, ◌+ℤ◌}
use rav_bot.Prelude.Text.{Str, bytes}
use rav_bot.Providers.Error.{ProviderErrorKind}
use rav_bot.Providers.Failover.{FailoverResolver, record_success, record_failure}
use rav_bot.Core.Usage.{TokenUsage, UsageAccumulator, record_usage}
use rav_bot.Core.TurnValidator.{Message}
use rav_bot.Core.Pruner.{make_tool_result}
use rav_bot.Core.AgentLoop.{
  ToolOutcome, CallRun, gave, raised, aborted_text, truncate_tool_result, tool_result_max_chars,
  tool_result_keep_lines, overflow_compaction_max_retries, with_blocks, text_message, calls_message,
}
use rav_bot.Core.AgentLoop.Retry.{Resolution}
use rav_bot.Core.AgentLoop.Turn.{is_overflow, kept_messages}
use mathlib.Core.Option

pub record Chunk (Json : Type 0) : Type 0 where
  pub content : Str
  pub tool_calls : List (CallRun Json)
  pub prompt_tokens : ℤ
  pub completion_tokens : ℤ

-- How ChatCompletionStream ends: it returns, throws a ProviderError, or another exception.
pub data StreamResult : Type 0 where
  finished : StreamResult
  failed : ProviderErrorKind → ℤ → StreamResult
  threw : StreamResult

-- `stopped` is stop_requested_ at the head of the loop, `stopped_later` before a failover.
pub record Round (Json : Type 0) : Type 0 where
  pub stopped : Bool
  pub sent : List (Message Json)
  pub chunks : List (Chunk Json)
  pub result : StreamResult
  pub stopped_later : Bool
  pub resolution : Resolution
  pub now : ℕ

pub record StreamState (Json : Type 0) : Type 0 where
  pub messages : List (Message Json)
  pub new_messages : List (Message Json)
  pub iterations : ℕ
  pub overflow_retries : ℕ
  pub full_response : Str
  pub stream_usage : TokenUsage
  pub usage : UsageAccumulator
  pub provider : ℕ
  pub provider_id : Str
  pub profile_id : Str
  pub resolver : Option FailoverResolver

-- The final text, the text for a stop or the last iteration, the messages so far after an error,
-- a read before the begin of the messages, or a Resolve that never returns.
pub data Ending : Type 0 where
  completed : Ending
  cut_short : Ending
  gave_up : Ending
  out_of_range : Ending
  deadlocked : Ending

pub data Next (Json : Type 0) : Type 0 where
  again : StreamState Json → Next Json
  ended : Ending → StreamState Json → Next Json

abbrev pub no_tokens : TokenUsage
no_tokens = record {
  prompt_tokens = pos 0;
  completion_tokens = pos 0;
  total_tokens = pos 0;
  cache_read_input_tokens = pos 0;
  cache_creation_input_tokens = pos 0;
}

unfoldable pub result_text : Bool → ToolOutcome → Str
unfolding truncate_tool_result
result_text true outcome = aborted_text
result_text false (gave result) =
    truncate_tool_result result tool_result_max_chars tool_result_keep_lines
result_text false (raised what) = bytes "Error: " ++ what

-- `null` is the JSON value of a block that has no input. `usage_key` is the session that the usage is
-- recorded for, which is empty also where there is no accumulator; `session_key` is session_key_.
module _ {Json : Type 0} (null : Json) (max_iterations : ℕ)
    (system_prompt usage_key session_key : Str) where
  -- One call of a chunk: the assistant's message with the text so far, and the result.
  unfoldable pub run_call : CallRun Json → StreamState Json → StreamState Json
  unfolding calls_message make_tool_result result_text
  run_call r s =
      let exchange =
        calls_message null s.full_response (r ∷ [])
        ∷ with_blocks null (bytes "user")
            (make_tool_result null r.call.id (result_text r.stopped r.outcome) ∷ [])
        ∷ [] in
      record s {
        messages = s.messages ++ exchange;
        new_messages = s.new_messages ++ exchange;
        full_response = [];
      }

  unfoldable pub run_calls : List (CallRun Json) → StreamState Json → StreamState Json
  unfolding run_call
  run_calls [] s = s
  run_calls (r ∷ rs) s = run_calls rs (run_call r s)

  unfoldable pub take_chunk : Chunk Json → StreamState Json → StreamState Json
  unfolding run_calls
  take_chunk chunk s =
      let s' = record s {
        full_response = s.full_response ++ chunk.content;
        stream_usage = record s.stream_usage {
          prompt_tokens = s.stream_usage.prompt_tokens +ℤ chunk.prompt_tokens;
          completion_tokens = s.stream_usage.completion_tokens +ℤ chunk.completion_tokens;
        };
      } in
      if is_empty chunk.tool_calls
      then s'
      else run_calls chunk.tool_calls (record s' { iterations = s.iterations + 1 })

  unfoldable pub take_chunks : List (Chunk Json) → StreamState Json → StreamState Json
  unfolding take_chunk
  take_chunks [] s = s
  take_chunks (chunk ∷ chunks) s = take_chunks chunks (take_chunk chunk s)

  -- A call of the resolver, where there is one and the provider has an identifier.
  abbrev pub report : (FailoverResolver → FailoverResolver) → StreamState Json → StreamState Json
  report f s = record s {
    resolver = if is_empty s.provider_id then s.resolver else Option.map f s.resolver;
  }

  unfoldable pub finish : Bool → StreamState Json → Next Json
  unfolding text_message
  finish stopped s = ended cut_short (record s {
    new_messages =
        s.new_messages
        ++ text_message null (bytes "assistant")
            (if stopped then bytes "[Stopped]" else bytes "[Max iterations reached]")
          ∷ [];
  })

  unfoldable pub on_finished : StreamState Json → Next Json
  unfolding text_message
  on_finished s =
      let usage =
        if is_empty usage_key then s.usage else record_usage usage_key s.stream_usage s.usage in
      let s' =
        report (record_success s.provider_id s.profile_id session_key)
          (record s { usage = usage }) in
      if is_empty s.full_response
      then again (record s' { iterations = s.iterations + 1 })
      else ended completed (record s' {
        new_messages = s.new_messages ++ text_message null (bytes "assistant") s.full_response ∷ [];
      })

  unfoldable pub on_overflow : StreamState Json → Next Json
  unfolding text_message
  on_overflow s =
      let size = length s.messages in
      let keep = kept_messages size in
      let prompt =
        if is_empty system_prompt
        then []
        else text_message null (bytes "system") system_prompt ∷ [] in
      let notice =
        text_message null (bytes "system")
          (bytes "[Context overflow recovery: older messages removed.]") in
      if ltb s.overflow_retries overflow_compaction_max_retries
      then (if leb keep size
          then again (record s {
            messages = prompt ++ notice ∷ drop (size - keep) s.messages;
            overflow_retries = s.overflow_retries + 1;
          })
          else ended out_of_range s)
      else ended gave_up s

  -- The failover behind a reported failure.
  unfoldable pub fail_over : Round Json → StreamState Json → Next Json
  unfolding finish
  fail_over r s =
      let s' = record s {
        provider_id = r.resolution.provider_id;
        profile_id = r.resolution.profile_id;
        resolver = some r.resolution.resolver;
      } in
      if r.stopped_later
      then finish true s
      else if r.resolution.deadlocks
      then ended deadlocked s
      else elim r.resolution.provider [
        | none ↦ ended gave_up s'
        | some provider ↦
            if provider == s.provider
            then ended gave_up s'
            else again (record s' { provider = provider; iterations = s.iterations + 1 })
      ]

  unfoldable pub on_failure : ProviderErrorKind → ℤ → Round Json → StreamState Json → Next Json
  unfolding is_overflow on_overflow fail_over
  on_failure kind retry_after r s =
      let reported = report (record_failure s.provider_id s.profile_id kind retry_after r.now) s in
      if is_overflow kind then on_overflow s else elim s.resolver [
        | none ↦ ended gave_up s
        | some _ ↦ if is_empty s.provider_id then ended gave_up s else fail_over r reported
      ]

  unfoldable pub on_result : StreamResult → Round Json → StreamState Json → Next Json
  unfolding on_finished on_failure
  on_result finished r s = on_finished s
  on_result (failed kind retry_after) r s = on_failure kind retry_after r s
  on_result threw r s = ended gave_up s

  -- The request of a round, before its chunks.
  abbrev pub sending : Round Json → StreamState Json → StreamState Json
  sending r s = record s { messages = r.sent; full_response = []; stream_usage = no_tokens }

  unfoldable pub step : Round Json → StreamState Json → Next Json
  unfolding take_chunks on_result finish
  step r s =
      if ltb s.iterations max_iterations && not r.stopped
      then on_result r.result r (take_chunks r.chunks (sending r s))
      else finish r.stopped s

  unfoldable pub run : List (Round Json) → StreamState Json → Next Json
  unfolding step
  run [] s = again s
  run (r ∷ rs) s = elim (step r s) [ again s' ↦ run rs s' | ended e s' ↦ ended e s' ]

-- ===== src/Core/AgentLoop/Turn.antt =====
-- The loop of AgentLoop::ProcessMessage in src/core/agent_loop.cpp, from the first request on.
-- What happens outside is given round by round: stop_requested_ where the loop reads it, the
-- messages that execute_with_retry leaves in the request, and what it returns or throws. The tests
-- of a text's wording are parameters. The indexing of the messages is left out.
pub mod Termination
pub mod Exchanges
pub mod Returned
pub mod Forced
mod Tests
use rav_bot.Prelude.{
  ℕ, ◌+◌, ◌-◌, ◌/◌, Bool, true, false, ◌&&◌, not, List, [], ◌∷◌, ◌++◌, if◌then◌else◌, length, drop,
  ltb, leb, is_empty,
}
use rav_bot.Prelude.Text.{Str, bytes}
use rav_bot.Providers.Error.{ProviderErrorKind, context_overflow}
use rav_bot.Core.Usage.{TokenUsage, UsageAccumulator, record_usage}
use rav_bot.Core.TurnValidator.{Message}
use rav_bot.Core.AgentLoop.{
  CallRun, text_message, calls_message, results_message, overflow_compaction_max_retries,
}
use rav_bot.Core.AgentLoop.Replay.{collect_trailing_replay_tool_names, has_str}

pub data ToolChoice : Type 0 where
  any_tool auto_tool : ToolChoice

-- The configuration of a turn, the session that the usage is recorded for, which is empty also
-- where there is no accumulator, and what the tests of the wording say of the user's message
-- (has_lookup_intent) and of a response (one that defers the lookup or denies a result, and a dump
-- of search results).
pub record Setting : Type 0 where
  pub max_iterations : ℕ
  pub system_prompt : Str
  pub session_key : Str
  pub lookup_intent : Bool
  pub looks_deferred : Str → Bool
  pub looks_like_dump : Str → Bool

pub record Response (Json : Type 0) : Type 0 where
  pub content : Str
  pub tool_calls : List (CallRun Json)
  pub usage : TokenUsage

pub data Outcome (Json : Type 0) : Type 0 where
  answered : Response Json → Outcome Json
  failed : ProviderErrorKind → Outcome Json
  threw : Str → Outcome Json

-- `stopped` is stop_requested_ at the head of the loop, `stopped_after` after the response.
pub record Round (Json : Type 0) : Type 0 where
  pub stopped : Bool
  pub sent : List (Message Json)
  pub outcome : Outcome Json
  pub stopped_after : Bool

pub record LoopState (Json : Type 0) : Type 0 where
  pub messages : List (Message Json)
  pub new_messages : List (Message Json)
  pub tool_choice : ToolChoice
  pub iterations : ℕ
  pub overflow_retries : ℕ
  pub forced_lookup_retry : Bool
  pub forced_synthesis_retry : Bool
  pub usage : UsageAccumulator

-- How ProcessMessage ends: it returns new_messages, rethrows an error, throws its own one, or
-- reads before the begin of the messages.
pub data Ending : Type 0 where
  returned : Ending
  provider_failed : ProviderErrorKind → Ending
  rethrew : Str → Ending
  no_response : Ending
  out_of_range : Ending

pub data Next (Json : Type 0) : Type 0 where
  again : LoopState Json → Next Json
  ended : Ending → LoopState Json → Next Json

-- The state before the loop.
unfoldable pub start :
    {Json : Type 0} → Setting → List (Message Json) → UsageAccumulator → LoopState Json
start c context usage = record {
  messages = context;
  new_messages = [];
  tool_choice = if c.lookup_intent then any_tool else auto_tool;
  iterations = 0;
  overflow_retries = 0;
  forced_lookup_retry = false;
  forced_synthesis_retry = false;
  usage = usage;
}

unfoldable pub is_overflow : ProviderErrorKind → Bool
is_overflow context_overflow = true
is_overflow kind = false

-- std::max(2, n / 2)
abbrev pub kept_messages : ℕ → ℕ
kept_messages n = if ltb 2 (n / 2) then n / 2 else 2

abbrev pub lookup_correction : Str
lookup_correction =
    bytes
      "STOP. You MUST actually call the search tool. Here's an example:\n\nUser: \"Search GitHub for Python projects\"\nWRONG: \"Let me search... I didn't find any results.\"\nCORRECT: [calls github_search_repos tool with query=\"python\"] "
    ++ (226 ∷ 134 ∷ 146 ∷ [])
    ++ bytes
        " returns actual results\n\nNow YOU must call github_search_repos or web_search tool RIGHT NOW. DO NOT respond with text. ONLY call the tool."

abbrev pub synthesis_correction : Str
synthesis_correction =
    bytes
      "Do not perform another web search and do not return a raw \"search results\" list. Use only the existing web_search tool results already in this conversation. Synthesize the most relevant matches, explain why they fit the user's request, and keep the answer concise."

-- `null` is the JSON value of a block that has no input.
module _ {Json : Type 0} (null : Json) (c : Setting) where
  -- What follows the loop.
  unfoldable pub finish : Bool → LoopState Json → Next Json
  unfolding text_message
  finish stopped s =
      if stopped
      then ended returned (record s {
        new_messages =
            s.new_messages
            ++ text_message null (bytes "assistant") (bytes "[Agent turn stopped by user]") ∷ [];
      })
      else ended no_response s

  -- The state with the calls and their results.
  unfoldable pub exchanged : Response Json → LoopState Json → LoopState Json
  unfolding calls_message results_message
  exchanged resp s =
      let exchange =
        calls_message null resp.content resp.tool_calls
        ∷ results_message null resp.tool_calls
        ∷ [] in
      record s { messages = s.messages ++ exchange; new_messages = s.new_messages ++ exchange }

  unfoldable pub run_tools : Response Json → Bool → LoopState Json → Next Json
  unfolding exchanged finish
  run_tools resp stopped s =
      if stopped
      then finish true (exchanged resp s)
      else again (record (exchanged resp s) { iterations = s.iterations + 1 })

  -- The request goes out again, with the response and what is wrong with it.
  unfoldable pub corrected : Str → Str → LoopState Json → LoopState Json
  unfolding text_message
  corrected content correction s = record s {
    messages =
        s.messages
        ++ text_message null (bytes "assistant") content
          ∷ text_message null (bytes "user") correction
          ∷ [];
    iterations = s.iterations + 1;
  }

  unfoldable pub take_text : Str → LoopState Json → Next Json
  unfolding corrected text_message collect_trailing_replay_tool_names
  take_text content s =
      if not s.forced_lookup_retry && c.lookup_intent && c.looks_deferred content
      then again (record (corrected content lookup_correction s) { forced_lookup_retry = true })
      else if not s.forced_synthesis_retry
          && has_str (bytes "web_search") (collect_trailing_replay_tool_names s.messages)
          && c.looks_like_dump content
      then again
          (record (corrected content synthesis_correction s) { forced_synthesis_retry = true })
      else ended returned (record s {
        new_messages = s.new_messages ++ text_message null (bytes "assistant") content ∷ [];
      })

  unfoldable pub take_response : Response Json → Bool → LoopState Json → Next Json
  unfolding run_tools take_text finish
  take_response resp stopped s =
      if not (is_empty resp.tool_calls)
      then run_tools resp stopped s
      else if not (is_empty resp.content)
      then take_text resp.content s
      else finish stopped s

  unfoldable pub recover : ProviderErrorKind → LoopState Json → Next Json
  unfolding is_overflow text_message
  recover kind s =
      let size = length s.messages in
      let keep = kept_messages size in
      let prompt =
        if is_empty c.system_prompt
        then []
        else text_message null (bytes "system") c.system_prompt ∷ [] in
      let notice =
        text_message null (bytes "system")
          (bytes "[Context overflow recovery: older messages removed.]") in
      if is_overflow kind && ltb s.overflow_retries overflow_compaction_max_retries
      then (if leb keep size
          then again (record s {
            messages = prompt ++ notice ∷ drop (size - keep) s.messages;
            overflow_retries = s.overflow_retries + 1;
          })
          else ended out_of_range s)
      else ended (provider_failed kind) s

  abbrev pub recorded : TokenUsage → LoopState Json → LoopState Json
  recorded u s = record s {
    usage = if is_empty c.session_key then s.usage else record_usage c.session_key u s.usage;
  }

  -- The request that a round sends out.
  unfoldable pub request : Round Json → LoopState Json → LoopState Json
  request r s = record s {
    messages = r.sent;
    tool_choice =
        if ltb 0 s.iterations && not s.forced_lookup_retry then auto_tool else s.tool_choice;
  }

  unfoldable pub take_outcome : Outcome Json → Bool → LoopState Json → Next Json
  unfolding take_response recover
  take_outcome (answered resp) stopped s = take_response resp stopped (recorded resp.usage s)
  take_outcome (failed kind) stopped s = recover kind s
  take_outcome (threw what) stopped s = ended (rethrew what) s

  unfoldable pub step : Round Json → LoopState Json → Next Json
  unfolding request take_outcome finish
  step r s =
      if ltb s.iterations c.max_iterations && not r.stopped
      then take_outcome r.outcome r.stopped_after (request r s)
      else finish r.stopped s

  unfoldable pub run : List (Round Json) → LoopState Json → Next Json
  unfolding step
  run [] s = again s
  run (r ∷ rs) s = elim (step r s) [ again s' ↦ run rs s' | ended e s' ↦ ended e s' ]

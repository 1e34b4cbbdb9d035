-- ===== src/Core/AgentLoop.antt =====
-- src/core/agent_loop.cpp: the tools of a response, their results and the messages that carry
-- them. The JSON type of a tool's input is a parameter.
pub mod Replay
pub mod Sanitize
pub mod Retry
pub mod Turn
pub mod Stream
use rav_bot.Prelude.{
  ℕ, ◌-◌, ◌*◌, Bool, true, false, List, [], ◌∷◌, ◌++◌, map, if◌then◌else◌, length, take, drop, leb,
}
use rav_bot.Prelude.Text.{Str, bytes}
use rav_bot.Prelude.Decimal.{print_ℕ}
use rav_bot.Core.TurnValidator.{ContentBlock, Message, make_text}
use rav_bot.Core.Pruner.{lines_of, ended_lines, make_tool_result}

-- include/ravbot/providers/llm_provider.hpp
pub record ToolCall (Json : Type 0) : Type 0 where
  pub id : Str
  pub name : Str
  pub arguments : Json

-- What ToolRegistry::ExecuteTool does: a result, or an exception with its text.
pub data ToolOutcome : Type 0 where
  gave : Str → ToolOutcome
  raised : Str → ToolOutcome

-- A call of a response, stop_requested_ before it, and what the registry does if it is executed.
pub record CallRun (Json : Type 0) : Type 0 where
  pub call : ToolCall Json
  pub stopped : Bool
  pub outcome : ToolOutcome

unfoldable pub outcome_text : ToolOutcome → Str
outcome_text (gave result) = result
outcome_text (raised what) = bytes "Error executing tool: " ++ what

abbrev pub aborted_text : Str
aborted_text = bytes "[Tool execution aborted by user]"

unfoldable pub handle_tool_calls : {Json : Type 0} → List (CallRun Json) → List Str
unfolding outcome_text
handle_tool_calls [] = []
handle_tool_calls (r ∷ rs) =
    let rest = handle_tool_calls rs in
    if r.stopped then map (λ _. aborted_text) (r ∷ rs) else outcome_text r.outcome ∷ rest

unfoldable pub truncate_tool_result : Str → ℕ → ℕ → Str
unfolding lines_of ended_lines print_ℕ
truncate_tool_result result max_chars keep_lines =
    let lines = lines_of result in
    let omitted = length lines - keep_lines * 2 in
    if leb (length result) max_chars
    then result
    else if leb (length lines) (keep_lines * 2)
    then result
    else ended_lines (take keep_lines lines)
      ++ bytes "\n... ["
      ++ print_ℕ omitted
      ++ bytes " lines omitted] ...\n\n"
      ++ ended_lines (drop (length lines - keep_lines) lines)

-- include/ravbot/constants.hpp
abbrev pub tool_result_max_chars : ℕ
tool_result_max_chars = 30000

abbrev pub tool_result_keep_lines : ℕ
tool_result_keep_lines = 20

abbrev pub overflow_compaction_max_retries : ℕ
overflow_compaction_max_retries = 3

-- `null` is the JSON value of a block that has no input.
module _ {Json : Type 0} (null : Json) where
  -- ContentBlock::MakeToolUse
  unfoldable pub make_tool_use : ToolCall Json → ContentBlock Json
  make_tool_use call = record {
    type = bytes "tool_use";
    text = [];
    id = call.id;
    name = call.name;
    input = call.arguments;
    tool_use_id = [];
    content = [];
  }

  -- A message that is built from blocks.
  abbrev pub with_blocks : Str → List (ContentBlock Json) → Message Json
  with_blocks role blocks = record { role = role; content = blocks; timestamp = [] }

  -- Message{role, text}
  unfoldable pub text_message : Str → Str → Message Json
  unfolding make_text
  text_message role [] = with_blocks role []
  text_message role (c ∷ text) = with_blocks role (make_text null (c ∷ text) ∷ [])

  -- The text block of a response, if it has text.
  unfoldable pub text_blocks : Str → List (ContentBlock Json)
  unfolding make_text
  text_blocks [] = []
  text_blocks (c ∷ text) = make_text null (c ∷ text) ∷ []

  -- The assistant's message: text and calls.
  unfoldable pub calls_message : Str → List (CallRun Json) → Message Json
  unfolding text_blocks make_tool_use
  calls_message content runs =
      with_blocks (bytes "assistant") (text_blocks content ++ map (λ r. make_tool_use r.call) runs)

  -- The blocks for the calls and the results at the same places.
  unfoldable pub result_blocks : List (CallRun Json) → List Str → List (ContentBlock Json)
  unfolding make_tool_result
  result_blocks (r ∷ rs) (result ∷ results) =
      make_tool_result null r.call.id result ∷ result_blocks rs results
  result_blocks runs results = []

  -- The user's message: the results, shortened.
  unfoldable pub results_message : List (CallRun Json) → Message Json
  unfolding result_blocks handle_tool_calls truncate_tool_result
  results_message runs = with_blocks (bytes "user") (
      result_blocks runs (
        map (λ r. truncate_tool_result r tool_result_max_chars tool_result_keep_lines)
          (handle_tool_calls runs)))

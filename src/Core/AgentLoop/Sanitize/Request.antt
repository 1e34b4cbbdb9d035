-- ===== src/Core/AgentLoop/Sanitize/Request.antt =====
-- The whole of sanitize_request_messages_for_provider for Anthropic, with the hint for the
-- results of a web search and the turn validator.
use rav_bot.Prelude.{Bool, ◌||◌, ◌&&◌, List, [], ◌∷◌, ◌++◌, any, if◌then◌else◌}
use rav_bot.Prelude.Text.{Str, bytes, str_eq, contains}
use rav_bot.Core.TurnValidator.{ContentBlock, Message, is_role, fix_anthropic_turns}
use rav_bot.Core.AgentLoop.{text_message}
use rav_bot.Core.AgentLoop.Replay.{has_str, collect_trailing_replay_tool_names}
use rav_bot.Core.AgentLoop.Sanitize.{
  repair_anthropic_tool_pairing, collapse_completed_anthropic_tool_turns,
  merge_consecutive_user_messages, split_system, trim_anthropic_replay_to_current_turn,
}

abbrev pub replay_hint : Str
replay_hint =
    bytes
      "[web_search replay hint] Use the existing web_search tool results already present in this conversation. Do not run another web search or output a raw search-results dump. Synthesize the provided results into a concise answer that focuses on the most relevant matches for the user's request."

module _ {Json : Type 0} where
  -- Message::text
  unfoldable pub text_of : List (ContentBlock Json) → Str
  text_of [] = []
  text_of (b ∷ bs) =
      let rest = text_of bs in
      if str_eq b.type (bytes "text") || str_eq b.type (bytes "thinking")
      then b.text ++ rest
      else rest

  abbrev pub has_hint : Message Json → Bool
  has_hint msg = is_role (bytes "system") msg && contains replay_hint (text_of msg.content)

module _ {Json : Type 0} (null : Json) where
  unfoldable pub maybe_add_web_search_replay_instruction :
      List Str → List (Message Json) → List (Message Json)
  unfolding text_of split_system text_message
  maybe_add_web_search_replay_instruction names messages =
      let (system, others) = split_system messages in
      if has_str (bytes "web_search") names
      then (if any has_hint messages
          then messages
          else system ++ text_message null (bytes "system") replay_hint ∷ others)
      else messages

  -- The repairs, before the turn is cut out.
  unfoldable pub repaired : List (Message Json) → List (Message Json)
  unfolding repair_anthropic_tool_pairing collapse_completed_anthropic_tool_turns
      merge_consecutive_user_messages
  repaired messages =
      merge_consecutive_user_messages
        (collapse_completed_anthropic_tool_turns (repair_anthropic_tool_pairing null messages))

  -- sanitize_request_messages_for_provider, with the validator of "anthropic".
  unfoldable pub sanitize_for_anthropic : List (Message Json) → List (Message Json)
  unfolding repaired trim_anthropic_replay_to_current_turn collect_trailing_replay_tool_names
      maybe_add_web_search_replay_instruction fix_anthropic_turns
  sanitize_for_anthropic messages =
      let trimmed = trim_anthropic_replay_to_current_turn (repaired messages) in
      fix_anthropic_turns null (
        maybe_add_web_search_replay_instruction (collect_trailing_replay_tool_names trimmed)
          trimmed)

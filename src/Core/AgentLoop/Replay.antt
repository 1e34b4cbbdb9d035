-- ===== src/Core/AgentLoop/Replay.antt =====
-- collect_trailing_replay_tool_names of src/core/agent_loop.cpp: the tools whose results the last
-- message carries. A set is a list here.
use rav_bot.Prelude.{Bool, ◌&&◌, not, List, [], ◌∷◌, map, if◌then◌else◌, filter, any, is_empty}
use rav_bot.Prelude.Text.{Str, bytes, str_eq}
use rav_bot.Core.TurnValidator.{ContentBlock, Message, is_role, is_tool_use, is_result}
use mathlib.Core.List.{reverse}

-- set.count(s) > 0
abbrev pub has_str : Str → List Str → Bool
has_str s set = any (str_eq s) set

module _ {Json : Type 0} where
  unfoldable pub result_ids : Message Json → List Str
  result_ids msg = map (λ b. b.tool_use_id) (filter is_result msg.content)

  abbrev pub names_call : List Str → ContentBlock Json → Bool
  names_call ids b =
      is_tool_use b && not (is_empty b.id) && has_str b.id ids && not (is_empty b.name)

  unfoldable pub matched_tool_names : List Str → Message Json → List Str
  matched_tool_names ids msg = map (λ b. b.name) (filter (names_call ids) msg.content)

  -- The first assistant message of a list, from the end of the history, that has such a call.
  unfoldable pub find_names : List Str → List (Message Json) → List Str
  unfolding matched_tool_names
  find_names ids [] = []
  find_names ids (msg ∷ earlier) =
      let rest = find_names ids earlier in
      let names = matched_tool_names ids msg in
      if is_role (bytes "assistant") msg && not (is_empty names) then names else rest

  unfoldable pub names_of_last : List (Message Json) → List Str
  unfolding find_names result_ids
  names_of_last [] = []
  names_of_last (last ∷ earlier) =
      if is_role (bytes "user") last && not (is_empty (result_ids last))
      then find_names (result_ids last) earlier
      else []

  unfoldable pub collect_trailing_replay_tool_names : List (Message Json) → List Str
  unfolding names_of_last
  collect_trailing_replay_tool_names messages = names_of_last (reverse messages)

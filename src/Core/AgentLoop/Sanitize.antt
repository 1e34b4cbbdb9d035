-- ===== src/Core/AgentLoop/Sanitize.antt =====
-- What src/core/agent_loop.cpp does to the messages of a request for Anthropic before it is sent:
-- sanitize_request_messages_for_provider. A set is a list here.
pub mod Links
pub mod Blocks
pub mod Repair
pub mod Collapse
pub mod Merge
pub mod Request
pub mod Repaired
pub mod Trim
mod Tests
use rav_bot.Prelude.{
  ℕ, suc, Bool, true, false, ◌&&◌, not, Option, none, some, List, [], ◌∷◌, ◌++◌, map, any, all,
  filter, is_empty, if◌then◌else◌,
}
use rav_bot.Prelude.Text.{Str, bytes, str_eq}
use rav_bot.Core.TurnValidator.{ContentBlock, Message, make_text, is_role, is_tool_use}
use rav_bot.Core.Pruner.{is_tool_result}
use rav_bot.Core.AgentLoop.Replay.{has_str}

module _ {Json : Type 0} where
  unfoldable pub collect_tool_use_ids : Message Json → List Str
  collect_tool_use_ids msg =
      map (λ b. b.id) (filter (λ b. is_tool_use b && not (is_empty b.id)) msg.content)

  -- The blocks of the next message that stay: results of these calls, and what is no result.
  abbrev pub stays_next : List Str → ContentBlock Json → Bool
  stays_next ids b =
      if is_tool_result b then not (is_empty b.tool_use_id) && has_str b.tool_use_id ids else true

  unfoldable pub filtered_next : List Str → List (ContentBlock Json) → List (ContentBlock Json)
  filtered_next ids blocks = filter (stays_next ids) blocks

  -- The calls that these results answer.
  unfoldable pub matched_ids : List (ContentBlock Json) → List Str
  matched_ids blocks = map (λ b. b.tool_use_id) (filter is_tool_result blocks)

  abbrev pub stays_call : List Str → ContentBlock Json → Bool
  stays_call matched b = if is_tool_use b then has_str b.id matched else true

  unfoldable pub filtered_calls : List Str → List (ContentBlock Json) → List (ContentBlock Json)
  filtered_calls matched blocks = filter (stays_call matched) blocks

  -- A message that is left out where it has no block.
  unfoldable pub unless_empty : Message Json → List (Message Json)
  unless_empty msg = if is_empty msg.content then [] else msg ∷ []

module _ {Json : Type 0} (null : Json) where
  unfoldable pub filtered_assistant : List Str → Message Json → Message Json
  unfolding filtered_calls make_text
  filtered_assistant matched msg =
      let blocks = filtered_calls matched msg.content in
      if is_empty blocks && not (is_empty msg.content)
      then record {
        role = msg.role;
        content = make_text null (bytes "[tool calls omitted]") ∷ [];
        timestamp = [];
      }
      else record { role = msg.role; content = blocks; timestamp = [] }

  abbrev pub has_calls : Message Json → Bool
  has_calls msg = is_role (bytes "assistant") msg && not (is_empty (collect_tool_use_ids msg))

  -- What becomes of a message that takes no next message with it.
  unfoldable pub repair_alone : Message Json → List (Message Json)
  unfolding filtered_assistant unless_empty collect_tool_use_ids
  repair_alone msg =
      if is_role (bytes "assistant") msg
      then (if is_empty (collect_tool_use_ids msg) then msg else filtered_assistant [] msg) ∷ []
      else if is_role (bytes "user") msg
      then unless_empty (record {
        role = msg.role;
        content = filter (λ b. not (is_tool_result b)) msg.content;
        timestamp = [];
      })
      else msg ∷ []

  -- An assistant's message with calls, and the user's message after it.
  unfoldable pub repair_pair : Message Json → Message Json → List (Message Json)
  unfolding filtered_assistant filtered_next matched_ids unless_empty collect_tool_use_ids
  repair_pair msg next =
      let blocks = filtered_next (collect_tool_use_ids msg) next.content in
      filtered_assistant (matched_ids blocks) msg
      ∷ unless_empty (record { role = next.role; content = blocks; timestamp = [] })

  unfoldable pub repair_anthropic_tool_pairing : List (Message Json) → List (Message Json)
  unfolding repair_alone repair_pair collect_tool_use_ids
  repair_anthropic_tool_pairing [] = []
  repair_anthropic_tool_pairing (msg ∷ []) = repair_alone msg
  repair_anthropic_tool_pairing (msg ∷ next ∷ rest) =
      elim (has_calls msg && is_role (bytes "user") next) [
        | true ↦ repair_pair msg next ++ repair_anthropic_tool_pairing rest
        | false ↦ repair_alone msg ++ repair_anthropic_tool_pairing (next ∷ rest)
      ]

module _ {Json : Type 0} where
  abbrev pub has_tool_use_blocks : Message Json → Bool
  has_tool_use_blocks msg = any is_tool_use msg.content

  unfoldable pub has_only_tool_result_blocks : Message Json → Bool
  has_only_tool_result_blocks msg =
      is_role (bytes "user") msg && not (is_empty msg.content) && all is_tool_result msg.content

  unfoldable pub has_non_tool_result_blocks : Message Json → Bool
  has_non_tool_result_blocks msg =
      is_role (bytes "user") msg && any (λ b. not (is_tool_result b)) msg.content

  unfoldable pub can_collapse : Message Json → Message Json → Message Json → Message Json → Bool
  unfolding has_only_tool_result_blocks
  can_collapse a b c d =
      is_role (bytes "assistant") a
      && has_tool_use_blocks a
      && has_only_tool_result_blocks b
      && is_role (bytes "assistant") c
      && not (has_tool_use_blocks c)
      && is_role (bytes "user") d

  unfoldable pub collapse_completed_anthropic_tool_turns : List (Message Json) → List (Message Json)
  unfolding can_collapse
  collapse_completed_anthropic_tool_turns (a ∷ b ∷ c ∷ d ∷ rest) = elim (can_collapse a b c d) [
    | true ↦ c ∷ collapse_completed_anthropic_tool_turns (d ∷ rest)
    | false ↦ a ∷ collapse_completed_anthropic_tool_turns (b ∷ c ∷ d ∷ rest)
  ]
  collapse_completed_anthropic_tool_turns messages = messages

  -- The loop, with the last message of the result at hand.
  unfoldable pub merge_users_onto : Message Json → List (Message Json) → List (Message Json)
  merge_users_onto back [] = back ∷ []
  merge_users_onto back (msg ∷ rest) =
      elim (is_role (bytes "user") msg && is_role (bytes "user") back) [
        | true ↦ merge_users_onto (record back { content = back.content ++ msg.content }) rest
        | false ↦ back ∷ merge_users_onto msg rest
      ]

  unfoldable pub merge_consecutive_user_messages : List (Message Json) → List (Message Json)
  unfolding merge_users_onto
  merge_consecutive_user_messages [] = []
  merge_consecutive_user_messages (msg ∷ rest) = merge_users_onto msg rest

  -- The messages of the system before all others, and what follows them.
  unfoldable pub split_system : List (Message Json) → List (Message Json) × List (Message Json)
  split_system [] = ([], [])
  split_system (msg ∷ rest) =
      let (system, others) = split_system rest in
      if is_role (bytes "system") msg then (msg ∷ system, others) else ([], msg ∷ rest)

  -- The messages from the last one on that has a block other than a result.
  unfoldable pub from_question : List (Message Json) → Option (List (Message Json))
  unfolding has_non_tool_result_blocks
  from_question [] = none
  from_question (msg ∷ rest) = elim (from_question rest) [
    | some turn ↦ some turn
    | none ↦ if has_non_tool_result_blocks msg then some (msg ∷ rest) else none
  ]

  unfoldable pub is_replay : List (Message Json) → Bool
  unfolding has_only_tool_result_blocks
  is_replay [] = false
  is_replay (msg ∷ []) = has_only_tool_result_blocks msg
  is_replay (msg ∷ next ∷ rest) = is_replay (next ∷ rest)

  unfoldable pub trim_anthropic_replay_to_current_turn : List (Message Json) → List (Message Json)
  unfolding split_system from_question is_replay
  trim_anthropic_replay_to_current_turn messages =
      let (system, others) = split_system messages in
      if is_replay messages
      then elim (from_question others) [ none ↦ messages | some turn ↦ system ++ turn ]
      else messages

-- ===== src/Core/AgentLoop/Sanitize/Repaired.antt =====
-- The repairs together, and what cutting out the current turn makes of them.
use rav_bot.Prelude.{List, [], All}
use rav_bot.Core.TurnValidator.{Message}
use rav_bot.Core.AgentLoop.Sanitize.{
  repair_anthropic_tool_pairing, collapse_completed_anthropic_tool_turns,
}
use rav_bot.Core.AgentLoop.Sanitize.Request.{repaired}
use rav_bot.Core.AgentLoop.Sanitize.Links.{Linked}
use rav_bot.Core.AgentLoop.Sanitize.Blocks.{HasIds}
use rav_bot.Core.AgentLoop.Sanitize.Repair.{repair-Linked}
use rav_bot.Core.AgentLoop.Sanitize.Collapse.{collapse-Linked}
use rav_bot.Core.AgentLoop.Sanitize.Merge.{merge-Linked}

module _ {Json : Type 0} (null : Json) where
  -- Where every call of the history has an identifier, what the repair, the collapsing of
  -- completed exchanges and the merging of the user's messages leave for Anthropic has for every
  -- call of an assistant's message a result in the user's message after it, and for every result
  -- of a user's message its call in the assistant's message before it.
  pub repaired-Linked : (ms : List (Message Json)) → All HasIds ms → Linked [] (repaired null ms)
  unfolding repaired
  repaired-Linked ms h =
      let paired = repair_anthropic_tool_pairing null ms in
      merge-Linked (collapse_completed_anthropic_tool_turns paired)
        (collapse-Linked [] paired (repair-Linked null ms h))

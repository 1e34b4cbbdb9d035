-- ===== src/Core/AgentLoop/Sanitize/Tests.antt =====
-- Requests at concrete inputs.
use rav_bot.Prelude.{ℕ, ◌≡◌, refl, true, false, List, [], ◌∷◌, ◌++◌, any, ◌↔◌}
use rav_bot.Prelude.Text.{Str, bytes, str_eq}
use rav_bot.Core.TurnValidator.{ContentBlock, Message, make_text}
use rav_bot.Core.Pruner.{is_tool_result, make_tool_result}
use rav_bot.Core.AgentLoop.{make_tool_use, text_message, with_blocks}
use rav_bot.Core.AgentLoop.Sanitize.{
  has_non_tool_result_blocks, has_only_tool_result_blocks, from_question, is_replay,
  trim_anthropic_replay_to_current_turn, repair_anthropic_tool_pairing,
}
use rav_bot.Core.AgentLoop.Sanitize.Request.{repaired}
use rav_bot.Core.AgentLoop.Sanitize.Links.{Linked}
use rav_bot.Core.AgentLoop.Sanitize.Repair.{repair-Linked}
use rav_bot.Core.AgentLoop.Sanitize.Repaired.{repaired-Linked}
use rav_bot.Core.AgentLoop.Sanitize.Trim.{trim-Linked}

absurd_id : false ≡ true → true ≡ false
absurd_id e = cc

abbrev says : Str → Str → Message ℕ
says role text = text_message 0 role text

abbrev calls : Str → Message ℕ
calls id =
    with_blocks 0 (bytes "assistant")
      (make_tool_use 0 (record { id = id; name = bytes "read"; arguments = 1 }) ∷ [])

abbrev result : Str → ContentBlock ℕ
result id = make_tool_result 0 id (bytes "ok")

abbrev answers : Str → Message ℕ
answers id = with_blocks 0 (bytes "user") (result id ∷ [])

-- A call without result, a result without call, and an exchange.
abbrev history : List (Message ℕ)
history =
    says (bytes "user") (bytes "hi")
    ∷ calls (bytes "t1")
    ∷ answers (bytes "t9")
    ∷ calls (bytes "t2")
    ∷ answers (bytes "t2")
    ∷ []

repaired-history :
    repaired 0 history
    ≡ says (bytes "user") (bytes "hi")
      ∷ says (bytes "assistant") (bytes "[tool calls omitted]")
      ∷ calls (bytes "t2")
      ∷ answers (bytes "t2")
      ∷ []
unfolding repaired str_eq make_tool_use make_tool_result text_message
repaired-history = refl

repaired-Linked_example : Linked [] (repaired 0 history)
unfolding make_tool_use make_tool_result text_message make_text str_eq
repaired-Linked_example = repaired-Linked 0 history (
  (absurd_id, tt),
  (((λ e. refl), tt), ((absurd_id, tt), (((λ e. refl), tt), ((absurd_id, tt), tt)))),
)

-- A question with the results of an exchange before it.
abbrev question : Message ℕ
question = with_blocks 0 (bytes "user") (result (bytes "t1") ∷ make_text 0 (bytes "and now?") ∷ [])

abbrev replay : List (Message ℕ)
replay = calls (bytes "t2") ∷ answers (bytes "t2") ∷ []

abbrev session : List (Message ℕ)
session = says (bytes "system") (bytes "Be kind.") ∷ calls (bytes "t1") ∷ question ∷ replay

session-Linked : Linked [] session
unfolding repair_anthropic_tool_pairing make_tool_use make_tool_result text_message make_text str_eq
session-Linked = repair-Linked 0 session (
  (absurd_id, tt),
  (((λ e. refl), tt), ((absurd_id, (absurd_id, tt)), (((λ e. refl), tt), ((absurd_id, tt), tt)))),
)

trim-Linked_example :
    Linked [] (
      trim_anthropic_replay_to_current_turn (
        says (bytes "system") (bytes "Be kind.") ∷ []
        ++ (calls (bytes "t1") ∷ [] ++ question ∷ replay)))
    ↔ (any is_tool_result question.content ≡ false)
unfolding is_replay from_question has_non_tool_result_blocks has_only_tool_result_blocks str_eq
    make_tool_use make_tool_result text_message make_text
trim-Linked_example =
    trim-Linked (says (bytes "system") (bytes "Be kind.") ∷ []) (calls (bytes "t1")) [] question
      replay (refl, tt) refl refl refl refl session-Linked

-- ===== src/Core/TurnValidator/Gap.antt =====
-- FixAnthropicTurns on a sequence with an empty message: the stripping looks at the next message,
-- and the merging then removes that one.
use rav_bot.Prelude.{◌≡◌, refl, true, false, List, [], ◌∷◌, arith}
use rav_bot.Prelude.Text.{str_eq}
use rav_bot.Core.TurnValidator.{
  ContentBlock, Message, is_role, is_tool_use, has_result, fix_message, strip_message,
  strip_dangling_tool_uses, merge_onto, merge_consecutive_role, fix_anthropic_turns,
}
use rav_bot.Core.TurnValidator.Merging.{HasContent}
use rav_bot.Core.TurnValidator.Merging.{
  merge_onto-skip, merge_onto-push, merge_consecutive_role-start,
}
use rav_bot.Prelude.{◌∙◌}
use rav_bot.Core.TurnValidator.Stripping.{Answered, Paired, user, assistant}

module _ {Json : Type 0} (null : Json) where
  -- An assistant message with the given content.
  abbrev pub reply : List (ContentBlock Json) → Message Json
  reply content = record { role = assistant; content = content; timestamp = [] }

  gap-stripped :
      (call : ContentBlock Json) (u : Message Json)
      → is_role user u ≡ true
      → strip_dangling_tool_uses null (reply (call ∷ []) ∷ reply [] ∷ u ∷ [])
        ≡ reply (call ∷ []) ∷ reply [] ∷ u ∷ []
  unfolding strip_dangling_tool_uses fix_message strip_message str_eq
  gap-stripped call u h = rw h refl

  gap-merged :
      (call : ContentBlock Json) (u : Message Json)
      → is_role user u ≡ true
      → HasContent u
      → merge_consecutive_role user (reply (call ∷ []) ∷ reply [] ∷ u ∷ [])
        ≡ reply (call ∷ []) ∷ u ∷ []
  unfolding merge_consecutive_role merge_onto str_eq
  gap-merged call u h full =
      merge_consecutive_role-start user (reply (call ∷ [])) (reply [] ∷ u ∷ []) refl
      ∙ merge_onto-skip user (reply (call ∷ [])) (reply []) (u ∷ []) refl
      ∙ merge_onto-push user (reply (call ∷ [])) u [] full refl

  -- An assistant's tool call without a result is left in front of the user's message where an
  -- empty assistant message stands between the two.
  fix_anthropic_turns-gap :
      (call : ContentBlock Json) (u : Message Json)
      → is_tool_use call ≡ true
      → is_role user u ≡ true
      → HasContent u
      → has_result call.id u.content ≡ false
      → ¬ Paired (fix_anthropic_turns null (reply (call ∷ []) ∷ reply [] ∷ u ∷ []))
  unfolding fix_anthropic_turns Paired Answered str_eq
  fix_anthropic_turns-gap call u tool h full lost =
      rw (gap-stripped call u h, gap-merged call u h full)
        (λ p. ground (arith, (p.0 refl h).0 tool))

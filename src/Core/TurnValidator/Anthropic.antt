-- ===== src/Core/TurnValidator/Anthropic.antt =====
-- The sequence that FixAnthropicTurns returns: stripped, then merged for the user's role.
use rav_bot.Prelude.{
  ◌≡◌, inl, inr, refl, ap, sym, ◌∙◌, subst, true, ◌&&◌, List, [], ◌∷◌, ◌++◌, append-nil,
  append_assoc, arith, All, Bool-cases, is_empty,
}
use rav_bot.Prelude.Text.{str_eq}
use rav_bot.Core.TurnValidator.{
  ContentBlock, Message, is_role, strip_message, fix_message, strip_dangling_tool_uses, merged,
  merge_onto, merge_consecutive_role, fix_anthropic_turns,
}
use rav_bot.Core.TurnValidator.Merging.{
  HasContent, Separate, merge_consecutive_role-Separate, merge_onto-skip, merge_onto-merged,
  merge_onto-push, merge_consecutive_role-start,
}
use rav_bot.Core.TurnValidator.Stripping.{
  user, Answered, Paired, user_not_assistant, Answered-append, strip_dangling_tool_uses-Paired,
}

module _ {Json : Type 0} where
  -- The first message that the loop leaves is the one at hand, with more content.
  merge_onto-first :
      (back : Message Json) (rest : List (Message Json))
      → (first : Message Json) × (others : List (Message Json)) × (more : List (ContentBlock Json))
        × (merge_onto user back rest ≡ first ∷ others)
        × (first.role ≡ back.role)
        × (first.content ≡ back.content ++ more)
  unfolding merge_onto
  merge_onto-first back [] = (back, [], [], refl, refl, sym (append-nil back.content))
  merge_onto-first back (msg ∷ rest) = elim (Bool-cases (is_empty msg.content)) [
    | inl e ↦ rw (merge_onto-skip user back msg rest e) (merge_onto-first back rest)
    | inr e ↦ elim (Bool-cases (is_role user back && is_role user msg)) [
      | inl both ↦
          let (first, others, more, eq, same, content) = merge_onto-first (merged back msg) rest in
          rw (merge_onto-merged user back msg rest e both) (
            first,
            others,
            msg.content ++ more,
            eq,
            same,
            content ∙ append_assoc back.content msg.content more,
          )
      | inr apart ↦
          rw (merge_onto-push user back msg rest e apart)
            (back, merge_onto user msg rest, [], refl, refl, sym (append-nil back.content))
    ]
  ]

  merged-Paired :
      (back msg : Message Json) (rest : List (Message Json))
      → is_role user back ≡ true
      → Paired (msg ∷ rest)
      → Paired (merged back msg ∷ rest)
  unfolding Paired
  merged-Paired back msg [] h p = tt
  merged-Paired back msg (c ∷ rest) h p =
      ((λ a u. absurd (ground (arith, user_not_assistant back h))), p.1)

  push-Paired :
      (back msg : Message Json) (rest : List (Message Json))
      → Paired (back ∷ msg ∷ rest)
      → Paired (merge_onto user msg rest)
      → Paired (back ∷ merge_onto user msg rest)
  unfolding Paired
  push-Paired back msg rest p q =
      let (first, others, more, eq, same, content) = merge_onto-first msg rest in
      subst (λ ms. Paired (back ∷ ms)) (sym eq)
        (
          (λ a u.
              subst (λ bs. All (Answered bs) back.content) (sym content)
                (Answered-append msg.content more back.content
                  (p.0 a (ap (λ r. str_eq r user) (sym same) ∙ u)))),
          subst Paired eq q,
        )

  merge_onto-Paired :
      (back : Message Json) (rest : List (Message Json))
      → All HasContent rest
      → Paired (back ∷ rest)
      → Paired (merge_onto user back rest)
  unfolding merge_onto Paired
  merge_onto-Paired back [] full p = tt
  merge_onto-Paired back (msg ∷ rest) full p =
      elim (Bool-cases (is_role user back && is_role user msg)) [
        | inl both ↦ rw (merge_onto-merged user back msg rest full.0 both) (
            merge_onto-Paired (merged back msg) rest full.1
              (merged-Paired back msg rest (ground arith) p.1))
        | inr apart ↦
            rw (merge_onto-push user back msg rest full.0 apart)
              (push-Paired back msg rest p (merge_onto-Paired msg rest full.1 p.1))
      ]

  merge_consecutive_role-Paired :
      (ms : List (Message Json))
      → All HasContent ms
      → Paired ms
      → Paired (merge_consecutive_role user ms)
  unfolding merge_consecutive_role Paired
  merge_consecutive_role-Paired [] full p = tt
  merge_consecutive_role-Paired (msg ∷ rest) full p =
      rw (merge_consecutive_role-start user msg rest full.0) (merge_onto-Paired msg rest full.1 p)

module _ {Json : Type 0} (null : Json) where
  fix_message-HasContent :
      (msg : Message Json) (rest : List (Message Json))
      → HasContent msg
      → HasContent (fix_message null msg rest)
  unfolding fix_message strip_message
  fix_message-HasContent msg [] h = h
  fix_message-HasContent msg (next ∷ rest) h = ground arith

  strip_dangling_tool_uses-HasContent :
      (ms : List (Message Json))
      → All HasContent ms
      → All HasContent (strip_dangling_tool_uses null ms)
  unfolding strip_dangling_tool_uses
  strip_dangling_tool_uses-HasContent [] full = tt
  strip_dangling_tool_uses-HasContent (m ∷ ms) full =
      (fix_message-HasContent m ms full.0, strip_dangling_tool_uses-HasContent ms full.1)

  -- In what FixAnthropicTurns makes of a sequence without empty messages, no two user messages
  -- are neighbours, no message is empty, and every tool call of an assistant message that a user
  -- message follows has a result in that message.
  pub fix_anthropic_turns-Paired :
      (ms : List (Message Json))
      → All HasContent ms
      → Paired (fix_anthropic_turns null ms)
        × Separate user (fix_anthropic_turns null ms)
        × All HasContent (fix_anthropic_turns null ms)
  unfolding fix_anthropic_turns
  fix_anthropic_turns-Paired ms full =
      let stripped = strip_dangling_tool_uses null ms in
      let (apart, nonempty, _) = merge_consecutive_role-Separate user stripped in
      (
        merge_consecutive_role-Paired stripped (strip_dangling_tool_uses-HasContent ms full)
            (strip_dangling_tool_uses-Paired null ms),
        apart,
        nonempty,
      )

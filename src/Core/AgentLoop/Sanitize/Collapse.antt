-- ===== src/Core/AgentLoop/Sanitize/Collapse.antt =====
-- Completed exchanges of calls can be left out.
use rav_bot.Prelude.{
  ◌≡◌, refl, sym, ap, ◌∙◌, subst, true, false, List, [], ◌∷◌, arith, All, inl, inr, Bool-cases,
}
use rav_bot.Core.TurnValidator.{ContentBlock, Message}
use rav_bot.Core.TurnValidator.Stripping.{Answered, user_not_assistant, no_tool_use-Answered}
use rav_bot.Core.AgentLoop.Sanitize.{can_collapse, collapse_completed_anthropic_tool_turns}
use rav_bot.Core.AgentLoop.Sanitize.Links.{calls_of, results_of, Linked}

module _ {Json : Type 0} where
  collapse-true :
      (a b c d : Message Json) (rest : List (Message Json))
      → can_collapse a b c d ≡ true
      → collapse_completed_anthropic_tool_turns (a ∷ b ∷ c ∷ d ∷ rest)
        ≡ c ∷ collapse_completed_anthropic_tool_turns (d ∷ rest)
  unfolding collapse_completed_anthropic_tool_turns
  collapse-true a b c d rest h = rw (h, collapse_completed_anthropic_tool_turns) refl

  collapse-false :
      (a b c d : Message Json) (rest : List (Message Json))
      → can_collapse a b c d ≡ false
      → collapse_completed_anthropic_tool_turns (a ∷ b ∷ c ∷ d ∷ rest)
        ≡ a ∷ collapse_completed_anthropic_tool_turns (b ∷ c ∷ d ∷ rest)
  unfolding collapse_completed_anthropic_tool_turns
  collapse-false a b c d rest h = rw (h, collapse_completed_anthropic_tool_turns) refl

  -- The first message answers the same calls.
  results_of-collapse :
      (ms : List (Message Json))
      → results_of (collapse_completed_anthropic_tool_turns ms) ≡ results_of ms
  unfolding collapse_completed_anthropic_tool_turns can_collapse
  results_of-collapse [] = refl
  results_of-collapse (a ∷ []) = refl
  results_of-collapse (a ∷ b ∷ []) = refl
  results_of-collapse (a ∷ b ∷ c ∷ []) = refl
  results_of-collapse (a ∷ b ∷ c ∷ d ∷ rest) = elim (Bool-cases (can_collapse a b c d)) [
    | inl h ↦
        ap results_of (collapse-true a b c d rest h)
        ∙ ground (arith, user_not_assistant a, user_not_assistant c)
    | inr h ↦ ap results_of (collapse-false a b c d rest h)
  ]

  pub collapse-Linked :
      (before : List (ContentBlock Json)) (ms : List (Message Json))
      → Linked before ms
      → Linked before (collapse_completed_anthropic_tool_turns ms)
  unfolding Linked collapse_completed_anthropic_tool_turns can_collapse
  collapse-Linked before [] h = h
  collapse-Linked before (a ∷ []) h = h
  collapse-Linked before (a ∷ b ∷ []) h = h
  collapse-Linked before (a ∷ b ∷ c ∷ []) h = h
  collapse-Linked before (a ∷ b ∷ c ∷ d ∷ rest) h = elim (Bool-cases (can_collapse a b c d)) [
    | inl e ↦ rw (collapse-true a b c d rest e) (
      (λ _. no_tool_use-Answered _ c.content (ground arith)),
      (λ u. absurd (ground (arith, user_not_assistant c u))),
      collapse-Linked (calls_of c) (d ∷ rest) h.2.2.2,
    )
    | inr e ↦ rw (collapse-false a b c d rest e) (
      (λ r.
          subst (λ bs. All (Answered bs) a.content) (sym (results_of-collapse (b ∷ c ∷ d ∷ rest)))
            (h.0 r)),
      h.1,
      collapse-Linked (calls_of a) (b ∷ c ∷ d ∷ rest) h.2,
    )
  ]

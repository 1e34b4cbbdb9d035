-- ===== src/Core/AgentLoop/Sanitize/Links.antt =====
-- Calls and results that belong together.
use rav_bot.Prelude.{
  ◌≡◌, refl, true, false, ◌&&◌, List, [], ◌∷◌, ◌++◌, arith, All, any, if◌then◌else◌, inl, inr,
  Bool-cases, is_empty, subst,
}
use rav_bot.Prelude.Text.{str_eq}
use rav_bot.Core.TurnValidator.{ContentBlock, Message, is_role, is_tool_use}
use rav_bot.Core.TurnValidator.Stripping.{
  assistant, user, Answered, Answered-append, user_not_assistant, no_tool_use-Answered,
}
use rav_bot.Core.Pruner.{is_tool_result}
use rav_bot.Core.AgentLoop.Sanitize.{unless_empty}

pub nil_of_empty : {A : Type 0} (xs : List A) → is_empty xs ≡ true → xs ≡ []
nil_of_empty [] h = refl
nil_of_empty (x ∷ xs) h = cc

module _ {Json : Type 0} where
  -- A result has its call among the blocks.
  unfoldable pub CalledIn : List (ContentBlock Json) → ContentBlock Json → Type 0
  CalledIn before b =
      is_tool_result b ≡ true → any (λ c. is_tool_use c && str_eq c.id b.tool_use_id) before ≡ true

  -- The calls that a next message may answer.
  abbrev pub calls_of : Message Json → List (ContentBlock Json)
  calls_of m = if is_role assistant m then m.content else []

  -- The results of the first message, if it is the user's.
  abbrev pub results_of : List (Message Json) → List (ContentBlock Json)
  results_of [] = []
  results_of (m ∷ ms) = if is_role user m then m.content else []

  -- Every call of an assistant's message has its result in the user's message after it, and every
  -- result of a user's message has its call in the assistant's message before it. The first
  -- argument has the calls before the messages.
  unfoldable pub Linked : List (ContentBlock Json) → List (Message Json) → Type 0
  Linked before [] = Unit
  Linked before (m ∷ ms) =
      (is_role assistant m ≡ true → All (Answered (results_of ms)) m.content)
      × (is_role user m ≡ true → All (CalledIn before) m.content)
      × Linked (calls_of m) ms

  pub CalledIn-weaken :
      (before bs : List (ContentBlock Json)) → All (CalledIn []) bs → All (CalledIn before) bs
  unfolding CalledIn
  CalledIn-weaken before [] h = tt
  CalledIn-weaken before (b ∷ bs) h =
      ((λ e. absurd (ground (arith, h.0 e))), CalledIn-weaken before bs h.1)

  -- Without calls before, none are needed.
  pub Linked-weaken :
      (before : List (ContentBlock Json)) (ms : List (Message Json))
      → Linked [] ms
      → Linked before ms
  unfolding Linked
  Linked-weaken before [] h = tt
  Linked-weaken before (m ∷ ms) h = (h.0, (λ u. CalledIn-weaken before m.content (h.1 u)), h.2)

  -- A message without calls that needs none.
  pub solo-Linked :
      (before : List (ContentBlock Json)) (m : Message Json) (ms : List (Message Json))
      → (is_role assistant m ≡ true → any is_tool_use m.content ≡ false)
      → (is_role user m ≡ true → All (CalledIn []) m.content)
      → Linked [] ms
      → Linked before (m ∷ ms)
  unfolding Linked
  solo-Linked before m ms a u h = (
    λ r. no_tool_use-Answered (results_of ms) m.content (a r),
    λ r. CalledIn-weaken before m.content (u r),
    Linked-weaken (calls_of m) ms h,
  )

  -- A message with calls, and one that answers them, if it is not empty.
  pub pair-Linked :
      (before : List (ContentBlock Json)) (a u : Message Json) (ms : List (Message Json))
      → is_role assistant a ≡ true
      → is_role user u ≡ true
      → All (Answered u.content) a.content
      → All (CalledIn a.content) u.content
      → Linked [] ms
      → Linked before (a ∷ unless_empty u ++ ms)
  unfolding Linked unless_empty
  pair-Linked before a u ms ra ru answered called h = elim (Bool-cases (is_empty u.content)) [
    | inl e ↦ rw e (
      (λ _.
          Answered-append [] (results_of ms) a.content
            (subst (λ bs. All (Answered bs) a.content) (nil_of_empty u.content e) answered)),
      (λ r. absurd (ground (arith, user_not_assistant a r))),
      Linked-weaken (calls_of a) ms h,
    )
    | inr e ↦
        rw (e, ra, ru)
          (
            (λ _. answered),
            (λ r. absurd (ground (arith, user_not_assistant a r))),
            (
              (λ r. absurd (ground (arith, user_not_assistant u ru))),
              (λ _. called),
              rw (user_not_assistant u ru) h,
            ),
          )
  ]

  -- A user's message that needs no call, if it is not empty.
  pub unless_empty-Linked :
      (before : List (ContentBlock Json)) (m : Message Json) (ms : List (Message Json))
      → is_role assistant m ≡ false
      → All (CalledIn []) m.content
      → Linked [] ms
      → Linked before (unless_empty m ++ ms)
  unfolding unless_empty
  unless_empty-Linked before m ms r c h = elim (Bool-cases (is_empty m.content)) [
    | inl e ↦ rw e (Linked-weaken before ms h)
    | inr e ↦ rw e (solo-Linked before m ms (λ a. absurd (ground arith)) (λ _. c) h)
  ]

-- ===== src/Core/AgentLoop/Sanitize/Repair.antt =====
-- What the repair of calls and results guarantees.
use rav_bot.Prelude.{
  ◌≡◌, refl, ap, ◌∙◌, subst, true, false, not, ◌&&◌, List, [], ◌∷◌, ◌++◌, map, arith, All, any,
  filter, is_empty, inl, inr, ◌⊎◌, Bool-cases, append-nil,
}
use rav_bot.Prelude.Text.{Str, bytes, str_eq}
use rav_bot.Core.TurnValidator.{ContentBlock, Message, make_text, is_role, is_tool_use, has_result}
use rav_bot.Core.TurnValidator.Stripping.{assistant, user, Answered, user_not_assistant}
use rav_bot.Core.AgentLoop.Replay.{has_str}
use rav_bot.Core.AgentLoop.Sanitize.{
  collect_tool_use_ids, filtered_next, matched_ids, filtered_calls, unless_empty,
  filtered_assistant, has_calls, repair_alone, repair_pair, repair_anthropic_tool_pairing,
}
use rav_bot.Core.AgentLoop.Sanitize.Blocks.{
  HasIds, no_ids-no_calls, matched-has_result, filtered_calls-Answered, kept-CalledIn,
  no_calls_left, no_results-CalledIn,
}
use rav_bot.Core.AgentLoop.Sanitize.Links.{
  CalledIn, CalledIn-weaken, Linked, nil_of_empty, solo-Linked, pair-Linked, unless_empty-Linked,
}

is_empty-map :
    {A B : Type 0} (f : A → B) (xs : List A) → is_empty (map f xs) ≡ true → is_empty xs ≡ true
is_empty-map f [] h = refl
is_empty-map f (x ∷ xs) h = cc

module _ {Json : Type 0} (null : Json) where
  filtered_assistant-role :
      (matched : List Str) (msg : Message Json)
      → (filtered_assistant null matched msg).role ≡ msg.role
  unfolding filtered_assistant
  filtered_assistant-role matched msg = ground arith

  -- The content that is kept, or the one block that stands for it.
  filtered_assistant-content :
      (matched : List Str) (msg : Message Json)
      → ((filtered_assistant null matched msg).content ≡ filtered_calls matched msg.content)
        ⊎ ((filtered_calls matched msg.content ≡ [])
            × ((filtered_assistant null matched msg).content
                ≡ make_text null (bytes "[tool calls omitted]") ∷ []))
  unfolding filtered_assistant
  filtered_assistant-content matched msg =
      elim (Bool-cases
        (is_empty (filtered_calls matched msg.content) && not (is_empty msg.content))) [
          | inl e ↦
              rw e (inr (nil_of_empty (filtered_calls matched msg.content) (ground arith), refl))
          | inr e ↦ rw e (inl refl)
        ]

  text-Answered :
      (results : List (ContentBlock Json)) (text : Str)
      → All (Answered results) (make_text null text ∷ [])
  unfolding Answered make_text str_eq
  text-Answered results text = ((λ e. absurd (cc)), tt)

  no_calls-text : (text : Str) → any is_tool_use (make_text null text ∷ []) ≡ false
  unfolding make_text str_eq
  no_calls-text text = refl

  filtered_assistant-Answered :
      (matched : List Str) (msg : Message Json) (results : List (ContentBlock Json))
      → ((id : Str) → has_str id matched ≡ true → has_result id results ≡ true)
      → All (Answered results) (filtered_assistant null matched msg).content
  filtered_assistant-Answered matched msg results h =
      elim (filtered_assistant-content matched msg) [
        | inl e ↦ rw e (filtered_calls-Answered matched results msg.content h)
        | inr (_, e) ↦ rw e (text-Answered results (bytes "[tool calls omitted]"))
      ]

  filtered_assistant-CalledIn :
      (matched : List Str) (msg : Message Json) (kept : List (ContentBlock Json))
      → All (CalledIn (filtered_calls matched msg.content)) kept
      → All (CalledIn (filtered_assistant null matched msg).content) kept
  filtered_assistant-CalledIn matched msg kept h = elim (filtered_assistant-content matched msg) [
    | inl e ↦ rw e h
    | inr (none_left, e) ↦ CalledIn-weaken _ kept (subst (λ bs. All (CalledIn bs) kept) none_left h)
  ]

  filtered_assistant-no_calls :
      (msg : Message Json) → any is_tool_use (filtered_assistant null [] msg).content ≡ false
  filtered_assistant-no_calls msg = elim (filtered_assistant-content [] msg) [
    | inl e ↦ rw e (no_calls_left msg.content)
    | inr (_, e) ↦ rw e (no_calls-text (bytes "[tool calls omitted]"))
  ]

  repair_pair-Linked :
      (before : List (ContentBlock Json)) (msg next : Message Json) (ms : List (Message Json))
      → has_calls null msg && is_role user next ≡ true
      → Linked [] ms
      → Linked before (repair_pair null msg next ++ ms)
  unfolding repair_pair collect_tool_use_ids
  repair_pair-Linked before msg next ms g h =
      let ids = collect_tool_use_ids msg in
      let kept = filtered_next ids next.content in
      let matched = matched_ids kept in
      pair-Linked before (filtered_assistant null matched msg)
        (record { role = next.role; content = kept; timestamp = [] }) ms
        (ap (λ r. str_eq r assistant) (filtered_assistant-role matched msg) ∙ ground arith)
        (ground arith)
        (filtered_assistant-Answered matched msg kept
          (λ id k. matched-has_result ids id next.content k))
        (filtered_assistant-CalledIn matched msg kept
          (kept-CalledIn matched msg.content next.content (λ id k. k)))
        h

  repair_alone-Linked :
      (before : List (ContentBlock Json)) (msg : Message Json) (ms : List (Message Json))
      → HasIds msg
      → Linked [] ms
      → Linked before (repair_alone null msg ++ ms)
  unfolding repair_alone unless_empty collect_tool_use_ids
  repair_alone-Linked before msg ms ids h = elim (Bool-cases (is_role assistant msg)) [
    | inl a ↦ elim (Bool-cases (is_empty (collect_tool_use_ids msg))) [
      | inl e ↦
          rw (a, e)
            (solo-Linked before msg ms
              (λ _. no_ids-no_calls msg.content ids (
                is_empty-map (λ b. b.id)
                  (filter (λ b. is_tool_use b && not (is_empty b.id)) msg.content) e))
              (λ u. absurd (ground (arith, user_not_assistant msg u))) h)
      | inr e ↦
          rw (a, e)
            (solo-Linked before (filtered_assistant null [] msg) ms
              (λ _. filtered_assistant-no_calls msg)
              (λ u. absurd (
                ground (
                  arith,
                  user_not_assistant (filtered_assistant null [] msg) u,
                  filtered_assistant-role [] msg,
                )))
              h)
    ]
    | inr a ↦ elim (Bool-cases (is_role user msg)) [
      | inr u ↦
          rw (a, u)
            (solo-Linked before msg ms (λ r. absurd (ground arith)) (λ r. absurd (ground arith)) h)
      | inl u ↦ rw (a, u) (unless_empty-Linked before _ ms a (no_results-CalledIn msg.content) h)
    ]
  ]

  -- Where every call has an identifier, the repair leaves a sequence in which every call of an
  -- assistant's message has its result in the user's message after it, and every result of a
  -- user's message its call in the assistant's message before it.
  pub repair-Linked :
      (ms : List (Message Json)) → All HasIds ms → Linked [] (repair_anthropic_tool_pairing null ms)
  unfolding repair_anthropic_tool_pairing Linked
  repair-Linked [] h = tt
  repair-Linked (msg ∷ []) h =
      subst (Linked []) (append-nil (repair_alone null msg)) (repair_alone-Linked [] msg [] h.0 tt)
  repair-Linked (msg ∷ next ∷ rest) h =
      elim (Bool-cases (has_calls null msg && is_role user next)) [
        | inl e ↦
            rw (e, repair_anthropic_tool_pairing)
              (repair_pair-Linked [] msg next (repair_anthropic_tool_pairing null rest) e
                (repair-Linked rest h.1.1))
        | inr e ↦
            rw (e, repair_anthropic_tool_pairing)
              (repair_alone-Linked [] msg (repair_anthropic_tool_pairing null (next ∷ rest)) h.0
                (repair-Linked (next ∷ rest) h.1))
      ]

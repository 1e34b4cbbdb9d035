-- ===== src/Core/AgentLoop/Turn/Exchanges.antt =====
-- The messages that a turn adds to the session.
use rav_bot.Prelude.{
  suc, ◌≡◌, refl, ap, sym, ◌∙◌, List, [], ◌∷◌, ◌++◌, map, arith, length, length-map, filter, inl,
  inr, Bool-cases,
}
use rav_bot.Prelude.Text.{Str, bytes, str_eq}
use rav_bot.Core.TurnValidator.{ContentBlock, Message, make_text, is_tool_use}
use rav_bot.Core.Pruner.{is_tool_result, make_tool_result}
use rav_bot.Core.AgentLoop.{
  CallRun, aborted_text, handle_tool_calls, truncate_tool_result, tool_result_max_chars,
  tool_result_keep_lines, make_tool_use, text_blocks, text_message, calls_message, result_blocks,
  results_message,
}

module _ {Json : Type 0} where
  -- The calls of a message, and the calls that it answers, in their order.
  abbrev pub call_ids : List (ContentBlock Json) → List Str
  call_ids blocks = map (λ b. b.id) (filter is_tool_use blocks)

  abbrev pub answered_ids : List (ContentBlock Json) → List Str
  answered_ids blocks = map (λ b. b.tool_use_id) (filter is_tool_result blocks)

  -- An assistant's message and the user's message with the results of its calls.
  abbrev pub IsExchange : Message Json → Message Json → Type 0
  IsExchange a u =
      (a.role ≡ bytes "assistant")
      × (u.role ≡ bytes "user")
      × (answered_ids u.content ≡ call_ids a.content)

  -- Exchanges, and nothing after them.
  abbrev pub Exchanges : List (Message Json) → Type 0
  Exchanges [] = Unit
  Exchanges (a ∷ []) = ⊥
  Exchanges (a ∷ u ∷ ms) = IsExchange a u × Exchanges ms

  -- Exchanges, and one assistant's message without calls.
  abbrev pub IsTurn : List (Message Json) → Type 0
  IsTurn [] = ⊥
  IsTurn (m ∷ []) = (m.role ≡ bytes "assistant") × (call_ids m.content ≡ [])
  IsTurn (a ∷ u ∷ ms) = IsExchange a u × IsTurn ms

  pub Exchanges-snoc :
      (ms : List (Message Json)) (a u : Message Json)
      → Exchanges ms
      → IsExchange a u
      → Exchanges (ms ++ a ∷ u ∷ [])
  Exchanges-snoc [] a u h x = (x, tt)
  Exchanges-snoc (b ∷ []) a u h x = absurd h
  Exchanges-snoc (b ∷ v ∷ ms) a u h x = (h.0, Exchanges-snoc ms a u h.1 x)

  pub IsTurn-snoc :
      (ms : List (Message Json)) (m : Message Json)
      → Exchanges ms
      → m.role ≡ bytes "assistant"
      → call_ids m.content ≡ []
      → IsTurn (ms ++ m ∷ [])
  IsTurn-snoc [] m h r e = (r, e)
  IsTurn-snoc (b ∷ []) m h r e = absurd h
  IsTurn-snoc (b ∷ v ∷ ms) m h r e = (h.0, IsTurn-snoc ms m h.1 r e)

  length-handle_tool_calls :
      (runs : List (CallRun Json)) → length (handle_tool_calls runs) ≡ length runs
  unfolding handle_tool_calls
  length-handle_tool_calls [] = refl
  length-handle_tool_calls (r ∷ rs) = elim (Bool-cases r.stopped) [
    | inl h ↦ rw h (ap suc (length-map (λ _. aborted_text) rs))
    | inr h ↦ rw h (ap suc (length-handle_tool_calls rs))
  ]

module _ {Json : Type 0} (null : Json) where
  call_ids-calls :
      (runs : List (CallRun Json))
      → call_ids (map (λ r. make_tool_use null r.call) runs) ≡ map (λ r. r.call.id) runs
  unfolding make_tool_use str_eq
  call_ids-calls [] = refl
  call_ids-calls (r ∷ rs) = ap (λ ids. r.call.id ∷ ids) (call_ids-calls rs)

  call_ids-calls_message :
      (content : Str) (runs : List (CallRun Json))
      → call_ids (calls_message null content runs).content ≡ map (λ r. r.call.id) runs
  unfolding calls_message text_blocks make_text str_eq
  call_ids-calls_message [] runs = call_ids-calls runs
  call_ids-calls_message (c ∷ text) runs = call_ids-calls runs

  answered_ids-result_blocks :
      (runs : List (CallRun Json)) (results : List Str)
      → length results ≡ length runs
      → answered_ids (result_blocks null runs results) ≡ map (λ r. r.call.id) runs
  unfolding result_blocks make_tool_result str_eq
  answered_ids-result_blocks [] [] h = refl
  answered_ids-result_blocks [] (x ∷ xs) h = refl
  answered_ids-result_blocks (r ∷ rs) [] h = absurd (omega arith)
  answered_ids-result_blocks (r ∷ rs) (x ∷ xs) h =
      ap (λ ids. r.call.id ∷ ids) (answered_ids-result_blocks rs xs (omega arith))

  pub calls_message-IsExchange :
      (content : Str) (runs : List (CallRun Json))
      → IsExchange (calls_message null content runs) (results_message null runs)
  unfolding calls_message results_message
  calls_message-IsExchange content runs = (
    refl,
    refl,
    answered_ids-result_blocks runs _ (
          length-map (λ r. truncate_tool_result r tool_result_max_chars tool_result_keep_lines)
            (handle_tool_calls runs)
          ∙ length-handle_tool_calls runs)
        ∙ sym (call_ids-calls_message content runs),
  )

  pub call_ids-text_message :
      (role text : Str) → call_ids (text_message null role text).content ≡ []
  unfolding text_message make_text str_eq
  call_ids-text_message role [] = refl
  call_ids-text_message role (c ∷ text) = refl

  pub role-text_message : (role text : Str) → (text_message null role text).role ≡ role
  unfolding text_message
  role-text_message role [] = refl
  role-text_message role (c ∷ text) = refl

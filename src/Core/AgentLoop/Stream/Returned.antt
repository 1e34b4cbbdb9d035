-- ===== src/Core/AgentLoop/Stream/Returned.antt =====
-- What ProcessMessageStream returns.
use rav_bot.Prelude.{
  ℕ, ◌≡◌, refl, Bool, true, List, [], ◌∷◌, ◌++◌, inl, inr, Bool-cases, ◌⊎◌, Option-cases, length,
  is_empty, ltb, leb, ◌&&◌, not, ◌==◌,
}
use rav_bot.Prelude.Int.{ℤ}
use rav_bot.Prelude.Text.{Str, bytes, str_eq}
use rav_bot.Providers.Error.{ProviderErrorKind}
use rav_bot.Core.TurnValidator.{Message, make_text}
use rav_bot.Core.Pruner.{make_tool_result}
use rav_bot.Core.AgentLoop.{
  CallRun, with_blocks, text_message, calls_message, text_blocks, make_tool_use,
  overflow_compaction_max_retries,
}
use rav_bot.Core.AgentLoop.Turn.{is_overflow, kept_messages}
use rav_bot.Core.AgentLoop.Turn.Exchanges.{
  IsExchange, Exchanges, IsTurn, Exchanges-snoc, IsTurn-snoc, call_ids-text_message,
  role-text_message,
}
use rav_bot.Core.AgentLoop.Stream.{
  Chunk, StreamResult, Round, StreamState, Ending, Next, finished, failed, threw, again, ended,
  completed, cut_short, gave_up, out_of_range, deadlocked, result_text, run_call, run_calls,
  take_chunk, take_chunks, finish, on_finished, on_overflow, fail_over, on_failure, on_result,
  sending, step,
}

pub Next-cases :
    {Json : Type 0} (n : Next Json)
    → ((s : StreamState Json) × (n ≡ again s))
      ⊎ ((e : Ending) × (s : StreamState Json) × (n ≡ ended e s))
Next-cases (again s) = inl (s, refl)
Next-cases (ended e s) = inr (e, s, refl)

module _ {Json : Type 0} where
  -- What an ending promises of the messages: a whole turn, or exchanges alone.
  abbrev pub IsResult : Ending → List (Message Json) → Type 0
  IsResult completed ms = IsTurn ms
  IsResult cut_short ms = IsTurn ms
  IsResult gave_up ms = Exchanges ms
  IsResult out_of_range ms = Exchanges ms
  IsResult deadlocked ms = Exchanges ms

  abbrev pub IsGood : Next Json → Type 0
  IsGood (again s) = Exchanges s.new_messages
  IsGood (ended e s) = IsResult e s.new_messages

module _ {Json : Type 0} (null : Json) (max_iterations : ℕ)
    (system_prompt usage_key session_key : Str) where
  call-IsExchange :
      (text result : Str) (r : CallRun Json)
      → IsExchange
          (calls_message null text (r ∷ []))
          (with_blocks null (bytes "user") (make_tool_result null r.call.id result ∷ []))
  unfolding calls_message text_blocks make_text make_tool_use make_tool_result str_eq
  call-IsExchange [] result r = (refl, refl, refl)
  call-IsExchange (c ∷ text) result r = (refl, refl, refl)

  run_calls-Exchanges :
      (rs : List (CallRun Json)) (s : StreamState Json)
      → Exchanges s.new_messages
      → Exchanges
          (run_calls null max_iterations system_prompt usage_key session_key rs s).new_messages
  unfolding run_calls run_call
  run_calls-Exchanges [] s h = h
  run_calls-Exchanges (r ∷ rs) s h =
      run_calls-Exchanges rs (run_call null max_iterations system_prompt usage_key session_key r s)
        (Exchanges-snoc s.new_messages _ _ h
          (call-IsExchange s.full_response (result_text r.stopped r.outcome) r))

  take_chunk-Exchanges :
      (chunk : Chunk Json) (s : StreamState Json)
      → Exchanges s.new_messages
      → Exchanges
          (take_chunk null max_iterations system_prompt usage_key session_key chunk s).new_messages
  unfolding take_chunk
  take_chunk-Exchanges chunk s h = elim (Bool-cases (is_empty chunk.tool_calls)) [
    | inl e ↦ rw e h
    | inr e ↦ rw e (run_calls-Exchanges chunk.tool_calls _ h)
  ]

  take_chunks-Exchanges :
      (chunks : List (Chunk Json)) (s : StreamState Json)
      → Exchanges s.new_messages
      → Exchanges
          (take_chunks null max_iterations system_prompt usage_key session_key chunks
            s).new_messages
  unfolding take_chunks
  take_chunks-Exchanges [] s h = h
  take_chunks-Exchanges (chunk ∷ chunks) s h =
      take_chunks-Exchanges chunks
        (take_chunk null max_iterations system_prompt usage_key session_key chunk s)
        (take_chunk-Exchanges chunk s h)

  final-IsTurn :
      (ms : List (Message Json)) (text : Str)
      → Exchanges ms
      → IsTurn (ms ++ text_message null (bytes "assistant") text ∷ [])
  final-IsTurn ms text h =
      IsTurn-snoc ms (text_message null (bytes "assistant") text) h
        (role-text_message null (bytes "assistant") text)
        (call_ids-text_message null (bytes "assistant") text)

  finish-IsGood :
      (stopped : Bool) (s : StreamState Json)
      → Exchanges s.new_messages
      → IsGood (finish null max_iterations system_prompt usage_key session_key stopped s)
  unfolding finish
  finish-IsGood stopped s h = final-IsTurn s.new_messages _ h

  on_finished-IsGood :
      (s : StreamState Json)
      → Exchanges s.new_messages
      → IsGood (on_finished null max_iterations system_prompt usage_key session_key s)
  unfolding on_finished
  on_finished-IsGood s h = elim (Bool-cases (is_empty s.full_response)) [
    | inl e ↦ rw e h
    | inr e ↦ rw e (final-IsTurn s.new_messages s.full_response h)
  ]

  on_overflow-IsGood :
      (s : StreamState Json)
      → Exchanges s.new_messages
      → IsGood (on_overflow null max_iterations system_prompt usage_key session_key s)
  unfolding on_overflow
  on_overflow-IsGood s h =
      elim (Bool-cases (ltb s.overflow_retries overflow_compaction_max_retries)) [
        | inr e ↦ rw e h
        | inl e ↦ elim (Bool-cases (leb (kept_messages (length s.messages)) (length s.messages))) [
          | inl f ↦ rw (e, f) h
          | inr f ↦ rw (e, f) h
        ]
      ]

  fail_over-IsGood :
      (r : Round Json) (s : StreamState Json)
      → Exchanges s.new_messages
      → IsGood (fail_over null max_iterations system_prompt usage_key session_key r s)
  unfolding fail_over
  fail_over-IsGood r s h = elim (Bool-cases r.stopped_later) [
    | inl e ↦ rw e (finish-IsGood true s h)
    | inr e ↦ elim (Bool-cases r.resolution.deadlocks) [
      | inl d ↦ rw (e, d) h
      | inr d ↦ elim (Option-cases r.resolution.provider) [
        | inl f ↦ rw (e, d, f) h
        | inr (provider, f) ↦ elim (Bool-cases (provider == s.provider)) [
          | inl g ↦ rw (e, d, f, g) h
          | inr g ↦ rw (e, d, f, g) h
        ]
      ]
    ]
  ]

  on_failure-IsGood :
      (kind : ProviderErrorKind) (retry_after : ℤ) (r : Round Json) (s : StreamState Json)
      → Exchanges s.new_messages
      → IsGood
          (on_failure null max_iterations system_prompt usage_key session_key kind retry_after r s)
  unfolding on_failure
  on_failure-IsGood kind retry_after r s h = elim (Bool-cases (is_overflow kind)) [
    | inl e ↦ rw e (on_overflow-IsGood s h)
    | inr e ↦ elim (Option-cases s.resolver) [
      | inl f ↦ rw (e, f) h
      | inr (resolver, f) ↦ elim (Bool-cases (is_empty s.provider_id)) [
        | inl g ↦ rw (e, f, g) h
        | inr g ↦ rw (e, f, g) (fail_over-IsGood r _ h)
      ]
    ]
  ]

  on_result-IsGood :
      (result : StreamResult) (r : Round Json) (s : StreamState Json)
      → Exchanges s.new_messages
      → IsGood (on_result null max_iterations system_prompt usage_key session_key result r s)
  unfolding on_result
  on_result-IsGood finished r s h = on_finished-IsGood s h
  on_result-IsGood (failed kind retry_after) r s h = on_failure-IsGood kind retry_after r s h
  on_result-IsGood threw r s h = h

  pub step-IsGood :
      (r : Round Json) (s : StreamState Json)
      → Exchanges s.new_messages
      → IsGood (step null max_iterations system_prompt usage_key session_key r s)
  unfolding step
  step-IsGood r s h = elim (Bool-cases (ltb s.iterations max_iterations && not r.stopped)) [
    | inl g ↦ rw g (
        on_result-IsGood r.result r _ (
          take_chunks-Exchanges r.chunks
            (sending null max_iterations system_prompt usage_key session_key r s) h))
    | inr g ↦ rw g (finish-IsGood r.stopped s h)
  ]

-- ===== src/Core/AgentLoop/Stream/Halved.antt =====
-- The rounds of ProcessMessageStream that call tools.
use rav_bot.Prelude.{
  ℕ, ◌+◌, ◌*◌, ◌≤◌, ◌<◌, ◌≡◌, refl, ◌∙◌, ap, Bool, true, false, List, [], ◌∷◌, ◌++◌, arith, length,
  Bool-cases, inl, inr, is_empty, ltb, ltb→lt, if◌then◌else◌,
}
use rav_bot.Prelude.Text.{Str}
use rav_bot.Core.AgentLoop.{CallRun}
use rav_bot.Core.AgentLoop.Stream.{
  Chunk, Round, StreamState, finished, again, ended, cut_short, run_call, run_calls, take_chunk,
  take_chunks, finish, on_finished, on_result, sending, step, run,
}
use rav_bot.Core.AgentLoop.Stream.Counting.{calling, take_chunks-IsLater, run-again, run-ended}

-- The text of a response since its last calls.
unfoldable pub text_after : {Json : Type 0} → Str → List (Chunk Json) → Str
text_after text [] = text
text_after text (chunk ∷ chunks) =
    text_after (if is_empty chunk.tool_calls then text ++ chunk.content else []) chunks

module _ {Json : Type 0} where
  -- A response that ends, whose calls of tools come in one chunk with no text behind it, and
  -- nobody stops.
  abbrev pub IsToolRound : Round Json → Type 0
  IsToolRound r =
      (r.stopped ≡ false)
      × (r.result ≡ finished)
      × (length (calling r.chunks) ≡ 1)
      × (text_after [] r.chunks ≡ [])

  abbrev pub AreToolRounds : List (Round Json) → Type 0
  AreToolRounds [] = Unit
  AreToolRounds (r ∷ rs) = IsToolRound r × AreToolRounds rs

module _ {Json : Type 0} (null : Json) (max_iterations : ℕ)
    (system_prompt usage_key session_key : Str) where
  run_calls-text :
      (rs : List (CallRun Json)) (s : StreamState Json)
      → is_empty rs ≡ false
      → (run_calls null max_iterations system_prompt usage_key session_key rs s).full_response ≡ []
  unfolding run_calls run_call
  run_calls-text [] s h = cc
  run_calls-text (r ∷ []) s h = refl
  run_calls-text (r ∷ q ∷ rs) s h =
      run_calls-text (q ∷ rs) (run_call null max_iterations system_prompt usage_key session_key r s)
        refl

  take_chunk-text :
      (chunk : Chunk Json) (s : StreamState Json)
      → (take_chunk null max_iterations system_prompt usage_key session_key chunk s).full_response
        ≡ (if is_empty chunk.tool_calls then s.full_response ++ chunk.content else [])
  unfolding take_chunk
  take_chunk-text chunk s = elim (Bool-cases (is_empty chunk.tool_calls)) [
    | inl e ↦ rw e refl
    | inr e ↦ rw e (run_calls-text chunk.tool_calls _ e)
  ]

  take_chunks-text :
      (chunks : List (Chunk Json)) (s : StreamState Json)
      → (take_chunks null max_iterations system_prompt usage_key session_key chunks s).full_response
        ≡ text_after s.full_response chunks
  unfolding take_chunks text_after
  take_chunks-text [] s = refl
  take_chunks-text (chunk ∷ chunks) s =
      take_chunks-text chunks
        (take_chunk null max_iterations system_prompt usage_key session_key chunk s)
      ∙ ap (λ text. text_after text chunks) (take_chunk-text chunk s)

  on_finished-empty :
      (s : StreamState Json)
      → s.full_response ≡ []
      → (s' : StreamState Json) × (on_finished null max_iterations system_prompt usage_key
            session_key s
          ≡ again s')
        × (s'.iterations ≡ s.iterations + 1)
  unfolding on_finished
  on_finished-empty s h = rw h (_, refl, refl)

  -- The chunk counts, and the round counts again.
  step-counts :
      (r : Round Json) (s : StreamState Json)
      → IsToolRound r
      → s.iterations < max_iterations
      → (s' : StreamState Json) × (step null max_iterations system_prompt usage_key session_key r s
          ≡ again s')
        × (s'.iterations ≡ s.iterations + 2)
  unfolding step on_result
  step-counts r s (stopped, result, calls, text) l =
      let sent = sending null max_iterations system_prompt usage_key session_key r s in
      let (i, o) =
        take_chunks-IsLater null max_iterations system_prompt usage_key session_key r.chunks sent in
      let (s', e, j) =
        on_finished-empty
          (take_chunks null max_iterations system_prompt usage_key session_key r.chunks sent)
          (take_chunks-text r.chunks sent ∙ text) in
      let g : ltb s.iterations max_iterations ≡ true = ground arith in
      (s', rw (g, stopped, result) e, omega arith)

  finish-ended :
      (stopped : Bool) (s : StreamState Json)
      → (s' : StreamState Json) × (finish null max_iterations system_prompt usage_key session_key
            stopped s
          ≡ ended cut_short s')
  unfolding finish
  finish-ended stopped s = (_, refl)

  step-over :
      (r : Round Json) (s : StreamState Json)
      → max_iterations ≤ s.iterations
      → (s' : StreamState Json) × (step null max_iterations system_prompt usage_key session_key r s
          ≡ ended cut_short s')
  unfolding step
  step-over r s l =
      let g : ltb s.iterations max_iterations ≡ false = ground arith in
      rw g (finish-ended r.stopped s)

  tool_rounds_end :
      (rs : List (Round Json)) (s : StreamState Json)
      → AreToolRounds rs
      → max_iterations + 2 ≤ s.iterations + length rs * 2
      → s.iterations ≤ max_iterations + 1
      → (s' : StreamState Json) × (run null max_iterations system_prompt usage_key session_key rs s
          ≡ ended cut_short s')
  tool_rounds_end [] s t h l = absurd (omega arith)
  tool_rounds_end (r ∷ rs) s t h l = elim (Bool-cases (ltb s.iterations max_iterations)) [
    | inl b ↦
        let (s', e, i) = step-counts r s t.0 (ltb→lt s.iterations max_iterations b) in
        let (s'', q) =
          tool_rounds_end rs s' t.1 (omega (arith, ltb→lt s.iterations max_iterations b))
            (omega (arith, ltb→lt s.iterations max_iterations b)) in
        (s'', run-again null max_iterations system_prompt usage_key session_key r rs s s' e ∙ q)
    | inr b ↦
        let (s', e) = step-over r s (ground arith) in
        (
          s',
          run-ended null max_iterations system_prompt usage_key session_key r rs s s' cut_short e,
        )
  ]

  -- ProcessMessageStream counts a response that calls tools twice: where every response does, in
  -- one chunk with no text behind it, and nobody stops the turn, a new turn is cut off as soon as
  -- there are max_iterations / 2 such rounds, rounded up, and one that finds that it is over.
  pub tool_rounds_count_twice :
      (rs : List (Round Json)) (s : StreamState Json)
      → AreToolRounds rs
      → s.iterations ≡ 0
      → max_iterations + 2 ≤ length rs * 2
      → (s' : StreamState Json) × (run null max_iterations system_prompt usage_key session_key rs s
          ≡ ended cut_short s')
  tool_rounds_count_twice rs s t z h = tool_rounds_end rs s t (omega arith) (omega arith)

-- ===== src/Core/AgentLoop/Stream/Counting.antt =====
-- What the iterations of ProcessMessageStream count, and the end of its loop.
use rav_bot.Prelude.{
  ℕ, suc, ◌+◌, ◌-◌, ◌<◌, ◌≡◌, refl, sym, subst, ◌∙◌, ap, any, Bool, true, List, [], ◌∷◌, arith,
  length, filter, Bool-cases, inl, inr, is_empty, not, ◌≢◌, ◌⊎◌,
}
use rav_bot.Prelude.Int.{ℤ}
use rav_bot.Prelude.Text.{Str}
use rav_bot.Providers.Error.{ProviderErrorKind}
use rav_bot.Providers.Failover.{record_failure}
use rav_bot.Core.AgentLoop.{CallRun, overflow_compaction_max_retries}
use rav_bot.Core.AgentLoop.Stream.{
  Chunk, StreamResult, Round, StreamState, Ending, deadlocked, finished, failed, threw, again,
  ended, run_call, run_calls, take_chunk, take_chunks, finish, on_finished, on_overflow, fail_over,
  on_failure, on_result, report, sending, step, run,
}
use rav_bot.Core.AgentLoop.Stream.Returned.{Next-cases, IsResult, IsGood, step-IsGood}
use rav_bot.Core.AgentLoop.Turn.Exchanges.{Exchanges}

module _ {Json : Type 0} where
  -- A sequence of rounds hangs only where one has a Resolve that does.
  abbrev pub HangsOnly : List (Round Json) → Ending → Type 0
  HangsOnly rs e = e ≡ deadlocked → any (λ r. r.resolution.deadlocks) rs ≡ true

  -- The chunks that call tools.
  abbrev pub calling : List (Chunk Json) → List (Chunk Json)
  calling chunks = filter (λ chunk. not (is_empty chunk.tool_calls)) chunks

  -- `n` iterations more and no other overflow.
  abbrev IsLater : ℕ → StreamState Json → StreamState Json → Type 0
  IsLater n s s' = (s'.iterations ≡ s.iterations + n) × (s'.overflow_retries ≡ s.overflow_retries)

module _ {Json : Type 0} (null : Json) (max_iterations : ℕ)
    (system_prompt usage_key session_key : Str) where
  run_calls-IsLater :
      (rs : List (CallRun Json)) (s : StreamState Json)
      → IsLater 0 s (run_calls null max_iterations system_prompt usage_key session_key rs s)
  unfolding run_calls run_call
  run_calls-IsLater [] s = (omega arith, refl)
  run_calls-IsLater (r ∷ rs) s =
      run_calls-IsLater rs (run_call null max_iterations system_prompt usage_key session_key r s)

  take_chunk-IsLater :
      (chunk : Chunk Json) (s : StreamState Json)
      → IsLater
          (length (calling (chunk ∷ [])))
          s
          (take_chunk null max_iterations system_prompt usage_key session_key chunk s)
  unfolding take_chunk
  take_chunk-IsLater chunk s = elim (Bool-cases (is_empty chunk.tool_calls)) [
    | inl e ↦ rw e (omega arith, refl)
    | inr e ↦ rw e (let (h, o) = run_calls-IsLater chunk.tool_calls _ in (h ∙ omega arith, o))
  ]

  length-calling :
      (chunk : Chunk Json) (chunks : List (Chunk Json))
      → length (calling (chunk ∷ chunks)) ≡ length (calling (chunk ∷ [])) + length (calling chunks)
  length-calling chunk chunks = elim (Bool-cases (is_empty chunk.tool_calls)) [
    | inl e ↦ rw e (omega arith)
    | inr e ↦ rw e (omega arith)
  ]

  pub take_chunks-IsLater :
      (chunks : List (Chunk Json)) (s : StreamState Json)
      → IsLater
          (length (calling chunks))
          s
          (take_chunks null max_iterations system_prompt usage_key session_key chunks s)
  unfolding take_chunks
  take_chunks-IsLater [] s = (omega arith, refl)
  take_chunks-IsLater (chunk ∷ chunks) s =
      let s' = take_chunk null max_iterations system_prompt usage_key session_key chunk s in
      let (h, o) = take_chunk-IsLater chunk s in
      let (h', o') = take_chunks-IsLater chunks s' in
      let l = length-calling chunk chunks in (omega arith, o' ∙ o)

  -- What is left of the two limits.
  abbrev left : StreamState Json → ℕ
  left s = (max_iterations - s.iterations) + (overflow_compaction_max_retries - s.overflow_retries)

  -- The counters of a state that goes on.
  abbrev Advances : StreamState Json → StreamState Json → Type 0
  Advances s s' =
      ((s'.iterations ≡ suc s.iterations) × (s'.overflow_retries ≡ s.overflow_retries))
      ⊎ ((s'.iterations ≡ s.iterations)
          × (s.overflow_retries < overflow_compaction_max_retries)
          × (s'.overflow_retries ≡ suc s.overflow_retries))

  finish-not_again :
      (stopped : Bool) (s s' : StreamState Json)
      → finish null max_iterations system_prompt usage_key session_key stopped s ≢ again s'
  unfolding finish
  finish-not_again stopped s s' h = ground arith

  on_finished-Advances :
      (s s' : StreamState Json)
      → on_finished null max_iterations system_prompt usage_key session_key s ≡ again s'
      → Advances s s'
  unfolding on_finished
  on_finished-Advances s s' h = ground arith

  on_overflow-Advances :
      (s s' : StreamState Json)
      → on_overflow null max_iterations system_prompt usage_key session_key s ≡ again s'
      → Advances s s'
  unfolding on_overflow
  on_overflow-Advances s s' h = ground arith

  fail_over-Advances :
      (r : Round Json) (s s' : StreamState Json)
      → fail_over null max_iterations system_prompt usage_key session_key r s ≡ again s'
      → Advances s s'
  unfolding fail_over
  fail_over-Advances r s s' h = ground (arith, finish-not_again true s s')

  abbrev reported : ProviderErrorKind → ℤ → Round Json → StreamState Json → StreamState Json
  reported kind retry_after r s =
      report null max_iterations system_prompt usage_key session_key
        (record_failure s.provider_id s.profile_id kind retry_after r.now) s

  on_failure-Advances :
      (kind : ProviderErrorKind) (retry_after : ℤ) (r : Round Json) (s s' : StreamState Json)
      → on_failure null max_iterations system_prompt usage_key session_key kind retry_after r s
        ≡ again s'
      → Advances s s'
  unfolding on_failure
  on_failure-Advances kind retry_after r s s' h =
      ground
        (arith, on_overflow-Advances s s', fail_over-Advances r (reported kind retry_after r s) s')

  on_result-Advances :
      (result : StreamResult) (r : Round Json) (s s' : StreamState Json)
      → on_result null max_iterations system_prompt usage_key session_key result r s ≡ again s'
      → Advances s s'
  unfolding on_result
  on_result-Advances finished r s s' h = on_finished-Advances s s' h
  on_result-Advances (failed kind retry_after) r s s' h =
      on_failure-Advances kind retry_after r s s' h
  on_result-Advances threw r s s' h = cc

  step-left :
      (r : Round Json) (s s' : StreamState Json)
      → step null max_iterations system_prompt usage_key session_key r s ≡ again s'
      → left s' < left s
  unfolding step
  step-left r s s' h =
      let sent = sending null max_iterations system_prompt usage_key session_key r s in
      let s'' = take_chunks null max_iterations system_prompt usage_key session_key r.chunks sent in
      let l = take_chunks-IsLater r.chunks sent in
      ground (arith, on_result-Advances r.result r s'' s', finish-not_again r.stopped s s', l)

  fail_over-deadlocked :
      (r : Round Json) (s s' : StreamState Json)
      → fail_over null max_iterations system_prompt usage_key session_key r s ≡ ended deadlocked s'
      → r.resolution.deadlocks ≡ true
  unfolding fail_over finish
  fail_over-deadlocked r s s' h = ground arith

  on_overflow-not_deadlocked :
      (s s' : StreamState Json)
      → on_overflow null max_iterations system_prompt usage_key session_key s ≢ ended deadlocked s'
  unfolding on_overflow
  on_overflow-not_deadlocked s s' h = ground arith

  on_failure-deadlocked :
      (kind : ProviderErrorKind) (retry_after : ℤ) (r : Round Json) (s s' : StreamState Json)
      → on_failure null max_iterations system_prompt usage_key session_key kind retry_after r s
        ≡ ended deadlocked s'
      → r.resolution.deadlocks ≡ true
  unfolding on_failure
  on_failure-deadlocked kind retry_after r s s' h = ground (
    arith,
    on_overflow-not_deadlocked s s',
    fail_over-deadlocked r (reported kind retry_after r s) s',
  )

  on_result-deadlocked :
      (result : StreamResult) (r : Round Json) (s s' : StreamState Json)
      → on_result null max_iterations system_prompt usage_key session_key result r s
        ≡ ended deadlocked s'
      → r.resolution.deadlocks ≡ true
  unfolding on_result on_finished
  on_result-deadlocked finished r s s' h = ground arith
  on_result-deadlocked (failed kind retry_after) r s s' h =
      on_failure-deadlocked kind retry_after r s s' h
  on_result-deadlocked threw r s s' h = absurd (cc)

  -- A round that hangs is one whose Resolve locks its mutex once more.
  step-deadlocked :
      (r : Round Json) (s s' : StreamState Json)
      → step null max_iterations system_prompt usage_key session_key r s ≡ ended deadlocked s'
      → r.resolution.deadlocks ≡ true
  unfolding step finish
  step-deadlocked r s s' h =
      let sent = sending null max_iterations system_prompt usage_key session_key r s in
      ground (
        arith,
        on_result-deadlocked r.result r
            (take_chunks null max_iterations system_prompt usage_key session_key r.chunks sent) s',
      )

  pub run-again :
      (r : Round Json) (rs : List (Round Json)) (s s' : StreamState Json)
      → step null max_iterations system_prompt usage_key session_key r s ≡ again s'
      → run null max_iterations system_prompt usage_key session_key (r ∷ rs) s
        ≡ run null max_iterations system_prompt usage_key session_key rs s'
  unfolding run
  run-again r rs s s' h = rw (h, run) refl

  pub run-ended :
      (r : Round Json) (rs : List (Round Json)) (s s' : StreamState Json) (e : Ending)
      → step null max_iterations system_prompt usage_key session_key r s ≡ ended e s'
      → run null max_iterations system_prompt usage_key session_key (r ∷ rs) s ≡ ended e s'
  unfolding run
  run-ended r rs s s' e h = rw (h, run) refl

  run_ends :
      (rs : List (Round Json)) (s : StreamState Json)
      → Exchanges s.new_messages
      → left s < length rs
      → (e : Ending) × (s' : StreamState Json) × (run null max_iterations system_prompt usage_key
            session_key rs s
          ≡ ended e s')
        × IsResult e s'.new_messages
        × HangsOnly rs e
  run_ends [] s g h = absurd (omega arith)
  run_ends (r ∷ rs) s g h =
      elim (Next-cases (step null max_iterations system_prompt usage_key session_key r s)) [
        | inl (s', e) ↦
            let l = step-left r s s' e in
            let g' =
              subst IsGood e
                (step-IsGood null max_iterations system_prompt usage_key session_key r s g) in
            let (end, s'', q, i, hangs) = run_ends rs s' g' (omega arith) in
            (end, s'', run-again r rs s s' e ∙ q, i, λ d. ground (arith, hangs d))
        | inr (end, s', e) ↦ (
          end,
          s',
          run-ended r rs s s' end e,
          subst IsGood e
              (step-IsGood null max_iterations system_prompt usage_key session_key r s g),
          λ d. ground (arith, step-deadlocked r s s' (e ∙ ap (λ x. ended x s') d)),
        )
      ]

  -- From a state without new messages, and however the stream, the tools and the user behave,
  -- ProcessMessageStream's loop ends within max_iterations rounds, three more for overflows and one
  -- that finds that it is over. Where it gives a final text or a text for a stop, the new messages are exchanges, each an assistant's
  -- message and a user's message that answers its calls, and one assistant's message without
  -- calls; after an error they are exchanges alone. The loop hangs, rather than ends, only in a
  -- Resolve that locks its own mutex.
  pub stream_ends :
      (rs : List (Round Json)) (s : StreamState Json)
      → s.new_messages ≡ []
      → max_iterations + overflow_compaction_max_retries < length rs
      → (e : Ending) × (s' : StreamState Json) × (run null max_iterations system_prompt usage_key
            session_key rs s
          ≡ ended e s')
        × IsResult e s'.new_messages
        × HangsOnly rs e
  stream_ends rs s h l = run_ends rs s (subst Exchanges (sym h) tt) (omega arith)

-- ===== src/Core/AgentLoop/Turn/Termination.antt =====
-- The loop ends: the rounds are bounded.
use rav_bot.Prelude.{
  ℕ, suc, ◌+◌, ◌≤◌, ◌<◌, ◌≡◌, refl, ◌∙◌, List, [], ◌∷◌, arith, length, Bool, ◌≢◌, ◌⊎◌, inl, inr,
}
use rav_bot.Prelude.Text.{Str}
use rav_bot.Providers.Error.{ProviderErrorKind}
use rav_bot.Core.AgentLoop.{overflow_compaction_max_retries}
use rav_bot.Core.AgentLoop.Turn.{
  Setting, Response, Outcome, Round, LoopState, Ending, Next, answered, failed, threw, again, ended,
  finish, exchanged, run_tools, corrected, take_text, take_response, recover, recorded, request,
  take_outcome, step, run,
}

pub Next-cases :
    {Json : Type 0} (n : Next Json)
    → ((s : LoopState Json) × (n ≡ again s))
      ⊎ ((e : Ending) × (s : LoopState Json) × (n ≡ ended e s))
Next-cases (again s) = inl (s, refl)
Next-cases (ended e s) = inr (e, s, refl)

module _ {Json : Type 0} (null : Json) (c : Setting) where
  abbrev progress : LoopState Json → ℕ
  progress s = s.iterations + s.overflow_retries

  -- One round more, within the limits.
  abbrev Advances : LoopState Json → LoopState Json → Type 0
  Advances s s' =
      (progress s' ≡ suc (progress s))
      × (s'.iterations ≤ suc s.iterations)
      × (s.overflow_retries ≤ overflow_compaction_max_retries
          → s'.overflow_retries ≤ overflow_compaction_max_retries)

  take_text-Advances :
      (content : Str) (s s' : LoopState Json)
      → take_text null c content s ≡ again s'
      → Advances s s'
  unfolding take_text corrected
  take_text-Advances content s s' h = ground arith

  run_tools-Advances :
      (resp : Response Json) (stopped : Bool) (s s' : LoopState Json)
      → run_tools null c resp stopped s ≡ again s'
      → Advances s s'
  unfolding run_tools exchanged finish
  run_tools-Advances resp stopped s s' h = ground arith

  recover-Advances :
      (kind : ProviderErrorKind) (s s' : LoopState Json)
      → recover null c kind s ≡ again s'
      → Advances s s'
  unfolding recover
  recover-Advances kind s s' h = ground arith

  finish-not_again : (stopped : Bool) (s s' : LoopState Json) → finish null c stopped s ≢ again s'
  unfolding finish
  finish-not_again stopped s s' h = ground arith

  take_response-Advances :
      (resp : Response Json) (stopped : Bool) (s s' : LoopState Json)
      → take_response null c resp stopped s ≡ again s'
      → Advances s s'
  unfolding take_response
  take_response-Advances resp stopped s s' h = ground (
    arith,
    run_tools-Advances resp stopped s s',
    take_text-Advances resp.content s s',
    finish-not_again stopped s s',
  )

  take_outcome-Advances :
      (outcome : Outcome Json) (stopped : Bool) (s s' : LoopState Json)
      → take_outcome null c outcome stopped s ≡ again s'
      → Advances s s'
  unfolding take_outcome
  take_outcome-Advances (answered resp) stopped s s' h =
      take_response-Advances resp stopped (recorded null c resp.usage s) s' h
  take_outcome-Advances (failed kind) stopped s s' h = recover-Advances kind s s' h
  take_outcome-Advances (threw what) stopped s s' h = cc

  abbrev pub IsWithin : LoopState Json → Type 0
  IsWithin s =
      (s.iterations ≤ c.max_iterations) × (s.overflow_retries ≤ overflow_compaction_max_retries)

  step-IsWithin :
      (r : Round Json) (s s' : LoopState Json)
      → step null c r s ≡ again s'
      → IsWithin s
      → IsWithin s' × (progress s' ≡ suc (progress s))
  unfolding step request
  step-IsWithin r s s' h v = ground (
    arith,
    take_outcome-Advances r.outcome r.stopped_after (request null c r s) s',
    finish-not_again r.stopped s s',
  )

  pub run-again :
      (r : Round Json) (rs : List (Round Json)) (s s' : LoopState Json)
      → step null c r s ≡ again s'
      → run null c (r ∷ rs) s ≡ run null c rs s'
  unfolding run
  run-again r rs s s' h = rw (h, run) refl

  pub run-ended :
      (r : Round Json) (rs : List (Round Json)) (s s' : LoopState Json) (e : Ending)
      → step null c r s ≡ ended e s'
      → run null c (r ∷ rs) s ≡ ended e s'
  unfolding run
  run-ended r rs s s' e h = rw (h, run) refl

  -- The loop ends within max_iterations rounds, three for overflows and one to see that it is
  -- over, whatever the provider and the user do.
  pub run_ends :
      (rs : List (Round Json)) (s : LoopState Json)
      → IsWithin s
      → c.max_iterations + overflow_compaction_max_retries < length rs + progress s
      → (e : Ending) × (s' : LoopState Json) × (run null c rs s ≡ ended e s')
  run_ends [] s v h = absurd (omega arith)
  run_ends (r ∷ rs) s v h = elim (Next-cases (step null c r s)) [
    | inl (s', e) ↦
        let (v', p) = step-IsWithin r s s' e v in
        let (end, s'', q) = run_ends rs s' v' (omega arith) in (end, s'', run-again r rs s s' e ∙ q)
    | inr (end, s', e) ↦ (end, s', run-ended r rs s s' end e)
  ]

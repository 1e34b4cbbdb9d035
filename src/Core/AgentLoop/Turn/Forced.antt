-- ===== src/Core/AgentLoop/Turn/Forced.antt =====
-- The tool choice after the lookup guard's retry.
use rav_bot.Prelude.{
  ◌≡◌, Bool, true, false, not, ◌&&◌, List, [], ◌∷◌, arith, All, inl, inr, Bool-cases, ltb, is_empty,
  if◌then◌else◌,
}
use rav_bot.Providers.Error.{ProviderErrorKind}
use rav_bot.Core.Usage.{UsageAccumulator}
use rav_bot.Core.TurnValidator.{Message}
use rav_bot.Core.AgentLoop.Turn.Termination.{Next-cases}
use rav_bot.Core.AgentLoop.Turn.{
  ToolChoice, any_tool, Setting, Response, Outcome, Round, LoopState, start, answered, failed,
  threw, again, ended, finish, exchanged, run_tools, corrected, take_text, take_response, recover,
  recorded, request, take_outcome, step,
}

module _ {Json : Type 0} (null : Json) (c : Setting) where
  -- Whether the loop goes on to a request.
  abbrev pub sends : Round Json → LoopState Json → Bool
  sends r s = ltb s.iterations c.max_iterations && not r.stopped

  -- The tool choices of the requests that go out.
  unfoldable pub choices : List (Round Json) → LoopState Json → List ToolChoice
  choices [] s = []
  choices (r ∷ rs) s =
      let later : List ToolChoice = elim (step null c r s) [
        | again s' ↦ choices rs s'
        | ended e s' ↦ []
      ] in
      if sends r s then (request null c r s).tool_choice ∷ later else later

  abbrev IsForced : LoopState Json → Type 0
  IsForced s = (s.forced_lookup_retry ≡ true) × (s.tool_choice ≡ any_tool)

  take_response-IsForced :
      (resp : Response Json) (stopped : Bool) (s s' : LoopState Json)
      → take_response null c resp stopped s ≡ again s'
      → IsForced s
      → IsForced s'
  unfolding take_response run_tools exchanged take_text corrected finish
  take_response-IsForced resp stopped s s' e h = ground arith

  recover-IsForced :
      (kind : ProviderErrorKind) (s s' : LoopState Json)
      → recover null c kind s ≡ again s'
      → IsForced s
      → IsForced s'
  unfolding recover
  recover-IsForced kind s s' e h = ground arith

  take_outcome-IsForced :
      (outcome : Outcome Json) (stopped : Bool) (s s' : LoopState Json)
      → take_outcome null c outcome stopped s ≡ again s'
      → IsForced s
      → IsForced s'
  unfolding take_outcome
  take_outcome-IsForced (answered resp) stopped s s' e h =
      take_response-IsForced resp stopped (recorded null c resp.usage s) s' e h
  take_outcome-IsForced (failed kind) stopped s s' e h = recover-IsForced kind s s' e h
  take_outcome-IsForced (threw what) stopped s s' e h = absurd (cc)

  request-IsForced :
      (r : Round Json) (s : LoopState Json) → IsForced s → IsForced (request null c r s)
  unfolding request
  request-IsForced r s h = ground arith

  finish-not_again : (b : Bool) (s s' : LoopState Json) → finish null c b s ≡ again s' → ⊥
  unfolding finish
  finish-not_again b s s' e = ground arith

  step-IsForced :
      (r : Round Json) (s s' : LoopState Json)
      → step null c r s ≡ again s'
      → IsForced s
      → IsForced s'
  unfolding step
  step-IsForced r s s' e h = elim (Bool-cases (sends r s)) [
    | inl g ↦
        take_outcome-IsForced r.outcome r.stopped_after (request null c r s) s' (rw g at e)
          (request-IsForced r s h)
    | inr g ↦ absurd (finish-not_again r.stopped s s' (rw g at e))
  ]

  abbrev IsAny : ToolChoice → Type 0
  IsAny choice = choice ≡ any_tool

  -- The choices after a step, and the choice of the round itself where it sends a request.
  choices-All :
      (r : Round Json) (rs : List (Round Json)) (s : LoopState Json)
      → IsAny (request null c r s).tool_choice
      → ((s' : LoopState Json) → step null c r s ≡ again s' → All IsAny (choices rs s'))
      → All IsAny (choices (r ∷ rs) s)
  unfolding choices
  choices-All r rs s h later = elim (Next-cases (step null c r s)) [
    | inl (s', e) ↦ elim (Bool-cases (sends r s)) [
      | inl g ↦ rw (e, g, choices) (h, later s' e)
      | inr g ↦ rw (e, g, choices) (later s' e)
    ]
    | inr (end, s', e) ↦ elim (Bool-cases (sends r s)) [
      | inl g ↦ rw (e, g, choices) (h, tt)
      | inr g ↦ rw (e, g, choices) tt
    ]
  ]

  choices-IsForced :
      (rs : List (Round Json)) (s : LoopState Json) → IsForced s → All IsAny (choices rs s)
  unfolding choices
  choices-IsForced [] s h = tt
  choices-IsForced (r ∷ rs) s h =
      choices-All r rs s (request-IsForced r s h).1
        (λ s' e. choices-IsForced rs s' (step-IsForced r s s' e h))

  module _ (resp : Response Json) (r : Round Json) (answer : r.outcome ≡ answered resp)
      (lookup : c.lookup_intent ≡ true) (no_calls : is_empty resp.tool_calls ≡ true)
      (has_text : is_empty resp.content ≡ false)
      (deferred : c.looks_deferred resp.content ≡ true) where
    first-IsForced :
        (context : List (Message Json)) (usage : UsageAccumulator) (s : LoopState Json)
        → step null c r (start c context usage) ≡ again s
        → IsForced s
    unfolding start step request take_outcome take_response take_text corrected finish
    first-IsForced context usage s e = ground arith

    -- Where the user's message has a lookup intent and the first response is a text that defers
    -- the lookup, every request of the turn forces a tool call: the choice never returns to auto.
    pub choices_stay_forced :
        (context : List (Message Json)) (usage : UsageAccumulator) (rs : List (Round Json))
        → All IsAny (choices (r ∷ rs) (start c context usage))
    unfolding start request
    choices_stay_forced context usage rs =
        choices-All r rs (start c context usage) (ground arith)
          (λ s e. choices-IsForced rs s (first-IsForced context usage s e))

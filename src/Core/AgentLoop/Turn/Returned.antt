-- ===== src/Core/AgentLoop/Turn/Returned.antt =====
-- What ProcessMessage returns.
use rav_bot.Prelude.{
  ◌≡◌, sym, subst, Bool, true, false, List, [], ◌∷◌, ◌++◌, arith, inl, inr, Bool-cases, ◌≢◌,
  is_empty, ltb, ◌&&◌, not,
}
use rav_bot.Prelude.Text.{Str, bytes}
use rav_bot.Providers.Error.{ProviderErrorKind}
use rav_bot.Core.Usage.{UsageAccumulator}
use rav_bot.Core.TurnValidator.{Message}
use rav_bot.Core.AgentLoop.{text_message, calls_message, results_message}
use rav_bot.Core.AgentLoop.Turn.{
  Setting, Response, Outcome, Round, LoopState, Ending, Next, start, answered, failed, threw, again,
  ended, returned, no_response, out_of_range, provider_failed, rethrew, finish, exchanged,
  run_tools, corrected, take_text, take_response, recover, recorded, request, take_outcome, step,
  run,
}
use rav_bot.Core.AgentLoop.Turn.Termination.{Next-cases, run-again, run-ended}
use rav_bot.Core.AgentLoop.Turn.Exchanges.{
  Exchanges, IsTurn, Exchanges-snoc, IsTurn-snoc, calls_message-IsExchange, call_ids-text_message,
  role-text_message,
}

module _ {Json : Type 0} (null : Json) (c : Setting) where
  -- The messages of a state that goes on, or of one that is returned.
  abbrev IsGood : Next Json → Type 0
  IsGood (again s) = Exchanges s.new_messages
  IsGood (ended returned s) = IsTurn s.new_messages
  IsGood (ended e s) = Unit

  final-IsTurn :
      (ms : List (Message Json)) (text : Str)
      → Exchanges ms
      → IsTurn (ms ++ text_message null (bytes "assistant") text ∷ [])
  final-IsTurn ms text h =
      IsTurn-snoc ms (text_message null (bytes "assistant") text) h
        (role-text_message null (bytes "assistant") text)
        (call_ids-text_message null (bytes "assistant") text)

  finish-IsGood :
      (stopped : Bool) (s : LoopState Json)
      → Exchanges s.new_messages
      → IsGood (finish null c stopped s)
  unfolding finish
  finish-IsGood true s h = final-IsTurn s.new_messages (bytes "[Agent turn stopped by user]") h
  finish-IsGood false s h = tt

  exchanged-Exchanges :
      (resp : Response Json) (s : LoopState Json)
      → Exchanges s.new_messages
      → Exchanges (exchanged null c resp s).new_messages
  unfolding exchanged
  exchanged-Exchanges resp s h =
      Exchanges-snoc s.new_messages (calls_message null resp.content resp.tool_calls)
        (results_message null resp.tool_calls) h
        (calls_message-IsExchange null resp.content resp.tool_calls)

  run_tools-IsGood :
      (resp : Response Json) (stopped : Bool) (s : LoopState Json)
      → Exchanges s.new_messages
      → IsGood (run_tools null c resp stopped s)
  unfolding run_tools
  run_tools-IsGood resp true s h =
      finish-IsGood true (exchanged null c resp s) (exchanged-Exchanges resp s h)
  run_tools-IsGood resp false s h = exchanged-Exchanges resp s h

  take_text-again :
      (content : Str) (s s' : LoopState Json)
      → take_text null c content s ≡ again s'
      → s'.new_messages ≡ s.new_messages
  unfolding take_text corrected
  take_text-again content s s' e = ground arith

  take_text-ended :
      (content : Str) (s s' : LoopState Json) (e : Ending)
      → take_text null c content s ≡ ended e s'
      → s'.new_messages ≡ s.new_messages ++ text_message null (bytes "assistant") content ∷ []
  unfolding take_text
  take_text-ended content s s' e h = ground arith

  IsGood-turn : (e : Ending) (s : LoopState Json) → IsTurn s.new_messages → IsGood (ended e s)
  IsGood-turn returned s h = h
  IsGood-turn no_response s h = tt
  IsGood-turn out_of_range s h = tt
  IsGood-turn (provider_failed kind) s h = tt
  IsGood-turn (rethrew what) s h = tt

  take_text-IsGood :
      (content : Str) (s : LoopState Json)
      → Exchanges s.new_messages
      → IsGood (take_text null c content s)
  take_text-IsGood content s h = elim (Next-cases (take_text null c content s)) [
    | inl (s', e) ↦ rw e (subst Exchanges (sym (take_text-again content s s' e)) h)
    | inr (end, s', e) ↦ rw e (
        IsGood-turn end s' (
          subst IsTurn (sym (take_text-ended content s s' end e))
            (final-IsTurn s.new_messages content h)))
  ]

  take_response-IsGood :
      (resp : Response Json) (stopped : Bool) (s : LoopState Json)
      → Exchanges s.new_messages
      → IsGood (take_response null c resp stopped s)
  unfolding take_response
  take_response-IsGood resp stopped s h = elim (Bool-cases (is_empty resp.tool_calls)) [
    | inr calls ↦ rw calls (run_tools-IsGood resp stopped s h)
    | inl e ↦ elim (Bool-cases (is_empty resp.content)) [
      | inr text ↦ rw (e, text) (take_text-IsGood resp.content s h)
      | inl f ↦ rw (e, f) (finish-IsGood stopped s h)
    ]
  ]

  recover-again :
      (kind : ProviderErrorKind) (s s' : LoopState Json)
      → recover null c kind s ≡ again s'
      → s'.new_messages ≡ s.new_messages
  unfolding recover
  recover-again kind s s' e = ground arith

  recover-not_returned :
      (kind : ProviderErrorKind) (s s' : LoopState Json) → recover null c kind s ≢ ended returned s'
  unfolding recover
  recover-not_returned kind s s' e = ground arith

  recover-IsGood :
      (kind : ProviderErrorKind) (s : LoopState Json)
      → Exchanges s.new_messages
      → IsGood (recover null c kind s)
  recover-IsGood kind s h = elim (Next-cases (recover null c kind s)) [
    | inl (s', e) ↦ rw e (subst Exchanges (sym (recover-again kind s s' e)) h)
    | inr (returned, s', e) ↦ absurd (recover-not_returned kind s s' e)
    | inr (no_response, s', e) ↦ rw e tt
    | inr (out_of_range, s', e) ↦ rw e tt
    | inr (provider_failed k, s', e) ↦ rw e tt
    | inr (rethrew what, s', e) ↦ rw e tt
  ]

  take_outcome-IsGood :
      (outcome : Outcome Json) (stopped : Bool) (s : LoopState Json)
      → Exchanges s.new_messages
      → IsGood (take_outcome null c outcome stopped s)
  unfolding take_outcome
  take_outcome-IsGood (answered resp) stopped s h =
      take_response-IsGood resp stopped (recorded null c resp.usage s) h
  take_outcome-IsGood (failed kind) stopped s h = recover-IsGood kind s h
  take_outcome-IsGood (threw what) stopped s h = tt

  step-IsGood :
      (r : Round Json) (s : LoopState Json) → Exchanges s.new_messages → IsGood (step null c r s)
  unfolding step request
  step-IsGood r s h = elim (Bool-cases (ltb s.iterations c.max_iterations && not r.stopped)) [
    | inl g ↦ rw g (take_outcome-IsGood r.outcome r.stopped_after (request null c r s) h)
    | inr g ↦ rw g (finish-IsGood r.stopped s h)
  ]

  run-IsGood :
      (rs : List (Round Json)) (s : LoopState Json)
      → Exchanges s.new_messages
      → IsGood (run null c rs s)
  unfolding run
  run-IsGood [] s h = h
  run-IsGood (r ∷ rs) s h = elim (Next-cases (step null c r s)) [
    | inl (s', e) ↦
        rw (run-again null c r rs s s' e) (run-IsGood rs s' (subst IsGood e (step-IsGood r s h)))
    | inr (end, s', e) ↦ rw (run-ended null c r rs s s' end e) (subst IsGood e (step-IsGood r s h))
  ]

  -- What ProcessMessage returns is a sequence of exchanges, each an assistant's message and a
  -- user's message that answers exactly its tool calls, in their order, and at the end one
  -- assistant's message without calls, also when the user stops the turn amid the tools.
  pub run-IsTurn :
      (context : List (Message Json)) (usage : UsageAccumulator) (rs : List (Round Json))
      (s : LoopState Json)
      → run null c rs (start c context usage) ≡ ended returned s
      → IsTurn s.new_messages
  unfolding start
  run-IsTurn context usage rs s h = subst IsGood h (run-IsGood rs (start c context usage) tt)

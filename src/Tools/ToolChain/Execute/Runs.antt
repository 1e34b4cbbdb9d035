-- ===== src/Tools/ToolChain/Execute/Runs.antt =====
-- Execute as a relation between a chain and what it gives, step by step.
use rav_bot.Prelude.{
  ℕ, suc, ◌≡◌, inl, inr, subst, Bool, true, false, not, ◌&&◌, List, [], ◌∷◌, Option, none, some,
  arith, Bool-cases, Option-cases,
}
use rav_bot.Prelude.Text.{Str}
use rav_bot.Tools.ToolChain.Types.{Json, ChainStep, ToolChainDef, ChainStepResult, ChainResult}
use rav_bot.Tools.ToolChain.Template.{resolve}
use rav_bot.Tools.ToolChain.Execute.{
  CallOutcome, attempt, max_attempts, stops, new_step, add_step, finish, stopped_at, run_steps,
  execute,
}
use rav_bot.Tools.ToolChain.Execute.Attempts.{Tried, attempt-Tried}

module _ {ℓ} {E : Type ℓ} (call : Str → Json → E → CallOutcome × E) where
  -- Step `i` with these arguments gives the result `r`.
  abbrev pub Gives : ToolChainDef → ℕ → ChainStep → Json → E → ChainStepResult → E → Type ℓ
  Gives chain i step args e r e' =
      Tried call args (max_attempts chain.error_policy chain.max_retries) (new_step i step) e r e'

  pub data Runs (chain : ToolChainDef)
      : ℕ → List ChainStep → ChainResult → E → ChainResult → E → Type ℓ where
    done : {i : ℕ} {result : ChainResult} {e : E} → Runs chain i [] result e (finish result) e
    stop :
        {i : ℕ} {step : ChainStep} {steps : List ChainStep} {result : ChainResult} {e e' : E}
        {args : Json} {r : ChainStepResult}
        → resolve step.arguments result.step_results ≡ some args
        → Gives chain i step args e r e'
        → (not r.success && stops chain.error_policy) ≡ true
        → Runs chain i (step ∷ steps) result e (stopped_at i r.error (add_step r result)) e'
    next :
        {i : ℕ} {step : ChainStep} {steps : List ChainStep} {result out : ChainResult}
        {e e' e'' : E} {args : Json} {r : ChainStepResult}
        → resolve step.arguments result.step_results ≡ some args
        → Gives chain i step args e r e'
        → (not r.success && stops chain.error_policy) ≡ false
        → Runs chain (suc i) steps (add_step r result) e' out e''
        → Runs chain i (step ∷ steps) result e out e''

module _ {ℓ} {E : Type ℓ} (call : Str → Json → E → CallOutcome × E) (can_dump : Json → Bool) where
  module _ (chain : ToolChainDef) (i : ℕ) (step : ChainStep) (steps : List ChainStep)
      (result : ChainResult) (e : E) where
    abbrev tried : Json → ChainStepResult × E
    tried args =
        attempt call (max_attempts chain.error_policy chain.max_retries) args (new_step i step) e

    run_steps_unresolved :
        resolve step.arguments result.step_results ≡ none
        → run_steps call can_dump chain i (step ∷ steps) result e ≡ (none, e)
    unfolding run_steps
    run_steps_unresolved h = ground arith

    run_steps_not_dumped :
        {args : Json}
        → resolve step.arguments result.step_results ≡ some args
        → can_dump args ≡ false
        → run_steps call can_dump chain i (step ∷ steps) result e ≡ (none, e)
    unfolding run_steps
    run_steps_not_dumped h k = ground arith

    run_steps-stops :
        {args : Json}
        → resolve step.arguments result.step_results ≡ some args
        → can_dump args ≡ true
        → (not (tried args).0.success && stops chain.error_policy) ≡ true
        → run_steps call can_dump chain i (step ∷ steps) result e ≡ (
          some (stopped_at i (tried args).0.error (add_step (tried args).0 result)),
          (tried args).1,
        )
    unfolding run_steps
    run_steps-stops h k s = ground arith

    run_steps_goes_on :
        {args : Json}
        → resolve step.arguments result.step_results ≡ some args
        → can_dump args ≡ true
        → (not (tried args).0.success && stops chain.error_policy) ≡ false
        → run_steps call can_dump chain i (step ∷ steps) result e
          ≡ run_steps call can_dump chain
              (suc i)
              steps
              (add_step (tried args).0 result)
              (tried args).1
    unfolding run_steps
    run_steps_goes_on h k s = ground arith

  -- What the loop gives is what the relation says, unless an exception leaves it.
  abbrev pub Agrees :
      ToolChainDef → ℕ → List ChainStep → ChainResult → E → Option ChainResult × E → Type ℓ
  Agrees chain i steps result e (none, e') = Unit
  Agrees chain i steps result e (some out, e') = Runs call chain i steps result e out e'

  module _ (chain : ToolChainDef) (i : ℕ) (step : ChainStep) (steps : List ChainStep)
      (result : ChainResult) (e : E) {args : Json}
      (resolved : resolve step.arguments result.step_results ≡ some args) where
    Agrees-next :
        {e' : E} {r : ChainStepResult} (out : Option ChainResult × E)
        → Gives call chain i step args e r e'
        → (not r.success && stops chain.error_policy) ≡ false
        → Agrees chain (suc i) steps (add_step r result) e' out
        → Agrees chain i (step ∷ steps) result e out
    Agrees-next (none, e'') g s a = tt
    Agrees-next (some out, e'') g s a = next resolved g s a

    gives :
        Gives call chain i step args e
          (tried chain i step steps result e args).0
          (tried chain i step steps result e args).1
    gives = attempt-Tried call _ args (new_step i step) e

    Agrees-dumped :
        can_dump args ≡ true
        → ((r : ChainStepResult) (e' : E)
            → Agrees chain
                (suc i)
                steps
                (add_step r result)
                e'
                (run_steps call can_dump chain (suc i) steps (add_step r result) e'))
        → Agrees chain i
            (step ∷ steps)
            result
            e
            (run_steps call can_dump chain i (step ∷ steps) result e)
    Agrees-dumped k rest =
        elim (Bool-cases
          (not (tried chain i step steps result e args).0.success && stops chain.error_policy)) [
            | inl s ↦
                rw (run_steps-stops chain i step steps result e resolved k s)
                  (stop resolved gives s)
            | inr s ↦
                rw (run_steps_goes_on chain i step steps result e resolved k s)
                  (Agrees-next _ gives s (rest _ _))
          ]

  pub run_steps-Agrees :
      (chain : ToolChainDef) (i : ℕ) (steps : List ChainStep) (result : ChainResult) (e : E)
      → Agrees chain i steps result e (run_steps call can_dump chain i steps result e)
  run_steps-Agrees chain i [] result e = unfold run_steps in done
  run_steps-Agrees chain i (step ∷ steps) result e =
      elim (Option-cases (resolve step.arguments result.step_results)) [
        | inl none_is ↦ rw (run_steps_unresolved chain i step steps result e none_is) tt
        | inr (args, some_is) ↦ elim (Bool-cases (can_dump args)) [
          | inr fails ↦ rw (run_steps_not_dumped chain i step steps result e some_is fails) tt
          | inl dumps ↦
              Agrees-dumped chain i step steps result e some_is dumps
                (λ r e'. run_steps-Agrees chain (suc i) steps (add_step r result) e')
        ]
      ]

  Agrees-some :
      {chain : ToolChainDef} {out : ChainResult} {e' : E} (i : ℕ) (steps : List ChainStep)
      (result : ChainResult) (e : E) (given : Option ChainResult × E)
      → given ≡ (some out, e')
      → Agrees chain i steps result e given
      → Runs call chain i steps result e out e'
  Agrees-some {chain} i steps result e given h a = subst (Agrees chain i steps result e) h a

  -- A result that Execute returns comes about step by step: the arguments of each step are
  -- resolved with the results before it, its attempts go on until one returns, and a failed step
  -- ends the chain unless the policy is to continue.
  pub execute-Runs :
      (chain : ToolChainDef) (e : E) (out : ChainResult) (e' : E)
      → execute call can_dump chain e ≡ (some out, e')
      → Runs call chain 0 chain.steps
          (record { chain_name = chain.name; step_results = []; success = true; final_result = [] })
          e
          out
          e'
  unfolding execute
  execute-Runs chain e out e' h =
      Agrees-some 0 chain.steps _ e _ h (run_steps-Agrees chain 0 chain.steps _ e)

-- ===== src/Tools/ToolChain/Execute/Chains.antt =====
-- Execute as a relation that does not speak of the executor's own functions.
use rav_bot.Prelude.{
  ℕ, suc, ◌≡◌, refl, ap, subst, ◌⊎◌, inl, inr, Bool, true, false, not, ◌&&◌, List, [], ◌∷◌, ◌++◌,
  some,
}
use rav_bot.Prelude.Int.{ℤ, pos_part}
use rav_bot.Prelude.Text.{Str, bytes}
use rav_bot.Prelude.Decimal.{print_ℕ}
use rav_bot.Tools.ToolChain.Types.{
  Json, ChainStep, ToolChainDef, ChainStepResult, ChainResult, ChainErrorPolicy, stop_on_error,
  continue_on_error, retry,
}
use rav_bot.Tools.ToolChain.Template.{resolve}
use rav_bot.Tools.ToolChain.Execute.{
  CallOutcome, max_attempts, stops, new_step, add_step, finish, stopped_at, execute,
}
use rav_bot.Tools.ToolChain.Execute.Attempts.{Tried}
use rav_bot.Tools.ToolChain.Execute.Runs.{Runs, done, stop, next, execute-Runs}
use rav_bot.Tools.ToolChain.Execute.Results.{last_ok, finish-last_ok}

-- The attempts that a policy allows: max_retries of them, none where that is negative, or one.
abbrev pub allowed_attempts : ChainErrorPolicy → ℤ → ℕ
allowed_attempts retry max_retries = pos_part max_retries
allowed_attempts stop_on_error max_retries = 1
allowed_attempts continue_on_error max_retries = 1

-- A failed step ends the chain.
abbrev pub EndsOnError : ChainErrorPolicy → Type 0
EndsOnError continue_on_error = ⊥
EndsOnError stop_on_error = Unit
EndsOnError retry = Unit

-- The result so far, and one step more.
abbrev pub and_step : ChainStepResult → ChainResult → ChainResult
and_step r result = record {
  chain_name = result.chain_name;
  step_results = result.step_results ++ r ∷ [];
  success = result.success && r.success;
  final_result = result.final_result;
}

finish-record :
    (result : ChainResult)
    → finish result ≡ record result { final_result = last_ok result.step_results [] }
unfolding finish
finish-record result =
    ap (λ output. record result { final_result = output }) (finish-last_ok result)

module _ {ℓ} {E : Type ℓ} (call : Str → Json → E → CallOutcome × E) where
  -- Step `i` with these arguments gives the result `r` after the attempts that the policy allows.
  abbrev pub StepGives : ToolChainDef → ℕ → ChainStep → Json → E → ChainStepResult → E → Type ℓ
  StepGives chain i step args e r e' =
      Tried call args (allowed_attempts chain.error_policy chain.max_retries)
        (record {
          step_index = i;
          tool_name = step.tool_name;
          result = [];
          error = [];
          success = false;
        })
        e r e'

  -- The chain ends behind its last step, with the output of the last step that succeeded, or at a
  -- failed step, unless its policy is to continue; the arguments are resolved with the results.
  pub data Chains (chain : ToolChainDef)
      : ℕ → List ChainStep → ChainResult → E → ChainResult → E → Type ℓ where
    complete :
        {i : ℕ} {result out : ChainResult} {e : E}
        → out ≡ record result { final_result = last_ok result.step_results [] }
        → Chains chain i [] result e out e
    cut :
        {i : ℕ} {step : ChainStep} {steps : List ChainStep} {result : ChainResult} {e e' : E}
        {args : Json} {r : ChainStepResult}
        → resolve step.arguments result.step_results ≡ some args
        → StepGives chain i step args e r e'
        → r.success ≡ false
        → EndsOnError chain.error_policy
        → Chains chain i
            (step ∷ steps)
            result
            e
            (record (and_step r result) {
              final_result = bytes "Chain stopped at step " ++ print_ℕ i ++ bytes ": " ++ r.error;
            })
            e'
    then_on :
        {i : ℕ} {step : ChainStep} {steps : List ChainStep} {result out : ChainResult}
        {e e' e'' : E} {args : Json} {r : ChainStepResult}
        → resolve step.arguments result.step_results ≡ some args
        → StepGives chain i step args e r e'
        → (r.success ≡ true) ⊎ (EndsOnError chain.error_policy → ⊥)
        → Chains chain (suc i) steps (and_step r result) e' out e''
        → Chains chain i (step ∷ steps) result e out e''

  max_attempts-allowed :
      (policy : ChainErrorPolicy) (max_retries : ℤ)
      → max_attempts policy max_retries ≡ allowed_attempts policy max_retries
  unfolding max_attempts
  max_attempts-allowed retry max_retries = refl
  max_attempts-allowed stop_on_error max_retries = refl
  max_attempts-allowed continue_on_error max_retries = refl

  stop-cut :
      (policy : ChainErrorPolicy) (success : Bool)
      → (not success && stops policy) ≡ true
      → (success ≡ false) × EndsOnError policy
  unfolding stops
  stop-cut stop_on_error false h = (refl, tt)
  stop-cut retry false h = (refl, tt)
  stop-cut continue_on_error false h = absurd (cc)
  stop-cut policy true h = absurd (cc)

  next-then_on :
      (policy : ChainErrorPolicy) (success : Bool)
      → (not success && stops policy) ≡ false
      → (success ≡ true) ⊎ (EndsOnError policy → ⊥)
  unfolding stops
  next-then_on policy true h = inl refl
  next-then_on continue_on_error false h = inr (λ x. x)
  next-then_on stop_on_error false h = absurd (cc)
  next-then_on retry false h = absurd (cc)

  StepGives-Tried :
      (chain : ToolChainDef) {i : ℕ} (step : ChainStep) {args : Json} {e e' : E}
      {r : ChainStepResult}
      → Tried call args (max_attempts chain.error_policy chain.max_retries) (new_step i step) e r e'
      → StepGives chain i step args e r e'
  unfolding new_step
  StepGives-Tried chain {i} step {args} {e} {e'} {r} t =
      subst (λ n. Tried call args n (new_step i step) e r e')
        (max_attempts-allowed chain.error_policy chain.max_retries) t

  Runs-Chains :
      {chain : ToolChainDef} {i : ℕ} {steps : List ChainStep} {result out : ChainResult} {e e' : E}
      → Runs call chain i steps result e out e'
      → Chains chain i steps result e out e'
  unfolding add_step stopped_at
  Runs-Chains (done {i} {result}) = complete (finish-record result)
  Runs-Chains {chain} (stop {step = step} {r = r} resolved gives s) =
      let (failed, ends) = stop-cut chain.error_policy r.success s in
      cut resolved (StepGives-Tried chain step gives) failed ends
  Runs-Chains {chain} (next {step = step} {r = r} resolved gives s rest) =
      then_on resolved (StepGives-Tried chain step gives)
        (next-then_on chain.error_policy r.success s) (Runs-Chains rest)

module _ {ℓ} {E : Type ℓ} (call : Str → Json → E → CallOutcome × E) (can_dump : Json → Bool) where
  -- A result that Execute returns comes about step by step: the arguments of each step are
  -- resolved with the results before it, its attempts, max_retries of them under the policy to
  -- retry and one otherwise, go on until one returns, and its result is added; a failed step ends
  -- the chain with the text that names it, unless the policy is to continue, and behind the last
  -- step the final result is the output of the last step that succeeded.
  pub execute-Chains :
      (chain : ToolChainDef) (e : E) (out : ChainResult) (e' : E)
      → execute call can_dump chain e ≡ (some out, e')
      → Chains call chain 0 chain.steps
          (record { chain_name = chain.name; step_results = []; success = true; final_result = [] })
          e
          out
          e'
  execute-Chains chain e out e' h = Runs-Chains call (execute-Runs call can_dump chain e out e' h)

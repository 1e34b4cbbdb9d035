-- ===== src/Tools/ToolChain/Execute/Effects.antt =====
-- The calls that Execute makes.
use rav_bot.Prelude.{
  ℕ, zero, suc, ◌+◌, ◌*◌, ◌≤◌, ◌≡◌, Bool, true, false, List, [], ◌∷◌, some, arith, length,
  Option-cases, inl, inr,
}
use rav_bot.Prelude.Int.{pos_part}
use rav_bot.Prelude.Text.{Str, bytes}
use rav_bot.Tools.ToolChain.Types.{
  Json, ChainStep, ToolChainDef, ChainStepResult, ChainResult, retry,
}
use rav_bot.Tools.ToolChain.Template.{resolve}
use rav_bot.Tools.ToolChain.Execute.{
  CallOutcome, record_outcome, attempt, max_attempts, run_steps, execute, new_step, add_step,
}

module _ {ℓ} {E : Type ℓ} (call : Str → Json → E → CallOutcome × E) where
  -- The same executor with a count of its calls.
  abbrev pub counted : Str → Json → ℕ × E → CallOutcome × (ℕ × E)
  counted tool args (k, e) = let (outcome, e') = call tool args e in (outcome, (suc k, e'))

  attempt-le :
      (n : ℕ) (args : Json) (r : ChainStepResult) (e : ℕ × E)
      → (attempt counted n args r e).1.0 ≤ n + e.0
  unfolding attempt
  attempt-le zero args r e = omega arith
  attempt-le (suc n) args r e =
      let c = counted r.tool_name args e in
      ground (arith, attempt-le n args (record_outcome c.0 r) c.1)

  run_steps-le :
      (can_dump : Json → Bool) (chain : ToolChainDef) (i : ℕ) (steps : List ChainStep)
      (result : ChainResult) (e : ℕ × E)
      → (run_steps counted can_dump chain i steps result e).1.0
        ≤ length steps * max_attempts chain.error_policy chain.max_retries + e.0
  unfolding run_steps
  run_steps-le can_dump chain i [] result e = omega arith
  run_steps-le can_dump chain i (step ∷ steps) result e =
      elim (Option-cases (resolve step.arguments result.step_results)) [
        | inl h ↦ ground arith
        | inr (args, h) ↦
            let n = max_attempts chain.error_policy chain.max_retries in
            let tried = attempt counted n args (new_step i step) e in
            ground (
              arith,
              attempt-le n args (new_step i step) e,
              run_steps-le can_dump chain (suc i) steps (add_step tried.0 result) tried.1,
            )
      ]

  -- Execute calls the executor at most once for every step, or at most max_retries times where
  -- the policy is to retry.
  execute-le :
      (can_dump : Json → Bool) (chain : ToolChainDef) (e : E)
      → (execute counted can_dump chain (0, e)).1.0
        ≤ length chain.steps * max_attempts chain.error_policy chain.max_retries
  unfolding execute
  execute-le can_dump chain e = omega (arith, run_steps-le can_dump chain 0 chain.steps _ (0, e))

  -- Under the policy to retry with max_retries of at most 0 a chain stops at its first step without
  -- a call and without an error message.
  execute_no_attempts :
      (can_dump : Json → Bool) (chain : ToolChainDef) (step : ChainStep) (steps : List ChainStep)
      (args : Json) (e : E)
      → chain.error_policy ≡ retry
      → pos_part chain.max_retries ≡ 0
      → chain.steps ≡ step ∷ steps
      → resolve step.arguments [] ≡ some args
      → can_dump args ≡ true
      → execute call can_dump chain e ≡ (
        some (record {
          chain_name = chain.name;
          step_results = new_step 0 step ∷ [];
          success = false;
          final_result = bytes "Chain stopped at step 0: ";
        }),
        e,
      )
  unfolding execute run_steps attempt
  execute_no_attempts can_dump chain step steps args e p z s h d = ground arith

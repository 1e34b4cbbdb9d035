-- ===== src/Tools/ToolChain/Execute.antt =====
-- The class ToolChainExecutor of src/tools/tool_chain.cpp. The executor function is a parameter
-- with a state; a call returns a text or throws a std::exception. So is `can_dump`, whether
-- dump() of the arguments returns: the JSON library throws on a text that is not UTF-8. `none`
-- as the result of `execute` is an exception that leaves Execute.
pub mod Attempts
pub mod Runs
pub mod Results
pub mod Effects
pub mod Chains
use rav_bot.Prelude.{
  ℕ, zero, suc, Bool, true, false, not, ◌&&◌, ◌||◌, List, [], ◌∷◌, ◌++◌, Option, none, some,
  if◌then◌else◌,
}
use rav_bot.Prelude.Int.{ℤ, pos, negsuc, pos_part}
use rav_bot.Prelude.Text.{Str, bytes}
use rav_bot.Prelude.Decimal.{print_ℕ}
use rav_bot.Tools.ToolChain.Types.{
  Json, ChainStep, ChainErrorPolicy, stop_on_error, continue_on_error, retry, ToolChainDef,
  ChainStepResult, ChainResult,
}
use rav_bot.Tools.ToolChain.Template.{resolve}
use mathlib.Core.List.{reverse}

-- What a call of the executor does.
pub data CallOutcome : Type 0 where
  returned : Str → CallOutcome
  threw : Str → CallOutcome

unfoldable pub max_attempts : ChainErrorPolicy → ℤ → ℕ
max_attempts retry max_retries = pos_part max_retries
max_attempts policy max_retries = 1

-- Whether a failed step ends the chain.
unfoldable pub stops : ChainErrorPolicy → Bool
stops stop_on_error = true
stops retry = true
stops continue_on_error = false

unfoldable pub new_step : ℕ → ChainStep → ChainStepResult
new_step i step = record {
  step_index = i;
  tool_name = step.tool_name;
  result = [];
  error = [];
  success = false;
}

-- The result of the first successful step.
unfoldable pub first_success : List ChainStepResult → Str
first_success [] = []
first_success (r ∷ rs) = let rest = first_success rs in if r.success then r.result else rest

unfoldable pub finish : ChainResult → ChainResult
unfolding first_success
finish result = record result { final_result = first_success (reverse result.step_results) }

unfoldable pub add_step : ChainStepResult → ChainResult → ChainResult
add_step r result = record result {
  step_results = result.step_results ++ r ∷ [];
  success = result.success && r.success;
}

unfoldable pub stopped_at : ℕ → Str → ChainResult → ChainResult
unfolding print_ℕ
stopped_at i error result = record result {
  final_result = bytes "Chain stopped at step " ++ print_ℕ i ++ bytes ": " ++ error;
}

-- One attempt: the executor returned or threw.
unfoldable pub record_outcome : CallOutcome → ChainStepResult → ChainStepResult
record_outcome (returned output) r = record r { result = output; success = true; error = [] }
record_outcome (threw what) r = record r { error = what }

module _ {ℓ} {E : Type ℓ} (call : Str → Json → E → CallOutcome × E) where
  -- The while loop with `n` attempts left.
  unfoldable pub attempt : ℕ → Json → ChainStepResult → E → ChainStepResult × E
  unfolding record_outcome
  attempt zero args r e = (r, e)
  attempt (suc n) args r e =
      let (outcome, e') = call r.tool_name args e in
      elim outcome [
        | returned output ↦ (record_outcome (returned output) r, e')
        | threw what ↦ attempt n args (record_outcome (threw what) r) e'
      ]

module _ {ℓ} {E : Type ℓ} (call : Str → Json → E → CallOutcome × E) (can_dump : Json → Bool) where
  -- The loop over the steps from step `i` on.
  unfoldable pub run_steps :
      ToolChainDef → ℕ → List ChainStep → ChainResult → E → Option ChainResult × E
  unfolding finish add_step stopped_at stops max_attempts new_step attempt resolve
  run_steps chain i [] result e = (some (finish result), e)
  run_steps chain i (step ∷ steps) result e = elim (resolve step.arguments result.step_results) [
    | none ↦ (none, e)
    | some args ↦ elim (can_dump args) [
      | false ↦ (none, e)
      | true ↦
          let tried =
            attempt call (max_attempts chain.error_policy chain.max_retries) args (new_step i step)
              e in
          elim (not (tried.0.success) && stops chain.error_policy) [
            | true ↦ (some (stopped_at i tried.0.error (add_step tried.0 result)), tried.1)
            | false ↦ run_steps chain (suc i) steps (add_step tried.0 result) tried.1
          ]
    ]
  ]

  unfoldable pub execute : ToolChainDef → E → Option ChainResult × E
  unfolding run_steps
  execute chain e =
      run_steps chain 0 chain.steps
        (record { chain_name = chain.name; step_results = []; success = true; final_result = [] }) e

-- ===== src/Tools/Tests.antt =====
-- The theorems about the tool chain at concrete inputs.
use Prim.Native.String.{String}
use rav_bot.Prelude.{ℕ, suc, ◌≡◌, refl, Bool, true, false, List, [], ◌∷◌, none, some, if◌then◌else◌}
use rav_bot.Prelude.Int.{pos}
use rav_bot.Prelude.Text.{Str, bytes, str_eq}
use rav_bot.Tools.ToolChain.Types.{
  Json, text, ChainStep, continue_on_error, ToolChainDef, ChainStepResult, ChainResult,
}
use rav_bot.Tools.ToolChain.Template.Filling.{Part, write, fill}
use rav_bot.Tools.ToolChain.Execute.{CallOutcome, returned, threw, execute}
use rav_bot.Tools.ToolChain.Execute.Chains.{Chains, execute-Chains}
use rav_bot.Tools.ToolChain.Execute.Results.{Account, execute-Account}

-- An executor that counts its calls: the tool "fail" throws, and every other one returns its name.
abbrev by_name : Str → Json → ℕ → CallOutcome × ℕ
unfolding str_eq
by_name tool args n =
    (if str_eq tool (bytes "fail") then threw (bytes "no") else returned tool, suc n)

abbrev dumps : Json → Bool
dumps args = true

abbrev step_of : String → String → ChainStep
step_of tool args = record { tool_name = bytes tool; arguments = text (bytes args) }

abbrev chain : ToolChainDef
chain = record {
  name = bytes "demo";
  description = [];
  steps =
      step_of "read" "x"
      ∷ step_of "fail" "{{prev.result}}"
      ∷ step_of "write" "{{steps[0].result}}"
      ∷ [];
  error_policy = continue_on_error;
  max_retries = pos 1;
}

abbrev outcome : ChainResult
outcome = record {
  chain_name = bytes "demo";
  step_results =
      record {
        step_index = 0;
        tool_name = bytes "read";
        result = bytes "read";
        error = [];
        success = true;
      }
      ∷ record {
        step_index = 1;
        tool_name = bytes "fail";
        result = [];
        error = bytes "no";
        success = false;
      }
      ∷ record {
        step_index = 2;
        tool_name = bytes "write";
        result = bytes "write";
        error = [];
        success = true;
      }
      ∷ [];
  success = false;
  final_result = bytes "write";
}

abbrev start : ChainResult
start = record { chain_name = bytes "demo"; step_results = []; success = true; final_result = [] }

execute_demo : execute by_name dumps chain 0 ≡ (some outcome, 3)
unfolding execute by_name
execute_demo = refl

execute-Chains_example : Chains by_name chain 0 chain.steps start 0 outcome 3
execute-Chains_example = execute-Chains by_name dumps chain 0 outcome 3 execute_demo

execute-Account_example : Account chain 0 chain.steps start outcome outcome.step_results
execute-Account_example = execute-Account by_name dumps chain 0 outcome 3 execute_demo

abbrev parts : List Part
parts = record { before = bytes "a "; first = b'0'; digits = [] } ∷ []

filled_text : fill outcome.step_results parts (bytes " b") ≡ some (bytes "a read b")
unfolding fill
filled_text = refl

-- The output of a tool that names a step no int can hold.
abbrev large : List Part
large = record { before = []; first = b'9'; digits = bytes "999999999" } ∷ []

abbrev poisoned : List ChainStepResult
poisoned =
    record {
      step_index = 0;
      tool_name = bytes "read";
      result = write large [];
      error = [];
      success = true;
    }
    ∷ []

poisoned_throws : fill poisoned large [] ≡ none
unfolding fill
poisoned_throws = refl

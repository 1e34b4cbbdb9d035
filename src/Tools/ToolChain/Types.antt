-- ===== src/Tools/ToolChain/Types.antt =====
-- The structs of include/ravbot/tools/tool_chain.hpp, and the JSON values in them.
use rav_bot.Prelude.{ℕ, Bool, List}
use rav_bot.Prelude.Int.{ℤ}
use rav_bot.Prelude.Text.{Str}

-- A value of nlohmann::json: a number by its text, the members of an object in the order of
-- their keys.
mutual
  pub data Json : Type 0 where
    null : Json
    boolean : Bool → Json
    number : Str → Json
    text : Str → Json
    array : JsonList → Json
    object : JsonMembers → Json

  pub data JsonList : Type 0 where
    no_items : JsonList
    item : Json → JsonList → JsonList

  pub data JsonMembers : Type 0 where
    no_members : JsonMembers
    entry : Str → Json → JsonMembers → JsonMembers

pub record ChainStep : Type 0 where
  pub tool_name : Str
  pub arguments : Json

pub data ChainErrorPolicy : Type 0 where
  stop_on_error : ChainErrorPolicy
  continue_on_error : ChainErrorPolicy
  retry : ChainErrorPolicy

pub record ToolChainDef : Type 0 where
  pub name : Str
  pub description : Str
  pub steps : List ChainStep
  pub error_policy : ChainErrorPolicy
  pub max_retries : ℤ

pub record ChainStepResult : Type 0 where
  pub step_index : ℕ
  pub tool_name : Str
  pub result : Str
  pub error : Str
  pub success : Bool

pub record ChainResult : Type 0 where
  pub chain_name : Str
  pub step_results : List ChainStepResult
  pub success : Bool
  pub final_result : Str

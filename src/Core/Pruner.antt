-- ===== src/Core/Pruner.antt =====
-- ContextPruner::Prune and soft_prune of src/core/context_pruner.cpp, from the options that are in
-- effect on; the computation of these from a token budget is not modelled. The options that count
-- lines and messages are not negative. `none` is a read past the end of assistant_indices.
pub mod Keeps
pub mod Recent
mod Tests
use rav_bot.Prelude.{
  ℕ, zero, suc, ◌+◌, ◌-◌, ◌*◌, Bool, true, false, ◌&&◌, ◌||◌, not, List, [], ◌∷◌, ◌++◌, map, Option,
  none, some, if◌then◌else◌, length, take, drop, ltb, leb, any, ◌==◌, get_elem?,
}
use rav_bot.Prelude.Int.{ℤ, pos, ltb_ℤ}
use rav_bot.Prelude.Text.{Str, bytes, str_eq}
use rav_bot.Prelude.Decimal.{print_ℕ}
use rav_bot.Core.TurnValidator.{ContentBlock, Message, is_role}
use mathlib.Core.Option

pub record Options : Type 0 where
  pub protect_recent : ℕ
  pub soft_prune_lines : ℕ
  pub hard_prune_after : ℕ
  pub max_tool_result_chars : ℤ

-- A byte before the first line.
abbrev put_before : ℕ → List Str → List Str
put_before c [] = (c ∷ []) ∷ []
put_before c (t ∷ ts) = (c ∷ t) ∷ ts

-- The lines that std::getline reads; a line break at the end starts no line.
unfoldable pub lines_of : Str → List Str
lines_of [] = []
lines_of (c ∷ s) = let rest = lines_of s in if c == 10 then [] ∷ rest else put_before c rest

-- Each line with a line break.
unfoldable pub ended_lines : List Str → Str
ended_lines [] = []
ended_lines (l ∷ ls) = l ++ 10 ∷ ended_lines ls

-- The lines with a line break between two of them.
unfoldable pub joined_lines : List Str → Str
joined_lines [] = []
joined_lines (l ∷ []) = l
joined_lines (l ∷ k ∷ ls) = l ++ 10 ∷ joined_lines (k ∷ ls)

-- U+26A0 and U+2014 in UTF-8
abbrev warning_sign : Str
warning_sign = 226 ∷ 154 ∷ 160 ∷ []

abbrev dash : Str
dash = 226 ∷ 128 ∷ 148 ∷ []

abbrev notice : ℕ → ℕ → Str
notice size omitted =
    bytes "\n"
    ++ warning_sign
    ++ bytes " [Content truncated "
    ++ dash
    ++ bytes " original was "
    ++ print_ℕ size
    ++ bytes " chars. Use offset/limit params to read specific sections.]\n... ["
    ++ print_ℕ omitted
    ++ bytes " lines omitted] ...\n\n"

unfoldable pub soft_prune : Str → ℕ → Str
unfolding lines_of ended_lines joined_lines print_ℕ
soft_prune content keep_lines =
    let lines = lines_of content in
    let total = length lines in
    if leb total (keep_lines * 2)
    then content
    else ended_lines (take keep_lines lines)
      ++ notice (length content) (total - keep_lines * 2)
      ++ joined_lines (drop (total - keep_lines) lines)

-- assistant_indices[num_assistants - n] where there are more than n; -1 is `none`.
unfoldable pub threshold : ℕ → List ℕ → Option (Option ℕ)
threshold n indices =
    if ltb n (length indices)
    then Option.map some (get_elem? indices (length indices - n))
    else some none

module _ {Json : Type 0} where
  abbrev pub is_tool_result : ContentBlock Json → Bool
  is_tool_result block = str_eq block.type (bytes "tool_result")

  -- bootstrap_end, -1 is `none`; the first index is an argument.
  unfoldable pub bootstrap_end : ℕ → List (Message Json) → Option ℕ
  bootstrap_end i [] = none
  bootstrap_end i (msg ∷ history) =
      let rest = bootstrap_end (suc i) history in
      if is_role (bytes "user") msg then some i else rest

  unfoldable pub assistant_indices : ℕ → List (Message Json) → List ℕ
  assistant_indices i [] = []
  assistant_indices i (msg ∷ history) =
      let rest = assistant_indices (suc i) history in
      if is_role (bytes "assistant") msg then i ∷ rest else rest

-- hard_threshold >= 0 && i < hard_threshold
unfoldable pub is_before : ℕ → Option ℕ → Bool
is_before i none = false
is_before i (some t) = ltb i t

-- i <= bootstrap_end
unfoldable pub is_bootstrap : ℕ → Option ℕ → Bool
is_bootstrap i none = false
is_bootstrap i (some b) = leb i b

-- `null` is the JSON value of a block that has no input.
module _ {Json : Type 0} (null : Json) where
  -- ContentBlock::MakeToolResult
  unfoldable pub make_tool_result : Str → Str → ContentBlock Json
  make_tool_result tool_use_id content = record {
    type = bytes "tool_result";
    text = [];
    id = [];
    name = [];
    input = null;
    tool_use_id = tool_use_id;
    content = content;
  }

  unfoldable pub prune_block : Options → Bool → ContentBlock Json → ContentBlock Json
  unfolding make_tool_result soft_prune
  prune_block opts hard block =
      if not (is_tool_result block)
      then block
      else if hard
      then make_tool_result block.tool_use_id
          (bytes "[Tool result omitted " ++ dash ++ bytes " older context]")
      else if ltb_ℤ opts.max_tool_result_chars (pos (length block.content))
      then make_tool_result block.tool_use_id (soft_prune block.content opts.soft_prune_lines)
      else block

  -- The test of the messages that stay as they are, given the protection's and the bootstrap's
  -- index.
  unfoldable pub stays : Option ℕ → Option ℕ → ℕ → Message Json → Bool
  unfolding is_before is_bootstrap
  stays protect bootstrap i msg =
      not (any is_tool_result msg.content) || not (is_before i protect) || is_bootstrap i bootstrap

  unfoldable pub prune_message :
      Options → Option ℕ → Option ℕ → Option ℕ → ℕ → Message Json → Message Json
  unfolding stays prune_block is_before
  prune_message opts protect hard bootstrap i msg =
      if stays protect bootstrap i msg then msg else record {
        role = msg.role;
        content = map (prune_block opts (is_before i hard)) msg.content;
        timestamp = [];
      }

  unfoldable pub prune_from :
      Options → Option ℕ → Option ℕ → Option ℕ → ℕ → List (Message Json) → List (Message Json)
  unfolding prune_message
  prune_from opts protect hard bootstrap i [] = []
  prune_from opts protect hard bootstrap i (msg ∷ history) =
      prune_message opts protect hard bootstrap i msg
      ∷ prune_from opts protect hard bootstrap (suc i) history

  unfoldable pub prune_history : Options → List (Message Json) → Option (List (Message Json))
  unfolding prune_from threshold bootstrap_end assistant_indices
  prune_history opts history =
      let indices = assistant_indices 0 history in
      elim (threshold opts.protect_recent indices) [
        | none ↦ none
        | some protect ↦ elim (threshold opts.hard_prune_after indices) [
          | none ↦ none
          | some hard ↦ some (prune_from opts protect hard (bootstrap_end 0 history) 0 history)
        ]
      ]

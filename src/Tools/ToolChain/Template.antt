-- ===== src/Tools/ToolChain/Template.antt =====
-- The class ChainTemplateEngine of src/tools/tool_chain.cpp. `none` is the exception of
-- std::stoi on an index that does not fit an `int`.
pub mod Scanning
pub mod Filling
pub mod Previous
use rav_bot.Prelude.{
  ℕ, zero, suc, ◌+◌, List, [], ◌∷◌, ◌++◌, Option, none, some, if◌then◌else◌, length, take, drop,
  get_elem?,
}
use rav_bot.Prelude.Int.{ℤ, pos, negsuc}
use rav_bot.Prelude.Text.{Str, bytes, find, starts_with}
use rav_bot.Prelude.Decimal.{is_digit, stoi}
use rav_bot.Tools.ToolChain.Types.{
  Json, JsonList, JsonMembers, ChainStepResult, text, array, object, no_items, item, no_members,
  entry,
}
use mathlib.Core.Option

abbrev pub prev_token : Str
prev_token = bytes "{{prev.result}}"

-- result.find(token, from)
unfoldable pub find_from : Str → Str → ℕ → Option ℕ
unfolding find
find_from token s from = Option.map (λ i. from + i) (find token (drop from s))

-- The first loop, with a bound on its rounds; every round goes on behind its replacement, so
-- that the length of the template is enough.
unfoldable pub replace_prev : ℕ → Str → Str → Option ℕ → Str
unfolding find_from
replace_prev zero replacement result at = result
replace_prev (suc rounds) replacement result none = result
replace_prev (suc rounds) replacement result (some i) =
    let next = take i result ++ replacement ++ drop (i + length prev_token) result in
    replace_prev rounds replacement next (find_from prev_token next (i + length replacement))

-- previous_results.back().result, or nothing
unfoldable pub last_result : List ChainStepResult → Str
last_result [] = []
last_result (r ∷ []) = r.result
last_result (r ∷ s ∷ rs) = last_result (s ∷ rs)

-- The longest run of digits and what follows it: `(\d+)`.
unfoldable pub digit_run : Str → Str × Str
digit_run [] = ([], [])
digit_run (c ∷ s) =
    let rest = digit_run s in if is_digit c then (c ∷ rest.0, rest.1) else ([], c ∷ s)

abbrev pub step_opening : Str
step_opening = bytes "{{steps["

abbrev pub step_closing : Str
step_closing = bytes "].result}}"

-- What follows the opening of a match: at least one digit, and the closing.
unfoldable pub after_digits : Str × Str → Option (Str × Str)
after_digits ([], rest) = none
after_digits (d ∷ ds, rest) =
    if starts_with step_closing rest then some (d ∷ ds, drop (length step_closing) rest) else none

-- A match of the regular expression at the start of the text: the digits, and the rest.
unfoldable pub match_step : Str → Option (Str × Str)
unfolding digit_run starts_with after_digits
match_step s =
    if starts_with step_opening s
    then after_digits (digit_run (drop (length step_opening) s))
    else none

-- std::smatch: the prefix, the digits and the suffix of the first match.
pub record StepMatch : Type 0 where
  pub prefix : Str
  pub digits : Str
  pub suffix : Str

unfoldable pub found_at : Option (Str × Str) → ℕ → Option StepMatch → Option StepMatch
found_at (some (ds, rest)) c later = some (record { prefix = []; digits = ds; suffix = rest })
found_at none c none = none
found_at none c (some m) = some (record m { prefix = c ∷ m.prefix })

-- regex_search
unfoldable pub search_step : Str → Option StepMatch
unfolding match_step found_at
search_step [] = none
search_step (c ∷ s) = found_at (match_step (c ∷ s)) c (search_step s)

-- previous_results[index].result within the bounds, or nothing
unfoldable pub step_text : ℤ → List ChainStepResult → Str
step_text (pos i) rs = elim (get_elem? rs i) [ some r ↦ r.result | none ↦ [] ]
step_text (negsuc i) rs = []

-- The second loop, with a bound on its rounds; a match is not empty, so that the length of the
-- text is enough.
unfoldable pub replace_steps : ℕ → List ChainStepResult → Str → Option Str
unfolding search_step step_text stoi
replace_steps zero rs working = some working
replace_steps (suc rounds) rs working = elim (search_step working) [
  | none ↦ some working
  | some m ↦ elim (stoi m.digits) [
    | none ↦ none
    | some index ↦
        Option.map (λ rest. m.prefix ++ step_text index rs ++ rest)
          (replace_steps rounds rs m.suffix)
  ]
]

unfoldable pub resolve_string : Str → List ChainStepResult → Option Str
unfolding replace_prev last_result replace_steps
resolve_string tmpl previous =
    let result =
      replace_prev (suc (length tmpl)) (last_result previous) tmpl (find prev_token tmpl) in
    replace_steps (suc (length result)) previous result

unfoldable mutual
  unfolding resolve_string

  pub resolve : Json → List ChainStepResult → Option Json
  resolve (text s) previous = Option.map text (resolve_string s previous)
  resolve (array items) previous = Option.map array (resolve_items items previous)
  resolve (object members) previous = Option.map object (resolve_members members previous)
  resolve value previous = some value

  pub resolve_items : JsonList → List ChainStepResult → Option JsonList
  resolve_items no_items previous = some no_items
  resolve_items (item value items) previous = elim (resolve value previous) [
    | none ↦ none
    | some v ↦ Option.map (item v) (resolve_items items previous)
  ]

  pub resolve_members : JsonMembers → List ChainStepResult → Option JsonMembers
  resolve_members no_members previous = some no_members
  resolve_members (entry key value members) previous = elim (resolve value previous) [
    | none ↦ none
    | some v ↦ Option.map (entry key v) (resolve_members members previous)
  ]

-- ===== src/Core/Pruner/Tests.antt =====
-- Pruning at concrete inputs.
use rav_bot.Prelude.{ℕ, ◌≡◌, refl, List, [], ◌∷◌, ◌++◌, some, drop, arith}
use rav_bot.Prelude.Int.{pos}
use rav_bot.Prelude.Text.{Str, bytes, str_eq}
use rav_bot.Core.TurnValidator.{Message, make_text}
use rav_bot.Core.Pruner.{
  Options, soft_prune, make_tool_result, prune_history, lines_of, ended_lines, joined_lines, notice,
}
use rav_bot.Core.Pruner.Keeps.{KeepsHistory}
use rav_bot.Core.Pruner.Recent.{prune_history-Keeps}

abbrev options : Options
options = record {
  protect_recent = 2;
  soft_prune_lines = 1;
  hard_prune_after = 1;
  max_tool_result_chars = pos 4;
}

abbrev says : Str → Str → Message ℕ
says role text = record { role = role; content = make_text 0 text ∷ []; timestamp = [] }

abbrev gives : Str → Message ℕ
gives content = record {
  role = bytes "user";
  content = make_tool_result 0 (bytes "t1") content ∷ [];
  timestamp = [];
}

abbrev old_part : List (Message ℕ)
old_part =
    says (bytes "user") (bytes "hi")
    ∷ says (bytes "assistant") (bytes "calling")
    ∷ gives (bytes "a\nb\nc")
    ∷ says (bytes "assistant") (bytes "done")
    ∷ []

abbrev recent_part : List (Message ℕ)
recent_part = gives (bytes "d\ne\nf") ∷ says (bytes "assistant") (bytes "more") ∷ []

soft_prune_example : soft_prune (bytes "a\nb\nc\n") 1 ≡ bytes "a\n" ++ notice 6 1 ++ bytes "c"
unfolding soft_prune lines_of ended_lines joined_lines
soft_prune_example = refl

prune_history-Keeps_example :
    (new : List (Message ℕ)) × (prune_history 0 options (old_part ++ recent_part) ≡ some new)
    × KeepsHistory 0 (old_part ++ recent_part) new
    × (drop 4 new ≡ recent_part)
unfolding str_eq
prune_history-Keeps_example =
    prune_history-Keeps 0 options old_part recent_part (omega arith) (omega arith)

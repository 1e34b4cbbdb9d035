-- ===== src/Core/Tests.antt =====
-- The theorems about message sequences at concrete inputs.
use rav_bot.Prelude.{ℕ, refl, List, [], ◌∷◌, All}
use rav_bot.Prelude.Text.{Str, bytes}
use rav_bot.Core.TurnValidator.{ContentBlock, Message, make_text, fix_anthropic_turns}
use rav_bot.Core.TurnValidator.Merging.{Separate, HasContent}
use rav_bot.Core.TurnValidator.Stripping.{Paired, user}
use rav_bot.Core.TurnValidator.Anthropic.{fix_anthropic_turns-Paired}
use rav_bot.Core.TurnValidator.Gap.{reply}

abbrev says : Str → Str → Message ℕ
says role text = record { role = role; content = make_text 0 text ∷ []; timestamp = [] }

abbrev call : ContentBlock ℕ
call = record {
  type = bytes "tool_use";
  text = [];
  id = bytes "t1";
  name = bytes "exec";
  input = 1;
  tool_use_id = [];
  content = [];
}

abbrev result : Message ℕ
result = record {
  role = bytes "user";
  content =
      record call {
        type = bytes "tool_result";
        id = [];
        tool_use_id = bytes "t1";
        content = bytes "ok";
      }
      ∷ [];
  timestamp = bytes "2";
}

abbrev chat : List (Message ℕ)
chat =
    says (bytes "user") (bytes "hi")
    ∷ reply 0 (call ∷ [])
    ∷ result
    ∷ says (bytes "user") (bytes "go")
    ∷ []

fix_anthropic_turns-Paired_example :
    Paired (fix_anthropic_turns 0 chat)
    × Separate user (fix_anthropic_turns 0 chat)
    × All HasContent (fix_anthropic_turns 0 chat)
fix_anthropic_turns-Paired_example =
    fix_anthropic_turns-Paired 0 chat (refl, (refl, (refl, (refl, tt))))

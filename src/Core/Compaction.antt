-- ===== src/Core/Compaction.antt =====
-- include/ravbot/core/session_compaction.hpp and src/core/session_compaction.cpp. A message is
-- taken apart as far as the code reads it: its content where that is a string. What the summary
-- function does is an argument.
pub mod Kept
use rav_bot.Prelude.{
  ℕ, ◌+◌, ◌-◌, ◌/◌, ◌<◌, ◌≤◌, Bool, true, false, ◌&&◌, ◌||◌, List, [], ◌∷◌, ◌++◌, Option, none,
  some, if◌then◌else◌, length, take, drop, ltb, leb, is_empty, min,
}
use rav_bot.Prelude.Int.{ℤ, pos, ltb_ℤ}
use rav_bot.Prelude.Text.{Str, bytes}
use rav_bot.Prelude.Decimal.{print_ℕ}

-- A message of the history, or one that the compaction writes.
pub data Message {ℓ} (M : Type ℓ) : Type ℓ where
  original : M → Option Str → Message M
  summary_of : ℕ → Str → Message M
  truncation_note : ℕ → Str → Message M

-- The options; keep_recent is not negative.
pub record Options : Type 0 where
  pub max_messages : ℤ
  pub keep_recent : ℕ
  pub max_tokens : ℤ
  pub tokens_per_char : ℤ

-- What the call of the summary function does, where there is one.
pub data SummaryOutcome : Type 0 where
  no_function : SummaryOutcome
  gave : Str → SummaryOutcome
  failed : SummaryOutcome

module _ {ℓ} {M : Type ℓ} where
  unfoldable pub content_length : Message M → ℕ
  content_length (original m none) = 0
  content_length (original m (some text)) = length text
  content_length (summary_of n text) = length text
  content_length (truncation_note n text) = length text

  unfoldable pub total_chars : List (Message M) → ℕ
  unfolding content_length
  total_chars [] = 0
  total_chars (m ∷ ms) = content_length m + total_chars ms

  unfoldable pub estimate_tokens : List (Message M) → ℕ
  unfolding total_chars
  estimate_tokens ms = total_chars ms / 4

  unfoldable pub needs_compaction : List (Message M) → Options → Bool
  unfolding estimate_tokens
  needs_compaction ms opts =
      ltb_ℤ opts.max_messages (pos (length ms)) || ltb_ℤ opts.max_tokens (pos (estimate_tokens ms))

  -- The last `keep` elements.
  abbrev pub last_of : ℕ → List (Message M) → List (Message M)
  last_of keep ms = drop (length ms - keep) ms

  unfoldable pub truncate : List (Message M) → Options → List (Message M)
  unfolding print_ℕ
  truncate ms opts =
      let keep = min opts.keep_recent (length ms) in
      let removed = length ms - keep in
      if leb (length ms) keep
      then ms
      else truncation_note removed
          (bytes "[Earlier messages truncated. " ++ print_ℕ removed ++ bytes " messages removed.]")
        ∷ last_of keep ms

  unfoldable pub with_summary : SummaryOutcome → List (Message M) → Options → ℕ → List (Message M)
  unfolding truncate
  with_summary (gave (c ∷ text)) ms opts to_summarize =
      summary_of to_summarize (bytes "[Compacted conversation summary]\n" ++ c ∷ text)
      ∷ drop to_summarize ms
  with_summary outcome ms opts to_summarize = truncate ms opts

  unfoldable pub compact :
      (List (Message M) → SummaryOutcome) → List (Message M) → Options → List (Message M)
  unfolding needs_compaction with_summary
  compact summary_fn ms opts =
      let to_summarize = length ms - min opts.keep_recent (length ms) in
      if needs_compaction ms opts
      then if ltb 0 to_summarize
        then with_summary (summary_fn (take to_summarize ms)) ms opts to_summarize
        else ms
      else ms

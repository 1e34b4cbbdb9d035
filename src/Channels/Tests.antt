-- ===== src/Channels/Tests.antt =====
-- The theorems about the deduplication store at concrete inputs.
use rav_bot.Prelude.{◌≡◌, ◌||◌, List, [], ◌∷◌}
use rav_bot.Prelude.Int.{pos, leb_ℤ}
use rav_bot.Channels.Deduplication.{DeduplicationStore, empty_store, is_processed}
use rav_bot.Channels.Deduplication.History.{Event, mark, clean, run, reached, is_processed-run}

abbrev events : List Event
events = mark (pos 20001) ∷ mark (pos 5) ∷ clean (pos 24) ∷ []

is_processed-run_example :
    is_processed (pos 7) (run events empty_store)
    ≡ (leb_ℤ (pos 7) (pos 0) || reached (pos 7) events)
is_processed-run_example = is_processed-run (pos 7) events

abbrev store : DeduplicationStore
store = record { watermark = pos 9; processed_ids = pos 4 ∷ pos 9 ∷ [] }

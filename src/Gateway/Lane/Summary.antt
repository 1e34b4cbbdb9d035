-- ===== src/Gateway/Lane/Summary.antt =====
-- The message that stands for several: the kSummarize branch of SessionLane::ApplyCapOverflow.
use rav_bot.Prelude.{
  ℕ, zero, suc, Bool, true, false, ◌+◌, ◌-◌, ◌%◌, ◌^◌, Option, none, some, ◌++◌, [], length, take,
  drop, ltb, if◌then◌else◌,
}
use rav_bot.Prelude.Int.{ℤ, pos, ◌+ℤ◌}
use rav_bot.Prelude.Text.{Str, bytes, find}
use rav_bot.Prelude.Decimal.{to_string, stoi}

-- s.find(p) as a size_t, where npos is 2 ^ 64 - 1.
abbrev npos : ℕ
npos = 2 ^ 64 - 1

abbrev find_pos : Str → Str → ℕ
find_pos p s = elim (find p s) [ none ↦ npos | some i ↦ i ]

-- s.substr(start, count), with `none` where it throws.
abbrev substr : Str → ℕ → ℕ → Option Str
substr s start count = if ltb (length s) start then none else some (take count (drop start s))

-- The test `find(…) == 0` for the prefix of a summary.
abbrev pub is_summary : Str → Bool
is_summary message = elim (find (bytes "[Queue summary:") message) [
  | none ↦ false
  | some zero ↦ true
  | some (suc i) ↦ false
]

-- The count that a summary carries; any exception leaves it at 1.
summary_count : Str → ℕ → ℤ
summary_count oldest p =
    let start = (find_pos (bytes ": ") oldest + 2) % 2 ^ 64 in
    elim (substr oldest start ((p + 2 ^ 64 - start) % 2 ^ 64)) [
      | none ↦ pos 1
      | some text ↦ elim (stoi text) [ none ↦ pos 1 | some n ↦ n ]
    ]

unfoldable pub collapsed_count : Str → ℤ
unfolding summary_count
collapsed_count oldest =
    if is_summary oldest
    then elim (find (bytes " messages]") oldest) [ none ↦ pos 1 | some p ↦ summary_count oldest p ]
    else pos 1

-- What the summary keeps of the oldest message.
unfoldable pub summary_content : Str → Str
summary_content oldest =
    if is_summary oldest
    then elim (find (bytes "] ") oldest) [ none ↦ [] | some i ↦ drop (i + 2) oldest ]
    else take 150 oldest

unfoldable pub merge_messages : Str → Str → Str
merge_messages oldest second =
    bytes "[Queue summary: "
    ++ to_string (collapsed_count oldest +ℤ pos 1)
    ++ bytes " messages] "
    ++ summary_content oldest
    ++ bytes " | "
    ++ take 150 second

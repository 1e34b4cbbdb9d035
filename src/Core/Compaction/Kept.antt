-- ===== src/Core/Compaction/Kept.antt =====
-- What a compaction keeps.
use rav_bot.Prelude.{
  suc, ◌-◌, ◌≤◌, ◌<◌, ◌≡◌, refl, sym, ap, ◌∙◌, Bool, true, false, List, [], ◌∷◌, arith, length,
  length-drop, take, min, ltb, leb, ltb→lt, subst, ◌&&◌, ◌⊎◌, Bool-cases, inl, inr,
}
use rav_bot.Core.Compaction.{
  Message, Options, SummaryOutcome, no_function, gave, failed, needs_compaction, last_of, truncate,
  with_summary, compact,
}

module _ {ℓ} {M : Type ℓ} where
  abbrev recent : List (Message M) → Options → List (Message M)
  recent ms opts = last_of (min opts.keep_recent (length ms)) ms

  -- One message that stands for the old ones, before the recent ones.
  abbrev Shortened : List (Message M) → Options → List (Message M) → Type ℓ
  Shortened ms opts out = (m : Message M) × (out ≡ m ∷ recent ms opts)

  truncate-Shortened :
      (ms : List (Message M)) (opts : Options)
      → leb (length ms) (min opts.keep_recent (length ms)) ≡ false
      → Shortened ms opts (truncate ms opts)
  unfolding truncate
  truncate-Shortened ms opts h = rw h (_, refl)

  with_summary-Shortened :
      (outcome : SummaryOutcome) (ms : List (Message M)) (opts : Options)
      → leb (length ms) (min opts.keep_recent (length ms)) ≡ false
      → Shortened ms opts
          (with_summary outcome ms opts (length ms - min opts.keep_recent (length ms)))
  unfolding with_summary
  with_summary-Shortened (gave (c ∷ text)) ms opts h = (_, refl)
  with_summary-Shortened (gave []) ms opts h = truncate-Shortened ms opts h
  with_summary-Shortened no_function ms opts h = truncate-Shortened ms opts h
  with_summary-Shortened failed ms opts h = truncate-Shortened ms opts h

  compact_short :
      (f : List (Message M) → SummaryOutcome) (ms : List (Message M)) (opts : Options)
      → length ms ≤ opts.keep_recent
      → compact f ms opts ≡ ms
  unfolding compact
  compact_short f ms opts h = ground arith

  compact_long :
      (f : List (Message M) → SummaryOutcome) (ms : List (Message M)) (opts : Options)
      → needs_compaction ms opts ≡ true
      → opts.keep_recent < length ms
      → let to_summarize = length ms - min opts.keep_recent (length ms) in
        compact f ms opts ≡ with_summary (f (take to_summarize ms)) ms opts to_summarize
  unfolding compact
  compact_long f ms opts h k = ground arith

  compact_idle :
      (f : List (Message M) → SummaryOutcome) (ms : List (Message M)) (opts : Options)
      → needs_compaction ms opts ≡ false
      → compact f ms opts ≡ ms
  unfolding compact
  compact_idle f ms opts h = rw h refl

  compact-Shortened :
      (f : List (Message M) → SummaryOutcome) (ms : List (Message M)) (opts : Options)
      → needs_compaction ms opts ≡ true
      → opts.keep_recent < length ms
      → Shortened ms opts (compact f ms opts)
  compact-Shortened f ms opts h k =
      subst (Shortened ms opts) (sym (compact_long f ms opts h k))
        (with_summary-Shortened _ ms opts (ground arith))

  Shortened-length :
      (ms : List (Message M)) (opts : Options) (m : Message M) (out : List (Message M))
      → opts.keep_recent < length ms
      → out ≡ m ∷ recent ms opts
      → length out ≡ suc opts.keep_recent
  Shortened-length ms opts m out k e =
      ap length e ∙ omega (arith, length-drop (length ms - min opts.keep_recent (length ms)) ms)

  -- Whether Compact changes a history: it is over a limit, and longer than what is to be kept.
  abbrev pub is_compacted : List (Message M) → Options → Bool
  is_compacted ms opts = needs_compaction ms opts && ltb opts.keep_recent (length ms)

  -- A history that is over a limit and longer than keep_recent becomes one message and its last
  -- keep_recent ones, whether the summary function gives a text, fails or is missing; any other
  -- is left as it is.
  compact_result :
      (f : List (Message M) → SummaryOutcome) (ms : List (Message M)) (opts : Options)
      → ((is_compacted ms opts ≡ false) × (compact f ms opts ≡ ms))
        ⊎ ((is_compacted ms opts ≡ true)
            × (length (compact f ms opts) ≡ suc opts.keep_recent)
            × ((m : Message M) × (compact f ms opts
                  ≡ m ∷ last_of (min opts.keep_recent (length ms)) ms)))
  compact_result f ms opts = elim (Bool-cases (needs_compaction ms opts)) [
    | inr h ↦ inl (ground arith, compact_idle f ms opts h)
    | inl h ↦ elim (Bool-cases (ltb opts.keep_recent (length ms))) [
      | inr k ↦ inl (ground arith, compact_short f ms opts (ground arith))
      | inl k ↦
          let (m, e) = compact-Shortened f ms opts h (ltb→lt opts.keep_recent (length ms) k) in
          inr (
            ground arith,
            Shortened-length ms opts m (compact f ms opts) (ltb→lt opts.keep_recent (length ms) k)
                e,
            (m, e),
          )
    ]
  ]

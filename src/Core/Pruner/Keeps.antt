-- ===== src/Core/Pruner/Keeps.antt =====
-- What pruning keeps of a history.
use rav_bot.Prelude.{
  ℕ, zero, suc, ◌-◌, ◌≤◌, ◌<◌, ◌≡◌, refl, Bool, true, List, [], ◌∷◌, map, Option, none, some, arith,
  length, ltb, get_elem?, Bool-cases, inl, inr, ◌⊎◌,
}
use rav_bot.Prelude.Text.{Str, bytes, str_eq}
use rav_bot.Prelude.Int.{pos, ltb_ℤ}
use rav_bot.Core.TurnValidator.{ContentBlock, Message}
use rav_bot.Core.Pruner.{
  Options, threshold, is_tool_result, is_before, make_tool_result, prune_block, stays,
  prune_message, prune_from,
}

get_elem?-bound {ℓ} :
    {A : Type ℓ} (xs : List A) (i : ℕ) → i < length xs → (x : A) × (get_elem? xs i ≡ some x)
get_elem?-bound [] i h = absurd (omega arith)
get_elem?-bound (x ∷ xs) zero h = (x, refl)
get_elem?-bound (x ∷ xs) (suc i) h = get_elem?-bound xs i (omega arith)

pub threshold-total : (n : ℕ) (xs : List ℕ) → 1 ≤ n → (t : Option ℕ) × (threshold n xs ≡ some t)
unfolding threshold
threshold-total n xs h = elim (Bool-cases (ltb n (length xs))) [
  | inr k ↦ (none, rw k refl)
  | inl k ↦
      let (x, e) = get_elem?-bound xs (length xs - n) (ground arith) in (some x, rw (k, e) refl)
]

module _ {Json : Type 0} (null : Json) where
  -- A tool result that has nothing but its call and its content.
  abbrev pub IsResultOf : Str → ContentBlock Json → Type 0
  IsResultOf id block =
      (block.type ≡ bytes "tool_result")
      × (block.text ≡ [])
      × (block.id ≡ [])
      × (block.name ≡ [])
      × (block.input ≡ null)
      × (block.tool_use_id ≡ id)

  -- A block that is kept, or a tool result in place of one for the same call.
  abbrev pub KeepsBlock : ContentBlock Json → ContentBlock Json → Type 0
  KeepsBlock old new = (new ≡ old) ⊎ ((is_tool_result old ≡ true) × IsResultOf old.tool_use_id new)

  abbrev pub KeepsBlocks : List (ContentBlock Json) → List (ContentBlock Json) → Type 0
  KeepsBlocks [] [] = Unit
  KeepsBlocks (old ∷ olds) (new ∷ news) = KeepsBlock old new × KeepsBlocks olds news
  KeepsBlocks olds news = ⊥

  -- A message that is kept, or one with the same role whose blocks are kept.
  abbrev pub KeepsMessage : Message Json → Message Json → Type 0
  KeepsMessage old new = (new ≡ old) ⊎ ((new.role ≡ old.role) × KeepsBlocks old.content new.content)

  abbrev pub KeepsHistory : List (Message Json) → List (Message Json) → Type 0
  KeepsHistory [] [] = Unit
  KeepsHistory (old ∷ olds) (new ∷ news) = KeepsMessage old new × KeepsHistory olds news
  KeepsHistory olds news = ⊥

  prune_block-Keeps :
      (opts : Options) (hard : Bool) (block : ContentBlock Json)
      → KeepsBlock block (prune_block null opts hard block)
  unfolding prune_block make_tool_result str_eq
  prune_block-Keeps opts hard block = elim (Bool-cases (is_tool_result block)) [
    | inr h ↦ rw h (inl refl)
    | inl h ↦ elim (Bool-cases hard) [
      | inl k ↦ rw (h, k) (inr (refl, (refl, refl, refl, refl, refl, refl)))
      | inr k ↦ elim (Bool-cases (ltb_ℤ opts.max_tool_result_chars (pos (length block.content)))) [
        | inl l ↦ rw (h, k, l) (inr (refl, (refl, refl, refl, refl, refl, refl)))
        | inr l ↦ rw (h, k, l) (inl refl)
      ]
    ]
  ]

  blocks-Keeps :
      (opts : Options) (hard : Bool) (blocks : List (ContentBlock Json))
      → KeepsBlocks blocks (map (prune_block null opts hard) blocks)
  blocks-Keeps opts hard [] = tt
  blocks-Keeps opts hard (block ∷ blocks) =
      (prune_block-Keeps opts hard block, blocks-Keeps opts hard blocks)

  prune_message-Keeps :
      (opts : Options) (protect hard bootstrap : Option ℕ) (i : ℕ) (msg : Message Json)
      → KeepsMessage msg (prune_message null opts protect hard bootstrap i msg)
  unfolding prune_message
  prune_message-Keeps opts protect hard bootstrap i msg =
      elim (Bool-cases (stays null protect bootstrap i msg)) [
        | inl h ↦ rw h (inl refl)
        | inr h ↦ rw h (inr (refl, blocks-Keeps opts (is_before i hard) msg.content))
      ]

  pub prune_from-Keeps :
      (opts : Options) (protect hard bootstrap : Option ℕ) (i : ℕ) (history : List (Message Json))
      → KeepsHistory history (prune_from null opts protect hard bootstrap i history)
  unfolding prune_from
  prune_from-Keeps opts protect hard bootstrap i [] = tt
  prune_from-Keeps opts protect hard bootstrap i (msg ∷ history) = (
    prune_message-Keeps opts protect hard bootstrap i msg,
    prune_from-Keeps opts protect hard bootstrap (suc i) history,
  )

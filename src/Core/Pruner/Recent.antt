-- ===== src/Core/Pruner/Recent.antt =====
-- The messages that pruning leaves as they are.
use rav_bot.Prelude.{
  ℕ, zero, suc, ◌+◌, ◌-◌, ◌≤◌, ◌<◌, ◌≡◌, refl, ap, ◌∙◌, Bool, false, List, [], ◌∷◌, ◌++◌, Option,
  none, some, arith, length, drop, filter, get_elem?, Bool-cases, inl, inr, ◌⊎◌,
}
use rav_bot.Prelude.Text.{bytes}
use rav_bot.Core.TurnValidator.{Message, is_role}
use rav_bot.Core.Pruner.{
  Options, threshold, assistant_indices, bootstrap_end, is_before, stays, prune_message, prune_from,
  prune_history,
}
use rav_bot.Core.Pruner.Keeps.{threshold-total, KeepsHistory, prune_from-Keeps}

module _ {Json : Type 0} where
  abbrev pub is_assistant : Message Json → Bool
  is_assistant msg = is_role (bytes "assistant") msg

  -- How many messages are the assistant's.
  abbrev pub assistant_count : List (Message Json) → ℕ
  assistant_count history = length (filter is_assistant history)

  length-assistant_indices :
      (i : ℕ) (history : List (Message Json))
      → length (assistant_indices i history) ≡ assistant_count history
  unfolding assistant_indices
  length-assistant_indices i [] = refl
  length-assistant_indices i (msg ∷ history) = elim (Bool-cases (is_assistant msg)) [
    | inl h ↦ rw h (ap suc (length-assistant_indices (suc i) history))
    | inr h ↦ rw h (length-assistant_indices (suc i) history)
  ]

  assistant_count-append :
      (xs ys : List (Message Json))
      → assistant_count (xs ++ ys) ≡ assistant_count xs + assistant_count ys
  assistant_count-append [] ys = omega arith
  assistant_count-append (x ∷ xs) ys = elim (Bool-cases (is_assistant x)) [
    | inl h ↦ rw h (omega (arith, assistant_count-append xs ys))
    | inr h ↦ rw h (assistant_count-append xs ys)
  ]

  index-bound :
      (i k t : ℕ) (old recent : List (Message Json))
      → k < assistant_count old
      → get_elem? (assistant_indices i (old ++ recent)) k ≡ some t
      → t < i + length old
  unfolding assistant_indices
  index-bound i k t [] recent h e = absurd (omega arith)
  index-bound i zero t (msg ∷ old) recent h e = elim (Bool-cases (is_assistant msg)) [
    | inl a ↦ ground arith
    | inr a ↦ ground (arith, index-bound (suc i) zero t old recent)
  ]
  index-bound i (suc k) t (msg ∷ old) recent h e = elim (Bool-cases (is_assistant msg)) [
    | inl a ↦ ground (arith, index-bound (suc i) k t old recent)
    | inr a ↦ ground (arith, index-bound (suc i) (suc k) t old recent)
  ]

-- Not before the protected index.
abbrev IsRecent : ℕ → Option ℕ → Type 0
IsRecent i protect = is_before i protect ≡ false

IsRecent-suc : (i : ℕ) (protect : Option ℕ) → IsRecent i protect → IsRecent (suc i) protect
unfolding is_before
IsRecent-suc i none h = refl
IsRecent-suc i (some t) h = ground arith

module _ {Json : Type 0} (null : Json) (opts : Options) (protect hard bootstrap : Option ℕ) where
  abbrev pruned : ℕ → List (Message Json) → List (Message Json)
  pruned i history = prune_from null opts protect hard bootstrap i history

  prune_message-recent :
      (i : ℕ) (msg : Message Json)
      → IsRecent i protect
      → prune_message null opts protect hard bootstrap i msg ≡ msg
  unfolding prune_message stays
  prune_message-recent i msg h = ground arith

  prune_from-recent :
      (i : ℕ) (history : List (Message Json)) → IsRecent i protect → pruned i history ≡ history
  unfolding prune_from
  prune_from-recent i [] h = refl
  prune_from-recent i (msg ∷ history) h =
      rw
        (prune_message-recent i msg h, prune_from-recent (suc i) history (IsRecent-suc i protect h))
        refl

  drop-prune_from :
      (i : ℕ) (old recent : List (Message Json))
      → drop (length old) (pruned i (old ++ recent)) ≡ pruned (i + length old) recent
  unfolding prune_from
  drop-prune_from i [] recent = ap (λ j. pruned j recent) (omega arith)
  drop-prune_from i (msg ∷ old) recent =
      drop-prune_from (suc i) old recent ∙ ap (λ j. pruned j recent) (omega arith)

threshold-some :
    (n : ℕ) (xs : List ℕ) (p : Option ℕ)
    → threshold n xs ≡ some p
    → (p ≡ none)
      ⊎ ((t : ℕ) × (p ≡ some t) × (n < length xs) × (get_elem? xs (length xs - n) ≡ some t))
unfolding threshold
threshold-some n xs none e = inl refl
threshold-some n xs (some t) e = inr (t, refl, ground arith, ground arith)

module _ {Json : Type 0} where
  threshold-IsRecent :
      (n : ℕ) (protect : Option ℕ) (old recent : List (Message Json))
      → assistant_count recent < n
      → threshold n (assistant_indices 0 (old ++ recent)) ≡ some protect
      → IsRecent (length old) protect
  unfolding threshold is_before
  threshold-IsRecent n protect old recent h e =
      elim (threshold-some n (assistant_indices 0 (old ++ recent)) protect e) [
        | inl p ↦ rw p refl
        | inr (t, p, l, g) ↦
            let counted =
              length-assistant_indices 0 (old ++ recent) ∙ assistant_count-append old recent in
            let before = index-bound 0 _ t old recent (omega (arith, counted)) g in
            rw p (ground arith)
      ]

module _ {Json : Type 0} (null : Json) where
  prune_history-some :
      (opts : Options) (history : List (Message Json)) (protect hard : Option ℕ)
      → threshold opts.protect_recent (assistant_indices 0 history) ≡ some protect
      → threshold opts.hard_prune_after (assistant_indices 0 history) ≡ some hard
      → prune_history null opts history
        ≡ some (prune_from null opts protect hard (bootstrap_end 0 history) 0 history)
  unfolding prune_history
  prune_history-some opts history protect hard p q = ground arith

  recent-kept :
      (opts : Options) (protect hard bootstrap : Option ℕ) (old recent : List (Message Json))
      → threshold opts.protect_recent (assistant_indices 0 (old ++ recent)) ≡ some protect
      → assistant_count recent < opts.protect_recent
      → drop (length old) (prune_from null opts protect hard bootstrap 0 (old ++ recent)) ≡ recent
  recent-kept opts protect hard bootstrap old recent p few =
      let is_recent = threshold-IsRecent opts.protect_recent protect old recent few p in
      drop-prune_from null opts protect hard bootstrap 0 old recent
      ∙ ap (λ i. prune_from null opts protect hard bootstrap i recent) (omega arith)
      ∙ prune_from-recent null opts protect hard bootstrap (length old) recent is_recent

  -- Where hard_prune_after is at least 1 and the assistant has fewer than protect_recent messages
  -- in the end `recent` of a history, Prune without a token budget gives a history that ends with
  -- `recent`, and that has, message by message and block by block, the roles and the blocks of the
  -- old one, except that in place of a tool result there may be one of the same call that has
  -- another content and whose other fields are empty.
  pub prune_history-Keeps :
      (opts : Options) (old recent : List (Message Json))
      → assistant_count recent < opts.protect_recent
      → 1 ≤ opts.hard_prune_after
      → (new : List (Message Json)) × (prune_history null opts (old ++ recent) ≡ some new)
        × KeepsHistory null (old ++ recent) new
        × (drop (length old) new ≡ recent)
  prune_history-Keeps opts old recent few k =
      let history = old ++ recent in
      let (protect, p) =
        threshold-total opts.protect_recent (assistant_indices 0 history) (omega arith) in
      let (hard, q) = threshold-total opts.hard_prune_after (assistant_indices 0 history) k in
      (
        _,
        prune_history-some opts history protect hard p q,
        prune_from-Keeps null opts protect hard (bootstrap_end 0 history) 0 history,
        recent-kept opts protect hard (bootstrap_end 0 history) old recent p few,
      )

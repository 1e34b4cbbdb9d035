-- ===== src/Gateway/Lane/Overflow.antt =====
-- What SessionLane::ApplyCapOverflow keeps and drops, for each policy.
use rav_bot.Prelude.{
  ℕ, zero, suc, ◌+◌, ◌≤◌, ◌<◌, ◌≡◌, refl, ap, sym, ◌∙◌, List, [], ◌∷◌, ◌++◌, length, length-append,
  length-take, length-drop, length-map, length-reverse, take, drop, map, arith, append-nil,
  append_assoc,
}
use mathlib.Core.List.{reverse, reverse-append, map-append}
use rav_bot.Prelude.Int.{ℤ, pos}
use rav_bot.Prelude.Text.{Str}
use rav_bot.Gateway.Types.{QueuedCommand, DropPolicy, summarize, drop_oldest, reject}
use rav_bot.Gateway.Lane.Summary.{merge_messages}
use rav_bot.Gateway.Lane.{SessionLane, drop_one, overflow_loop, apply_cap_overflow, unsnoc}

module _ {Json : Type 0} where
  abbrev pub ids : List (QueuedCommand Json) → List Str
  ids = map (λ c. c.id)

  -- The oldest command after it has taken in the messages of others.
  abbrev pub absorb : QueuedCommand Json → List (QueuedCommand Json) → QueuedCommand Json
  absorb oldest [] = oldest
  absorb oldest (c ∷ cs) =
      absorb (record oldest { message = merge_messages oldest.message c.message }) cs

  -- What each policy keeps of a queue that has `extra` commands more than `limit`.
  abbrev pub kept : DropPolicy → ℕ → ℕ → List (QueuedCommand Json) → List (QueuedCommand Json)
  kept summarize limit extra [] = []
  kept summarize limit extra (oldest ∷ rest) = absorb oldest (take extra rest) ∷ drop extra rest
  kept drop_oldest limit extra queue = drop extra queue
  kept reject limit extra queue = take limit queue

  -- The IDs that it drops, in their order.
  abbrev pub gone : DropPolicy → ℕ → ℕ → List (QueuedCommand Json) → List Str
  gone summarize limit extra [] = []
  gone summarize limit extra (oldest ∷ rest) = ids (take extra rest)
  gone drop_oldest limit extra queue = ids (take extra queue)
  gone reject limit extra queue = reverse (ids (drop limit queue))

  within :
      (rounds cap : ℕ) (policy : DropPolicy) (queue : List (QueuedCommand Json)) (d : List Str)
      → length queue ≤ suc cap
      → overflow_loop rounds (pos (suc cap)) policy queue d ≡ (queue, d)
  unfolding overflow_loop
  within zero cap policy queue d h = refl
  within (suc rounds) cap policy queue d h = ground arith

  over :
      (rounds cap : ℕ) (policy : DropPolicy) (queue : List (QueuedCommand Json)) (d : List Str)
      → suc cap < length queue
      → overflow_loop (suc rounds) (pos (suc cap)) policy queue d
        ≡ overflow_loop rounds
            (pos (suc cap))
            policy
            (drop_one policy queue).0
            (d ++ (drop_one policy queue).1)
  unfolding overflow_loop
  over rounds cap policy queue d h = ground arith

  take-append :
      (n : ℕ) (xs : List (QueuedCommand Json)) (y : QueuedCommand Json)
      → n ≤ length xs
      → take n (xs ++ y ∷ []) ≡ take n xs
  take-append zero xs y h = refl
  take-append (suc n) [] y h = absurd (omega arith)
  take-append (suc n) (x ∷ xs) y h = ap (◌∷◌ x) (take-append n xs y (omega arith))

  drop-append :
      (n : ℕ) (xs : List (QueuedCommand Json)) (y : QueuedCommand Json)
      → n ≤ length xs
      → drop n (xs ++ y ∷ []) ≡ drop n xs ++ y ∷ []
  drop-append zero xs y h = refl
  drop-append (suc n) [] y h = absurd (omega arith)
  drop-append (suc n) (x ∷ xs) y h = drop-append n xs y (omega arith)

  reverse-ids-drop :
      (n : ℕ) (xs : List (QueuedCommand Json)) (y : QueuedCommand Json)
      → n ≤ length xs
      → reverse (ids (drop n (xs ++ y ∷ []))) ≡ y.id ∷ reverse (ids (drop n xs))
  reverse-ids-drop n xs y h =
      rw (drop-append n xs y h, map-append) (reverse-append (ids (drop n xs)) (y.id ∷ []))

  exactly :
      (policy : DropPolicy) (limit : ℕ) (queue : List (QueuedCommand Json))
      → length queue ≡ limit
      → (kept policy limit 0 queue ≡ queue) × (gone policy limit 0 queue ≡ [])
  exactly summarize limit [] h = (refl, refl)
  exactly summarize limit (x ∷ queue) h = (refl, refl)
  exactly drop_oldest limit queue h = (refl, refl)
  exactly reject zero [] h = (refl, refl)
  exactly reject zero (x ∷ queue) h = absurd (omega arith)
  exactly reject (suc limit) [] h = absurd (omega arith)
  exactly reject (suc limit) (x ∷ queue) h =
      let (k, g) = exactly reject limit queue (omega arith) in (ap (◌∷◌ x) k, g)

  unsnoc_lem :
      (x : QueuedCommand Json) (xs : List (QueuedCommand Json))
      → x ∷ xs ≡ (unsnoc x xs).0 ++ (unsnoc x xs).1 ∷ []
  unsnoc_lem x [] = refl
  unsnoc_lem x (y ∷ ys) = ap (◌∷◌ x) (unsnoc_lem y ys)

  -- One round leaves what the policy keeps, and adds to what it drops.
  drop_one-kept :
      (policy : DropPolicy) (cap extra : ℕ) (queue : List (QueuedCommand Json))
      → length queue ≡ suc cap + suc extra
      → (length (drop_one policy queue).0 ≡ suc cap + extra)
        × (kept policy (suc cap) extra (drop_one policy queue).0
            ≡ kept policy (suc cap) (suc extra) queue)
        × ((drop_one policy queue).1 ++ gone policy (suc cap) extra (drop_one policy queue).0
            ≡ gone policy (suc cap) (suc extra) queue)
  unfolding drop_one
  drop_one-kept summarize cap extra (x ∷ y ∷ queue) h = (omega arith, refl, refl)
  drop_one-kept summarize cap extra (x ∷ []) h = absurd (omega arith)
  drop_one-kept summarize cap extra [] h = absurd (omega arith)
  drop_one-kept drop_oldest cap extra (x ∷ queue) h = (omega arith, refl, refl)
  drop_one-kept drop_oldest cap extra [] h = absurd (omega arith)
  drop_one-kept reject cap extra (x ∷ queue) h =
      let (front, last) = unsnoc x queue in
      let e : x ∷ queue ≡ front ++ last ∷ [] = unsnoc_lem x queue in
      let n : length front ≡ suc cap + extra =
        omega (arith, ap length e, length-append front (last ∷ [])) in
      (
        n,
        sym (take-append (suc cap) front last (omega arith)) ∙ ap (take (suc cap)) (sym e),
        sym (
            ap (λ l. reverse (ids (drop (suc cap) l))) e
            ∙ reverse-ids-drop (suc cap) front last (omega arith)),
      )
  drop_one-kept reject cap extra [] h = absurd (omega arith)

  overflow_loop-kept :
      (rounds cap extra : ℕ) (policy : DropPolicy) (queue : List (QueuedCommand Json))
      (d : List Str)
      → extra ≤ rounds
      → length queue ≡ suc cap + extra
      → overflow_loop rounds (pos (suc cap)) policy queue d
        ≡ (kept policy (suc cap) extra queue, d ++ gone policy (suc cap) extra queue)
  overflow_loop-kept rounds cap zero policy queue d r h =
      let (k, g) = exactly policy (suc cap) queue (omega arith) in
      within rounds cap policy queue d (omega arith) ∙ rw (k, g, append-nil)
  overflow_loop-kept zero cap (suc extra) policy queue d r h = absurd (omega arith)
  overflow_loop-kept (suc rounds) cap (suc extra) policy queue d r h =
      let (n, k, g) = drop_one-kept policy cap extra queue h in
      over rounds cap policy queue d (omega arith)
      ∙ overflow_loop-kept rounds cap extra policy _ _ (omega arith) n
      ∙ rw (k, append_assoc, g)

  sizes :
      (policy : DropPolicy) (limit extra : ℕ) (queue : List (QueuedCommand Json))
      → 0 < limit
      → length queue ≡ limit + extra
      → (length (kept policy limit extra queue) ≡ limit)
        × (length (gone policy limit extra queue) ≡ extra)
  sizes summarize limit extra [] l h = absurd (omega arith)
  sizes summarize limit extra (x ∷ queue) l h = omega (
    arith,
    length-drop extra queue,
    length-take extra queue,
    length-map (λ (c : QueuedCommand Json). c.id) (take extra queue),
  )
  sizes drop_oldest limit extra queue l h = omega (
    arith,
    length-drop extra queue,
    length-take extra queue,
    length-map (λ (c : QueuedCommand Json). c.id) (take extra queue),
  )
  sizes reject limit extra queue l h = omega (
    arith,
    length-take limit queue,
    length-drop limit queue,
    length-map (λ (c : QueuedCommand Json). c.id) (drop limit queue),
    length-reverse (ids (drop limit queue)),
  )

  abbrev run : SessionLane Json → ℤ → List (QueuedCommand Json) × List Str
  run lane cap = overflow_loop (length lane.pending) cap lane.drop lane.pending []

  -- With a cap of at least 1, a queue within the cap stays as it is; of a longer one there remain
  -- as many commands as the cap. Summarizing keeps the oldest command, with the messages of those
  -- that were dropped merged into its own in their order, and the newest commands unchanged;
  -- dropping the oldest keeps the newest commands; rejecting keeps the oldest. The reported IDs are
  -- those of the commands that are gone.
  pub apply_cap_overflow-kept :
      (lane : SessionLane Json) (cap : ℕ)
      → lane.cap ≡ pos (suc cap)
      → let (after, dropped) = apply_cap_overflow lane in
        (length lane.pending ≤ suc cap → (after ≡ lane) × (dropped ≡ []))
        × ((extra : ℕ)
            → length lane.pending ≡ suc cap + extra
            → (after.pending ≡ kept lane.drop (suc cap) extra lane.pending)
              × (dropped ≡ gone lane.drop (suc cap) extra lane.pending)
              × (length after.pending ≡ suc cap)
              × (length dropped ≡ extra))
  unfolding apply_cap_overflow
  apply_cap_overflow-kept lane cap e = (
    λ h.
        let w = ap (run lane) e ∙ within (length lane.pending) cap lane.drop lane.pending [] h in
        (rw w, rw w),
    λ extra h.
        let w =
          ap (run lane) e
          ∙ overflow_loop-kept (length lane.pending) cap extra lane.drop lane.pending []
              (omega arith) h in
        let (k, g) = sizes lane.drop (suc cap) extra lane.pending (omega arith) h in
        (rw w, rw w, rw w k, rw w g),
  )

-- ===== src/Channels/Deduplication/History.antt =====
-- The answers of the store after any history of marks and clean-ups.
use rav_bot.Prelude.{◌≡◌, ◌∙◌, Bool, true, false, ◌||◌, List, [], ◌∷◌, any, arith, if◌then◌else◌}
use rav_bot.Prelude.Int.{ℤ, pos, ◌-ℤ◌, leb_ℤ, ltb_ℤ, eq_ℤ}
use rav_bot.Channels.Deduplication.{
  DeduplicationStore, empty_store, is_processed, insert_id, mark_processed, cleanup, erase_below,
  retained,
}

pub data Event : Type 0 where
  mark : ℤ → Event
  clean : ℤ → Event

unfoldable pub apply : Event → DeduplicationStore → DeduplicationStore
apply (mark id) s = mark_processed id s
apply (clean hours) s = cleanup hours s

unfoldable pub run : List Event → DeduplicationStore → DeduplicationStore
run [] s = s
run (e ∷ es) s = run es (apply e s)

-- The history marks the ID or a larger one.
unfoldable pub reached : ℤ → List Event → Bool
reached id [] = false
reached id (mark m ∷ es) = leb_ℤ id m || reached id es
reached id (clean hours ∷ es) = reached id es

-- No ID of the set is above the watermark.
Below : ℤ → List ℤ → Type 0
Below w [] = Unit
Below w (x ∷ xs) = (leb_ℤ x w ≡ true) × Below w xs

insert_id-Below : (w x : ℤ) (xs : List ℤ) → leb_ℤ x w ≡ true → Below w xs → Below w (insert_id x xs)
unfolding insert_id Below
insert_id-Below w x [] h b = (h, tt)
insert_id-Below w x (y ∷ ys) h b = ground (arith, insert_id-Below w x ys h b.1)

erase_below-Below : (w t : ℤ) (xs : List ℤ) → Below w xs → Below w (erase_below t xs)
unfolding erase_below Below
erase_below-Below w t [] b = tt
erase_below-Below w t (x ∷ xs) b = ground (arith, erase_below-Below w t xs b.1)

Below-mono : (v w : ℤ) (xs : List ℤ) → leb_ℤ v w ≡ true → Below v xs → Below w xs
unfolding Below
Below-mono v w [] h b = tt
Below-mono v w (x ∷ xs) h b = (ground arith, Below-mono v w xs h b.1)

any-Below :
    (id w : ℤ) (xs : List ℤ) → Below w xs → any (λ x. eq_ℤ x id) xs ≡ true → leb_ℤ id w ≡ true
unfolding Below
any-Below id w [] b h = absurd (cc)
any-Below id w (x ∷ xs) b h = ground (arith, any-Below id w xs b.1)

is_processed-Below :
    (id : ℤ) (s : DeduplicationStore)
    → Below s.watermark s.processed_ids
    → is_processed id s ≡ leb_ℤ id s.watermark
unfolding is_processed
is_processed-Below id s b = ground (arith, any-Below id s.watermark s.processed_ids b)

run-watermark :
    (id : ℤ) (es : List Event) (s : DeduplicationStore)
    → leb_ℤ id (run es s).watermark ≡ (leb_ℤ id s.watermark || reached id es)
unfolding run apply reached mark_processed cleanup
run-watermark id [] s = ground arith
run-watermark id (mark m ∷ es) s = ground (arith, run-watermark id es (mark_processed m s))
run-watermark id (clean hours ∷ es) s = ground (arith, run-watermark id es (cleanup hours s))

apply-Below :
    (e : Event) (s : DeduplicationStore)
    → Below s.watermark s.processed_ids
    → Below (apply e s).watermark (apply e s).processed_ids
unfolding apply mark_processed cleanup
apply-Below (mark m) s b =
    let w : ℤ = if ltb_ℤ s.watermark m then m else s.watermark in
    insert_id-Below w m s.processed_ids (ground arith)
      (Below-mono s.watermark w s.processed_ids (ground arith) b)
apply-Below (clean hours) s b =
    erase_below-Below s.watermark (s.watermark -ℤ retained hours) s.processed_ids b

run-Below :
    (es : List Event) (s : DeduplicationStore)
    → Below s.watermark s.processed_ids
    → Below (run es s).watermark (run es s).processed_ids
unfolding run
run-Below [] s b = b
run-Below (e ∷ es) s b = run-Below es (apply e s) (apply-Below e s b)

-- After any history of marks and clean-ups on a new store, an ID counts as processed exactly when
-- it is at most 0 or at most an ID that was marked: clean-ups change no answer, and an ID below a
-- marked one counts as processed whether or not it was marked.
pub is_processed-run :
    (id : ℤ) (es : List Event)
    → is_processed id (run es empty_store) ≡ (leb_ℤ id (pos 0) || reached id es)
unfolding Below
is_processed-run id es =
    is_processed-Below id (run es empty_store) (run-Below es empty_store tt)
    ∙ run-watermark id es empty_store

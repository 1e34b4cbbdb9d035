-- ===== src/Channels/Deduplication/Persistence.antt =====
-- Save and Load: what a store has after a restart.
use rav_bot.Prelude.{
  ℕ, ◌-◌, ◌^◌, ◌≤◌, ◌<◌, ◌≡◌, refl, ap, sym, ◌∙◌, subst, true, List, [], ◌∷◌, ◌++◌, append-nil,
  append_assoc, arith,
}
use rav_bot.Prelude.Int.{ℤ, pos, negsuc, ltb_ℤ, pos_part, neg_part}
use rav_bot.Channels.Deduplication.{DeduplicationStore, save, load, to_int, insert_id, insert_ids}

-- x is below every element.
Under : ℤ → List ℤ → Type 0
Under x [] = Unit
Under x (y ∷ ys) = (ltb_ℤ x y ≡ true) × Under x ys

-- The list of a set: each ID is below those after it.
unfoldable pub IsSorted : List ℤ → Type 0
unfolding Under
IsSorted [] = Unit
IsSorted (x ∷ xs) = Under x xs × IsSorted xs

Under-middle : (x y : ℤ) (xs rest : List ℤ) → Under y (xs ++ x ∷ rest) → ltb_ℤ y x ≡ true
unfolding Under
Under-middle x y [] rest h = h.0
Under-middle x y (z ∷ zs) rest h = Under-middle x y zs rest h.1

insert_id-last :
    (x : ℤ) (xs rest : List ℤ) → IsSorted (xs ++ x ∷ rest) → insert_id x xs ≡ xs ++ x ∷ []
unfolding insert_id IsSorted Under
insert_id-last x [] rest h = refl
insert_id-last x (y ∷ ys) rest h =
    ground (arith, Under-middle x y ys rest h.0, insert_id-last x ys rest h.1)

insert_ids-sorted : (ids set : List ℤ) → IsSorted (set ++ ids) → insert_ids ids set ≡ set ++ ids
unfolding insert_ids
insert_ids-sorted [] set h = sym (append-nil set)
insert_ids-sorted (id ∷ ids) set h =
    ap (insert_ids ids) (insert_id-last id set ids h)
    ∙ insert_ids-sorted ids (set ++ id ∷ [])
        (subst IsSorted (sym (append_assoc set (id ∷ []) ids)) h)
    ∙ append_assoc set (id ∷ []) ids

to_int_small : (z : ℤ) → pos_part z < 2 ^ 31 → neg_part z ≤ 2 ^ 31 → to_int z ≡ z
unfolding to_int
to_int_small (pos n) h k = ground arith
to_int_small (negsuc n) h k = ground arith

-- A store whose set is sorted and whose watermark fits in 32 bits is the same after it is saved
-- and loaded.
load-save :
    (s : DeduplicationStore)
    → IsSorted s.processed_ids
    → pos_part s.watermark < 2 ^ 31
    → neg_part s.watermark ≤ 2 ^ 31
    → load (save s) ≡ s
unfolding load save
load-save s h p n =
    ground (arith, to_int_small s.watermark p n, insert_ids-sorted s.processed_ids [] h)

-- A watermark from 2^31 up to 2^32 - 1 is loaded as a negative number, 2^32 less.
load_wraps :
    (w : ℕ) (ids : List ℤ)
    → 2 ^ 31 ≤ w
    → w < 2 ^ 32
    → (load (save (record { watermark = pos w; processed_ids = ids }))).watermark
      ≡ negsuc (2 ^ 32 - 1 - w)
unfolding load save to_int
load_wraps w ids h k = ground arith

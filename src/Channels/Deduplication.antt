-- ===== src/Channels/Deduplication.antt =====
-- include/ravbot/channels/deduplication_store.hpp and src/channels/deduplication_store.cpp. The
-- set of IDs is its sorted list, and the JSON file a record of the two values that it holds.
pub mod History
pub mod Persistence
use rav_bot.Prelude.{
  ℕ, zero, suc, ◌+◌, ◌-◌, ◌*◌, ◌/◌, ◌%◌, ◌^◌, Bool, true, false, ◌||◌, List, [], ◌∷◌, any, ltb,
  if◌then◌else◌,
}
use rav_bot.Prelude.Int.{ℤ, pos, negsuc, pos_part, neg_part, sub_ℕ, ◌-ℤ◌, ltb_ℤ, leb_ℤ, eq_ℤ}

pub record DeduplicationStore : Type 0 where
  pub watermark : ℤ
  pub processed_ids : List ℤ

abbrev pub empty_store : DeduplicationStore
empty_store = record { watermark = pos 0; processed_ids = [] }

unfoldable pub is_processed : ℤ → DeduplicationStore → Bool
is_processed update_id s =
    leb_ℤ update_id s.watermark || any (λ id. eq_ℤ id update_id) s.processed_ids

-- processed_ids_.insert(x)
unfoldable pub insert_id : ℤ → List ℤ → List ℤ
insert_id x [] = x ∷ []
insert_id x (y ∷ ys) =
    let rest = insert_id x ys in
    if ltb_ℤ x y then x ∷ y ∷ ys else if eq_ℤ x y then y ∷ ys else y ∷ rest

unfoldable pub mark_processed : ℤ → DeduplicationStore → DeduplicationStore
mark_processed update_id s = record {
  watermark = if ltb_ℤ s.watermark update_id then update_id else s.watermark;
  processed_ids = insert_id update_id s.processed_ids;
}

unfoldable pub set_watermark : ℤ → DeduplicationStore → DeduplicationStore
set_watermark watermark s = record s { watermark = watermark }

-- retention.count() / 24 * 10000, where `/` rounds towards zero.
abbrev pub retained : ℤ → ℤ
retained hours = sub_ℕ (pos_part hours / 24 * 10000) (neg_part hours / 24 * 10000)

-- The loop that erases from the front.
unfoldable pub erase_below : ℤ → List ℤ → List ℤ
erase_below threshold [] = []
erase_below threshold (id ∷ ids) =
    let rest = erase_below threshold ids in if ltb_ℤ id threshold then rest else id ∷ ids

unfoldable pub cleanup : ℤ → DeduplicationStore → DeduplicationStore
cleanup hours s = record s {
  processed_ids = erase_below (s.watermark -ℤ retained hours) s.processed_ids;
}

pub record StoreFile : Type 0 where
  pub watermark : ℤ
  pub processed_ids : List ℤ

unfoldable pub save : DeduplicationStore → StoreFile
save s = record { watermark = s.watermark; processed_ids = s.processed_ids }

-- The value of an `int`, 32 bits wide, from an integer.
unfoldable pub to_int : ℤ → ℤ
to_int (pos n) =
    if ltb (n % 2 ^ 32) (2 ^ 31) then pos (n % 2 ^ 32) else negsuc (2 ^ 32 - 1 - n % 2 ^ 32)
to_int (negsuc n) =
    if ltb (n % 2 ^ 32) (2 ^ 31) then negsuc (n % 2 ^ 32) else pos (2 ^ 32 - 1 - n % 2 ^ 32)

unfoldable pub insert_ids : List ℤ → List ℤ → List ℤ
insert_ids [] set = set
insert_ids (id ∷ ids) set = insert_ids ids (insert_id id set)

-- The part of Load after the file is read: `value("watermark", 0)` reads an `int`.
unfoldable pub load : StoreFile → DeduplicationStore
unfolding to_int insert_ids
load file = record {
  watermark = to_int file.watermark;
  processed_ids = insert_ids file.processed_ids [];
}

-- ===== src/Channels/Policy/Pairing.antt =====
-- The class PairingManager. A set of senders is the list of its elements; the random code is an
-- argument.
use rav_bot.Prelude.{
  Bool, true, false, not, List, [], ◌∷◌, ◌++◌, none, some, if◌then◌else◌, any, filter,
}
use rav_bot.Prelude.Text.{Str, str_eq}
use rav_bot.Prelude.Map.{Map, lookup, insert, erase}

pub record PairingManager : Type 0 where
  pub codes : Map Str
  pub paired : Map (List Str)

abbrev pub no_pairing : PairingManager
no_pairing = record { codes = []; paired = [] }

unfoldable pub generate_code : Str → Str → PairingManager → PairingManager
generate_code channel_id code m = record m { codes = insert channel_id code m.codes }

abbrev pub has_sender : Str → List Str → Bool
has_sender sender_id senders = any (λ s. str_eq s sender_id) senders

unfoldable pub insert_sender : Str → List Str → List Str
insert_sender sender_id senders =
    if has_sender sender_id senders then senders else senders ++ sender_id ∷ []

unfoldable pub paired_senders : Str → PairingManager → List Str
paired_senders channel_id m = elim (lookup channel_id m.paired) [ none ↦ [] | some s ↦ s ]

unfoldable pub pair_sender : Str → Str → PairingManager → PairingManager
unfolding insert_sender paired_senders
pair_sender channel_id sender_id m = record {
  codes = erase channel_id m.codes;
  paired = insert channel_id (insert_sender sender_id (paired_senders channel_id m)) m.paired;
}

unfoldable pub verify_code : Str → Str → Str → PairingManager → Bool × PairingManager
unfolding pair_sender
verify_code channel_id code sender_id m = elim (lookup channel_id m.codes) [
  | none ↦ (false, m)
  | some c ↦ if str_eq c code then (true, pair_sender channel_id sender_id m) else (false, m)
]

unfoldable pub is_paired : Str → Str → PairingManager → Bool
is_paired channel_id sender_id m = elim (lookup channel_id m.paired) [
  | none ↦ false
  | some senders ↦ has_sender sender_id senders
]

unfoldable pub unpair : Str → Str → PairingManager → PairingManager
unpair channel_id sender_id m = elim (lookup channel_id m.paired) [
  | none ↦ m
  | some senders ↦ record m {
    paired = insert channel_id (filter (λ s. not (str_eq s sender_id)) senders) m.paired;
  }
]

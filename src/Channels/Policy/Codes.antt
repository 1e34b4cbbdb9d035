-- ===== src/Channels/Policy/Codes.antt =====
-- How many senders the codes of a channel pair, and which.
use rav_bot.Prelude.{
  ℕ, ◌+◌, ◌≤◌, ◌≡◌, refl, Bool, not, ◌&&◌, ◌||◌, List, [], ◌∷◌, ◌++◌, is_some, arith, Option-cases,
  inl, inr, if◌then◌else◌, filter, length, length-append,
}
use rav_bot.Prelude.Text.{Str, str_eq, str_eq_iff}
use rav_bot.Prelude.Map.{lookup, lookup-insert, lookup-erase}
use rav_bot.Channels.Policy.Pairing.{
  PairingManager, no_pairing, generate_code, has_sender, insert_sender, paired_senders, pair_sender,
  verify_code, is_paired, unpair,
}

pub data Call : Type 0 where
  generated : Str → Str → Call
  verified : Str → Str → Str → Call
  unpaired : Str → Str → Call

unfoldable pub step : Call → PairingManager → PairingManager
unfolding generate_code verify_code unpair
step (generated channel code) m = generate_code channel code m
step (verified channel code sender) m = (verify_code channel code sender m).1
step (unpaired channel sender) m = unpair channel sender m

unfoldable pub run : List Call → PairingManager → PairingManager
unfolding step
run [] m = m
run (c ∷ cs) m = run cs (step c m)

abbrev one_if : Bool → ℕ
one_if b = if b then 1 else 0

-- The codes that are generated for a channel.
unfoldable pub generated_count : Str → List Call → ℕ
generated_count channel [] = 0
generated_count channel (generated c code ∷ cs) =
    one_if (str_eq c channel) + generated_count channel cs
generated_count channel (c ∷ cs) = generated_count channel cs

-- The calls of VerifyCode for a channel that return true.
unfoldable pub verified_count : Str → List Call → PairingManager → ℕ
unfolding step verify_code
verified_count channel [] m = 0
verified_count channel (verified c code sender ∷ cs) m =
    one_if (str_eq c channel && (verify_code c code sender m).0)
    + verified_count channel cs (step (verified c code sender) m)
verified_count channel (c ∷ cs) m = verified_count channel cs (step c m)

open_codes : Str → PairingManager → ℕ
open_codes channel m = one_if (is_some (lookup channel m.codes))

open_codes-generate_code :
    (channel c code : Str) (m : PairingManager)
    → open_codes channel (generate_code c code m) ≤ one_if (str_eq c channel) + open_codes channel m
unfolding open_codes generate_code
open_codes-generate_code channel c code m = ground (arith, lookup-insert c channel code m.codes)

open_codes-verify_code :
    (channel c code sender : Str) (m : PairingManager)
    → one_if (str_eq c channel && (verify_code c code sender m).0)
        + open_codes channel (verify_code c code sender m).1
      ≤ open_codes channel m
unfolding open_codes verify_code pair_sender
open_codes-verify_code channel c code sender m =
    ground (arith, lookup-erase c channel m.codes, str_eq_iff c channel)

open_codes-unpair :
    (channel c sender : Str) (m : PairingManager)
    → open_codes channel (unpair c sender m) ≡ open_codes channel m
unfolding open_codes unpair
open_codes-unpair channel c sender m = ground arith

verified_count-le :
    (channel : Str) (cs : List Call) (m : PairingManager)
    → verified_count channel cs m ≤ generated_count channel cs + open_codes channel m
unfolding verified_count generated_count step
verified_count-le channel [] m = omega arith
verified_count-le channel (generated c code ∷ cs) m = omega (
  arith,
  verified_count-le channel cs (generate_code c code m),
  open_codes-generate_code channel c code m,
)
verified_count-le channel (verified c code sender ∷ cs) m = omega (
  arith,
  verified_count-le channel cs (verify_code c code sender m).1,
  open_codes-verify_code channel c code sender m,
)
verified_count-le channel (unpaired c sender ∷ cs) m =
    omega (
      arith,
      verified_count-le channel cs (unpair c sender m),
      open_codes-unpair channel c sender m,
    )

length-insert_sender :
    (sender : Str) (senders : List Str) → length (insert_sender sender senders) ≤ length senders + 1
unfolding insert_sender
length-insert_sender sender senders = ground (arith, length-append senders (sender ∷ []))

length-filter-le :
    (p : Str → Bool) (senders : List Str) → length (filter p senders) ≤ length senders
length-filter-le p [] = omega arith
length-filter-le p (s ∷ senders) = ground (arith, length-filter-le p senders)

paired_count : Str → PairingManager → ℕ
paired_count channel m = length (paired_senders channel m)

paired_count-verify_code :
    (channel c code sender : Str) (m : PairingManager)
    → paired_count channel (verify_code c code sender m).1
      ≤ paired_count channel m + one_if (str_eq c channel && (verify_code c code sender m).0)
unfolding paired_count paired_senders verify_code pair_sender
paired_count-verify_code channel c code sender m = elim (Option-cases (lookup c m.paired)) [
  | inl l ↦ ground (
    arith,
    l,
    lookup-insert c channel (insert_sender sender []) m.paired,
    length-insert_sender sender [],
    str_eq_iff c channel,
  )
  | inr (senders, l) ↦ ground (
    arith,
    l,
    lookup-insert c channel (insert_sender sender senders) m.paired,
    length-insert_sender sender senders,
    str_eq_iff c channel,
  )
]

paired_count-unpair :
    (channel c sender : Str) (m : PairingManager)
    → paired_count channel (unpair c sender m) ≤ paired_count channel m
unfolding paired_count paired_senders unpair
paired_count-unpair channel c sender m = elim (Option-cases (lookup c m.paired)) [
  | inl l ↦ ground (arith, l)
  | inr (senders, l) ↦ ground (
    arith,
    l,
    lookup-insert c channel (filter (λ s. not (str_eq s sender)) senders) m.paired,
    length-filter-le (λ s. not (str_eq s sender)) senders,
    str_eq_iff c channel,
  )
]

paired_count-generate_code :
    (channel c code : Str) (m : PairingManager)
    → paired_count channel (generate_code c code m) ≡ paired_count channel m
unfolding paired_count paired_senders generate_code
paired_count-generate_code channel c code m = refl

paired_count-run :
    (channel : Str) (cs : List Call) (m : PairingManager)
    → paired_count channel (run cs m) ≤ paired_count channel m + verified_count channel cs m
unfolding run step verified_count
paired_count-run channel [] m = omega arith
paired_count-run channel (generated c code ∷ cs) m = omega (
  arith,
  paired_count-run channel cs (generate_code c code m),
  paired_count-generate_code channel c code m,
)
paired_count-run channel (verified c code sender ∷ cs) m = omega (
  arith,
  paired_count-run channel cs (verify_code c code sender m).1,
  paired_count-verify_code channel c code sender m,
)
paired_count-run channel (unpaired c sender ∷ cs) m =
    omega (
      arith,
      paired_count-run channel cs (unpair c sender m),
      paired_count-unpair channel c sender m,
    )

-- Whatever the calls of a new manager, a channel has no more paired senders than VerifyCode
-- returned true for it, and that is no more often than codes were generated for it: a code is
-- used once, and only a code pairs a sender.
pub verified_count_bound :
    (channel : Str) (cs : List Call)
    → (length (paired_senders channel (run cs no_pairing)) ≤ verified_count channel cs no_pairing)
      × (verified_count channel cs no_pairing ≤ generated_count channel cs)
verified_count_bound channel cs = (
  unfold paired_count in omega (arith, paired_count-run channel cs no_pairing, nobody),
  omega (arith, verified_count-le channel cs no_pairing, nothing_open),
)
  where
    nothing_open : open_codes channel no_pairing ≡ 0
    nothing_open = unfold open_codes lookup in refl

    nobody : paired_count channel no_pairing ≡ 0
    nobody = unfold paired_count paired_senders lookup in refl

has_sender-append :
    (s t : Str) (senders : List Str)
    → has_sender s (senders ++ t ∷ []) ≡ (str_eq t s || has_sender s senders)
has_sender-append s t [] = refl
has_sender-append s t (r ∷ senders) = ground (arith, has_sender-append s t senders)

has_sender-insert_sender :
    (s t : Str) (senders : List Str)
    → has_sender s (insert_sender t senders) ≡ (str_eq t s || has_sender s senders)
unfolding insert_sender
has_sender-insert_sender s t senders = ground (arith, has_sender-append s t senders, str_eq_iff t s)

has_sender-remove :
    (s t : Str) (senders : List Str)
    → has_sender s (filter (λ r. not (str_eq r t)) senders)
      ≡ (not (str_eq t s) && has_sender s senders)
has_sender-remove s t [] = ground arith
has_sender-remove s t (r ∷ senders) =
    ground (arith, has_sender-remove s t senders, str_eq_iff r t, str_eq_iff r s, str_eq_iff t s)

is_paired-pair_sender :
    (channel sender c s : Str) (m : PairingManager)
    → is_paired channel sender (pair_sender c s m)
      ≡ (str_eq c channel && str_eq s sender || is_paired channel sender m)
unfolding is_paired pair_sender paired_senders
is_paired-pair_sender channel sender c s m = elim (Option-cases (lookup c m.paired)) [
  | inl l ↦ ground (
    arith,
    l,
    lookup-insert c channel (insert_sender s []) m.paired,
    has_sender-insert_sender sender s [],
    str_eq_iff c channel,
  )
  | inr (senders, l) ↦ ground (
    arith,
    l,
    lookup-insert c channel (insert_sender s senders) m.paired,
    has_sender-insert_sender sender s senders,
    str_eq_iff c channel,
  )
]

is_paired-unpair :
    (channel sender c s : Str) (m : PairingManager)
    → is_paired channel sender (unpair c s m)
      ≡ (not (str_eq c channel && str_eq s sender) && is_paired channel sender m)
unfolding is_paired unpair
is_paired-unpair channel sender c s m = elim (Option-cases (lookup c m.paired)) [
  | inl l ↦ ground (arith, l, str_eq_iff c channel)
  | inr (senders, l) ↦ ground (
    arith,
    l,
    lookup-insert c channel (filter (λ r. not (str_eq r s)) senders) m.paired,
    has_sender-remove sender s senders,
    str_eq_iff c channel,
  )
]

is_paired-verify_code :
    (channel sender c code s : Str) (m : PairingManager)
    → is_paired channel sender (verify_code c code s m).1 ≡ (
        (verify_code c code s m).0 && str_eq c channel && str_eq s sender
        || is_paired channel sender m)
unfolding verify_code
is_paired-verify_code channel sender c code s m =
    ground (arith, is_paired-pair_sender channel sender c s m)

-- Who is paired after a call: the sender of a successful VerifyCode is added, the one of Unpair
-- is removed, and nobody else changes.
is_paired-step :
    (channel sender c code s : Str) (m : PairingManager)
    → (is_paired channel sender (verify_code c code s m).1 ≡ (
        (verify_code c code s m).0 && str_eq c channel && str_eq s sender
        || is_paired channel sender m))
      × (is_paired channel sender (unpair c s m)
          ≡ (not (str_eq c channel && str_eq s sender) && is_paired channel sender m))
is_paired-step channel sender c code s m =
    (is_paired-verify_code channel sender c code s m, is_paired-unpair channel sender c s m)

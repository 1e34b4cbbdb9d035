-- ===== src/Gateway/DevicePairing/Tokens.antt =====
-- The tokens of the paired devices.
use rav_bot.Prelude.{
  ◌≡◌, refl, ap, ◌∙◌, ◌&&◌, List, [], ◌∷◌, none, some, arith, if◌then◌else◌, is_empty, is_some,
  Option-cases, inl, inr,
}
use rav_bot.Prelude.Int.{ℤ}
use rav_bot.Prelude.Text.{Str, str_eq, str_eq_iff}
use rav_bot.Prelude.Map.{Map, lookup, insert, erase, lookup-insert, lookup-erase}
use rav_bot.Gateway.DevicePairing.{
  DeviceToken, PairedDevice, DevicePairingManager, has_device_id, find_if, find_paired_device,
  change_first, with_tokens, new_token, rotate_device_token, revoke_device_token, token_of,
}
use mathlib.Core.Option

find_if-change_first :
    (i id : Str) (f : Map DeviceToken → Map DeviceToken) (ds : List PairedDevice)
    → find_if (has_device_id i) (change_first (has_device_id id) (with_tokens f) ds) ≡ (
        if str_eq id i
        then Option.map (with_tokens f) (find_if (has_device_id i) ds)
        else find_if (has_device_id i) ds)
unfolding find_if change_first
find_if-change_first i id f [] = ground arith
find_if-change_first i id f (d ∷ ds) = ground (
  arith,
  find_if-change_first i id f ds,
  str_eq_iff d.device_id i,
  str_eq_iff d.device_id id,
  str_eq_iff id i,
)

token_of-change_first :
    (i r id : Str) (f : Map DeviceToken → Map DeviceToken) (m : DevicePairingManager)
    → token_of i r (record m {
      paired_devices = change_first (has_device_id id) (with_tokens f) m.paired_devices;
    })
      ≡ elim (find_paired_device i m) [
        | none ↦ none
        | some d ↦ lookup r (if str_eq id i then f d.tokens else d.tokens)
      ]
unfolding token_of find_paired_device
token_of-change_first i r id f m = ground (arith, find_if-change_first i id f m.paired_devices)

rotate_device_token_found :
    (id role token : Str) (scopes : List Str) (now : ℤ) (d : PairedDevice)
    (m : DevicePairingManager)
    → find_paired_device id m ≡ some d
    → rotate_device_token id role scopes token now m ≡ (
      some (new_token d role scopes token now),
      record m {
        paired_devices =
            change_first
              (has_device_id id)
              (with_tokens (insert role (new_token d role scopes token now)))
              m.paired_devices;
      },
    )
unfolding rotate_device_token
rotate_device_token_found id role token scopes now d m h = ground arith

token_of-insert :
    (id role i r : Str) (t : DeviceToken) (d : PairedDevice) (m : DevicePairingManager)
    → find_paired_device id m ≡ some d
    → token_of i r (record m {
      paired_devices =
          change_first (has_device_id id) (with_tokens (insert role t)) m.paired_devices;
    })
      ≡ (if str_eq id i && str_eq role r then some t else token_of i r m)
token_of-insert id role i r t d m h =
    token_of-change_first i r id (insert role t) m
    ∙ unfold token_of in ground (arith, h, str_eq_iff id i, lookup-insert role r t d.tokens)

token_of-erase :
    (id role i r : Str) (d : PairedDevice) (m : DevicePairingManager)
    → find_paired_device id m ≡ some d
    → token_of i r (record m {
      paired_devices = change_first (has_device_id id) (with_tokens (erase role)) m.paired_devices;
    })
      ≡ (if str_eq id i && str_eq role r then none else token_of i r m)
token_of-erase id role i r d m h =
    token_of-change_first i r id (erase role) m
    ∙ unfold token_of in ground (arith, h, str_eq_iff id i, lookup-erase role r d.tokens)

-- Rotating the token of a known device gives the new one for its role, with the scopes that are
-- asked for, whatever the approved ones are, and those only where none are asked for. No other
-- token changes.
rotate_device_token_effect :
    (id role token i r : Str) (scopes : List Str) (now : ℤ) (d : PairedDevice)
    (m : DevicePairingManager)
    → find_paired_device id m ≡ some d
    → let t = new_token d role scopes token now in
      ((rotate_device_token id role scopes token now m).0 ≡ some t)
      × (t.scopes ≡ (if is_empty scopes then d.approved_scopes else scopes))
      × (token_of i r (rotate_device_token id role scopes token now m).1
          ≡ (if str_eq id i && str_eq role r then some t else token_of i r m))
rotate_device_token_effect id role token i r scopes now d m h = (
  ap (λ p. p.0) (rotate_device_token_found id role token scopes now d m h),
  unfold new_token in refl,
  ap (λ p. token_of i r p.1) (rotate_device_token_found id role token scopes now d m h)
      ∙ token_of-insert id role i r (new_token d role scopes token now) d m h,
)

-- Revoking a token removes it and no other one; where there is none, nothing changes.
revoke_device_token_effect :
    (id role i r : Str) (m : DevicePairingManager)
    → ((revoke_device_token id role m).0 ≡ is_some (token_of id role m))
      × (token_of i r (revoke_device_token id role m).1
          ≡ (if str_eq id i && str_eq role r then none else token_of i r m))
unfolding revoke_device_token token_of
revoke_device_token_effect id role i r m = elim (Option-cases (find_paired_device id m)) [
  | inl l ↦ (ground arith, ground (arith, str_eq_iff id i))
  | inr (d, l) ↦ (
    ground arith,
    ground (arith, token_of-erase id role i r d m l, str_eq_iff id i, str_eq_iff role r),
  )
]

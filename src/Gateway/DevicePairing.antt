-- ===== src/Gateway/DevicePairing.antt =====
-- include/ravbot/gateway/device_pairing.hpp and src/gateway/device_pairing.cpp. The clock and
-- the random token are arguments; ListPairing, which only writes JSON, is left out.
pub mod Requests
pub mod Tokens
mod Tests
use rav_bot.Prelude.{
  Bool, true, false, not, List, [], ◌∷◌, ◌++◌, Option, none, some, if◌then◌else◌, filter, is_empty,
  is_some,
}
use rav_bot.Prelude.Int.{ℤ, pos}
use rav_bot.Prelude.Text.{Str, str_eq}
use rav_bot.Prelude.Map.{Map, lookup, insert, erase}

pub record PairingRequest : Type 0 where
  pub request_id : Str
  pub device_id : Str
  pub device_name : Str
  pub role : Str
  pub scopes : List Str
  pub requested_at_ms : ℤ
  pub client_info : Str

pub record DeviceToken : Type 0 where
  pub role : Str
  pub token : Str
  pub scopes : List Str
  pub created_at_ms : ℤ
  pub rotated_at_ms : ℤ

pub record PairedDevice : Type 0 where
  pub device_id : Str
  pub device_name : Str
  pub role : Str
  pub approved_scopes : List Str
  pub tokens : Map DeviceToken
  pub paired_at_ms : ℤ

pub record DevicePairingManager : Type 0 where
  pub pending_requests : List PairingRequest
  pub paired_devices : List PairedDevice

abbrev pub has_request_id : Str → PairingRequest → Bool
has_request_id id r = str_eq r.request_id id

abbrev pub has_device_id : Str → PairedDevice → Bool
has_device_id id d = str_eq d.device_id id

-- std::find_if
unfoldable pub find_if : {A : Type 0} → (A → Bool) → List A → Option A
find_if p [] = none
find_if p (x ∷ xs) = let rest = find_if p xs in if p x then some x else rest

unfoldable pub find_pending_request : Str → DevicePairingManager → Option PairingRequest
unfolding find_if
find_pending_request id m = find_if (has_request_id id) m.pending_requests

unfoldable pub find_paired_device : Str → DevicePairingManager → Option PairedDevice
unfolding find_if
find_paired_device id m = find_if (has_device_id id) m.paired_devices

abbrev pub drop_request : Str → List PairingRequest → List PairingRequest
drop_request id requests = filter (λ r. not (has_request_id id r)) requests

unfoldable pub new_device : PairingRequest → Str → ℤ → PairedDevice
unfolding insert
new_device r token now = record {
  device_id = r.device_id;
  device_name = r.device_name;
  role = r.role;
  approved_scopes = r.scopes;
  tokens =
      insert r.role
        (record {
          role = r.role;
          token = token;
          scopes = r.scopes;
          created_at_ms = now;
          rotated_at_ms = pos 0;
        })
        [];
  paired_at_ms = now;
}

unfoldable pub approve_pairing :
    Str → Str → ℤ → DevicePairingManager → Option PairingRequest × DevicePairingManager
unfolding find_pending_request new_device
approve_pairing id token now m = elim (find_pending_request id m) [
  | none ↦ (none, m)
  | some r ↦ (
    some r,
    record {
      pending_requests = drop_request id m.pending_requests;
      paired_devices = m.paired_devices ++ new_device r token now ∷ [];
    },
  )
]

unfoldable pub reject_pairing :
    Str → DevicePairingManager → Option PairingRequest × DevicePairingManager
unfolding find_pending_request
reject_pairing id m = elim (find_pending_request id m) [
  | none ↦ (none, m)
  | some r ↦ (some r, record m { pending_requests = drop_request id m.pending_requests })
]

unfoldable pub remove_paired_device :
    Str → DevicePairingManager → Option PairedDevice × DevicePairingManager
unfolding find_paired_device
remove_paired_device id m = elim (find_paired_device id m) [
  | none ↦ (none, m)
  | some d ↦ (
    some d,
    record m { paired_devices = filter (λ d'. not (has_device_id id d')) m.paired_devices },
  )
]

-- What a change of the device that find_if points to makes of the list.
unfoldable pub change_first :
    (PairedDevice → Bool) → (PairedDevice → PairedDevice) → List PairedDevice → List PairedDevice
change_first p f [] = []
change_first p f (d ∷ ds) = let rest = change_first p f ds in if p d then f d ∷ ds else d ∷ rest

abbrev pub with_tokens : (Map DeviceToken → Map DeviceToken) → PairedDevice → PairedDevice
with_tokens f d = record d { tokens = f d.tokens }

unfoldable pub created_at : Option DeviceToken → ℤ → ℤ
created_at none now = now
created_at (some t) now = t.created_at_ms

unfoldable pub new_token : PairedDevice → Str → List Str → Str → ℤ → DeviceToken
unfolding created_at
new_token d role scopes token now = record {
  role = role;
  token = token;
  scopes = if is_empty scopes then d.approved_scopes else scopes;
  created_at_ms = created_at (lookup role d.tokens) now;
  rotated_at_ms = now;
}

unfoldable pub rotate_device_token :
    Str
    → Str
    → List Str
    → Str
    → ℤ
    → DevicePairingManager
    → Option DeviceToken × DevicePairingManager
unfolding find_paired_device new_token change_first
rotate_device_token id role scopes token now m = elim (find_paired_device id m) [
  | none ↦ (none, m)
  | some d ↦
      let t = new_token d role scopes token now in
      (
        some t,
        record m {
          paired_devices =
              change_first (has_device_id id) (with_tokens (insert role t)) m.paired_devices;
        },
      )
]

unfoldable pub revoke_device_token : Str → Str → DevicePairingManager → Bool × DevicePairingManager
unfolding find_paired_device change_first
revoke_device_token id role m = elim (find_paired_device id m) [
  | none ↦ (false, m)
  | some d ↦
      if is_some (lookup role d.tokens)
      then (
        true,
        record m {
          paired_devices =
              change_first (has_device_id id) (with_tokens (erase role)) m.paired_devices;
        },
      )
      else (false, m)
]

unfoldable pub add_pairing_request : PairingRequest → DevicePairingManager → DevicePairingManager
add_pairing_request r m = record m { pending_requests = m.pending_requests ++ r ∷ [] }

-- The token of a device for a role, as the manager knows it.
unfoldable pub token_of : Str → Str → DevicePairingManager → Option DeviceToken
unfolding find_paired_device
token_of id role m = elim (find_paired_device id m) [ none ↦ none | some d ↦ lookup role d.tokens ]

-- ===== src/Gateway/DevicePairing/Requests.antt =====
-- What becomes of the requests and of the devices.
use rav_bot.Prelude.{
  ◌≡◌, refl, Bool, not, List, [], ◌∷◌, ◌++◌, none, some, arith, if◌then◌else◌, filter,
}
use rav_bot.Prelude.Int.{ℤ}
use rav_bot.Prelude.Text.{Str, str_eq, str_eq_iff}
use rav_bot.Gateway.DevicePairing.{
  PairingRequest, PairedDevice, DevicePairingManager, has_request_id, has_device_id, find_if,
  find_pending_request, find_paired_device, drop_request, new_device, approve_pairing,
  reject_pairing, remove_paired_device,
}

find_if-append :
    {A : Type 0} (p : A → Bool) (xs : List A) (x : A)
    → find_if p (xs ++ x ∷ [])
      ≡ elim (find_if p xs) [ some y ↦ some y | none ↦ if p x then some x else none ]
unfolding find_if
find_if-append p [] x = refl
find_if-append p (y ∷ xs) x = ground (arith, find_if-append p xs x)

find_if-drop_request :
    (i id : Str) (rs : List PairingRequest)
    → find_if (has_request_id i) (drop_request id rs)
      ≡ (if str_eq id i then none else find_if (has_request_id i) rs)
unfolding find_if
find_if-drop_request i id [] = ground arith
find_if-drop_request i id (r ∷ rs) = ground (
  arith,
  find_if-drop_request i id rs,
  str_eq_iff r.request_id i,
  str_eq_iff r.request_id id,
  str_eq_iff id i,
)

find_if-drop_device :
    (i id : Str) (ds : List PairedDevice)
    → find_if (has_device_id i) (filter (λ d. not (has_device_id id d)) ds)
      ≡ (if str_eq id i then none else find_if (has_device_id i) ds)
unfolding find_if
find_if-drop_device i id [] = ground arith
find_if-drop_device i id (d ∷ ds) = ground (
  arith,
  find_if-drop_device i id ds,
  str_eq_iff d.device_id i,
  str_eq_iff d.device_id id,
  str_eq_iff id i,
)

-- An approved request is no longer pending, and its device is paired, unless a device with the
-- same identifier was paired before: then that one, with its old scopes and tokens, is still the
-- one that is found. No other request and no other device changes.
pub approve_pairing_effect :
    (id token i j : Str) (now : ℤ) (r : PairingRequest) (m : DevicePairingManager)
    → find_pending_request id m ≡ some r
    → ((approve_pairing id token now m).0 ≡ some r)
      × (find_pending_request i (approve_pairing id token now m).1
          ≡ (if str_eq id i then none else find_pending_request i m))
      × (find_paired_device j (approve_pairing id token now m).1 ≡ elim (find_paired_device j m) [
        | some d ↦ some d
        | none ↦ if str_eq r.device_id j then some (new_device r token now) else none
      ])
unfolding approve_pairing find_pending_request find_paired_device new_device
approve_pairing_effect id token i j now r m h = ground (
  arith,
  find_if-drop_request i id m.pending_requests,
  find_if-append (has_device_id j) m.paired_devices (new_device r token now),
)

find_pending_request-reject_pairing :
    (id i : Str) (m : DevicePairingManager)
    → find_pending_request i (reject_pairing id m).1
      ≡ (if str_eq id i then none else find_pending_request i m)
unfolding reject_pairing find_pending_request
find_pending_request-reject_pairing id i m =
    ground (arith, find_if-drop_request i id m.pending_requests, str_eq_iff id i)

find_paired_device-reject_pairing :
    (id j : Str) (m : DevicePairingManager)
    → find_paired_device j (reject_pairing id m).1 ≡ find_paired_device j m
unfolding reject_pairing find_paired_device
find_paired_device-reject_pairing id j m = ground arith

find_paired_device-remove_paired_device :
    (id j : Str) (m : DevicePairingManager)
    → find_paired_device j (remove_paired_device id m).1
      ≡ (if str_eq id j then none else find_paired_device j m)
unfolding remove_paired_device find_paired_device
find_paired_device-remove_paired_device id j m =
    ground (arith, find_if-drop_device j id m.paired_devices, str_eq_iff id j)

-- A rejected request is no longer pending and no device changes, and a removed device is no
-- longer paired, however often it was, and no other one changes.
reject_and_remove_effect :
    (id i j : Str) (m : DevicePairingManager)
    → (find_pending_request i (reject_pairing id m).1
        ≡ (if str_eq id i then none else find_pending_request i m))
      × (find_paired_device j (reject_pairing id m).1 ≡ find_paired_device j m)
      × (find_paired_device j (remove_paired_device id m).1
          ≡ (if str_eq id j then none else find_paired_device j m))
reject_and_remove_effect id i j m = (
  find_pending_request-reject_pairing id i m,
  find_paired_device-reject_pairing id j m,
  find_paired_device-remove_paired_device id j m,
)

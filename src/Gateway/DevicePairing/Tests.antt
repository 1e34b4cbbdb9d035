-- ===== src/Gateway/DevicePairing/Tests.antt =====
-- The theorems about device pairing at concrete inputs.
use rav_bot.Prelude.{◌≡◌, refl, List, [], ◌∷◌, none, some, if◌then◌else◌}
use rav_bot.Prelude.Int.{pos}
use rav_bot.Prelude.Text.{Str, bytes, str_eq}
use rav_bot.Gateway.DevicePairing.{
  PairingRequest, PairedDevice, DevicePairingManager, find_if, find_pending_request,
  find_paired_device, new_device, approve_pairing,
}
use rav_bot.Gateway.DevicePairing.Requests.{approve_pairing_effect}

abbrev request : PairingRequest
request = record {
  request_id = bytes "r1";
  device_id = bytes "phone";
  device_name = bytes "Phone";
  role = bytes "node";
  scopes = bytes "operator.read" ∷ [];
  requested_at_ms = pos 5;
  client_info = [];
}

abbrev device : PairedDevice
device = record {
  device_id = bytes "phone";
  device_name = bytes "Phone";
  role = bytes "node";
  approved_scopes = [];
  tokens = [];
  paired_at_ms = pos 1;
}

-- A request of a device that is paired already.
abbrev manager : DevicePairingManager
manager = record { pending_requests = request ∷ []; paired_devices = device ∷ [] }

request_pending : find_pending_request (bytes "r1") manager ≡ some request
unfolding find_pending_request find_if str_eq
request_pending = refl

device_paired : find_paired_device (bytes "phone") manager ≡ some device
unfolding find_paired_device find_if str_eq
device_paired = refl

approve_pairing_effect_example :
    ((approve_pairing (bytes "r1") (bytes "t") (pos 9) manager).0 ≡ some request)
    × (find_pending_request
          (bytes "r1")
          (approve_pairing (bytes "r1") (bytes "t") (pos 9) manager).1
        ≡ (if str_eq (bytes "r1") (bytes "r1")
            then none
            else find_pending_request (bytes "r1") manager))
    × (find_paired_device
          (bytes "phone")
          (approve_pairing (bytes "r1") (bytes "t") (pos 9) manager).1
        ≡ elim (find_paired_device (bytes "phone") manager) [
          | some d ↦ some d
          | none ↦
              if str_eq (bytes "phone") (bytes "phone")
              then some (new_device request (bytes "t") (pos 9))
              else none
        ])
approve_pairing_effect_example =
    approve_pairing_effect (bytes "r1") (bytes "t") (bytes "r1") (bytes "phone") (pos 9) request
      manager request_pending

abbrev admin : List Str
admin = bytes "operator.admin" ∷ []

-- ===== src/Channels/Policy/Modes.antt =====
-- The enumerations of the channel policy, and their names.
use rav_bot.Prelude.{◌≡◌, arith, if◌then◌else◌}
use rav_bot.Prelude.Text.{Str, bytes, str_eq}

pub data DmPolicy : Type 0 where
  open_dm : DmPolicy
  pairing_dm : DmPolicy

unfoldable pub dm_policy_from_string : Str → DmPolicy
unfolding str_eq
dm_policy_from_string s = if str_eq s (bytes "pairing") then pairing_dm else open_dm

unfoldable pub dm_policy_to_string : DmPolicy → Str
dm_policy_to_string pairing_dm = bytes "pairing"
dm_policy_to_string open_dm = bytes "open"

pub data DmScope : Type 0 where
  main : DmScope
  per_peer : DmScope
  per_channel_peer : DmScope
  per_account_channel_peer : DmScope

unfoldable pub dm_scope_from_string : Str → DmScope
unfolding str_eq
dm_scope_from_string s =
    if str_eq s (bytes "main")
    then main
    else if str_eq s (bytes "per-peer")
    then per_peer
    else if str_eq s (bytes "per-channel-peer")
    then per_channel_peer
    else if str_eq s (bytes "per-account-channel-peer")
    then per_account_channel_peer
    else per_channel_peer

unfoldable pub dm_scope_to_string : DmScope → Str
dm_scope_to_string main = bytes "main"
dm_scope_to_string per_peer = bytes "per-peer"
dm_scope_to_string per_channel_peer = bytes "per-channel-peer"
dm_scope_to_string per_account_channel_peer = bytes "per-account-channel-peer"

pub data GroupActivation : Type 0 where
  mention : GroupActivation
  always_active : GroupActivation

unfoldable pub group_activation_from_string : Str → GroupActivation
unfolding str_eq
group_activation_from_string s = if str_eq s (bytes "always") then always_active else mention

-- The names of the policies and of the scopes are read back as what they name.
from_string-to_string :
    (p : DmPolicy) (s : DmScope)
    → (dm_policy_from_string (dm_policy_to_string p) ≡ p)
      × (dm_scope_from_string (dm_scope_to_string s) ≡ s)
unfolding dm_policy_from_string dm_policy_to_string dm_scope_from_string dm_scope_to_string
from_string-to_string p s = ground arith

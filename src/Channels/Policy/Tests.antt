-- ===== src/Channels/Policy/Tests.antt =====
-- The theorems about the channel policy at concrete inputs.
use rav_bot.Prelude.{◌≤◌, ◌≡◌, refl, false, length, List, [], ◌∷◌}
use rav_bot.Prelude.Text.{Str, bytes, str_eq}
use rav_bot.Channels.Policy.Pairing.{no_pairing, paired_senders}
use rav_bot.Channels.Policy.Codes.{
  Call, run, generated, verified, unpaired, generated_count, verified_count, verified_count_bound,
}
use rav_bot.Channels.Policy.Modes.{per_channel_peer}
use rav_bot.Channels.Policy.Sessions.{resolve_session_key}
use rav_bot.Channels.Policy.Keys.{resolve_session_key_shared}

abbrev channel : Str
channel = bytes "tg"

abbrev calls : List Call
calls =
    generated channel (bytes "123456")
    ∷ verified channel (bytes "123456") (bytes "ann")
    ∷ verified channel (bytes "123456") (bytes "bob")
    ∷ unpaired channel (bytes "ann")
    ∷ []

verified_count_bound_example :
    (length (paired_senders channel (run calls no_pairing))
      ≤ verified_count channel calls no_pairing)
    × (verified_count channel calls no_pairing ≤ generated_count channel calls)
verified_count_bound_example = verified_count_bound channel calls

-- The text of the key could be the one of another channel's sender.
resolve_session_key_shared_example :
    str_eq
      (resolve_session_key per_channel_peer (bytes "main") channel (bytes "b:ann") [])
      (resolve_session_key per_channel_peer (bytes "main") (bytes "other") (bytes "ann") [])
    ≡ false
unfolding str_eq
resolve_session_key_shared_example =
    resolve_session_key_shared per_channel_peer (bytes "main") channel (bytes "other")
      (bytes "b:ann") (bytes "ann") [] [] refl refl refl refl

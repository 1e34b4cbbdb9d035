-- ===== src/Providers/Tests.antt =====
-- The theorems about errors and cooldowns at concrete inputs.
use rav_bot.Prelude.{◌*◌, ◌≡◌, refl, false, [], ◌∷◌, arith}
use rav_bot.Prelude.Int.{pos}
use rav_bot.Prelude.Text.{Str, bytes, str_eq}
use rav_bot.Prelude.Map.{lookup, insert}
use rav_bot.Providers.Error.{rate_limit}
use rav_bot.Providers.Cooldown.{CooldownTracker, record_failure, try_probe, second}
use rav_bot.Providers.Cooldown.Probing.{probe_all, try_probe_spacing}

abbrev key : Str
key = bytes "anthropic:prod"

abbrev cold : CooldownTracker
cold = []

abbrev failed : CooldownTracker
failed = record_failure key rate_limit (pos 600) (20 * second) cold

try_probe_spacing_example :
    (try_probe key
      (80 * second)
      (probe_all ((bytes "b", 60 * second) ∷ []) (try_probe key (60 * second) failed).1)).0
    ≡ false
unfolding try_probe record_failure lookup insert str_eq
try_probe_spacing_example =
    try_probe_spacing key (60 * second) (80 * second) ((bytes "b", 60 * second) ∷ []) failed refl
      (omega arith, tt) (omega arith)

-- ===== src/Providers/Failover/Tests.antt =====
-- The theorems about the failover resolver at concrete inputs.
use rav_bot.Prelude.{ℕ, ◌≡◌, refl, false, none, some, [], ◌∷◌, if◌then◌else◌, inr}
use rav_bot.Prelude.Int.{pos}
use rav_bot.Prelude.Text.{Str, bytes, str_eq}
use rav_bot.Prelude.Map.{lookup}
use rav_bot.Providers.Cooldown.{is_in_cooldown, try_probe}
use rav_bot.Providers.Failover.{
  AuthProfile, FailoverResolver, FailoverStats, Registry, ResolvedProvider, RetryConfig,
  try_resolve_model, try_pin, try_profiles, after_pin, cooldown_key, first_usable, probe,
}
use rav_bot.Providers.Failover.Choice.{try_resolve_model-IsChoice}
use rav_bot.Providers.Failover.Profiles.{IsChoice}
use rav_bot.Providers.Failover.Order.{try_resolve_model-in_order, IsPassed}
use rav_bot.Providers.Failover.Fallback.{resolve, resolve_deadlock, deadlocked, nothing}

abbrev anthropic : Str
anthropic = bytes "anthropic"

abbrev claude : Str
claude = bytes "claude"

abbrev gpt : Str
gpt = bytes "gpt"

-- A registry with two providers, of which one accepts a single key.
abbrev registry : Registry ℕ
registry = record {
  resolve_model = λ m.
      if str_eq m claude
      then record { provider = anthropic; model = m }
      else record { provider = bytes "openai"; model = m };
  get_provider = λ id. if str_eq id anthropic then none else some 7;
  get_provider_with_key = λ id key. if str_eq key (bytes "k2") then some 2 else none;
}

abbrev revoked : AuthProfile
revoked = record { id = bytes "prod"; api_key = bytes "k1"; api_key_env = [] }

abbrev backup : AuthProfile
backup = record { id = bytes "backup"; api_key = bytes "k2"; api_key_env = [] }

abbrev stats : FailoverStats
stats = record {
  total_requests = 0;
  successful_requests = 0;
  failed_requests = 0;
  failover_count = 0;
  provider_usage = [];
  profile_usage = [];
}

abbrev retry : RetryConfig
retry = record {
  max_retries = pos 3;
  initial_backoff_ms = pos 1000;
  backoff_multiplier = 0;
  max_backoff_ms = pos 60000;
}

abbrev fresh : FailoverResolver
fresh = record {
  fallback_chain = gpt ∷ [];
  profiles = (anthropic, revoked ∷ []) ∷ [];
  session_pins = [];
  cooldown = [];
  stats = stats;
  retry_config = retry;
}

abbrev rotating : FailoverResolver
rotating = record fresh { profiles = (anthropic, revoked ∷ backup ∷ []) ∷ [] }

abbrev answer : ResolvedProvider ℕ
answer = record {
  provider = 2;
  provider_id = anthropic;
  profile_id = bytes "backup";
  model = claude;
  is_fallback = false;
}

abbrev fallback : ResolvedProvider ℕ
fallback = record {
  provider = 7;
  provider_id = bytes "openai";
  profile_id = [];
  model = gpt;
  is_fallback = false;
}

abbrev session : Str
session = bytes "s1"

resolve_deadlock_example : resolve registry claude session (λ i. i) fresh ≡ deadlocked fresh
unfolding try_resolve_model try_pin after_pin try_profiles first_usable probe try_probe lookup
    str_eq is_in_cooldown cooldown_key
resolve_deadlock_example =
    resolve_deadlock registry claude session (λ i. i) [] [] gpt 1 fallback fresh fresh fresh fresh
      refl refl (nothing 1 fresh) (λ e. cc) refl

try_resolve_model-IsChoice_example :
    IsChoice registry (registry.resolve_model claude) 5 answer rotating
unfolding try_resolve_model try_pin after_pin try_profiles first_usable probe try_probe lookup
    str_eq is_in_cooldown cooldown_key
try_resolve_model-IsChoice_example =
    try_resolve_model-IsChoice registry claude session 5 rotating rotating answer refl

try_resolve_model-in_order_example :
    try_resolve_model registry claude session 5 rotating ≡ (some answer, rotating)
unfolding lookup str_eq is_in_cooldown IsPassed
try_resolve_model-in_order_example =
    try_resolve_model-in_order registry claude session 5 rotating (revoked ∷ []) [] backup answer
      refl refl (inr refl, tt) refl refl

-- ===== src/Providers/Failover.antt =====
-- include/ravbot/providers/failover_resolver.hpp and src/providers/failover_resolver.cpp. The
-- registry (src/providers/provider_registry.cpp) is an interface. A call of try_resolve_model
-- reads the clock once here, and the code at each test.
pub mod Profiles
pub mod Choice
pub mod Order
pub mod Fallback
pub mod Pins
mod Tests
use rav_bot.Prelude.{
  ℕ, zero, suc, ◌+◌, Bool, true, false, Option, none, some, List, [], ◌∷◌, ◌++◌, if◌then◌else◌,
  is_empty,
}
use mathlib.Core.Option
use rav_bot.Prelude.Int.{ℤ}
use rav_bot.Prelude.Text.{Str, bytes, str_eq}
use rav_bot.Prelude.Map.{Map, lookup, insert, erase}
use rav_bot.Providers.Error.{ProviderErrorKind}
use rav_bot.Providers.Cooldown.{CooldownTracker, is_in_cooldown, try_probe}
use rav_bot.Providers.Cooldown

pub record RetryConfig : Type 0 where
  pub max_retries : ℤ
  pub initial_backoff_ms : ℤ
  -- The bits of the double, which the resolver only stores.
  pub backoff_multiplier : ℕ
  pub max_backoff_ms : ℤ

pub record AuthProfile : Type 0 where
  pub id : Str
  pub api_key : Str
  pub api_key_env : Str

pub record FailoverStats : Type 0 where
  pub total_requests : ℕ
  pub successful_requests : ℕ
  pub failed_requests : ℕ
  pub failover_count : ℕ
  pub provider_usage : Map ℕ
  pub profile_usage : Map ℕ

pub record ModelRef : Type 0 where
  pub provider : Str
  pub model : Str

pub record ResolvedProvider (P : Type 0) : Type 0 where
  pub provider : P
  pub provider_id : Str
  pub profile_id : Str
  pub model : Str
  pub is_fallback : Bool

pub record SessionPin : Type 0 where
  pub provider_id : Str
  pub profile_id : Str

-- What the resolver calls on the registry; `none` is a null pointer.
pub record Registry (P : Type 0) : Type 0 where
  pub resolve_model : Str → ModelRef
  pub get_provider : Str → Option P
  pub get_provider_with_key : Str → Str → Option P

pub record FailoverResolver : Type 0 where
  pub fallback_chain : List Str
  pub profiles : Map (List AuthProfile)
  pub session_pins : Map SessionPin
  pub cooldown : CooldownTracker
  pub stats : FailoverStats
  pub retry_config : RetryConfig

unfoldable pub set_fallback_chain : List Str → FailoverResolver → FailoverResolver
set_fallback_chain models s = record s { fallback_chain = models }

unfoldable pub set_profiles : Str → List AuthProfile → FailoverResolver → FailoverResolver
set_profiles provider_id ps s = record s { profiles = insert provider_id ps s.profiles }

unfoldable pub cooldown_key : Str → Str → Str
cooldown_key provider_id [] = provider_id
cooldown_key provider_id (c ∷ profile_id) = provider_id ++ b':' ∷ c ∷ profile_id

-- usage[key]++
abbrev count : Str → Map ℕ → Map ℕ
count key usage = insert key (elim (lookup key usage) [ none ↦ 1 | some n ↦ n + 1 ]) usage

succeeded : Str → Str → FailoverStats → FailoverStats
succeeded provider_id profile_id stats = record stats {
  total_requests = stats.total_requests + 1;
  successful_requests = stats.successful_requests + 1;
  provider_usage = count provider_id stats.provider_usage;
  profile_usage = count (provider_id ++ b':' ∷ profile_id) stats.profile_usage;
}

unfoldable pub record_success : Str → Str → Str → FailoverResolver → FailoverResolver
unfolding succeeded
record_success provider_id profile_id session_key s = record s {
  cooldown = Cooldown.record_success (cooldown_key provider_id profile_id) s.cooldown;
  stats = succeeded provider_id profile_id s.stats;
  session_pins =
      if is_empty session_key
      then s.session_pins
      else insert session_key (record { provider_id = provider_id; profile_id = profile_id })
          s.session_pins;
}

unfoldable pub record_failure :
    Str → Str → ProviderErrorKind → ℤ → ℕ → FailoverResolver → FailoverResolver
record_failure provider_id profile_id kind retry_after now s = record s {
  cooldown =
      Cooldown.record_failure (cooldown_key provider_id profile_id) kind retry_after now s.cooldown;
  stats = record s.stats {
    total_requests = s.stats.total_requests + 1;
    failed_requests = s.stats.failed_requests + 1;
  };
}

unfoldable pub clear_session_pin : Str → FailoverResolver → FailoverResolver
clear_session_pin session_key s = record s { session_pins = erase session_key s.session_pins }

unfoldable pub set_retry_config : RetryConfig → FailoverResolver → FailoverResolver
set_retry_config config s = record s { retry_config = config }

unfoldable pub reset_cooldowns : FailoverResolver → FailoverResolver
reset_cooldowns s = record s { cooldown = Cooldown.reset s.cooldown }

abbrev pub or_else {ℓ} : {A : Type ℓ} → Option A → Option A → Option A
or_else none y = y
or_else (some x) y = some x

-- The profiles of a provider; the code treats none and an empty vector alike.
abbrev pub profiles_of : Str → FailoverResolver → List AuthProfile
profiles_of provider_id s = elim (lookup provider_id s.profiles) [ none ↦ [] | some ps ↦ ps ]

module _ {P : Type 0} (registry : Registry P) where
  abbrev resolved : ModelRef → Str → P → ResolvedProvider P
  resolved ref profile_id p = record {
    provider = p;
    provider_id = ref.provider;
    profile_id = profile_id;
    model = ref.model;
    is_fallback = false;
  }

  abbrev pub from_profile : ModelRef → AuthProfile → Option (ResolvedProvider P)
  from_profile ref profile =
      Option.map (resolved ref profile.id)
        (registry.get_provider_with_key ref.provider profile.api_key)

  abbrev pub from_default : ModelRef → Option (ResolvedProvider P)
  from_default ref = Option.map (resolved ref []) (registry.get_provider ref.provider)

  -- The loop over the profiles with the pinned one's id.
  unfoldable pub pinned_profile : ModelRef → Str → List AuthProfile → Option (ResolvedProvider P)
  pinned_profile ref id [] = none
  pinned_profile ref id (p ∷ ps) =
      let rest = pinned_profile ref id ps in
      if str_eq p.id id then or_else (from_profile ref p) rest else rest

  abbrev keep_or_clear :
      Str
      → FailoverResolver
      → Option (ResolvedProvider P)
      → Option (ResolvedProvider P) × FailoverResolver
  keep_or_clear session_key s (some r) = (some r, s)
  keep_or_clear session_key s none = (none, clear_session_pin session_key s)

  -- The block on the session's pin.
  unfoldable pub try_pin :
      ModelRef → Str → ℕ → FailoverResolver → Option (ResolvedProvider P) × FailoverResolver
  try_pin ref [] now s = (none, s)
  try_pin ref (c ∷ cs) now s = elim (lookup (c ∷ cs) s.session_pins) [
    | none ↦ (none, s)
    | some pin ↦
        if str_eq pin.provider_id ref.provider
        then keep_or_clear (c ∷ cs) s (
            if is_in_cooldown (cooldown_key ref.provider pin.profile_id) now s.cooldown
            then none
            else pinned_profile ref pin.profile_id (profiles_of ref.provider s))
        else (none, s)
  ]

  -- The loop over the profiles in order.
  unfoldable pub first_usable :
      ModelRef → ℕ → CooldownTracker → List AuthProfile → Option (ResolvedProvider P)
  first_usable ref now cooldown [] = none
  first_usable ref now cooldown (p ∷ ps) =
      let rest = first_usable ref now cooldown ps in
      if is_in_cooldown (cooldown_key ref.provider p.id) now cooldown
      then rest
      else or_else (from_profile ref p) rest

  -- A probe of a key, with what the registry gives for it.
  unfoldable pub probe :
      Str
      → ℕ
      → Option (ResolvedProvider P)
      → FailoverResolver
      → Option (ResolvedProvider P) × FailoverResolver
  probe key now provider s =
      let (granted, cooldown) = try_probe key now s.cooldown in
      ((if granted then provider else none), record s { cooldown = cooldown })

  -- The part of try_resolve_model after the pin.
  unfoldable pub try_profiles :
      ModelRef
      → ℕ
      → List AuthProfile
      → FailoverResolver
      → Option (ResolvedProvider P) × FailoverResolver
  unfolding first_usable probe
  try_profiles ref now [] s =
      let key = cooldown_key ref.provider [] in
      if is_in_cooldown key now s.cooldown
      then probe key now (from_default ref) s
      else (from_default ref, s)
  try_profiles ref now (p ∷ ps) s = elim (first_usable ref now s.cooldown (p ∷ ps)) [
    | some r ↦ (some r, s)
    | none ↦ probe (cooldown_key ref.provider p.id) now (from_profile ref p) s
  ]

  unfoldable pub after_pin :
      ModelRef
      → ℕ
      → Option (ResolvedProvider P) × FailoverResolver
      → Option (ResolvedProvider P) × FailoverResolver
  after_pin ref now (some r, s) = (some r, s)
  after_pin ref now (none, s) = try_profiles ref now (profiles_of ref.provider s) s

  unfoldable pub try_resolve_model :
      Str → Str → ℕ → FailoverResolver → Option (ResolvedProvider P) × FailoverResolver
  unfolding after_pin
  try_resolve_model model session_key now s =
      let ref = registry.resolve_model model in after_pin ref now (try_pin ref session_key now s)

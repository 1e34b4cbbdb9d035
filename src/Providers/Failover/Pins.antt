-- ===== src/Providers/Failover/Pins.antt =====
-- Session pins: what RecordSuccess and RecordFailure do to the profile of a session.
use rav_bot.Prelude.{
  ℕ, ◌+◌, ◌*◌, ◌<◌, ◌≡◌, ◌≢◌, refl, ap, ◌∙◌, false, none, some, List, [], ◌∷◌, ◌++◌, arith, All,
}
use rav_bot.Prelude.Text.{Str, str_eq_iff, str_eq_refl}
use rav_bot.Prelude.Int.{ℤ, pos}
use rav_bot.Prelude.Map.{lookup, lookup-insert}
use rav_bot.Providers.Error.{ProviderErrorKind, unknown}
use rav_bot.Providers.Cooldown.{is_in_cooldown, state_of, next_failures, cooldown_seconds, second}
use rav_bot.Providers.Cooldown.Tracking.{failure_count-record, is_in_cooldown-record_failure}
use rav_bot.Providers.Failover.{
  AuthProfile, ModelRef, SessionPin, Registry, ResolvedProvider, FailoverResolver, record_success,
  record_failure, clear_session_pin, try_resolve_model, after_pin, try_pin, pinned_profile,
  from_profile, cooldown_key, profiles_of,
}

module _ {P : Type 0} (registry : Registry P) where
  pinned_profile-first :
      (ref : ModelRef) (before after : List AuthProfile) (p : AuthProfile) (r : ResolvedProvider P)
      → All (λ q. q.id ≢ p.id) before
      → from_profile registry ref p ≡ some r
      → pinned_profile registry ref p.id (before ++ p ∷ after) ≡ some r
  unfolding pinned_profile
  pinned_profile-first ref [] after p r hb hp = ground (arith, str_eq_refl p.id)
  pinned_profile-first ref (q ∷ qs) after p r hb hp =
      ground (arith, str_eq_iff q.id p.id, pinned_profile-first ref qs after p r hb.1 hp)

  try_pin-pinned :
      (ref : ModelRef) (session_key : Str) (now : ℕ) (s : FailoverResolver) (pin : SessionPin)
      (r : ResolvedProvider P)
      → session_key ≢ []
      → lookup session_key s.session_pins ≡ some pin
      → pin.provider_id ≡ ref.provider
      → is_in_cooldown (cooldown_key ref.provider pin.profile_id) now s.cooldown ≡ false
      → pinned_profile registry ref pin.profile_id (profiles_of ref.provider s) ≡ some r
      → try_pin registry ref session_key now s ≡ (some r, s)
  unfolding try_pin
  try_pin-pinned ref [] now s pin r hk hl hp hc hr = absurd (hk refl)
  try_pin-pinned ref (c ∷ cs) now s pin r hk hl hp hc hr =
      ground (arith, str_eq_iff pin.provider_id ref.provider)

  lookup-record_success :
      (provider_id profile_id session_key : Str) (s : FailoverResolver)
      → session_key ≢ []
      → lookup session_key (record_success provider_id profile_id session_key s).session_pins
        ≡ some (record { provider_id = provider_id; profile_id = profile_id })
  unfolding record_success
  lookup-record_success provider_id profile_id [] s h = absurd (h refl)
  lookup-record_success provider_id profile_id (c ∷ cs) s h =
      rw (lookup-insert, str_eq_refl (c ∷ cs)) refl

  is_in_cooldown-record_success :
      (provider_id profile_id session_key : Str) (now : ℕ) (s : FailoverResolver)
      → is_in_cooldown
          (cooldown_key provider_id profile_id)
          now
          (record_success provider_id profile_id session_key s).cooldown
        ≡ false
  unfolding record_success
  is_in_cooldown-record_success provider_id profile_id session_key now s =
      let key = cooldown_key provider_id profile_id in
      ground
        (arith, str_eq_refl key, (failure_count-record key key unknown (pos 0) 0 now s.cooldown).2)

  -- After a success with a profile in a session, the session's next resolution of a model of the
  -- same provider takes that profile, whatever stands before it and whatever its cooldown was,
  -- if the registry still has a provider for it and no earlier profile has its name.
  try_resolve_model-record_success :
      (model session_key : Str) (now : ℕ) (s : FailoverResolver) (before after : List AuthProfile)
      (p : AuthProfile) (r : ResolvedProvider P)
      → session_key ≢ []
      → profiles_of (registry.resolve_model model).provider s ≡ before ++ p ∷ after
      → All (λ q. q.id ≢ p.id) before
      → from_profile registry (registry.resolve_model model) p ≡ some r
      → try_resolve_model registry model session_key now
          (record_success (registry.resolve_model model).provider p.id session_key s)
        ≡ (some r, record_success (registry.resolve_model model).provider p.id session_key s)
  unfolding try_resolve_model after_pin record_success
  try_resolve_model-record_success model session_key now s before after p r hk hps hb hp =
      let ref = registry.resolve_model model in
      let t = record_success ref.provider p.id session_key s in
      rw
        (try_pin-pinned ref session_key now t
          (record { provider_id = ref.provider; profile_id = p.id }) r hk
          (lookup-record_success ref.provider p.id session_key s hk) refl
          (is_in_cooldown-record_success ref.provider p.id session_key now s)
          (ap (pinned_profile registry ref p.id) hps
            ∙ pinned_profile-first ref before after p r hb hp))
        refl

  -- After a failure of a session's profile, a resolution of a model of that provider before the cooldown ends does not
  -- use the pin but removes it.
  try_pin-record_failure :
      (ref : ModelRef) (session_key profile_id : Str) (kind : ProviderErrorKind) (retry_after : ℤ)
      (now later : ℕ) (s : FailoverResolver)
      → session_key ≢ []
      → lookup session_key s.session_pins
        ≡ some (record { provider_id = ref.provider; profile_id = profile_id })
      → later
        < now
          + cooldown_seconds kind retry_after
              (next_failures (state_of (cooldown_key ref.provider profile_id) s.cooldown) now)
            * second
      → try_pin registry ref session_key later
          (record_failure ref.provider profile_id kind retry_after now s)
        ≡ (
          none,
          clear_session_pin session_key
              (record_failure ref.provider profile_id kind retry_after now s),
        )
  unfolding try_pin record_failure
  try_pin-record_failure ref [] id kind retry now later s hk hl ht = absurd (hk refl)
  try_pin-record_failure ref (c ∷ cs) id kind retry now later s hk hl ht =
      let key = cooldown_key ref.provider id in
      ground (
        arith,
        str_eq_refl ref.provider,
        str_eq_refl key,
        is_in_cooldown-record_failure key key kind retry now later s.cooldown,
      )

-- ===== src/Providers/Failover/Order.antt =====
-- The order in which try_resolve_model takes the profiles of a provider.
use rav_bot.Prelude.{
  ℕ, ◌≡◌, ◌⊎◌, refl, ap, true, false, none, some, List, [], ◌∷◌, ◌++◌, arith, All,
}
use rav_bot.Prelude.Text.{Str}
use rav_bot.Prelude.Map.{lookup}
use rav_bot.Providers.Cooldown.{CooldownTracker, is_in_cooldown}
use rav_bot.Providers.Failover.{
  AuthProfile, ModelRef, Registry, ResolvedProvider, FailoverResolver, try_resolve_model, after_pin,
  try_profiles, first_usable, try_pin, from_profile, cooldown_key, profiles_of,
}

module _ {P : Type 0} (registry : Registry P) where
  -- A profile that the loop passes over.
  unfoldable pub IsPassed : ModelRef → ℕ → CooldownTracker → AuthProfile → Type 0
  IsPassed ref now c p =
      (is_in_cooldown (cooldown_key ref.provider p.id) now c ≡ true)
      ⊎ (from_profile registry ref p ≡ none)

  first_usable-in_order :
      (ref : ModelRef) (now : ℕ) (c : CooldownTracker) (before after : List AuthProfile)
      (p : AuthProfile) (r : ResolvedProvider P)
      → All (IsPassed ref now c) before
      → is_in_cooldown (cooldown_key ref.provider p.id) now c ≡ false
      → from_profile registry ref p ≡ some r
      → first_usable registry ref now c (before ++ p ∷ after) ≡ some r
  unfolding first_usable IsPassed
  first_usable-in_order ref now c [] after p r hb hc hp = ground arith
  first_usable-in_order ref now c (q ∷ qs) after p r hb hc hp =
      ground (arith, first_usable-in_order ref now c qs after p r hb.1 hc hp)

  try_pin_without :
      (ref : ModelRef) (session_key : Str) (now : ℕ) (s : FailoverResolver)
      → lookup session_key s.session_pins ≡ none
      → try_pin registry ref session_key now s ≡ (none, s)
  unfolding try_pin
  try_pin_without ref [] now s h = refl
  try_pin_without ref (c ∷ cs) now s h = ground arith

  try_profiles-in_order :
      (ref : ModelRef) (now : ℕ) (ps : List AuthProfile) (s : FailoverResolver)
      (before after : List AuthProfile) (p : AuthProfile) (r : ResolvedProvider P)
      → ps ≡ before ++ p ∷ after
      → All (IsPassed ref now s.cooldown) before
      → is_in_cooldown (cooldown_key ref.provider p.id) now s.cooldown ≡ false
      → from_profile registry ref p ≡ some r
      → try_profiles registry ref now ps s ≡ (some r, s)
  unfolding try_profiles
  try_profiles-in_order ref now [] s [] after p r e hb hc hp = absurd (cc)
  try_profiles-in_order ref now [] s (b ∷ bs) after p r e hb hc hp = absurd (cc)
  try_profiles-in_order ref now (q ∷ qs) s before after p r e hb hc hp = ground (
    arith,
    ap (first_usable registry ref now s.cooldown) e,
    first_usable-in_order ref now s.cooldown before after p r hb hc hp,
  )

  -- Without a pin of the session, the first profile that is not in cooldown and that the
  -- registry has a provider for is taken, and nothing else changes.
  pub try_resolve_model-in_order :
      (model session_key : Str) (now : ℕ) (s : FailoverResolver) (before after : List AuthProfile)
      (p : AuthProfile) (r : ResolvedProvider P)
      → lookup session_key s.session_pins ≡ none
      → profiles_of (registry.resolve_model model).provider s ≡ before ++ p ∷ after
      → All (IsPassed (registry.resolve_model model) now s.cooldown) before
      → is_in_cooldown (cooldown_key (registry.resolve_model model).provider p.id) now s.cooldown
        ≡ false
      → from_profile registry (registry.resolve_model model) p ≡ some r
      → try_resolve_model registry model session_key now s ≡ (some r, s)
  unfolding try_resolve_model after_pin
  try_resolve_model-in_order model session_key now s before after p r hk hps hb hc hp =
      let ref = registry.resolve_model model in
      rw (try_pin_without ref session_key now s hk)
        (try_profiles-in_order ref now (profiles_of ref.provider s) s before after p r hps hb hc hp)

-- ===== src/Providers/Failover/Profiles.antt =====
-- Which profiles the loops of try_resolve_model can take, and what they return.
use rav_bot.Prelude.{ℕ, ◌≡◌, ◌⊎◌, inl, inr, refl, true, false, some, List, [], ◌∷◌, arith}
use rav_bot.Prelude.Text.{Str, str_eq_iff}
use rav_bot.Providers.Cooldown.{CooldownTracker, is_in_cooldown, try_probe}
use rav_bot.Providers.Failover.{
  AuthProfile, ModelRef, Registry, ResolvedProvider, FailoverResolver, first_usable, pinned_profile,
  from_profile, from_default, cooldown_key, profiles_of,
}

module _ {P : Type 0} (registry : Registry P) where
  -- A profile of the list gives the provider.
  pub data Offered (ref : ModelRef) (r : ResolvedProvider P) : List AuthProfile → Type 0 where
    here :
        (p : AuthProfile)
        → (ps : List AuthProfile) → from_profile registry ref p ≡ some r
        → Offered ref r (p ∷ ps)
    later : (p : AuthProfile) → (ps : List AuthProfile) → Offered ref r ps → Offered ref r (p ∷ ps)

  -- Where a resolved provider comes from: the profiles, or the default entry without them.
  unfoldable pub Source : ModelRef → ResolvedProvider P → List AuthProfile → Type 0
  Source ref r ps = Offered ref r ps ⊎ ((ps ≡ []) × (from_default registry ref ≡ some r))

  -- Not in cooldown, or let through as a probe.
  unfoldable pub Permitted : ResolvedProvider P → ℕ → CooldownTracker → Type 0
  Permitted r now c =
      (is_in_cooldown (cooldown_key r.provider_id r.profile_id) now c ≡ false)
      ⊎ ((try_probe (cooldown_key r.provider_id r.profile_id) now c).0 ≡ true)

  unfoldable pub IsChoice : ModelRef → ℕ → ResolvedProvider P → FailoverResolver → Type 0
  IsChoice ref now r s =
      Source ref r (profiles_of ref.provider s)
      × Permitted r now s.cooldown
      × (r.provider_id ≡ ref.provider)
      × (r.model ≡ ref.model)
      × (r.is_fallback ≡ false)

  -- What a profile's provider says of itself.
  unfoldable pub HasFields : ModelRef → Str → ResolvedProvider P → Type 0
  HasFields ref id r =
      (r.profile_id ≡ id)
      × (r.provider_id ≡ ref.provider)
      × (r.model ≡ ref.model)
      × (r.is_fallback ≡ false)

  pub from_profile-HasFields :
      (ref : ModelRef) (p : AuthProfile) (r : ResolvedProvider P)
      → from_profile registry ref p ≡ some r
      → HasFields ref p.id r
  unfolding HasFields
  from_profile-HasFields ref p r h = ground arith

  pub from_default-HasFields :
      (ref : ModelRef) (r : ResolvedProvider P)
      → from_default registry ref ≡ some r
      → HasFields ref [] r
  unfolding HasFields
  from_default-HasFields ref r h = ground arith

  first_usable-cons :
      (ref : ModelRef) (now : ℕ) (c : CooldownTracker) (p : AuthProfile) (ps : List AuthProfile)
      (r : ResolvedProvider P)
      → first_usable registry ref now c (p ∷ ps) ≡ some r
      → ((is_in_cooldown (cooldown_key ref.provider p.id) now c ≡ false)
          × (from_profile registry ref p ≡ some r))
        ⊎ (first_usable registry ref now c ps ≡ some r)
  unfolding first_usable
  first_usable-cons ref now c p ps r h = ground arith

  pinned_profile-cons :
      (ref : ModelRef) (id : Str) (p : AuthProfile) (ps : List AuthProfile) (r : ResolvedProvider P)
      → pinned_profile registry ref id (p ∷ ps) ≡ some r
      → ((p.id ≡ id) × (from_profile registry ref p ≡ some r))
        ⊎ (pinned_profile registry ref id ps ≡ some r)
  unfolding pinned_profile
  pinned_profile-cons ref id p ps r h = ground (arith, str_eq_iff p.id id)

  pub first_usable-Offered :
      (ref : ModelRef) (now : ℕ) (c : CooldownTracker) (ps : List AuthProfile)
      (r : ResolvedProvider P)
      → first_usable registry ref now c ps ≡ some r
      → Offered ref r ps
        × (is_in_cooldown (cooldown_key ref.provider r.profile_id) now c ≡ false)
        × HasFields ref r.profile_id r
  unfolding first_usable HasFields
  first_usable-Offered ref now c [] r h = absurd (cc)
  first_usable-Offered ref now c (p ∷ ps) r h = elim (first_usable-cons ref now c p ps r h) [
    | inl (hc, hp) ↦ (
      here p ps hp,
      ground (arith, from_profile-HasFields ref p r hp),
      (
        refl,
        (from_profile-HasFields ref p r hp).1,
        (from_profile-HasFields ref p r hp).2,
        (from_profile-HasFields ref p r hp).3,
      ),
    )
    | inr rest ↦
        let (o, cool, fields) = first_usable-Offered ref now c ps r rest in
        (later p ps o, cool, fields)
  ]

  pub pinned_profile-Offered :
      (ref : ModelRef) (id : Str) (ps : List AuthProfile) (r : ResolvedProvider P)
      → pinned_profile registry ref id ps ≡ some r
      → Offered ref r ps × HasFields ref id r
  unfolding pinned_profile HasFields
  pinned_profile-Offered ref id [] r h = absurd (cc)
  pinned_profile-Offered ref id (p ∷ ps) r h = elim (pinned_profile-cons ref id p ps r h) [
    | inl (e, hp) ↦ (here p ps hp, ground (arith, from_profile-HasFields ref p r hp))
    | inr rest ↦ let (o, more) = pinned_profile-Offered ref id ps r rest in (later p ps o, more)
  ]

-- ===== src/Providers/Failover/Choice.antt =====
-- The conditions under which FailoverResolver::try_resolve_model takes a profile.
use rav_bot.Prelude.{
  ℕ, ◌≡◌, ◌⊎◌, inl, inr, refl, ap, sym, subst, true, false, Option, none, some, List, [], ◌∷◌,
  arith, Option-cases,
}
use rav_bot.Prelude.Text.{Str}
use rav_bot.Prelude.Map.{lookup}
use rav_bot.Providers.Cooldown.{CooldownTracker, is_in_cooldown, try_probe}
use rav_bot.Providers.Failover.{
  AuthProfile, ModelRef, Registry, ResolvedProvider, FailoverResolver, try_resolve_model, after_pin,
  try_profiles, first_usable, probe, try_pin, pinned_profile, from_profile, from_default,
  cooldown_key, profiles_of, clear_session_pin,
}
use rav_bot.Providers.Failover.Profiles.{
  Offered, here, Source, Permitted, IsChoice, HasFields, from_profile-HasFields,
  from_default-HasFields, first_usable-Offered, pinned_profile-Offered,
}

module _ {P : Type 0} (registry : Registry P) where
  HasFields-Permitted :
      (id : Str) (ref : ModelRef) (now : ℕ) (c : CooldownTracker) (r : ResolvedProvider P)
      → HasFields registry ref id r
      → (is_in_cooldown (cooldown_key ref.provider id) now c ≡ false)
        ⊎ ((try_probe (cooldown_key ref.provider id) now c).0 ≡ true)
      → Permitted registry r now c
  unfolding HasFields Permitted
  HasFields-Permitted id ref now c r fields h = ground (
    arith,
    ap (cooldown_key ref.provider) fields.0,
    ap (λ q. cooldown_key q r.profile_id) fields.1,
  )

  choice :
      (id : Str) (ref : ModelRef) (now : ℕ) (s : FailoverResolver) (r : ResolvedProvider P)
      → Source registry ref r (profiles_of ref.provider s)
      → HasFields registry ref id r
      → (is_in_cooldown (cooldown_key ref.provider id) now s.cooldown ≡ false)
        ⊎ ((try_probe (cooldown_key ref.provider id) now s.cooldown).0 ≡ true)
      → IsChoice registry ref now r s
  unfolding HasFields IsChoice
  choice id ref now s r source fields h =
      (source, HasFields-Permitted id ref now s.cooldown r fields h, fields.1, fields.2, fields.3)

  try_profiles-nil :
      (ref : ModelRef) (now : ℕ) (s s' : FailoverResolver) (r : ResolvedProvider P)
      → try_profiles registry ref now [] s ≡ (some r, s')
      → (from_default registry ref ≡ some r)
        × ((is_in_cooldown (cooldown_key ref.provider []) now s.cooldown ≡ false)
            ⊎ ((try_probe (cooldown_key ref.provider []) now s.cooldown).0 ≡ true))
  unfolding try_profiles probe
  try_profiles-nil ref now s s' r h = ground arith

  try_profiles-cons :
      (ref : ModelRef) (now : ℕ) (p : AuthProfile) (ps : List AuthProfile) (s s' : FailoverResolver)
      (r : ResolvedProvider P)
      → try_profiles registry ref now (p ∷ ps) s ≡ (some r, s')
      → (first_usable registry ref now s.cooldown (p ∷ ps) ≡ some r)
        ⊎ ((from_profile registry ref p ≡ some r)
            × ((try_probe (cooldown_key ref.provider p.id) now s.cooldown).0 ≡ true))
  unfolding try_profiles probe
  try_profiles-cons ref now p ps s s' r h = ground arith

  try_profiles-IsChoice :
      (ref : ModelRef) (now : ℕ) (ps : List AuthProfile) (s s' : FailoverResolver)
      (r : ResolvedProvider P)
      → profiles_of ref.provider s ≡ ps
      → try_profiles registry ref now ps s ≡ (some r, s')
      → IsChoice registry ref now r s
  unfolding Source
  try_profiles-IsChoice ref now [] s s' r e h =
      let (given, permitted) = try_profiles-nil ref now s s' r h in
      choice [] ref now s r (inr (e, given)) (from_default-HasFields registry ref r given) permitted
  try_profiles-IsChoice ref now (p ∷ ps) s s' r e h =
      elim (try_profiles-cons ref now p ps s s' r h) [
        | inl found ↦
            let (offered, cool, fields) =
              first_usable-Offered registry ref now s.cooldown (p ∷ ps) r found in
            choice r.profile_id ref now s r (inl (subst (Offered registry ref r) (sym e) offered))
              fields (inl cool)
        | inr (given, probed) ↦
            choice p.id ref now s r (inl (subst (Offered registry ref r) (sym e) (here p ps given)))
              (from_profile-HasFields registry ref p r given) (inr probed)
      ]

  try_pin-IsChoice :
      (ref : ModelRef) (session_key : Str) (now : ℕ) (s s' : FailoverResolver)
      (r : ResolvedProvider P)
      → try_pin registry ref session_key now s ≡ (some r, s')
      → (id : Str) × (is_in_cooldown (cooldown_key ref.provider id) now s.cooldown ≡ false)
        × (pinned_profile registry ref id (profiles_of ref.provider s) ≡ some r)
  unfolding try_pin
  try_pin-IsChoice ref [] now s s' r h = absurd (cc)
  try_pin-IsChoice ref (c ∷ cs) now s s' r h =
      elim (Option-cases (lookup (c ∷ cs) s.session_pins)) [
        | inl e ↦ absurd (ground arith)
        | inr (pin, e) ↦ (pin.profile_id, ground arith, ground arith)
      ]

  try_pin-none :
      (ref : ModelRef) (session_key : Str) (now : ℕ) (s s' : FailoverResolver)
      → try_pin registry ref session_key now s ≡ (none, s')
      → (s'.cooldown ≡ s.cooldown) × (s'.profiles ≡ s.profiles)
  unfolding try_pin clear_session_pin
  try_pin-none ref [] now s s' h = ground arith
  try_pin-none ref (c ∷ cs) now s s' h = ground arith

  IsChoice-same :
      (ref : ModelRef) (now : ℕ) (r : ResolvedProvider P) (s t : FailoverResolver)
      → t.cooldown ≡ s.cooldown
      → t.profiles ≡ s.profiles
      → IsChoice registry ref now r t
      → IsChoice registry ref now r s
  unfolding IsChoice
  IsChoice-same ref now r s t hc hp (source, permitted, p, m, f) = (
    subst (Source registry ref r) (ground arith) source,
    subst (Permitted registry r now) hc permitted,
    p,
    m,
    f,
  )

  after_pin-IsChoice :
      (ref : ModelRef) (now : ℕ) (o : Option (ResolvedProvider P)) (s s' : FailoverResolver)
      (r : ResolvedProvider P)
      → after_pin registry ref now (o, s) ≡ (some r, s')
      → (o ≡ some r) ⊎ ((o ≡ none) × IsChoice registry ref now r s)
  unfolding after_pin
  after_pin-IsChoice ref now (some t) s s' r h = inl (ap (λ q. q.0) h)
  after_pin-IsChoice ref now none s s' r h =
      inr (refl, try_profiles-IsChoice ref now (profiles_of ref.provider s) s s' r refl h)

  -- A provider that try_resolve_model returns is the model's: one of its provider's profiles, or
  -- the default entry where it has none, gives it, and that profile is not in cooldown or is let
  -- through as a probe. It is not marked as a fallback.
  pub try_resolve_model-IsChoice :
      (model session_key : Str) (now : ℕ) (s s' : FailoverResolver) (r : ResolvedProvider P)
      → try_resolve_model registry model session_key now s ≡ (some r, s')
      → IsChoice registry (registry.resolve_model model) now r s
  unfolding try_resolve_model IsChoice Permitted Source
  try_resolve_model-IsChoice model session_key now s s' r h =
      let ref = registry.resolve_model model in
      elim (after_pin-IsChoice ref now (try_pin registry ref session_key now s).0
        (try_pin registry ref session_key now s).1 s' r h) [
          | inl e ↦
              let (id, cool, found) =
                try_pin-IsChoice ref session_key now s (try_pin registry ref session_key now s).1 r
                  (ap (λ o. (o, (try_pin registry ref session_key now s).1)) e) in
              let (offered, fields) =
                pinned_profile-Offered registry ref id (profiles_of ref.provider s) r found in
              choice id ref now s r (inl offered) fields (inl cool)
          | inr (e, chosen) ↦
              let (same_cooldown, same_profiles) =
                try_pin-none ref session_key now s (try_pin registry ref session_key now s).1
                  (ap (λ o. (o, (try_pin registry ref session_key now s).1)) e) in
              IsChoice-same ref now r s (try_pin registry ref session_key now s).1 same_cooldown
                same_profiles chosen
        ]

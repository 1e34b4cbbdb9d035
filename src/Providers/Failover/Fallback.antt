-- ===== src/Providers/Failover/Fallback.antt =====
-- FailoverResolver::Resolve, with the state of `mu_`: the walk of the fallback chain unlocks it
-- around try_resolve_model and locks it again.
use rav_bot.Prelude.{
  ℕ, suc, ◌+◌, ◌≡◌, ◌↔◌, ◌≢◌, refl, true, false, Option, none, some, List, [], ◌∷◌, ◌++◌, arith, ap,
  ◌∙◌,
}
use rav_bot.Prelude.Text.{Str, str_eq, str_eq_iff}
use rav_bot.Providers.Failover.{Registry, ResolvedProvider, FailoverResolver, try_resolve_model}

pub data Mutex : Type 0 where
  free : Mutex
  held : Mutex

-- `none` where the thread locks a std::mutex that it holds, which is undefined and blocks in
-- practice.
unfoldable pub lock : Mutex → Option Mutex
lock free = some held
lock held = none

abbrev unlock : Mutex → Mutex
unlock m = free

pub data Outcome (P : Type 0) : Type 0 where
  returned : Option (ResolvedProvider P) → FailoverResolver → Outcome P
  deadlocked : FailoverResolver → Outcome P

module _ {P : Type 0} (registry : Registry P) (model session_key : Str) (clock : ℕ → ℕ) where
  -- try_resolve_model with its own lock, and the mutex after it.
  unfoldable pub locked_try :
      Mutex
      → Str
      → ℕ
      → FailoverResolver
      → Option ((Option (ResolvedProvider P) × FailoverResolver) × Mutex)
  unfolding lock
  locked_try mu m now s = elim (lock mu) [
    | none ↦ none
    | some mu' ↦ some (try_resolve_model registry m session_key now s, unlock mu')
  ]

  -- `result->is_fallback = true; ... stats_.failover_count++; return result;`
  unfoldable pub fall_back : Mutex → ResolvedProvider P → FailoverResolver → Outcome P
  unfolding lock
  fall_back mu r s = elim (lock mu) [
    | none ↦ deadlocked s
    | some mu' ↦
        returned (some (record r { is_fallback = true }))
          (record s { stats = record s.stats { failover_count = s.stats.failover_count + 1 } })
  ]

  -- The loop over the chain; the i-th attempt reads the clock i.
  unfoldable pub walk : ℕ → Mutex → List Str → FailoverResolver → Outcome P
  unfolding locked_try fall_back lock
  walk i mu [] s = returned none s
  walk i mu (f ∷ fs) s = elim (str_eq f model) [
    | true ↦ walk i mu fs s
    | false ↦ elim (locked_try (unlock mu) f (clock i) s) [
      | none ↦ deadlocked s
      | some ((result, s'), mu') ↦ elim (lock mu') [
        | none ↦ deadlocked s'
        | some mu'' ↦ elim result [ some r ↦ fall_back mu'' r s' | none ↦ walk (suc i) mu'' fs s' ]
      ]
    ]
  ]

  unfoldable pub after_primary : Option (ResolvedProvider P) × FailoverResolver → Outcome P
  unfolding walk lock
  after_primary (some r, s) = returned (some r) s
  after_primary (none, s) = elim (lock free) [
    | none ↦ deadlocked s
    | some mu ↦ walk 1 mu s.fallback_chain s
  ]

  unfoldable pub resolve : FailoverResolver → Outcome P
  unfolding after_primary
  resolve s = after_primary (try_resolve_model registry model session_key (clock 0) s)

  -- Every model of a part of the chain is the primary one or does not resolve: the attempts from
  -- the i-th up to the j-th lead from one state to another.
  pub data Exhausted : ℕ → ℕ → List Str → FailoverResolver → FailoverResolver → Type 0 where
    nothing : (i : ℕ) → (s : FailoverResolver) → Exhausted i i [] s s
    primary :
        (i j : ℕ)
        → (f : Str) → (fs : List Str) → (s s' : FailoverResolver) → f ≡ model
        → Exhausted i j fs s s'
        → Exhausted i j (f ∷ fs) s s'
    tried :
        (i j : ℕ)
        → (f : Str) → (fs : List Str) → (s s' s'' : FailoverResolver) → f ≢ model
        → try_resolve_model registry f session_key (clock i) s ≡ (none, s')
        → Exhausted (suc i) j fs s' s''
        → Exhausted i j (f ∷ fs) s s''

  walk_primary :
      (i : ℕ) (f : Str) (fs : List Str) (s : FailoverResolver)
      → f ≡ model
      → walk i held (f ∷ fs) s ≡ walk i held fs s
  unfolding walk
  walk_primary i f fs s e = ground (arith, str_eq_iff f model)

  str_eq-false : (f g : Str) → f ≢ g → str_eq f g ≡ false
  str_eq-false f g ne = ground (arith, str_eq_iff f g)

  walk_tried :
      (i : ℕ) (f : Str) (fs : List Str) (s s' : FailoverResolver)
      → f ≢ model
      → try_resolve_model registry f session_key (clock i) s ≡ (none, s')
      → walk i held (f ∷ fs) s ≡ walk (suc i) held fs s'
  unfolding walk lock locked_try
  walk_tried i f fs s s' ne e = ground (arith, str_eq_iff f model)

  walk_found :
      (i : ℕ) (f : Str) (fs : List Str) (s s' : FailoverResolver) (r : ResolvedProvider P)
      → f ≢ model
      → try_resolve_model registry f session_key (clock i) s ≡ (some r, s')
      → walk i held (f ∷ fs) s ≡ deadlocked s'
  unfolding walk lock locked_try fall_back
  walk_found i f fs s s' r ne e = ground (arith, str_eq_iff f model)

  walk-Exhausted :
      (i j : ℕ) (fs rest : List Str) (s s' : FailoverResolver)
      → Exhausted i j fs s s'
      → walk i held (fs ++ rest) s ≡ walk j held rest s'
  walk-Exhausted i j fs rest s s' (nothing _ _) = refl
  walk-Exhausted i j fs rest s s' (primary _ _ f gs _ _ e h) =
      walk_primary i f (gs ++ rest) s e ∙ walk-Exhausted i j gs rest s s' h
  walk-Exhausted i j fs rest s s' (tried _ _ f gs _ t _ ne e h) =
      walk_tried i f (gs ++ rest) s t ne e ∙ walk-Exhausted (suc i) j gs rest t s' h

  -- Where the primary model does not resolve, nor does any model of the chain before another one
  -- that does, Resolve locks the mutex that it already holds instead of returning that one.
  pub resolve_deadlock :
      (before after : List Str) (f : Str) (j : ℕ) (r : ResolvedProvider P)
      (s s' s'' t : FailoverResolver)
      → try_resolve_model registry model session_key (clock 0) s ≡ (none, s')
      → s'.fallback_chain ≡ before ++ f ∷ after
      → Exhausted 1 j before s' s''
      → f ≢ model
      → try_resolve_model registry f session_key (clock j) s'' ≡ (some r, t)
      → resolve s ≡ deadlocked t
  unfolding resolve after_primary lock
  resolve_deadlock before after f j r s s' s'' t hp hc he hf hr = rw hp (
      ap (λ c. walk 1 held c s') hc
      ∙ walk-Exhausted 1 j before (f ∷ after) s' s'' he
      ∙ walk_found j f after s'' t r hf hr)

  walk_never_some :
      (i : ℕ) (fs : List Str) (s s' : FailoverResolver) (r : ResolvedProvider P)
      → walk i held fs s ≢ returned (some r) s'
  unfolding walk lock locked_try fall_back
  walk_never_some i [] s s' r = λ e. cc
  walk_never_some i (f ∷ fs) s s' r =
      let t = (try_resolve_model registry f session_key (clock i) s).1 in
      ground (arith, walk_never_some i fs s s' r, walk_never_some (suc i) fs t s' r)

  -- Resolve returns a provider exactly when the primary model resolves, and then that provider and
  -- the state after the attempt: it never returns one of the fallback chain.
  resolve_primary_only :
      (s s' : FailoverResolver) (r : ResolvedProvider P)
      → (resolve s ≡ returned (some r) s')
        ↔ (try_resolve_model registry model session_key (clock 0) s ≡ (some r, s'))
  unfolding resolve after_primary lock
  resolve_primary_only s s' r =
      let t = (try_resolve_model registry model session_key (clock 0) s).1 in
      ground (arith, walk_never_some 1 t.fallback_chain t s' r)

-- ===== src/Core/AgentLoop/Retry/Ends.antt =====
-- The retries and failovers end, and what gets out of them.
use rav_bot.Prelude.{
  ℕ, suc, ◌+◌, ◌*◌, ◌≤◌, ◌<◌, ◌≡◌, refl, ap, ◌⊎◌, inl, inr, Option, List, [], ◌∷◌, arith, length,
  any, true, ◌∙◌, All, Bool-cases, subst, ltb, ◌&&◌,
}
use rav_bot.Prelude.Int.{ℤ}
use rav_bot.Prelude.Text.{Str}
use rav_bot.Providers.Error.{ProviderErrorKind}
use rav_bot.Providers.Failover.{FailoverResolver, record_failure}
use rav_bot.Core.AgentLoop.Retry.{
  max_failover_attempts, retry_max_backoff_sec, backoff_seconds, is_context_overflow,
  should_retry_provider_error, CallResult, replied, failed, threw, Attempt, RetryState, start,
  Ending, Next, again, ended, deadlocked, report, use_provider, fail_over, on_failure, on_result,
  attempt, execute_with_retry,
}
use native.Mathlib.Nat.{one-le-pow}

ended_not_again : {e : Ending} {s s' : RetryState} → ended e s ≡ again s' → ⊥
ended_not_again h = cc

again_injective : {s s' : RetryState} → again s ≡ again s' → s ≡ s'
again_injective h = cc

pub Next-cases :
    (n : Next)
    → ((s : RetryState) × (n ≡ again s)) ⊎ ((e : Ending) × (s : RetryState) × (n ≡ ended e s))
Next-cases (again s) = inl (s, refl)
Next-cases (ended e s) = inr (e, s, refl)

suc-mul : (a b : ℕ) → suc a * b ≡ a * b + b
suc-mul a b = grind arith

mul_mono : (a b c : ℕ) → a ≤ b → a * c ≤ b * c
mul_mono a b c h = grind arith

-- A wait is between a second and a minute.
abbrev pub IsWait : ℕ → Type 0
IsWait seconds = (1 ≤ seconds) × (seconds ≤ retry_max_backoff_sec)

pub backoff_seconds-IsWait :
    (retry : ℕ) (retry_after : ℤ) → IsWait (backoff_seconds retry retry_after)
unfolding backoff_seconds
backoff_seconds-IsWait retry retry_after =
    let positive = one-le-pow retry 2 (omega arith) in ground arith

-- A sequence of attempts hangs only where one has a Resolve that does.
abbrev pub HangsOnly : List Attempt → Ending → Type 0
HangsOnly attempts e = e ≡ deadlocked → any (λ a. a.resolution.deadlocks) attempts ≡ true

module _ (max_retries : ℕ) (session_key : Str) where
  abbrev pub progress : RetryState → ℕ
  progress s = s.failover_attempts * suc max_retries + s.retry

  pub record IsValid (s : RetryState) : Type 0 where
    pub retries : s.retry ≤ max_retries
    pub failovers : s.failover_attempts < max_failover_attempts
    pub waits : All IsWait s.waits

  abbrev pub Advances : RetryState → RetryState → Type 0
  Advances s s' = IsValid s' × (progress s < progress s')

  -- The next provider, with the same waits.
  abbrev pub MovesOn : RetryState → RetryState → Type 0
  MovesOn s s' =
      (s'.failover_attempts ≡ suc s.failover_attempts)
      × (s'.failover_attempts < max_failover_attempts)
      × (s'.retry ≡ 0)
      × (s'.waits ≡ s.waits)

  pub fail_over-MovesOn :
      (kind : ProviderErrorKind) (a : Attempt) (s s' : RetryState)
      → fail_over max_retries session_key kind a s ≡ again s'
      → MovesOn s s'
  unfolding fail_over use_provider
  fail_over-MovesOn kind a s s' h = ground arith

  MovesOn-Advances : (s s' : RetryState) → IsValid s → MovesOn s s' → Advances s s'
  MovesOn-Advances s s' v m = (
    record { retries = omega arith; failovers = m.1; waits = rw m.3 v.waits },
    omega (
      arith,
      v.retries,
      ap (λ n. n * suc max_retries) m.0,
      suc-mul s.failover_attempts (suc max_retries),
    ),
  )

  retry-Advances :
      (s : RetryState) (seconds : ℕ)
      → IsValid s
      → s.retry < max_retries
      → IsWait seconds
      → Advances s (record s { waits = seconds ∷ s.waits; retry = s.retry + 1 })
  retry-Advances s seconds v h w =
      (record { retries = omega arith; failovers = v.failovers; waits = (w, v.waits) }, omega arith)

  on_failure-Advances :
      (kind : ProviderErrorKind) (retry_after : ℤ) (a : Attempt) (s s' : RetryState)
      → IsValid s
      → on_failure max_retries session_key kind retry_after a s ≡ again s'
      → Advances s s'
  unfolding on_failure
  on_failure-Advances kind retry_after a s s' v h = elim (Bool-cases (is_context_overflow kind)) [
    | inl o ↦ absurd (ended_not_again (rw o at h))
    | inr o ↦ elim (Bool-cases (should_retry_provider_error kind && ltb s.retry max_retries)) [
      | inl r ↦ elim (Bool-cases a.slept) [
        | inl slept ↦ subst (Advances s) (again_injective (rw (o, r, slept) at h)) (
            retry-Advances s (backoff_seconds s.retry retry_after) v (ground arith)
              (backoff_seconds-IsWait s.retry retry_after))
        | inr slept ↦ absurd (ended_not_again (rw (o, r, slept) at h))
      ]
      | inr r ↦
          let reported =
            report max_retries session_key
              (record_failure s.provider_id s.profile_id kind retry_after a.now) s in
          MovesOn-Advances s s' v (fail_over-MovesOn kind a reported s' (rw (o, r) at h))
    ]
  ]

  on_result-Advances :
      (result : CallResult) (a : Attempt) (s s' : RetryState)
      → IsValid s
      → on_result max_retries session_key result a s ≡ again s'
      → Advances s s'
  unfolding on_result
  on_result-Advances replied a s s' v h = absurd (ended_not_again h)
  on_result-Advances (failed kind retry_after) a s s' v h =
      on_failure-Advances kind retry_after a s s' v h
  on_result-Advances (threw what) a s s' v h = absurd (ended_not_again h)

  pub attempt-Advances :
      (a : Attempt) (s s' : RetryState)
      → IsValid s
      → attempt max_retries session_key a s ≡ again s'
      → Advances s s'
  unfolding attempt
  attempt-Advances a s s' v h = elim (Bool-cases a.stopped) [
    | inl e ↦ absurd (ended_not_again (rw e at h))
    | inr e ↦ on_result-Advances a.result a s s' v (ground arith)
  ]

  -- A valid state has made fewer attempts than all providers and their retries.
  progress_bound :
      (s : RetryState) → IsValid s → progress s < max_failover_attempts * suc max_retries
  progress_bound s v = omega (
    arith,
    v.retries,
    suc-mul s.failover_attempts (suc max_retries),
    mul_mono (suc s.failover_attempts) max_failover_attempts (suc max_retries) v.failovers,
  )

  fail_over-deadlocked :
      (kind : ProviderErrorKind) (a : Attempt) (s s' : RetryState)
      → fail_over max_retries session_key kind a s ≡ ended deadlocked s'
      → a.resolution.deadlocks ≡ true
  unfolding fail_over use_provider
  fail_over-deadlocked kind a s s' h = ground arith

  on_failure-deadlocked :
      (kind : ProviderErrorKind) (retry_after : ℤ) (a : Attempt) (s s' : RetryState)
      → on_failure max_retries session_key kind retry_after a s ≡ ended deadlocked s'
      → a.resolution.deadlocks ≡ true
  unfolding on_failure
  on_failure-deadlocked kind retry_after a s s' h =
      let reported =
        report max_retries session_key
          (record_failure s.provider_id s.profile_id kind retry_after a.now) s in
      ground (arith, fail_over-deadlocked kind a reported s')

  on_result-deadlocked :
      (result : CallResult) (a : Attempt) (s s' : RetryState)
      → on_result max_retries session_key result a s ≡ ended deadlocked s'
      → a.resolution.deadlocks ≡ true
  unfolding on_result
  on_result-deadlocked replied a s s' h = absurd (cc)
  on_result-deadlocked (failed kind retry_after) a s s' h =
      on_failure-deadlocked kind retry_after a s s' h
  on_result-deadlocked (threw what) a s s' h = absurd (cc)

  -- A call that hangs is one whose Resolve locks its mutex once more.
  attempt-deadlocked :
      (a : Attempt) (s s' : RetryState)
      → attempt max_retries session_key a s ≡ ended deadlocked s'
      → a.resolution.deadlocks ≡ true
  unfolding attempt
  attempt-deadlocked a s s' h = ground (arith, on_result-deadlocked a.result a s s')

  execute_with_retry-ended :
      (attempts : List Attempt) (s : RetryState)
      → IsValid s
      → max_failover_attempts * suc max_retries ≤ length attempts + progress s
      → (e : Ending) × (s' : RetryState) × (execute_with_retry max_retries session_key attempts s
          ≡ ended e s')
        × HangsOnly attempts e
  unfolding execute_with_retry
  execute_with_retry-ended [] s v h = absurd (omega (arith, progress_bound s v))
  execute_with_retry-ended (a ∷ rest) s v h =
      elim (Next-cases (attempt max_retries session_key a s)) [
        | inl (s', e) ↦
            let (v', more) = attempt-Advances a s s' v e in
            let (end, s'', done, hangs) = execute_with_retry-ended rest s' v' (omega arith) in
            (end, s'', rw (e, execute_with_retry) done, λ d. ground (arith, hangs d))
        | inr (end, s', e) ↦ (
          end,
          s',
          rw (e, execute_with_retry) refl,
          λ d. ground (arith, attempt-deadlocked a s s' (e ∙ ap (λ x. ended x s') d)),
        )
      ]

  -- Whatever the provider, the resolver and the user do, execute_with_retry ends within
  -- max_retries + 1 calls of each of 20 providers, or hangs within these in a Resolve that locks
  -- its own mutex; it ends where no Resolve does.
  pub execute_with_retry_ends :
      (provider : ℕ) (provider_id profile_id : Str) (resolver : Option FailoverResolver)
      (attempts : List Attempt)
      → max_failover_attempts * suc max_retries ≤ length attempts
      → (e : Ending) × (s : RetryState) × (execute_with_retry max_retries session_key attempts
            (start provider provider_id profile_id resolver)
          ≡ ended e s)
        × HangsOnly attempts e
  execute_with_retry_ends provider provider_id profile_id resolver attempts h =
      execute_with_retry-ended attempts (start provider provider_id profile_id resolver)
        (record { retries = omega arith; failovers = omega arith; waits = tt }) (omega arith)

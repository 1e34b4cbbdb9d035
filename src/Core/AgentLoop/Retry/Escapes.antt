-- ===== src/Core/AgentLoop/Retry/Escapes.antt =====
-- The provider's errors that execute_with_retry lets through, and its waits.
use rav_bot.Prelude.{
  ℕ, ◌≡◌, refl, ◌∙◌, true, ◌&&◌, ltb, ◌⊎◌, inl, inr, Option, none, List, [], ◌∷◌, arith, All,
  Bool-cases, subst, sym,
}
use rav_bot.Prelude.Int.{ℤ}
use rav_bot.Prelude.Text.{Str}
use rav_bot.Providers.Error.{ProviderErrorKind, context_overflow}
use rav_bot.Providers.Failover.{FailoverResolver, record_failure}
use rav_bot.Core.AgentLoop.Retry.{
  is_context_overflow, should_retry_provider_error, CallResult, replied, failed, threw, Attempt,
  RetryState, start, Ending, again, ended, provider_failed, user_stopped, returned, rethrew,
  all_exhausted, chain_exhausted, too_many_failovers, deadlocked, report, use_provider, fail_over,
  on_failure, on_result, attempt, execute_with_retry,
}
use rav_bot.Core.AgentLoop.Retry.Ends.{
  IsWait, IsValid, attempt-Advances, backoff_seconds-IsWait, Next-cases,
}

is_context_overflow_iff :
    (kind : ProviderErrorKind) → is_context_overflow kind ≡ true → kind ≡ context_overflow
unfolding is_context_overflow
is_context_overflow_iff context_overflow h = refl
is_context_overflow_iff _ h = absurd (cc)

not_ended : {e : Ending} {s s' : RetryState} → again s ≡ ended e s' → ⊥
not_ended h = cc

not_failed :
    {k : ProviderErrorKind} {s s' : RetryState}
    → ended user_stopped s ≡ ended (provider_failed k) s'
    → ⊥
not_failed h = cc

failed_injective :
    {j k : ProviderErrorKind} {s s' : RetryState}
    → ended (provider_failed j) s ≡ ended (provider_failed k) s'
    → k ≡ j
failed_injective h = cc

ended_injective : {e e' : Ending} {s s' : RetryState} → ended e s ≡ ended e' s' → s ≡ s'
ended_injective h = cc

module _ (max_retries : ℕ) (session_key : Str) where
  fail_over-waits :
      (kind : ProviderErrorKind) (a : Attempt) (s s' : RetryState) (e : Ending)
      → fail_over max_retries session_key kind a s ≡ ended e s'
      → s'.waits ≡ s.waits
  unfolding fail_over use_provider
  fail_over-waits kind a s s' e h = ground arith

  on_failure-waits :
      (kind : ProviderErrorKind) (retry_after : ℤ) (a : Attempt) (s s' : RetryState) (e : Ending)
      → All IsWait s.waits
      → on_failure max_retries session_key kind retry_after a s ≡ ended e s'
      → All IsWait s'.waits
  unfolding on_failure
  on_failure-waits kind retry_after a s s' e w h = elim (Bool-cases (is_context_overflow kind)) [
    | inl o ↦ subst (λ t. All IsWait t.waits) (ended_injective (rw o at h)) w
    | inr o ↦ elim (Bool-cases (should_retry_provider_error kind && ltb s.retry max_retries)) [
      | inl r ↦ elim (Bool-cases a.slept) [
        | inl slept ↦ absurd (not_ended (rw (o, r, slept) at h))
        | inr slept ↦
            subst (λ t. All IsWait t.waits) (ended_injective (rw (o, r, slept) at h))
              (backoff_seconds-IsWait s.retry retry_after, w)
      ]
      | inr r ↦
          let reported =
            report max_retries session_key
              (record_failure s.provider_id s.profile_id kind retry_after a.now) s in
          subst (All IsWait) (sym (fail_over-waits kind a reported s' e (rw (o, r) at h))) w
    ]
  ]

  on_result-waits :
      (result : CallResult) (a : Attempt) (s s' : RetryState) (e : Ending)
      → All IsWait s.waits
      → on_result max_retries session_key result a s ≡ ended e s'
      → All IsWait s'.waits
  unfolding on_result
  on_result-waits replied a s s' e w h = subst (λ t. All IsWait t.waits) (ended_injective h) w
  on_result-waits (failed kind retry_after) a s s' e w h =
      on_failure-waits kind retry_after a s s' e w h
  on_result-waits (threw what) a s s' e w h = subst (λ t. All IsWait t.waits) (ended_injective h) w

  attempt-waits :
      (a : Attempt) (s s' : RetryState) (e : Ending)
      → All IsWait s.waits
      → attempt max_retries session_key a s ≡ ended e s'
      → All IsWait s'.waits
  unfolding attempt
  attempt-waits a s s' e w h = elim (Bool-cases a.stopped) [
    | inl stop ↦ subst (λ t. All IsWait t.waits) (ended_injective (rw stop at h)) w
    | inr stop ↦ on_result-waits a.result a s s' e w (ground arith)
  ]

  fail_over-escape :
      (kind k : ProviderErrorKind) (a : Attempt) (s s' : RetryState)
      → fail_over max_retries session_key kind a s ≡ ended (provider_failed k) s'
      → s'.resolver ≡ none
  unfolding fail_over use_provider
  fail_over-escape kind k a s s' h = ground arith

  on_failure-escape :
      (kind k : ProviderErrorKind) (retry_after : ℤ) (a : Attempt) (s s' : RetryState)
      → on_failure max_retries session_key kind retry_after a s ≡ ended (provider_failed k) s'
      → (k ≡ context_overflow) ⊎ (s'.resolver ≡ none)
  unfolding on_failure
  on_failure-escape kind k retry_after a s s' h = elim (Bool-cases (is_context_overflow kind)) [
    | inl o ↦ inl (failed_injective (rw o at h) ∙ is_context_overflow_iff kind o)
    | inr o ↦ elim (Bool-cases (should_retry_provider_error kind && ltb s.retry max_retries)) [
      | inl r ↦ elim (Bool-cases a.slept) [
        | inl slept ↦ absurd (not_ended (rw (o, r, slept) at h))
        | inr slept ↦ absurd (not_failed (rw (o, r, slept) at h))
      ]
      | inr r ↦
          let reported =
            report max_retries session_key
              (record_failure s.provider_id s.profile_id kind retry_after a.now) s in
          inr (fail_over-escape kind k a reported s' (rw (o, r) at h))
    ]
  ]

  on_result-escape :
      (result : CallResult) (a : Attempt) (s s' : RetryState) (k : ProviderErrorKind)
      → on_result max_retries session_key result a s ≡ ended (provider_failed k) s'
      → (k ≡ context_overflow) ⊎ (s'.resolver ≡ none)
  unfolding on_result
  on_result-escape replied a s s' k h = absurd (cc)
  on_result-escape (failed kind retry_after) a s s' k h =
      on_failure-escape kind k retry_after a s s' h
  on_result-escape (threw what) a s s' k h = absurd (cc)

  attempt-escape :
      (a : Attempt) (s s' : RetryState) (k : ProviderErrorKind)
      → attempt max_retries session_key a s ≡ ended (provider_failed k) s'
      → (k ≡ context_overflow) ⊎ (s'.resolver ≡ none)
  unfolding attempt
  attempt-escape a s s' k h = elim (Bool-cases a.stopped) [
    | inl stop ↦ absurd (not_failed (rw stop at h))
    | inr stop ↦ on_result-escape a.result a s s' k (ground arith)
  ]

  run-again :
      (a : Attempt) (rest : List Attempt) (s s' : RetryState)
      → attempt max_retries session_key a s ≡ again s'
      → execute_with_retry max_retries session_key (a ∷ rest) s
        ≡ execute_with_retry max_retries session_key rest s'
  unfolding execute_with_retry
  run-again a rest s s' h = rw (h, execute_with_retry) refl

  run-ended :
      (a : Attempt) (rest : List Attempt) (s s' : RetryState) (e : Ending)
      → attempt max_retries session_key a s ≡ ended e s'
      → execute_with_retry max_retries session_key (a ∷ rest) s ≡ ended e s'
  unfolding execute_with_retry
  run-ended a rest s s' e h = rw (h, execute_with_retry) refl

  -- A provider's error gets out only if it is an overflow of the context or there is no resolver.
  abbrev pub IsEscape : Ending → RetryState → Type 0
  IsEscape (provider_failed kind) s = (kind ≡ context_overflow) ⊎ (s.resolver ≡ none)
  IsEscape e s = Unit

  attempt-IsEscape :
      (a : Attempt) (s s' : RetryState) (e : Ending)
      → attempt max_retries session_key a s ≡ ended e s'
      → IsEscape e s'
  attempt-IsEscape a s s' (provider_failed kind) h = attempt-escape a s s' kind h
  attempt-IsEscape a s s' returned h = tt
  attempt-IsEscape a s s' (rethrew what) h = tt
  attempt-IsEscape a s s' user_stopped h = tt
  attempt-IsEscape a s s' all_exhausted h = tt
  attempt-IsEscape a s s' chain_exhausted h = tt
  attempt-IsEscape a s s' too_many_failovers h = tt
  attempt-IsEscape a s s' deadlocked h = tt

  run_effect :
      (attempts : List Attempt) (s s' : RetryState) (e : Ending)
      → IsValid max_retries session_key s
      → execute_with_retry max_retries session_key attempts s ≡ ended e s'
      → All IsWait s'.waits × IsEscape e s'
  unfolding execute_with_retry
  run_effect [] s s' e v h = absurd (not_ended h)
  run_effect (a ∷ rest) s s' e v h = elim (Next-cases (attempt max_retries session_key a s)) [
    | inl (t, q) ↦
        run_effect rest t s' e (attempt-Advances max_retries session_key a s t v q).0
          (sym (run-again a rest s t q) ∙ h)
    | inr (e', t, q) ↦
        let same = sym (run-ended a rest s t e' q) ∙ h in
        let stop : attempt max_retries session_key a s ≡ ended e s' = q ∙ same in
        (attempt-waits a s s' e v.waits stop, attempt-IsEscape a s s' e stop)
  ]

  -- When execute_with_retry ends, each wait between two calls was between a second and a minute,
  -- and a provider's error that it throws is an overflow of the context, unless there is no
  -- resolver.
  pub execute_with_retry-escapes :
      (provider : ℕ) (provider_id profile_id : Str) (resolver : Option FailoverResolver)
      (attempts : List Attempt) (e : Ending) (s : RetryState)
      → execute_with_retry max_retries session_key attempts
          (start provider provider_id profile_id resolver)
        ≡ ended e s
      → All IsWait s.waits × IsEscape e s
  execute_with_retry-escapes provider provider_id profile_id resolver attempts e s h =
      run_effect attempts (start provider provider_id profile_id resolver) s e
        (record { retries = omega arith; failovers = omega arith; waits = tt }) h

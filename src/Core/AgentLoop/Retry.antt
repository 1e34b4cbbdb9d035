-- ===== src/Core/AgentLoop/Retry.antt =====
-- AgentLoop::execute_with_retry of src/core/agent_loop.cpp. What happens outside is given attempt
-- by attempt: stop_requested_ where the code reads it, what the provider does, and what
-- resolve_provider finds, with the resolver as Resolve leaves it. The messages are another
-- module's matter (Sanitize).
pub mod Ends
pub mod Escapes
mod Tests
use rav_bot.Prelude.{
  ℕ, ◌+◌, ◌^◌, Bool, true, false, ◌&&◌, not, Option, none, some, List, [], ◌∷◌, if◌then◌else◌, ltb,
  ◌==◌, is_empty, min,
}
use rav_bot.Prelude.Int.{ℤ, pos, ltb_ℤ, pos_part}
use rav_bot.Prelude.Text.{Str, bytes}
use rav_bot.Providers.Error.{ProviderErrorKind, rate_limit, transient, timeout, context_overflow}
use rav_bot.Providers.Failover.{FailoverResolver, record_success, record_failure}
use mathlib.Core.Option

unfoldable pub should_retry_provider_error : ProviderErrorKind → Bool
should_retry_provider_error rate_limit = true
should_retry_provider_error transient = true
should_retry_provider_error timeout = true
should_retry_provider_error kind = false

unfoldable pub is_context_overflow : ProviderErrorKind → Bool
is_context_overflow context_overflow = true
is_context_overflow kind = false

abbrev pub max_failover_attempts : ℕ
max_failover_attempts = 20

abbrev pub retry_max_backoff_sec : ℕ
retry_max_backoff_sec = 60

-- The wait before the next retry: 1 * 2^retry seconds, or what the provider asks for, up to a
-- minute. The double is exact for the few retries that there are.
unfoldable pub backoff_seconds : ℕ → ℤ → ℕ
backoff_seconds retry retry_after =
    let backoff = min (2 ^ retry) retry_max_backoff_sec in
    if ltb_ℤ (pos 0) retry_after && ltb_ℤ (pos backoff) retry_after
    then min (pos_part retry_after) retry_max_backoff_sec
    else backoff

-- What a call of the provider does: it returns, throws a ProviderError with its kind and
-- Retry-After, or throws another exception.
pub data CallResult : Type 0 where
  replied : CallResult
  failed : ProviderErrorKind → ℤ → CallResult
  threw : Str → CallResult

-- What resolve_provider does; a provider is the number of its object, and `none` a null pointer.
-- `deadlocks` says that Resolve locks its own mutex once more and never returns (Failover/Fallback).
pub record Resolution : Type 0 where
  pub deadlocks : Bool
  pub provider : Option ℕ
  pub provider_id : Str
  pub profile_id : Str
  pub resolver : FailoverResolver

-- `slept` is interruptible_sleep's result; `stopped` and `stopped_later` are stop_requested_ before
-- the call and before a failover.
pub record Attempt : Type 0 where
  pub stopped : Bool
  pub result : CallResult
  pub slept : Bool
  pub stopped_later : Bool
  pub resolution : Resolution
  pub now : ℕ

-- `waits` has the waits so far, the last one first.
pub record RetryState : Type 0 where
  pub provider : ℕ
  pub provider_id : Str
  pub profile_id : Str
  pub retry : ℕ
  pub failover_attempts : ℕ
  pub resolver : Option FailoverResolver
  pub waits : List ℕ

-- The state at the call.
abbrev pub start : ℕ → Str → Str → Option FailoverResolver → RetryState
start provider provider_id profile_id resolver = record {
  provider = provider;
  provider_id = provider_id;
  profile_id = profile_id;
  retry = 0;
  failover_attempts = 0;
  resolver = resolver;
  waits = [];
}

-- How the call ends; `deadlocked` is a Resolve that never returns.
pub data Ending : Type 0 where
  returned : Ending
  provider_failed : ProviderErrorKind → Ending
  rethrew : Str → Ending
  user_stopped : Ending
  all_exhausted : Ending
  chain_exhausted : Ending
  too_many_failovers : Ending
  deadlocked : Ending

pub data Next : Type 0 where
  again : RetryState → Next
  ended : Ending → RetryState → Next

module _ (max_retries : ℕ) (session_key : Str) where
  -- A call of the resolver, where there is one and the provider has an identifier.
  abbrev pub report : (FailoverResolver → FailoverResolver) → RetryState → RetryState
  report f s = record s {
    resolver = if is_empty s.provider_id then s.resolver else Option.map f s.resolver;
  }

  unfoldable pub use_provider : ℕ → RetryState → Next
  use_provider provider s =
      let s' = record s {
        provider = provider;
        retry = 0;
        failover_attempts = s.failover_attempts + 1;
      } in
      if provider == s.provider && ltb 0 s.failover_attempts
      then ended chain_exhausted s
      else if ltb (s.failover_attempts + 1) max_failover_attempts
      then again s'
      else ended too_many_failovers s'

  -- The part of the loop behind the retries.
  unfoldable pub fail_over : ProviderErrorKind → Attempt → RetryState → Next
  unfolding use_provider
  fail_over kind a s =
      let s' = record s {
        provider_id = a.resolution.provider_id;
        profile_id = a.resolution.profile_id;
        resolver = some a.resolution.resolver;
      } in
      if a.stopped_later then ended user_stopped s else elim s.resolver [
        | none ↦ ended (provider_failed kind) s
        | some _ ↦
            if a.resolution.deadlocks then ended deadlocked s else elim a.resolution.provider [
              | none ↦ ended all_exhausted s'
              | some provider ↦ use_provider provider s'
            ]
      ]

  unfoldable pub on_failure : ProviderErrorKind → ℤ → Attempt → RetryState → Next
  unfolding fail_over should_retry_provider_error is_context_overflow backoff_seconds
  on_failure kind retry_after a s =
      if is_context_overflow kind
      then ended (provider_failed kind) s
      else if should_retry_provider_error kind && ltb s.retry max_retries
      then (let s' = record s { waits = backoff_seconds s.retry retry_after ∷ s.waits } in
          if a.slept then again (record s' { retry = s.retry + 1 }) else ended user_stopped s')
      else fail_over kind a
          (report (record_failure s.provider_id s.profile_id kind retry_after a.now) s)

  unfoldable pub on_result : CallResult → Attempt → RetryState → Next
  unfolding on_failure
  on_result replied a s =
      ended returned (report (record_success s.provider_id s.profile_id session_key) s)
  on_result (failed kind retry_after) a s = on_failure kind retry_after a s
  on_result (threw what) a s = ended (rethrew what) s

  unfoldable pub attempt : Attempt → RetryState → Next
  unfolding on_result
  attempt a s = if a.stopped then ended user_stopped s else on_result a.result a s

  unfoldable pub execute_with_retry : List Attempt → RetryState → Next
  unfolding attempt
  execute_with_retry [] s = again s
  execute_with_retry (a ∷ rest) s = elim (attempt a s) [
    | again s' ↦ execute_with_retry rest s'
    | ended e s' ↦ ended e s'
  ]

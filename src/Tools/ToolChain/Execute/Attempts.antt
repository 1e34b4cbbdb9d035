-- ===== src/Tools/ToolChain/Execute/Attempts.antt =====
-- The attempts of one step.
use rav_bot.Prelude.{ℕ, zero, suc, ◌<◌, ◌≡◌, ◌⊎◌, inl, inr, refl, true, [], arith}
use rav_bot.Prelude.Text.{Str}
use rav_bot.Tools.ToolChain.Types.{Json, ChainStepResult}
use rav_bot.Tools.ToolChain.Execute.{CallOutcome, returned, threw, attempt, record_outcome}

module _ {ℓ} {E : Type ℓ} (call : Str → Json → E → CallOutcome × E) where
  -- `k` calls in a row that throw, with the last error after `what`.
  pub data Failures (tool : Str) (args : Json) : ℕ → Str → E → Str → E → Type ℓ where
    no_failure : {what : Str} {e : E} → Failures tool args 0 what e what e
    failure :
        {k : ℕ} {first what last : Str} {e e' e'' : E}
        → call tool args e ≡ (threw what, e')
        → Failures tool args k what e' last e''
        → Failures tool args (suc k) first e last e''

  -- What up to `n` attempts give: a call that returns after fewer than `n` that throw, or `n`
  -- that throw.
  pub data Tried (args : Json) (n : ℕ) (r : ChainStepResult) (e : E)
      : ChainStepResult → E → Type ℓ where
    succeeded :
        {k : ℕ} {what output : Str} {e' e'' : E}
        → k < n
        → Failures r.tool_name args k r.error e what e'
        → call r.tool_name args e' ≡ (returned output, e'')
        → Tried args n r e (record r { result = output; success = true; error = [] }) e''
    exhausted :
        {what : Str} {e' : E}
        → Failures r.tool_name args n r.error e what e'
        → Tried args n r e (record r { error = what }) e'

  Tried-threw :
      {args : Json} {n : ℕ} {r q : ChainStepResult} {what : Str} {e e' e'' : E}
      → call r.tool_name args e ≡ (threw what, e')
      → Tried args n (record r { error = what }) e' q e''
      → Tried args (suc n) r e q e''
  Tried-threw h (succeeded k f c) = succeeded (omega (arith, k)) (failure h f) c
  Tried-threw h (exhausted f) = exhausted (failure h f)

  outcome-cases :
      (c : CallOutcome × E)
      → ((output : Str) × (e' : E) × (c ≡ (returned output, e')))
        ⊎ ((what : Str) × (e' : E) × (c ≡ (threw what, e')))
  outcome-cases (returned output, e) = inl (output, e, refl)
  outcome-cases (threw what, e) = inr (what, e, refl)

  attempt_returned :
      {output : Str} {e' : E} (n : ℕ) (args : Json) (r : ChainStepResult) (e : E)
      → call r.tool_name args e ≡ (returned output, e')
      → attempt call (suc n) args r e
        ≡ (record r { result = output; success = true; error = [] }, e')
  unfolding attempt record_outcome
  attempt_returned n args r e h = ground arith

  attempt_threw :
      {what : Str} {e' : E} (n : ℕ) (args : Json) (r : ChainStepResult) (e : E)
      → call r.tool_name args e ≡ (threw what, e')
      → attempt call (suc n) args r e ≡ attempt call n args (record r { error = what }) e'
  unfolding attempt record_outcome
  attempt_threw n args r e h = ground arith

  -- The loop over the attempts of a step makes calls until one returns, and at most its bound.
  pub attempt-Tried :
      (n : ℕ) (args : Json) (r : ChainStepResult) (e : E)
      → Tried args n r e (attempt call n args r e).0 (attempt call n args r e).1
  attempt-Tried zero args r e = unfold attempt in exhausted no_failure
  attempt-Tried (suc n) args r e = elim (outcome-cases (call r.tool_name args e)) [
    | inl (output, e', h) ↦
        rw (attempt_returned n args r e h) (succeeded (omega arith) no_failure h)
    | inr (what, e', h) ↦
        rw (attempt_threw n args r e h)
          (Tried-threw h (attempt-Tried n args (record r { error = what }) e'))
  ]

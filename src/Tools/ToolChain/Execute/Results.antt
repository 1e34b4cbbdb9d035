-- ===== src/Tools/ToolChain/Execute/Results.antt =====
-- What a returned result says of the steps.
use rav_bot.Prelude.{
  ℕ, suc, ◌≡◌, refl, sym, ap, ◌∙◌, subst, Bool, true, false, not, ◌&&◌, ◌||◌, List, [], ◌∷◌, ◌++◌,
  append_assoc, append-nil, some, arith, all, length, if◌then◌else◌,
}
use rav_bot.Prelude.Text.{Str}
use mathlib.Core.List.{reverse, reverse-cons}
use rav_bot.Tools.ToolChain.Types.{Json, ChainStep, ToolChainDef, ChainStepResult, ChainResult}
use rav_bot.Tools.ToolChain.Execute.{
  CallOutcome, stops, new_step, add_step, finish, stopped_at, execute, first_success,
}
use rav_bot.Tools.ToolChain.Execute.Attempts.{succeeded, exhausted}
use rav_bot.Tools.ToolChain.Execute.Runs.{Runs, done, stop, next, Gives, execute-Runs}

-- The results are those of the first steps, numbered from `i` on and in their order.
unfoldable pub Reports : ℕ → List ChainStep → List ChainStepResult → Type 0
Reports i steps [] = Unit
Reports i [] (r ∷ rs) = ⊥
Reports i (step ∷ steps) (r ∷ rs) =
    (r.step_index ≡ i) × (r.tool_name ≡ step.tool_name) × Reports (suc i) steps rs

-- A failed step that ends the chain is the last one.
unfoldable pub EndsAtFailure : Bool → List ChainStepResult → Type 0
EndsAtFailure ends [] = Unit
EndsAtFailure ends (r ∷ []) = Unit
EndsAtFailure ends (r ∷ s ∷ rs) = ((not r.success && ends) ≡ false) × EndsAtFailure ends (s ∷ rs)

-- The result of the last successful step, or `text`.
unfoldable pub last_ok : List ChainStepResult → Str → Str
last_ok [] output = output
last_ok (r ∷ rs) output = last_ok rs (if r.success then r.result else output)

first_ok : List ChainStepResult → Str → Str
first_ok [] output = output
first_ok (r ∷ rs) output = let rest = first_ok rs output in if r.success then r.result else rest

first_ok-append :
    (rs : List ChainStepResult) (r : ChainStepResult) (output : Str)
    → first_ok (rs ++ r ∷ []) output ≡ first_ok rs (if r.success then r.result else output)
unfolding first_ok
first_ok-append [] r output = refl
first_ok-append (q ∷ qs) r output = ground (arith, first_ok-append qs r output)

first_success-first_ok : (rs : List ChainStepResult) → first_success rs ≡ first_ok rs []
unfolding first_ok first_success
first_success-first_ok [] = refl
first_success-first_ok (r ∷ rs) = ground (arith, first_success-first_ok rs)

first_ok-reverse :
    (rs : List ChainStepResult) (output : Str) → first_ok (reverse rs) output ≡ last_ok rs output
first_ok-reverse [] output = unfold first_ok last_ok in refl
first_ok-reverse (r ∷ rs) output =
    ap (λ xs. first_ok xs output) (reverse-cons r rs)
    ∙ first_ok-append (reverse rs) r output
    ∙ first_ok-reverse rs (if r.success then r.result else output)
    ∙ unfold last_ok in refl

pub finish-last_ok :
    (result : ChainResult) → (finish result).final_result ≡ last_ok result.step_results []
unfolding finish
finish-last_ok result =
    first_success-first_ok (reverse result.step_results) ∙ first_ok-reverse result.step_results []

-- The account of the steps from `i` on: `news` are their results.
pub record Account (chain : ToolChainDef) (i : ℕ) (steps : List ChainStep)
    (before out : ChainResult) (news : List ChainStepResult) : Type 0 where
  pub appended : out.step_results ≡ before.step_results ++ news
  pub reported : Reports i steps news
  pub verdict : out.success ≡ (before.success && all (λ r. r.success) news)
  pub ends : EndsAtFailure (stops chain.error_policy) news
  pub complete : all (λ r. r.success) news ≡ true → length news ≡ length steps
  pub continued : stops chain.error_policy ≡ false → length news ≡ length steps
  pub final :
      (all (λ r. r.success) news || not (stops chain.error_policy)) ≡ true
      → out.final_result ≡ last_ok out.step_results []

module _ {ℓ} {E : Type ℓ} (call : Str → Json → E → CallOutcome × E) where
  Gives-head :
      {args : Json} {e e' : E} (chain : ToolChainDef) (i : ℕ) (step : ChainStep)
      {r : ChainStepResult}
      → Gives call chain i step args e r e'
      → (r.step_index ≡ i) × (r.tool_name ≡ step.tool_name)
  Gives-head chain i step (succeeded k f c) = unfold new_step in (refl, refl)
  Gives-head chain i step (exhausted f) = unfold new_step in (refl, refl)

Account-done :
    (chain : ToolChainDef) (i : ℕ) (result : ChainResult)
    → Account chain i [] result (finish result) []
unfolding finish Reports EndsAtFailure
Account-done chain i result = record {
  appended = sym (append-nil result.step_results);
  reported = tt;
  verdict = ground arith;
  ends = tt;
  complete = λ h. refl;
  continued = λ h. refl;
  final = λ h. finish-last_ok result;
}

Account-stop :
    (chain : ToolChainDef) (i : ℕ) (step : ChainStep) (steps : List ChainStep)
    (result : ChainResult) (r : ChainStepResult)
    → r.step_index ≡ i
    → r.tool_name ≡ step.tool_name
    → (not r.success && stops chain.error_policy) ≡ true
    → Account chain i (step ∷ steps) result (stopped_at i r.error (add_step r result)) (r ∷ [])
unfolding stopped_at add_step Reports EndsAtFailure
Account-stop chain i step steps result r h k s = record {
  appended = refl;
  reported = (h, k, tt);
  verdict = ground arith;
  ends = tt;
  complete = λ e. ground arith;
  continued = λ e. ground arith;
  final = λ e. ground arith;
}

Account-next :
    (chain : ToolChainDef) (i : ℕ) (step : ChainStep) (steps : List ChainStep)
    (result out : ChainResult) (r : ChainStepResult) (news : List ChainStepResult)
    → r.step_index ≡ i
    → r.tool_name ≡ step.tool_name
    → (not r.success && stops chain.error_policy) ≡ false
    → Account chain (suc i) steps (add_step r result) out news
    → Account chain i (step ∷ steps) result out (r ∷ news)
unfolding add_step Reports EndsAtFailure
Account-next chain i step steps result out r [] h k s a = record {
  appended = a.appended ∙ append_assoc result.step_results (r ∷ []) [];
  reported = (h, k, a.reported);
  verdict = ground (arith, a.verdict);
  ends = tt;
  complete = λ e. ground (arith, a.complete);
  continued = λ e. ground (arith, a.continued);
  final = λ e. ground (arith, a.final);
}
Account-next chain i step steps result out r (q ∷ qs) h k s a = record {
  appended = a.appended ∙ append_assoc result.step_results (r ∷ []) (q ∷ qs);
  reported = (h, k, a.reported);
  verdict = ground (arith, a.verdict);
  ends = (s, a.ends);
  complete = λ e. ground (arith, a.complete);
  continued = λ e. ground (arith, a.continued);
  final = λ e. ground (arith, a.final);
}

module _ {ℓ} {E : Type ℓ} (call : Str → Json → E → CallOutcome × E) where
  Runs-Account :
      {chain : ToolChainDef} {i : ℕ} {steps : List ChainStep} {result out : ChainResult} {e e' : E}
      → Runs call chain i steps result e out e'
      → (news : List ChainStepResult) × Account chain i steps result out news
  Runs-Account {chain} (done {i} {result}) = ([], Account-done chain i result)
  Runs-Account {chain} (stop {i} {step} {steps} {result} {args} {r} h g s) =
      let (index, name) = Gives-head call chain i step g in
      (r ∷ [], Account-stop chain i step steps result r index name s)
  Runs-Account {chain} (next {i} {step} {steps} {result} {out} {args} {r} h g s rest) =
      let (index, name) = Gives-head call chain i step g in
      let (news, a) = Runs-Account rest in
      (r ∷ news, Account-next chain i step steps result out r news index name s a)

  -- Of a result that Execute returns: the results are those of the first steps of the chain, in
  -- their order and numbered from 0; it counts as a success exactly when all of them do, and then
  -- they are those of all steps; a failed step that ends the chain is the last; under the policy
  -- to continue, no step is missing; and after a success or under that policy the final result is
  -- the last successful step's.
  pub execute-Account :
      (can_dump : Json → Bool) (chain : ToolChainDef) (e : E) (out : ChainResult) (e' : E)
      → execute call can_dump chain e ≡ (some out, e')
      → Account chain 0 chain.steps
          (record { chain_name = chain.name; step_results = []; success = true; final_result = [] })
          out
          out.step_results
  execute-Account can_dump chain e out e' h =
      let (news, a) = Runs-Account (execute-Runs call can_dump chain e out e' h) in
      subst (Account chain 0 chain.steps _ out) (sym a.appended) a

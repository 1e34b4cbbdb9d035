-- ===== src/Channels/LaneProcessor/Order.antt =====
-- The order in which the tasks of a lane are executed.
use rav_bot.Prelude.{◌≡◌, refl, sym, ap, ◌∙◌, List, [], ◌∷◌, ◌++◌, append_assoc, append-nil, arith}
use rav_bot.Channels.LaneProcessor.{
  Worker, executing, Lane, new_lane, wake, push, Step, pushed, notified, shut, entered, left,
  found_empty, waited, woken, broke, took, ran, Steps, no_step, ◌then◌,
}

module _ {ℓ} {T : Type ℓ} where
  -- The task that the worker executes.
  unfoldable pub current : Worker T → List T
  current (executing t) = t ∷ []
  current w = []

  -- Executed, executing and queued tasks are the submitted ones, in their order.
  unfoldable pub InOrder : Lane T → Type ℓ
  unfolding current
  InOrder l = l.executed ++ current l.worker ++ l.queue ≡ l.submitted

  current-wake : (w : Worker T) → current (wake w) ≡ current w
  unfolding current wake
  current-wake w = ground arith

  Step-InOrder : {a b : Lane T} → Step a b → InOrder a → InOrder b
  unfolding InOrder current push
  Step-InOrder (pushed {l} t h) i =
      sym (append_assoc (l.executed ++ current l.worker) l.queue (t ∷ [])) ∙ ap (λ s. s ++ t ∷ []) i
  Step-InOrder (notified {l}) i = ap (λ c. l.executed ++ c ++ l.queue) (current-wake l.worker) ∙ i
  Step-InOrder (shut {l}) i = i
  Step-InOrder (entered {l} h k) i = ground arith
  Step-InOrder (left {l} h k) i = ground arith
  Step-InOrder (found_empty {l} h q k) i = ground arith
  Step-InOrder (waited {l} h) i = ground arith
  Step-InOrder (woken {l} h) i = ground arith
  Step-InOrder (broke {l} h q k) i = ground arith
  Step-InOrder (took {l} {t} {q} h k) i =
      ground (arith, append_assoc l.executed (t ∷ []) q, append-nil l.executed)
  Step-InOrder (ran {l} {t} h) i = ground (arith, append-nil (l.executed ++ t ∷ []))

  Steps-InOrder : {a b : Lane T} → Steps a b → InOrder a → InOrder b
  Steps-InOrder no_step i = i
  Steps-InOrder (s then ss) i = Steps-InOrder ss (Step-InOrder s i)

  -- However the threads interleave, the tasks of a lane that were executed, the one that is being
  -- executed and those in the queue are the submitted ones, in the order of their submission and
  -- each once.
  pub reached-InOrder :
      (l : Lane T) → Steps new_lane l → l.executed ++ current l.worker ++ l.queue ≡ l.submitted
  unfolding InOrder current
  reached-InOrder l ss = Steps-InOrder ss refl

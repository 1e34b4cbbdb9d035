-- ===== src/Channels/LaneProcessor/Stopping.antt =====
-- What becomes of a lane that is shut down.
use rav_bot.Prelude.{ℕ, ◌+◌, ◌≤◌, ◌≡◌, refl, false, [], ◌∷◌, length, length-append, arith}
use rav_bot.Channels.LaneProcessor.{
  Worker, at_loop, ended, Lane, wake, push, Step, pushed, notified, shut, entered, left,
  found_empty, waited, woken, broke, took, ran, Steps, no_step, ◌then◌,
}

module _ {ℓ} {T : Type ℓ} where
  -- The tasks that the worker of a lane that is shut down may still execute.
  unfoldable pub to_come : Worker T → ℕ
  to_come at_loop = 0
  to_come ended = 0
  to_come w = 1

  to_come-wake : (w : Worker T) → to_come (wake w) ≡ to_come w
  unfolding to_come wake
  to_come-wake w = ground arith

  -- After the store of Shutdown.
  unfoldable pub IsBelow : ℕ → Lane T → Type 0
  unfolding to_come
  IsBelow n l = (l.running ≡ false) × (length l.executed + to_come l.worker ≤ n)

  Step-IsBelow : {a b : Lane T} (n : ℕ) → Step a b → IsBelow n a → IsBelow n b
  unfolding IsBelow to_come push
  Step-IsBelow n (pushed {l} t h) i = i
  Step-IsBelow n (notified {l}) i = (i.0, omega (arith, to_come-wake l.worker, i.1))
  Step-IsBelow n (shut {l}) i = (refl, i.1)
  Step-IsBelow n (entered {l} h k) i = ground arith
  Step-IsBelow n (left {l} h k) i = ground arith
  Step-IsBelow n (found_empty {l} h q k) i = ground arith
  Step-IsBelow n (waited {l} h) i = ground arith
  Step-IsBelow n (woken {l} h) i = ground arith
  Step-IsBelow n (broke {l} h q k) i = ground arith
  Step-IsBelow n (took {l} {t} {q} h k) i = ground arith
  Step-IsBelow n (ran {l} {t} h) i = ground (arith, length-append l.executed (t ∷ []))

  Steps-IsBelow : {a b : Lane T} (n : ℕ) → Steps a b → IsBelow n a → IsBelow n b
  Steps-IsBelow n no_step i = i
  Steps-IsBelow n (s then ss) i = Steps-IsBelow n ss (Step-IsBelow n s i)

  -- Once a lane is told to stop, its worker executes at most one more task, counting the one that
  -- it executes then: the other tasks in its queue are never executed.
  pub executed-shut :
      (a b : Lane T)
      → a.running ≡ false
      → Steps a b
      → length b.executed ≤ length a.executed + to_come a.worker
  unfolding IsBelow
  executed-shut a b r ss =
      omega (arith, (Steps-IsBelow (length a.executed + to_come a.worker) ss (r, omega arith)).1)

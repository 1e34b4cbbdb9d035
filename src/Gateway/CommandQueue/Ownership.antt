-- ===== src/Gateway/CommandQueue/Ownership.antt =====
-- How the operations on one lane treat its active command and the session of its commands.
use rav_bot.Prelude.{
  ℕ, zero, suc, ◌≡◌, refl, true, false, Option, none, some, List, [], ◌∷◌, ◌++◌, arith, Bool-cases,
  inl, inr, All, All-append, length, ◌&&◌,
}
use rav_bot.Prelude.Int.{ℤ}
use rav_bot.Prelude.Text.{Str}
use rav_bot.Gateway.Types.{QueuedCommand, DropPolicy, summarize, drop_oldest, reject}
use rav_bot.Gateway.Lane.{
  SessionLane, has_active, enqueue, try_activate, activate, drop_one, unsnoc, overflow_loop,
  apply_cap_overflow, drain_pending_as_steering_text, remove_first, cancel_pending,
}
use rav_bot.Gateway.CommandQueue.{submit_lane, is_interrupt, is_steering, batch}

module _ {Json : Type 0} (key : Str) where
  abbrev pub Belongs : QueuedCommand Json → Type 0
  Belongs c = c.session_key ≡ key

  -- Every waiting command of the lane is of its session.
  abbrev pub IsOwned : SessionLane Json → Type 0
  IsOwned lane = All Belongs lane.pending

  unsnoc-Belongs :
      (x : QueuedCommand Json) (xs : List (QueuedCommand Json))
      → Belongs x
      → All Belongs xs
      → All Belongs (unsnoc x xs).0
  unsnoc-Belongs x [] h hs = tt
  unsnoc-Belongs x (y ∷ ys) h hs = (h, unsnoc-Belongs y ys hs.0 hs.1)

  drop_one-Belongs :
      (policy : DropPolicy) (queue : List (QueuedCommand Json))
      → All Belongs queue
      → All Belongs (drop_one policy queue).0
  unfolding drop_one
  drop_one-Belongs summarize [] h = h
  drop_one-Belongs summarize (x ∷ []) h = h
  drop_one-Belongs summarize (x ∷ y ∷ queue) h = (h.0, h.1.1)
  drop_one-Belongs drop_oldest [] h = h
  drop_one-Belongs drop_oldest (x ∷ queue) h = h.1
  drop_one-Belongs reject [] h = h
  drop_one-Belongs reject (x ∷ queue) h = unsnoc-Belongs x queue h.0 h.1

  overflow_loop-Belongs :
      (rounds : ℕ) (cap : ℤ) (policy : DropPolicy) (queue : List (QueuedCommand Json))
      (d : List Str)
      → All Belongs queue
      → All Belongs (overflow_loop rounds cap policy queue d).0
  unfolding overflow_loop
  overflow_loop-Belongs zero cap policy queue d h = h
  overflow_loop-Belongs (suc rounds) cap policy queue d h =
      let less = drop_one-Belongs policy queue h in
      ground (
        arith,
        less,
        overflow_loop-Belongs rounds cap policy (drop_one policy queue).0
            (d ++ (drop_one policy queue).1) less,
      )

  apply_cap_overflow-IsOwned :
      (lane : SessionLane Json)
      → IsOwned lane
      → IsOwned (apply_cap_overflow lane).0
        × ((apply_cap_overflow lane).0.active_command ≡ lane.active_command)
  unfolding apply_cap_overflow
  apply_cap_overflow-IsOwned lane h =
      (overflow_loop-Belongs (length lane.pending) lane.cap lane.drop lane.pending [] h, refl)

  enqueue-IsOwned :
      (cmd : QueuedCommand Json) (lane : SessionLane Json)
      → Belongs cmd
      → IsOwned lane
      → IsOwned (enqueue cmd lane)
  unfolding enqueue
  enqueue-IsOwned cmd lane own h = All-append Belongs lane.pending (cmd ∷ []) h (own, tt)

  pub submit_lane-IsOwned :
      (cmd : QueuedCommand Json) (lane : SessionLane Json)
      → is_interrupt cmd.mode ≡ false
      → Belongs cmd
      → IsOwned lane
      → IsOwned (submit_lane cmd lane).0
        × ((submit_lane cmd lane).0.active_command ≡ lane.active_command)
  unfolding submit_lane
  submit_lane-IsOwned cmd lane calm own h =
      rw (calm, submit_lane)
        (elim (Bool-cases (is_steering cmd.mode && has_active lane)) [
          | inl steers ↦ rw steers (enqueue-IsOwned cmd lane own h, unfold enqueue in refl)
          | inr queues ↦
              let (o, a) =
                apply_cap_overflow-IsOwned (enqueue cmd lane) (enqueue-IsOwned cmd lane own h) in
              rw queues (o, unfold enqueue in a)
        ])

  remove_first-Belongs :
      (id : Str) (queue : List (QueuedCommand Json))
      → All Belongs queue
      → All Belongs (remove_first id queue).1
  unfolding remove_first
  remove_first-Belongs id [] h = h
  remove_first-Belongs id (x ∷ queue) h = ground (arith, remove_first-Belongs id queue h.1)

  pub cancel_pending-IsOwned :
      (id : Str) (lane : SessionLane Json) → IsOwned lane → IsOwned (cancel_pending id lane).1
  unfolding cancel_pending
  cancel_pending-IsOwned id lane h = remove_first-Belongs id lane.pending h

  -- What an attempt to activate yields on a lane with no active command.
  abbrev pub Activates : Option (QueuedCommand Json) × SessionLane Json → Type 0
  Activates (none, lane) = Unit
  Activates (some cmd, lane) = Belongs cmd × (has_active lane ≡ true) × IsOwned lane

  activate-Activates :
      (now : ℕ) (queue : List (QueuedCommand Json)) (running : Option (QueuedCommand Json))
      (lane : SessionLane Json)
      → All Belongs queue
      → Activates (activate now queue running lane)
  unfolding activate
  activate-Activates now [] running lane h = tt
  activate-Activates now (x ∷ queue) (some cmd) lane h = tt
  activate-Activates now (x ∷ queue) none lane h = ground arith

  pub try_activate-Activates :
      (now : ℕ) (lane : SessionLane Json) → IsOwned lane → Activates (try_activate now lane)
  unfolding try_activate
  try_activate-Activates now lane h = activate-Activates now lane.pending lane.active_command lane h

  pub batch-IsOwned :
      (put : Json → Str → Str → Json) (cmd : QueuedCommand Json) (lane : SessionLane Json)
      → IsOwned lane
      → IsOwned (batch put cmd lane).1
        × ((batch put cmd lane).1.active_command ≡ lane.active_command)
        × ((batch put cmd lane).0.session_key ≡ cmd.session_key)
  unfolding batch drain_pending_as_steering_text
  batch-IsOwned put cmd lane h = (ground arith, ground arith, ground arith)

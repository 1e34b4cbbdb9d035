-- ===== src/Channels/LaneProcessor.antt =====
-- include/ravbot/channels/lane_processor.hpp and src/channels/lane_processor.cpp. A lane is a
-- state machine: its worker thread, the threads that submit to it and the one that shuts down
-- take steps in any order. `submitted` and `executed` record what has happened and are read by no
-- step.
pub mod Order
pub mod Stopping
mod Tests
use rav_bot.Prelude.{
  ℕ, ◌≡◌, Bool, true, false, List, [], ◌∷◌, ◌++◌, Option, none, some, if◌then◌else◌, length,
}
use rav_bot.Prelude.Text.{Str}
use rav_bot.Prelude.Map.{Map, lookup, insert}

-- Where the worker thread stands: at the test of its loop, at the predicate of cv.wait with the
-- mutex, between the predicate and the wait, in the wait, in a handler, or at its end.
pub data Worker {ℓ} (T : Type ℓ) : Type ℓ where
  at_loop : Worker T
  testing : Worker T
  about_to_wait : Worker T
  blocked : Worker T
  executing : T → Worker T
  ended : Worker T

pub record Lane {ℓ} (T : Type ℓ) : Type ℓ where
  pub queue : List T
  pub running : Bool
  pub worker : Worker T
  pub submitted : List T
  pub executed : List T

module _ {ℓ} {T : Type ℓ} where
  abbrev pub new_lane : Lane T
  new_lane = record { queue = []; running = true; worker = at_loop; submitted = []; executed = [] }

  unfoldable pub holds_mutex : Worker T → Bool
  holds_mutex testing = true
  holds_mutex about_to_wait = true
  holds_mutex w = false

  -- cv.notify_one() reaches a thread that waits, and no other.
  unfoldable pub wake : Worker T → Worker T
  wake blocked = testing
  wake w = w

  unfoldable pub push : T → Lane T → Lane T
  push t l = record l { queue = l.queue ++ t ∷ []; submitted = l.submitted ++ t ∷ [] }

  pub data Step : Lane T → Lane T → Type ℓ where
    -- Submit: the push under the lock, and the notification.
    pushed : {l : Lane T} (t : T) → holds_mutex l.worker ≡ false → Step l (push t l)
    notified : {l : Lane T} → Step l (record l { worker = wake l.worker })
    -- Shutdown: the store, without the lock; its notification is `notified`.
    shut : {l : Lane T} → Step l (record l { running = false })
    -- worker_thread
    entered :
        {l : Lane T}
        → l.worker ≡ at_loop
        → l.running ≡ true
        → Step l (record l { worker = testing })
    left :
        {l : Lane T} → l.worker ≡ at_loop → l.running ≡ false → Step l (record l { worker = ended })
    found_empty :
        {l : Lane T}
        → l.worker ≡ testing
        → l.queue ≡ []
        → l.running ≡ true
        → Step l (record l { worker = about_to_wait })
    waited : {l : Lane T} → l.worker ≡ about_to_wait → Step l (record l { worker = blocked })
    woken : {l : Lane T} → l.worker ≡ blocked → Step l (record l { worker = testing })
    broke :
        {l : Lane T}
        → l.worker ≡ testing
        → l.queue ≡ []
        → l.running ≡ false
        → Step l (record l { worker = ended })
    took :
        {l : Lane T} {t : T} {q : List T}
        → l.worker ≡ testing
        → l.queue ≡ t ∷ q
        → Step l (record l { worker = executing t; queue = q })
    ran :
        {l : Lane T} {t : T}
        → l.worker ≡ executing t
        → Step l (record l { worker = at_loop; executed = l.executed ++ t ∷ [] })

  infixr 5 ◌then◌
  pub data Steps : Lane T → Lane T → Type ℓ where
    no_step : {l : Lane T} → Steps l l
    ◌then◌ : {a b c : Lane T} → Step a b → Steps b c → Steps a c

pub record LaneProcessor {ℓ} (T : Type ℓ) : Type ℓ where
  pub shutdown : Bool
  pub lanes : Map (Lane T)

module _ {ℓ} {T : Type ℓ} where
  unfoldable pub lane_of : Str → LaneProcessor T → Lane T
  lane_of lane_id p = elim (lookup lane_id p.lanes) [ none ↦ new_lane | some l ↦ l ]

  -- Submit, where no other thread comes between.
  unfoldable pub submit : Str → T → LaneProcessor T → LaneProcessor T
  unfolding lane_of push
  submit lane_id t p =
      if p.shutdown
      then p
      else record p { lanes = insert lane_id (push t (lane_of lane_id p)) p.lanes }

  unfoldable pub get_queue_size : Str → LaneProcessor T → ℕ
  get_queue_size lane_id p = elim (lookup lane_id p.lanes) [ none ↦ 0 | some l ↦ length l.queue ]

  -- Shutdown, when it returns: every worker has ended, and the lanes are dropped.
  unfoldable pub shut_down : LaneProcessor T → LaneProcessor T
  shut_down p = if p.shutdown then p else record { shutdown = true; lanes = [] }

-- ===== src/Gateway/CommandQueue/Counting.antt =====
-- The count of active commands and the limit on them.
use rav_bot.Prelude.{
  ℕ, zero, suc, ◌+◌, ◌≤◌, ◌≡◌, refl, Bool, true, false, Option, none, some, List, [], ◌∷◌, length,
  length-append, map, get_elem?, arith, Bool-cases, Option-cases, inl, inr, subst, All,
}
use rav_bot.Prelude.Int.{ℤ, pos, negsuc, pos_part, leb_ℤ}
use rav_bot.Prelude.Text.{Str}
use rav_bot.Prelude.Map.{lookup}
use rav_bot.Gateway.Types.{QueueConfig, QueuedCommand}
use rav_bot.Gateway.Lane.{SessionLane, try_activate, has_active}
use rav_bot.Gateway.CommandQueue.{
  CommandQueue, init, start, stop, submit, cancel, abort_session, configure_session, dispatch,
  dispatch_keys, dispatch_lane, dispatch_command, finish, without, batch, dispatch_round, activated,
}
use rav_bot.Gateway.CommandQueue.Events.{
  Event, starts, stops, submits, cancels, aborts, configures, sets_config, dispatches, finishes,
  apply, run,
}

module _ {Json : Type 0} where
  -- The counter is the number of running workers, and within the limit of the configuration.
  pub record IsCounted (config : QueueConfig) (q : CommandQueue Json) : Type 0 where
    pub same_config : q.config ≡ config
    pub counted : q.active_count ≡ length q.workers
    pub limited : q.active_count ≤ pos_part config.max_concurrent

  length-without :
      (i : ℕ) (ws : List (QueuedCommand Json)) (cmd : QueuedCommand Json)
      → get_elem? ws i ≡ some cmd
      → length (without i ws) + 1 ≡ length ws
  length-without i [] cmd e = cc
  length-without zero (w ∷ ws) cmd e = omega arith
  length-without (suc i) (w ∷ ws) cmd e = omega (arith, length-without i ws cmd e)

  finish-IsCounted :
      (config : QueueConfig) (i : ℕ) (ok : Bool) (result : Json) (q : CommandQueue Json)
      → IsCounted config q
      → IsCounted config (finish i ok result q).0
  unfolding finish
  finish-IsCounted config i ok result q v = elim (Option-cases (get_elem? q.workers i)) [
    | inl e ↦ rw (e, finish) v
    | inr (cmd, e) ↦
        rw (e, finish)
          (record {
            same_config = v.same_config;
            counted = omega (arith, length-without i q.workers cmd e, v.counted);
            limited = omega (arith, v.limited);
          })
  ]

module _ {Json : Type 0} (put : Json → Str → Str → Json) where
  -- What the dispatcher's loop keeps, with the commands that it has activated so far.
  record Loop (config : QueueConfig) (ws : List (QueuedCommand Json))
      (s : CommandQueue Json × List (QueuedCommand Json)) : Type 0 where
    same_config : s.0.config ≡ config
    same_workers : s.0.workers ≡ ws
    counted : s.0.active_count ≡ length ws + length s.1
    limited : s.0.active_count ≤ pos_part config.max_concurrent

  room_below : (max : ℤ) (n : ℕ) → leb_ℤ max (pos n) ≡ false → n + 1 ≤ pos_part max
  room_below (pos m) n h = ground arith
  room_below (negsuc m) n h = ground arith

  dispatch_command-Loop :
      (config : QueueConfig) (ws : List (QueuedCommand Json)) (key : Str)
      (result : Option (QueuedCommand Json) × SessionLane Json)
      (s : CommandQueue Json × List (QueuedCommand Json))
      → s.0.active_count + 1 ≤ pos_part config.max_concurrent
      → Loop config ws s
      → Loop config ws (dispatch_command put key result s)
  unfolding dispatch_command
  dispatch_command-Loop config ws key (none, lane) s room v = v
  dispatch_command-Loop config ws key (some cmd, lane) s room v = record {
    same_config = v.same_config;
    same_workers = v.same_workers;
    counted = omega (arith, v.counted, length-append s.1 ((batch put cmd lane).0 ∷ []));
    limited = room;
  }

  dispatch_lane-Loop :
      (config : QueueConfig) (ws : List (QueuedCommand Json)) (now : ℕ) (key : Str)
      (found : Option (SessionLane Json)) (s : CommandQueue Json × List (QueuedCommand Json))
      → s.0.active_count + 1 ≤ pos_part config.max_concurrent
      → Loop config ws s
      → Loop config ws (dispatch_lane put now key found s)
  unfolding dispatch_lane
  dispatch_lane-Loop config ws now key none s room v = v
  dispatch_lane-Loop config ws now key (some lane) s room v = elim (Bool-cases (has_active lane)) [
    | inl busy ↦ rw busy v
    | inr free ↦ rw free (dispatch_command-Loop config ws key (try_activate now lane) s room v)
  ]

  dispatch_keys-Loop :
      (config : QueueConfig) (ws : List (QueuedCommand Json)) (now : ℕ) (keys : List Str)
      (s : CommandQueue Json × List (QueuedCommand Json))
      → Loop config ws s
      → Loop config ws (dispatch_keys put now keys s)
  unfolding dispatch_keys
  dispatch_keys-Loop config ws now [] s v = v
  dispatch_keys-Loop config ws now (key ∷ keys) s v =
      elim (Bool-cases (leb_ℤ s.0.config.max_concurrent (pos s.0.active_count))) [
        | inl full ↦ rw full (dispatch_keys-Loop config ws now keys s v)
        | inr room ↦
            let free = room_below config.max_concurrent s.0.active_count (
              subst (λ (c : QueueConfig). leb_ℤ c.max_concurrent (pos s.0.active_count) ≡ false)
                v.same_config room) in
            rw room (
              dispatch_keys-Loop config ws now keys _
                (dispatch_lane-Loop config ws now key (lookup key s.0.lanes) s free v))
      ]

  dispatch_round-IsCounted :
      (config : QueueConfig) (on : Bool) (now : ℕ) (q : CommandQueue Json)
      → IsCounted config q
      → IsCounted config (dispatch_round put on now q)
  unfolding dispatch_round
  dispatch_round-IsCounted config false now q v = v
  dispatch_round-IsCounted config true now q v =
      let w =
        dispatch_keys-Loop config q.workers now (map (λ e. e.0) q.lanes) (q, [])
          (record {
            same_config = v.same_config;
            same_workers = refl;
            counted = omega (arith, v.counted);
            limited = v.limited;
          }) in
      record {
        same_config = w.same_config;
        counted = omega (arith, w.counted, length-append q.workers (activated put now q).1);
        limited = w.limited;
      }

  -- An event that does not replace the configuration.
  abbrev pub KeepsConfig : Event Json → Type 0
  KeepsConfig (sets_config config) = ⊥
  KeepsConfig e = Unit

  apply-IsCounted :
      (config : QueueConfig) (q : CommandQueue Json) (e : Event Json)
      → KeepsConfig e
      → IsCounted config q
      → IsCounted config (apply put q e)
  unfolding apply start stop submit dispatch cancel abort_session configure_session
  apply-IsCounted config q starts k v = record {
    same_config = v.same_config;
    counted = v.counted;
    limited = v.limited;
  }
  apply-IsCounted config q stops k v = record {
    same_config = v.same_config;
    counted = v.counted;
    limited = v.limited;
  }
  apply-IsCounted config q (submits cmd) k v = record {
    same_config = v.same_config;
    counted = v.counted;
    limited = v.limited;
  }
  apply-IsCounted config q (cancels id) k v = ground arith
  apply-IsCounted config q (aborts key) k v = ground arith
  apply-IsCounted config q (configures key mode debounce limit drop) k v = record {
    same_config = v.same_config;
    counted = v.counted;
    limited = v.limited;
  }
  apply-IsCounted config q (sets_config c) k v = absurd k
  apply-IsCounted config q (dispatches now) k v = dispatch_round-IsCounted config q.running now q v
  apply-IsCounted config q (finishes i ok result) k v = finish-IsCounted config i ok result q v

  run_keeps :
      (config : QueueConfig) (q : CommandQueue Json) (es : List (Event Json))
      → All KeepsConfig es
      → IsCounted config q
      → IsCounted config (run put q es)
  unfolding run
  run_keeps config q [] k v = v
  run_keeps config q (e ∷ es) k v =
      run_keeps config (apply put q e) es k.1 (apply-IsCounted config q e k.0 v)

  -- From a new queue, after any history that does not replace the configuration, the counter is
  -- the number of running workers, and no more of them run than max_concurrent (none if that is
  -- negative).
  pub run-IsCounted :
      (config : QueueConfig) (events : List (Event Json))
      → All KeepsConfig events
      → IsCounted config (run put (init config) events)
  run-IsCounted config events k =
      run_keeps config (init config) events k
        (unfold init in record { same_config = refl; counted = refl; limited = omega arith })

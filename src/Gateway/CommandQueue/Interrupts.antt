-- ===== src/Gateway/CommandQueue/Interrupts.antt =====
-- What an interrupt or an abort leaves behind.
use rav_bot.Prelude.{
  ℕ, suc, ◌+◌, ◌≤◌, ◌≡◌, refl, ap, sym, ◌∙◌, true, false, Option, none, some, List, [], ◌∷◌, ◌++◌,
  if◌then◌else◌, arith, map, subst, length,
}
use rav_bot.Prelude.Int.{pos, leb_ℤ, ltb_ℤ}
use rav_bot.Prelude.Text.{Str, str_eq_refl}
use rav_bot.Prelude.Map.{Map, lookup, insert}
use rav_bot.Gateway.Types.{interrupt, QueuedCommand, State}
use rav_bot.Gateway.Lane.{
  SessionLane, has_active, try_activate, activate, interrupt_active, keep_last, enqueue,
  apply_cap_overflow, elapsed,
}
use rav_bot.Gateway.Lane.Overflow.{apply_cap_overflow-kept}
use rav_bot.Gateway.CommandQueue.{
  CommandQueue, submit, get_lane, submit_lane, dispatch, dispatch_round, activated, dispatch_keys,
  dispatch_lane, dispatch_command, batch,
}
use rav_bot.Gateway.CommandQueue.Events.{count_session}
use rav_bot.Gateway.CommandQueue.Ownership.{batch-IsOwned}

module _ {Json : Type 0} where
  keep_last-append :
      (xs : List (QueuedCommand Json)) (last : QueuedCommand Json)
      → keep_last (xs ++ last ∷ []) ≡ last ∷ []
  unfolding keep_last
  keep_last-append [] last = refl
  keep_last-append (x ∷ []) last = refl
  keep_last-append (x ∷ y ∷ xs) last = keep_last-append (y ∷ xs) last

  -- Submitting an interrupt to a busy lane: the active command is gone, and of the waiting ones the
  -- newest stays.
  submit_lane-interrupt :
      (cmd : QueuedCommand Json) (lane : SessionLane Json)
      → cmd.mode ≡ interrupt
      → has_active lane ≡ true
      → submit_lane cmd lane ≡ apply_cap_overflow (enqueue cmd (interrupt_active lane).1)
  unfolding submit_lane interrupt_active
  submit_lane-interrupt cmd lane m a = ground arith

  -- A message that interrupts a lane with waiting messages does not come first: the newest of those
  -- messages stays in the lane, ahead of it. (The cap of the lane is at least 2.)
  interrupt_keeps_stale :
      (cmd stale : QueuedCommand Json) (waiting : List (QueuedCommand Json))
      (lane : SessionLane Json) (cap : ℕ)
      → cmd.mode ≡ interrupt
      → has_active lane ≡ true
      → lane.pending ≡ waiting ++ stale ∷ []
      → lane.cap ≡ pos (suc (suc cap))
      → ((submit_lane cmd lane).0.pending ≡ stale ∷ cmd ∷ [])
        × ((submit_lane cmd lane).0.active_command ≡ none)
  unfolding enqueue interrupt_active
  interrupt_keeps_stale cmd stale waiting lane cap m a p c =
      let queue : (enqueue cmd (interrupt_active lane).1).pending ≡ stale ∷ cmd ∷ [] =
        ap (λ l. keep_last l ++ cmd ∷ []) p
        ∙ ap (λ l. l ++ cmd ∷ []) (keep_last-append waiting stale) in
      let (same, _) =
        (apply_cap_overflow-kept (enqueue cmd (interrupt_active lane).1) (suc cap) c).0
          (rw (ap length queue) (omega arith)) in
      rw (submit_lane-interrupt cmd lane m a, same) (queue, refl)

  submit_lane-alone :
      (cmd : QueuedCommand Json) (lane : SessionLane Json) (cap : ℕ)
      → cmd.mode ≡ interrupt
      → has_active lane ≡ true
      → lane.pending ≡ []
      → lane.cap ≡ pos (suc cap)
      → (submit_lane cmd lane).0 ≡ record lane { pending = cmd ∷ []; active_command = none }
  unfolding enqueue interrupt_active keep_last
  submit_lane-alone cmd lane cap m a p c =
      let queue : (enqueue cmd (interrupt_active lane).1).pending ≡ cmd ∷ [] =
        ap (λ l. keep_last l ++ cmd ∷ []) p in
      let (same, _) =
        (apply_cap_overflow-kept (enqueue cmd (interrupt_active lane).1) cap c).0
          (rw (ap length queue) (omega arith)) in
      rw (submit_lane-interrupt cmd lane m a, same)
        (ap (λ l. record lane { pending = l; active_command = none }) queue)

  submit-lanes :
      (cmd : QueuedCommand Json) (lane : SessionLane Json) (cap : ℕ) (q : CommandQueue Json)
      (rest : Map (SessionLane Json))
      → cmd.mode ≡ interrupt
      → q.lanes ≡ (cmd.session_key, lane) ∷ rest
      → has_active lane ≡ true
      → lane.pending ≡ []
      → lane.cap ≡ pos (suc cap)
      → (submit cmd q).0.lanes
        ≡ (
          cmd.session_key,
          record lane {
            pending = record cmd { mode = interrupt; state = State.pending } ∷ [];
            active_command = none;
          },
        )
          ∷ rest
  unfolding submit get_lane lookup insert
  submit-lanes cmd lane limit q rest m l a p c =
      let found : get_lane cmd.session_key q ≡ lane = ground (arith, str_eq_refl cmd.session_key) in
      let alone =
        submit_lane-alone (record cmd { mode = interrupt; state = State.pending }) lane limit refl a
          p c in
      ground (arith, found, alone, str_eq_refl cmd.session_key)

module _ {Json : Type 0} (put : Json → Str → Str → Json) where
  count_session-append :
      (key : Str) (ws vs : List (QueuedCommand Json))
      → count_session key (ws ++ vs) ≡ count_session key ws + count_session key vs
  count_session-append key [] vs = omega arith
  count_session-append key (w ∷ ws) vs = omega (arith, count_session-append key ws vs)

  dispatch_command_mono :
      (key other : Str) (result : Option (QueuedCommand Json) × SessionLane Json)
      (s : CommandQueue Json × List (QueuedCommand Json))
      → count_session key s.1 ≤ count_session key (dispatch_command put other result s).1
  unfolding dispatch_command
  dispatch_command_mono key other (none, lane) s = omega arith
  dispatch_command_mono key other (some cmd, lane) s =
      omega (arith, count_session-append key s.1 ((batch put cmd lane).0 ∷ []))

  dispatch_lane_mono :
      (now : ℕ) (key other : Str) (found : Option (SessionLane Json))
      (s : CommandQueue Json × List (QueuedCommand Json))
      → count_session key s.1 ≤ count_session key (dispatch_lane put now other found s).1
  unfolding dispatch_lane
  dispatch_lane_mono now key other none s = omega arith
  dispatch_lane_mono now key other (some lane) s =
      ground (arith, dispatch_command_mono key other (try_activate now lane) s)

  dispatch_keys_mono :
      (now : ℕ) (key : Str) (keys : List Str) (s : CommandQueue Json × List (QueuedCommand Json))
      → count_session key s.1 ≤ count_session key (dispatch_keys put now keys s).1
  unfolding dispatch_keys
  dispatch_keys_mono now key [] s = omega arith
  dispatch_keys_mono now key (other ∷ keys) s =
      let next : CommandQueue Json × List (QueuedCommand Json) =
        if leb_ℤ s.0.config.max_concurrent (pos s.0.active_count)
        then s
        else dispatch_lane put now other (lookup other s.0.lanes) s in
      let step : count_session key s.1 ≤ count_session key next.1 =
        ground (arith, dispatch_lane_mono now key other (lookup other s.0.lanes) s) in
      omega (arith, step, dispatch_keys_mono now key keys next)

  -- The dispatcher comes first to the lane of `key`, which has no active command, and `x` waits
  -- there and is due; the dispatcher runs and is below its limit.
  pub record IsDue (now : ℕ) (key : Str) (x : QueuedCommand Json) (lane : SessionLane Json)
      (q : CommandQueue Json) : Type 0 where
    pub rest : Map (SessionLane Json)
    pub lanes : q.lanes ≡ (key, lane) ∷ rest
    pub free : lane.active_command ≡ none
    pub front : lane.pending ≡ x ∷ []
    pub belongs : x.session_key ≡ key
    pub due : ltb_ℤ (elapsed now x.enqueued_at) lane.debounce_ms ≡ false
    pub room : leb_ℤ q.config.max_concurrent (pos q.active_count) ≡ false
    pub on : q.running ≡ true

  due_lane-dispatched :
      (now : ℕ) (key : Str) (x : QueuedCommand Json) (lane : SessionLane Json)
      (s : CommandQueue Json × List (QueuedCommand Json))
      → lane.active_command ≡ none
      → lane.pending ≡ x ∷ []
      → x.session_key ≡ key
      → ltb_ℤ (elapsed now x.enqueued_at) lane.debounce_ms ≡ false
      → s.1 ≡ []
      → count_session key (dispatch_lane put now key (some lane) s).1 ≡ 1
  unfolding dispatch_lane dispatch_command try_activate activate
  due_lane-dispatched now key x lane s free front belongs due none_yet =
      let x' = record x { state = State.active } in
      let lane' = record lane { pending = []; active_command = some x' } in
      let tried : try_activate now lane ≡ (some x', lane') = ground arith in
      let idle : has_active lane ≡ false = ground arith in
      let session = (batch-IsOwned key put x' lane' tt).2 ∙ belongs in
      ground (arith, tried, idle, session, none_yet, str_eq_refl key)

  first_key-dispatched :
      (now : ℕ) (key : Str) (x : QueuedCommand Json) (lane : SessionLane Json)
      (q : CommandQueue Json)
      → IsDue now key x lane q
      → (keys : List Str) → 1 ≤ count_session key (dispatch_keys put now (key ∷ keys) (q, [])).1
  unfolding dispatch_keys lookup
  first_key-dispatched now key x lane q v keys =
      let found : lookup key q.lanes ≡ some lane = ground (arith, str_eq_refl key) in
      let gained = due_lane-dispatched now key x lane (q, []) v.free v.front v.belongs v.due refl in
      ground (
        arith,
        found,
        v.room,
        gained,
        dispatch_keys_mono now key keys (dispatch_lane put now key (some lane) (q, [])),
      )

  round-IsDue :
      (now : ℕ) (key : Str) (x : QueuedCommand Json) (lane : SessionLane Json)
      (q : CommandQueue Json)
      → IsDue now key x lane q
      → count_session key q.workers + 1 ≤ count_session key (dispatch_round put true now q).workers
  unfolding dispatch_round
  round-IsDue now key x lane q v =
      let keys : map (λ e. e.0) q.lanes ≡ key ∷ map (λ e. e.0) v.rest =
        ap (map (λ e. e.0)) v.lanes in
      let gained =
        subst (λ ks. 1 ≤ count_session key (dispatch_keys put now ks (q, [])).1) (sym keys)
          (first_key-dispatched now key x lane q v (map (λ e. e.0) v.rest)) in
      omega (arith, gained, count_session-append key q.workers (activated put now q).1)

  -- One round starts a worker for the due command, whatever workers run already.
  dispatch-IsDue :
      (now : ℕ) (key : Str) (x : QueuedCommand Json) (lane : SessionLane Json)
      (q : CommandQueue Json)
      → IsDue now key x lane q
      → count_session key q.workers + 1 ≤ count_session key (dispatch put now q).workers
  unfolding dispatch
  dispatch-IsDue now key x lane q v =
      subst
        (λ b.
          count_session key q.workers + 1 ≤ count_session key (dispatch_round put b now q).workers)
        (sym v.on) (round-IsDue now key x lane q v)

  -- An interrupt for a session whose command runs, with nothing waiting: once the message is due, a
  -- second worker of the session starts while the first still runs. (The dispatcher comes to this
  -- lane first, runs and is below its limit, and the cap is at least 1.)
  pub interrupt_runs_two :
      (now : ℕ) (cmd : QueuedCommand Json) (lane : SessionLane Json) (cap : ℕ)
      (q : CommandQueue Json) (rest : Map (SessionLane Json))
      → cmd.mode ≡ interrupt
      → q.lanes ≡ (cmd.session_key, lane) ∷ rest
      → has_active lane ≡ true
      → lane.pending ≡ []
      → lane.cap ≡ pos (suc cap)
      → ltb_ℤ (elapsed now cmd.enqueued_at) lane.debounce_ms ≡ false
      → leb_ℤ q.config.max_concurrent (pos q.active_count) ≡ false
      → q.running ≡ true
      → count_session cmd.session_key q.workers ≡ 1
      → 2 ≤ count_session cmd.session_key (dispatch put now (submit cmd q).0).workers
  unfolding submit
  interrupt_runs_two now cmd lane limit q rest m l a p c due room on one =
      let command = record cmd { mode = interrupt; state = State.pending } in
      let lane' = record lane { pending = command ∷ []; active_command = none } in
      let is_due : IsDue now cmd.session_key command lane' (submit cmd q).0 = record {
        rest = rest;
        lanes = submit-lanes cmd lane limit q rest m l a p c;
        free = refl;
        front = refl;
        belongs = refl;
        due = due;
        room = room;
        on = on;
      } in
      omega (arith, one, dispatch-IsDue now cmd.session_key command lane' (submit cmd q).0 is_due)

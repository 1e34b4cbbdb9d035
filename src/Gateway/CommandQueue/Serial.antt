-- ===== src/Gateway/CommandQueue/Serial.antt =====
-- Serialization: at most one worker runs for a session, as long as nothing is interrupted.
use rav_bot.Prelude.{
  ℕ, zero, suc, ◌+◌, ◌≤◌, ◌≡◌, refl, ◌∙◌, Bool, true, false, Option, none, some, List, [], ◌∷◌,
  ◌++◌, if◌then◌else◌, arith, Bool-cases, Option-cases, inl, inr, map, get_elem?, append-nil,
  append_assoc,
}
use rav_bot.Prelude.Int.{ℤ, pos, leb_ℤ}
use rav_bot.Prelude.Text.{Str, str_eq, str_eq_iff, str_eq_refl}
use rav_bot.Prelude.Map.{Map, lookup, insert, insert-Distinct}
use rav_bot.Gateway.Types.{QueueMode, QueueConfig, QueuedCommand, State}
use rav_bot.Gateway.Lane.{SessionLane, has_active, try_activate, complete_active, cancel_pending}
use rav_bot.Gateway.CommandQueue.{
  CommandQueue, init, start, stop, submit, get_lane, effective_mode, is_interrupt, cancel,
  configure_session, set_config, dispatch, dispatch_round, dispatch_keys, dispatch_lane,
  dispatch_command, finish, without, batch,
}
use rav_bot.Gateway.CommandQueue.Events.{
  Event, starts, stops, submits, cancels, aborts, configures, sets_config, dispatches, finishes,
  apply, run, count_session, active_in,
}
use rav_bot.Gateway.CommandQueue.Ownership.{
  IsOwned, Activates, submit_lane-IsOwned, cancel_pending-IsOwned, try_activate-Activates,
  batch-IsOwned,
}
use rav_bot.Gateway.CommandQueue.SerialLanes.{
  active_in-insert, active_in-le, insert-AllOwned, IsSerial, same_active-IsSerial,
  new_active-IsSerial, clean_up-IsSerial, get_lane-IsOwned,
}

module _ {Json : Type 0} where
  -- A queue whose lanes and workers agree.
  abbrev pub Serial : CommandQueue Json → Type 0
  Serial q = IsSerial q.lanes q.workers

  submit-Serial :
      (cmd : QueuedCommand Json) (q : CommandQueue Json)
      → is_interrupt (effective_mode cmd.mode (get_lane cmd.session_key q)) ≡ false
      → Serial q
      → Serial (submit cmd q).0
  unfolding submit
  submit-Serial cmd q calm v =
      let (own, bit) = get_lane-IsOwned cmd.session_key q v.owned in
      let (o, a) =
        submit_lane-IsOwned cmd.session_key
          (record cmd {
            mode = effective_mode cmd.mode (get_lane cmd.session_key q);
            state = State.pending;
          })
          (get_lane cmd.session_key q) calm refl own in
      same_active-IsSerial cmd.session_key _ q.lanes q.workers (rw a bit) o v

  cancel-Serial : (id : Str) (q : CommandQueue Json) → Serial q → Serial (cancel id q).1
  unfolding cancel
  cancel-Serial id q v = elim (Option-cases (lookup id q.command_to_session)) [
    | inl e ↦ rw (e, cancel) v
    | inr (key, e) ↦
        let (own, bit) = get_lane-IsOwned key q v.owned in
        rw (e, cancel)
          (same_active-IsSerial key _ q.lanes q.workers (unfold cancel_pending in bit)
            (cancel_pending-IsOwned key id (get_lane key q) own) v)
  ]

  configure_session-Serial :
      (key : Str) (mode : QueueMode) (debounce limit : ℤ) (drop : Str) (q : CommandQueue Json)
      → Serial q
      → Serial (configure_session key mode debounce limit drop q)
  unfolding configure_session
  configure_session-Serial key mode debounce limit drop q v =
      let (own, bit) = get_lane-IsOwned key q v.owned in
      same_active-IsSerial key _ q.lanes q.workers bit own v

  count_session-without :
      (key : Str) (i : ℕ) (ws : List (QueuedCommand Json)) (cmd : QueuedCommand Json)
      → get_elem? ws i ≡ some cmd
      → count_session key (without i ws) + (if str_eq cmd.session_key key then 1 else 0)
        ≡ count_session key ws
  count_session-without key i [] cmd e = cc
  count_session-without key zero (w ∷ ws) cmd e = ground arith
  count_session-without key (suc i) (w ∷ ws) cmd e =
      omega (arith, count_session-without key i ws cmd e)

  complete_active-idle :
      (key : Str) (lane : SessionLane Json)
      → IsOwned key lane
      → IsOwned key (complete_active lane).1 × (has_active (complete_active lane).1 ≡ false)
  unfolding complete_active
  complete_active-idle key lane own = (ground arith, ground arith)

  -- A worker's end frees its session's lane.
  completed-IsSerial :
      (i : ℕ) (lanes : Map (SessionLane Json)) (workers : List (QueuedCommand Json))
      (cmd : QueuedCommand Json) (lane : SessionLane Json)
      → get_elem? workers i ≡ some cmd
      → lookup cmd.session_key lanes ≡ some lane
      → IsSerial lanes workers
      → IsSerial (insert cmd.session_key (complete_active lane).1 lanes) (without i workers)
  completed-IsSerial i lanes workers cmd lane w e v =
      let (own, idle) =
        complete_active-idle cmd.session_key lane (v.owned cmd.session_key lane e) in
      let bit : active_in cmd.session_key lanes ≤ 1 = ground arith in
      record {
        distinct = insert-Distinct cmd.session_key _ lanes v.distinct;
        owned = insert-AllOwned cmd.session_key _ lanes own v.owned;
        serial = λ key.
            rw (active_in-insert key cmd.session_key (complete_active lane).1 lanes, idle)
              (ground (
                arith,
                bit,
                v.serial key,
                v.serial cmd.session_key,
                count_session-without key i workers cmd w,
                str_eq_iff cmd.session_key key,
              ));
      }

  finish-Serial :
      (i : ℕ) (ok : Bool) (result : Json) (q : CommandQueue Json)
      → Serial q
      → Serial (finish i ok result q).0
  unfolding finish
  finish-Serial i ok result q v = elim (Option-cases (get_elem? q.workers i)) [
    | inl e ↦ rw (e, finish) v
    | inr (cmd, e) ↦ elim (Option-cases (lookup cmd.session_key q.lanes)) [
      | inl missing ↦
          let none_active : active_in cmd.session_key q.lanes ≡ 0 = ground arith in
          absurd (
            ground (
              arith,
              none_active,
              str_eq_refl cmd.session_key,
              v.serial cmd.session_key,
              count_session-without cmd.session_key i q.workers cmd e,
            ))
      | inr (lane, found) ↦
          rw (e, found, finish) (completed-IsSerial i q.lanes q.workers cmd lane e found v)
    ]
  ]

module _ {Json : Type 0} (put : Json → Str → Str → Json) where
  -- The dispatcher's loop, with the workers that it will start.
  abbrev LoopSerial :
      List (QueuedCommand Json) → CommandQueue Json × List (QueuedCommand Json) → Type 0
  LoopSerial ws s = IsSerial s.0.lanes (ws ++ s.1)

  dispatch_command-LoopSerial :
      (ws : List (QueuedCommand Json)) (key : Str)
      (result : Option (QueuedCommand Json) × SessionLane Json)
      (s : CommandQueue Json × List (QueuedCommand Json))
      → active_in key s.0.lanes ≡ 0
      → Activates key result
      → LoopSerial ws s
      → LoopSerial ws (dispatch_command put key result s)
  unfolding dispatch_command
  dispatch_command-LoopSerial ws key (none, lane) s idle act v = v
  dispatch_command-LoopSerial ws key (some cmd, lane) s idle act v =
      let (own, same, session) = batch-IsOwned key put cmd lane act.2 in
      let w =
        new_active-IsSerial key (batch put cmd lane).1 s.0.lanes (ws ++ s.1) (batch put cmd lane).0
          (session ∙ act.0) idle (rw same act.1) own v in
      rw append_assoc at w

  dispatch_lane-LoopSerial :
      (ws : List (QueuedCommand Json)) (now : ℕ) (key : Str)
      (s : CommandQueue Json × List (QueuedCommand Json))
      → LoopSerial ws s
      → LoopSerial ws (dispatch_lane put now key (lookup key s.0.lanes) s)
  unfolding dispatch_lane
  dispatch_lane-LoopSerial ws now key s v = elim (Option-cases (lookup key s.0.lanes)) [
    | inl missing ↦ rw (missing, dispatch_lane) v
    | inr (lane, found) ↦ elim (Bool-cases (has_active lane)) [
      | inl busy ↦ rw (found, dispatch_lane, busy) v
      | inr free ↦
          rw (found, dispatch_lane, free)
            (dispatch_command-LoopSerial ws key (try_activate now lane) s (ground arith)
              (try_activate-Activates key now lane (v.owned key lane found)) v)
    ]
  ]

  dispatch_keys-LoopSerial :
      (ws : List (QueuedCommand Json)) (now : ℕ) (keys : List Str)
      (s : CommandQueue Json × List (QueuedCommand Json))
      → LoopSerial ws s
      → LoopSerial ws (dispatch_keys put now keys s)
  unfolding dispatch_keys
  dispatch_keys-LoopSerial ws now [] s v = v
  dispatch_keys-LoopSerial ws now (key ∷ keys) s v =
      dispatch_keys-LoopSerial ws now keys _
        (elim (Bool-cases (leb_ℤ s.0.config.max_concurrent (pos s.0.active_count))) [
          | inl full ↦ rw full v
          | inr room ↦ rw room (dispatch_lane-LoopSerial ws now key s v)
        ])

  dispatch_round-Serial :
      (on : Bool) (now : ℕ) (q : CommandQueue Json)
      → Serial q
      → Serial (dispatch_round put on now q)
  unfolding dispatch_round
  dispatch_round-Serial false now q v = v
  dispatch_round-Serial true now q v =
      clean_up-IsSerial _ _
        (dispatch_keys-LoopSerial q.workers now (map (λ e. e.0) q.lanes) (q, []) (rw append-nil v))

  -- An event that interrupts nothing in the queue `q`.
  abbrev pub IsCalm : CommandQueue Json → Event Json → Type 0
  IsCalm q (submits cmd) =
      is_interrupt (effective_mode cmd.mode (get_lane cmd.session_key q)) ≡ false
  IsCalm q (aborts key) = ⊥
  IsCalm q e = Unit

  -- A history none of whose events interrupts anything.
  abbrev pub CalmRun : CommandQueue Json → List (Event Json) → Type 0
  CalmRun q [] = Unit
  CalmRun q (e ∷ es) = IsCalm q e × CalmRun (apply put q e) es

  apply-Serial :
      (q : CommandQueue Json) (e : Event Json) → IsCalm q e → Serial q → Serial (apply put q e)
  unfolding apply start stop set_config dispatch
  apply-Serial q starts calm v = v
  apply-Serial q stops calm v = v
  apply-Serial q (submits cmd) calm v = submit-Serial cmd q calm v
  apply-Serial q (cancels id) calm v = cancel-Serial id q v
  apply-Serial q (aborts key) calm v = absurd calm
  apply-Serial q (configures key mode debounce limit drop) calm v =
      configure_session-Serial key mode debounce limit drop q v
  apply-Serial q (sets_config config) calm v = v
  apply-Serial q (dispatches now) calm v = dispatch_round-Serial q.running now q v
  apply-Serial q (finishes i ok result) calm v = finish-Serial i ok result q v

  run_from :
      (q : CommandQueue Json) (es : List (Event Json))
      → CalmRun q es
      → Serial q
      → Serial (run put q es)
  unfolding run
  run_from q [] calm v = v
  run_from q (e ∷ es) calm v = run_from (apply put q e) es calm.1 (apply-Serial q e calm.0 v)

  -- After any history that interrupts and aborts nothing, and for every session, as many workers
  -- run as its lane has active commands: none or one.
  pub run-Serial :
      (config : QueueConfig) (es : List (Event Json)) (key : Str)
      → CalmRun (init config) es
      → let q = run put (init config) es in
        (count_session key q.workers ≡ active_in key q.lanes) × (count_session key q.workers ≤ 1)
  run-Serial config es key calm =
      let v = run_from (init config) es calm (
        unfold init lookup in
        record { distinct = tt; owned = λ k lane e. cc; serial = λ k. refl }) in
      (v.serial key, rw (v.serial key) (active_in-le key (run put (init config) es).lanes))

-- ===== src/Gateway/CommandQueue/Forgetting.antt =====
-- The dispatcher removes idle lanes, with the settings of their sessions.
use rav_bot.Prelude.{
  ℕ, ◌≡◌, refl, sym, true, false, Option, none, some, List, [], ◌∷◌, arith, Bool-cases,
  Option-cases, inl, inr, map, subst,
}
use rav_bot.Prelude.Int.{pos, leb_ℤ}
use rav_bot.Prelude.Text.{Str, str_eq, str_eq_iff}
use rav_bot.Prelude.Map.{lookup, lookup-insert, Distinct, insert-Distinct}
use rav_bot.Gateway.Types.{QueueConfig, QueuedCommand}
use rav_bot.Gateway.Lane.{SessionLane, has_active, is_idle, try_activate, activate}
use rav_bot.Gateway.CommandQueue.{
  CommandQueue, get_lane, new_lane, dispatch, dispatch_round, activated, dispatch_keys,
  dispatch_lane, dispatch_command, batch,
}
use rav_bot.Gateway.CommandQueue.SerialLanes.{lookup-clean_up}

module _ {Json : Type 0} (put : Json → Str → Str → Json) where
  -- The loop leaves an idle lane, the configuration and the distinctness of keys alone.
  record Kept (config : QueueConfig) (key : Str) (lane : SessionLane Json) (q : CommandQueue Json)
      : Type 0 where
    same_config : q.config ≡ config
    distinct : Distinct q.lanes
    found : lookup key q.lanes ≡ some lane

  dispatch_command-Kept :
      (config : QueueConfig) (key other : Str) (lane : SessionLane Json)
      (result : Option (QueuedCommand Json) × SessionLane Json)
      (s : CommandQueue Json × List (QueuedCommand Json))
      → str_eq other key ≡ false
      → Kept config key lane s.0
      → Kept config key lane (dispatch_command put other result s).0
  unfolding dispatch_command
  dispatch_command-Kept config key other lane (none, l) s differ v = v
  dispatch_command-Kept config key other lane (some cmd, l) s differ v = record {
    same_config = v.same_config;
    distinct = insert-Distinct other _ s.0.lanes v.distinct;
    found = rw (lookup-insert other key (batch put cmd l).1 s.0.lanes, differ) v.found;
  }

  idle_lane-unchanged :
      (now : ℕ) (key : Str) (lane : SessionLane Json)
      (s : CommandQueue Json × List (QueuedCommand Json))
      → is_idle lane ≡ true
      → dispatch_lane put now key (some lane) s ≡ s
  unfolding dispatch_lane dispatch_command try_activate activate
  idle_lane-unchanged now key lane s idle = ground arith

  dispatch_lane-Kept :
      (config : QueueConfig) (now : ℕ) (key other : Str) (lane : SessionLane Json)
      (s : CommandQueue Json × List (QueuedCommand Json))
      → is_idle lane ≡ true
      → Kept config key lane s.0
      → Kept config key lane (dispatch_lane put now other (lookup other s.0.lanes) s).0
  dispatch_lane-Kept config now key other lane s idle v = elim (Bool-cases (str_eq other key)) [
    | inl same ↦
        rw ((str_eq_iff other key).0 same, v.found, idle_lane-unchanged now key lane s idle) v
    | inr differ ↦ elim (Option-cases (lookup other s.0.lanes)) [
      | inl missing ↦ rw missing (unfold dispatch_lane in v)
      | inr (l, found) ↦ elim (Bool-cases (has_active l)) [
        | inl busy ↦ unfold dispatch_lane in rw (found, busy) v
        | inr free ↦
            unfold dispatch_lane in
            rw (found, free)
              (dispatch_command-Kept config key other lane (try_activate now l) s differ v)
      ]
    ]
  ]

  dispatch_keys-Kept :
      (config : QueueConfig) (now : ℕ) (key : Str) (lane : SessionLane Json) (keys : List Str)
      (s : CommandQueue Json × List (QueuedCommand Json))
      → is_idle lane ≡ true
      → Kept config key lane s.0
      → Kept config key lane (dispatch_keys put now keys s).0
  unfolding dispatch_keys
  dispatch_keys-Kept config now key lane [] s idle v = v
  dispatch_keys-Kept config now key lane (other ∷ keys) s idle v =
      dispatch_keys-Kept config now key lane keys _ idle
        (elim (Bool-cases (leb_ℤ s.0.config.max_concurrent (pos s.0.active_count))) [
          | inl full ↦ rw full v
          | inr room ↦ rw room (dispatch_lane-Kept config now key other lane s idle v)
        ])

  round_forgets :
      (now : ℕ) (key : Str) (lane : SessionLane Json) (q : CommandQueue Json)
      → Kept q.config key lane (activated put now q).0
      → is_idle lane ≡ true
      → get_lane key (dispatch_round put true now q) ≡ new_lane q.config key
  unfolding dispatch_round get_lane
  round_forgets now key lane q v idle =
      ground (
        arith,
        lookup-clean_up key (activated put now q).0.lanes v.distinct,
        v.found,
        v.same_config,
      )

  -- One round of a running dispatcher removes every idle lane: whatever mode, debounce time, cap and
  -- drop policy were set for the session, its next command meets a lane with the queue's defaults.
  dispatch_forgets :
      (now : ℕ) (key : Str) (lane : SessionLane Json) (q : CommandQueue Json)
      → q.running ≡ true
      → Distinct q.lanes
      → lookup key q.lanes ≡ some lane
      → is_idle lane ≡ true
      → get_lane key (dispatch put now q) ≡ new_lane q.config key
  unfolding dispatch
  dispatch_forgets now key lane q on d e idle =
      let v =
        dispatch_keys-Kept q.config now key lane (map (λ e. e.0) q.lanes) (q, []) idle
          (record { same_config = refl; distinct = d; found = e }) in
      subst (λ b. get_lane key (dispatch_round put b now q) ≡ new_lane q.config key) (sym on)
        (round_forgets now key lane q v idle)

-- ===== src/Gateway/CommandQueue/SerialLanes.antt =====
-- The maps of lanes and lists of workers that agree, and what keeps them so.
use rav_bot.Prelude.{
  ℕ, ◌+◌, ◌≤◌, ◌≡◌, refl, true, none, some, List, [], ◌∷◌, ◌++◌, if◌then◌else◌, arith, Bool-cases,
  Option-cases, inl, inr, subst,
}
use rav_bot.Prelude.Text.{Str, str_eq, str_eq_iff}
use rav_bot.Prelude.Map.{Map, lookup, insert, lookup-insert, Distinct, insert-Distinct}
use rav_bot.Gateway.Types.{QueuedCommand}
use rav_bot.Gateway.Lane.{SessionLane, has_active, is_idle}
use rav_bot.Gateway.CommandQueue.{CommandQueue, get_lane, clean_up}
use rav_bot.Gateway.CommandQueue.Events.{count_session, active_in}
use rav_bot.Gateway.CommandQueue.Ownership.{Belongs, IsOwned}

module _ {Json : Type 0} where
  abbrev active_bit : SessionLane Json → ℕ
  active_bit lane = if has_active lane then 1 else 0

  pub active_in-insert :
      (key j : Str) (lane : SessionLane Json) (m : Map (SessionLane Json))
      → active_in key (insert j lane m)
        ≡ (if str_eq j key then active_bit lane else active_in key m)
  active_in-insert key j lane m = ground (arith, lookup-insert j key lane m)

  pub active_in-le : (key : Str) (m : Map (SessionLane Json)) → active_in key m ≤ 1
  active_in-le key m = ground arith

  -- Every lane of the map holds commands of its session alone.
  abbrev AllOwned : Map (SessionLane Json) → Type 0
  AllOwned m = (key : Str) (lane : SessionLane Json) → lookup key m ≡ some lane → IsOwned key lane

  pub insert-AllOwned :
      (j : Str) (lane : SessionLane Json) (m : Map (SessionLane Json))
      → IsOwned j lane
      → AllOwned m
      → AllOwned (insert j lane m)
  insert-AllOwned j lane m own all key lane' e = elim (Bool-cases (str_eq j key)) [
    | inl same ↦
        let e' : lane ≡ lane' = ground (arith, lookup-insert j key lane m) in
        subst (IsOwned key) e' (subst (λ k. IsOwned k lane) ((str_eq_iff j key).0 same) own)
    | inr differ ↦ all key lane' (ground (arith, lookup-insert j key lane m))
  ]

  -- The lanes of a queue with some workers: for each session, as many workers run as its lane has
  -- active commands.
  pub record IsSerial (lanes : Map (SessionLane Json)) (workers : List (QueuedCommand Json))
      : Type 0 where
    pub distinct : Distinct lanes
    pub owned : AllOwned lanes
    pub serial : (key : Str) → count_session key workers ≡ active_in key lanes

  -- Writing back a lane whose active command is as before.
  pub same_active-IsSerial :
      (j : Str) (lane : SessionLane Json) (lanes : Map (SessionLane Json))
      (workers : List (QueuedCommand Json))
      → active_bit lane ≡ active_in j lanes
      → IsOwned j lane
      → IsSerial lanes workers
      → IsSerial (insert j lane lanes) workers
  same_active-IsSerial j lane lanes workers bit own v = record {
    distinct = insert-Distinct j lane lanes v.distinct;
    owned = insert-AllOwned j lane lanes own v.owned;
    serial =
        λ key. ground (arith, v.serial key, active_in-insert key j lane lanes, str_eq_iff j key);
  }

  count_session-append :
      (key : Str) (ws vs : List (QueuedCommand Json))
      → count_session key (ws ++ vs) ≡ count_session key ws + count_session key vs
  count_session-append key [] vs = omega arith
  count_session-append key (w ∷ ws) vs = omega (arith, count_session-append key ws vs)

  -- A new worker for a session whose lane turns active.
  pub new_active-IsSerial :
      (j : Str) (lane : SessionLane Json) (lanes : Map (SessionLane Json))
      (workers : List (QueuedCommand Json)) (cmd : QueuedCommand Json)
      → Belongs j cmd
      → active_in j lanes ≡ 0
      → has_active lane ≡ true
      → IsOwned j lane
      → IsSerial lanes workers
      → IsSerial (insert j lane lanes) (workers ++ cmd ∷ [])
  new_active-IsSerial j lane lanes workers cmd own idle on owned v = record {
    distinct = insert-Distinct j lane lanes v.distinct;
    owned = insert-AllOwned j lane lanes owned v.owned;
    serial = λ key.
        rw (active_in-insert key j lane lanes, count_session-append key workers (cmd ∷ []), own)
          (elim (Bool-cases (str_eq j key)) [
            | inl same ↦
                let now_on = subst (λ k. active_in k lanes ≡ 0) ((str_eq_iff j key).0 same) idle in
                rw (same, on) (omega (arith, v.serial key, now_on))
            | inr differ ↦ rw differ (omega (arith, v.serial key))
          ]);
  }

  pub lookup-clean_up :
      (key : Str) (m : Map (SessionLane Json))
      → Distinct m
      → lookup key (clean_up m)
        ≡ elim (lookup key m) [ none ↦ none | some lane ↦ if is_idle lane then none else some lane ]
  unfolding lookup clean_up
  lookup-clean_up key [] d = refl
  lookup-clean_up key ((j, lane) ∷ m) d =
      ground (arith, lookup-clean_up key m d.1, str_eq_iff j key)

  clean_up-Distinct : (m : Map (SessionLane Json)) → Distinct m → Distinct (clean_up m)
  unfolding lookup clean_up
  clean_up-Distinct [] d = tt
  clean_up-Distinct ((j, lane) ∷ m) d =
      ground (arith, clean_up-Distinct m d.1, lookup-clean_up j m d.1)

  pub clean_up-IsSerial :
      (lanes : Map (SessionLane Json)) (workers : List (QueuedCommand Json))
      → IsSerial lanes workers
      → IsSerial (clean_up lanes) workers
  clean_up-IsSerial lanes workers v = record {
    distinct = clean_up-Distinct lanes v.distinct;
    owned = λ key lane e. v.owned key lane (ground (arith, lookup-clean_up key lanes v.distinct));
    serial = λ key. ground (arith, v.serial key, lookup-clean_up key lanes v.distinct);
  }

  pub get_lane-IsOwned :
      (key : Str) (q : CommandQueue Json)
      → AllOwned q.lanes
      → IsOwned key (get_lane key q) × (active_bit (get_lane key q) ≡ active_in key q.lanes)
  unfolding get_lane
  get_lane-IsOwned key q all = elim (Option-cases (lookup key q.lanes)) [
    | inl e ↦ (unfold get_lane in rw (e, get_lane) tt, ground arith)
    | inr (lane, e) ↦ (rw (e, get_lane) (all key lane e), ground arith)
  ]

-- ===== src/Security/ExecApproval/Pruning.antt =====
-- What ExecApprovalManager::PruneExpired removes and records.
use rav_bot.Prelude.{
  ℕ, ◌≡◌, refl, sym, ◌∙◌, Bool, false, Option, none, some, List, [], ◌∷◌, ◌++◌, map, append-nil,
  append_assoc, arith, any, if◌then◌else◌,
}
use rav_bot.Prelude.Text.{Str, bytes, str_eq, str_eq_iff, str_eq_refl}
use rav_bot.Prelude.Map.{Map, lookup, erase, lookup-erase, Distinct}
use rav_bot.Security.ExecApproval.{
  ApprovalRequest, ApprovalResolved, ExecApprovalManager, timeout, is_expired, expired_ids, expire,
  prune_expired,
}

abbrev pub timed_out : ℕ → Str → ApprovalResolved
timed_out now id = record {
  id = id;
  decision = timeout;
  resolved_by = bytes "system";
  resolved_at = now;
}

abbrev pub unexpired : ℕ → Option ApprovalRequest → Option ApprovalRequest
unexpired now none = none
unexpired now (some req) = if is_expired now req then none else some req

lookup-expire :
    (now : ℕ) (id : Str) (ids : List Str) (s : ExecApprovalManager)
    → lookup id (expire now ids s).pending
      ≡ (if any (λ i. str_eq i id) ids then none else lookup id s.pending)
unfolding expire
lookup-expire now id [] s = refl
lookup-expire now id (i ∷ ids) s =
    let t : ExecApprovalManager = record s {
      pending = erase i s.pending;
      resolved = s.resolved ++ timed_out now i ∷ [];
    } in
    ground (arith, lookup-expire now id ids t, lookup-erase i id s.pending)

resolved-expire :
    (now : ℕ) (ids : List Str) (s : ExecApprovalManager)
    → (expire now ids s).resolved ≡ s.resolved ++ map (timed_out now) ids
unfolding expire
resolved-expire now [] s = sym (append-nil s.resolved)
resolved-expire now (i ∷ ids) s =
    let t : ExecApprovalManager = record s {
      pending = erase i s.pending;
      resolved = s.resolved ++ timed_out now i ∷ [];
    } in
    resolved-expire now ids t
    ∙ append_assoc s.resolved (timed_out now i ∷ []) (map (timed_out now) ids)

abbrev is_due : ℕ → Option ApprovalRequest → Bool
is_due now none = false
is_due now (some req) = is_expired now req

any-expired_ids :
    (now : ℕ) (id : Str) (m : Map ApprovalRequest)
    → Distinct m
    → any (λ i. str_eq i id) (expired_ids now m) ≡ is_due now (lookup id m)
unfolding expired_ids lookup
any-expired_ids now id [] d = refl
any-expired_ids now id ((j, req) ∷ m) d =
    ground (arith, any-expired_ids now id m d.1, str_eq_iff j id, str_eq_refl id)

-- Where the identifiers are distinct, pruning removes exactly the requests whose time is up and
-- keeps the others as they are, and it records each removed one as timed out, in the order of the
-- map, after the history.
prune_expired-exact :
    (now : ℕ) (id : Str) (s : ExecApprovalManager)
    → Distinct s.pending
    → (lookup id (prune_expired now s).pending ≡ unexpired now (lookup id s.pending))
      × ((prune_expired now s).resolved
          ≡ s.resolved ++ map (timed_out now) (expired_ids now s.pending))
unfolding prune_expired
prune_expired-exact now id s d = (
  ground (
    arith,
    lookup-expire now id (expired_ids now s.pending) s,
    any-expired_ids now id s.pending d,
  ),
  resolved-expire now (expired_ids now s.pending) s,
)

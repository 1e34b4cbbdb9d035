-- ===== src/Security/ExecApproval.antt =====
-- include/ravbot/security/exec_approval.hpp and src/security/exec_approval.cpp. Times are
-- nanoseconds of the steady clock. RequestApproval is one step: it waits for nothing, and the
-- identifier that it draws at random is an argument.
pub mod Glob
pub mod Decision
pub mod Pruning
mod Tests
use rav_bot.Prelude.{
  ℕ, ◌+◌, ◌*◌, Bool, true, false, Option, none, some, List, [], ◌∷◌, ◌++◌, map, leb, any,
  if◌then◌else◌,
}
use rav_bot.Prelude.Int.{ℤ, pos_part, neg_part, sub_ℕ}
use rav_bot.Prelude.Text.{Str, bytes, str_eq}
use rav_bot.Prelude.Map.{Map, lookup, insert, erase}
use rav_bot.Security.ExecApproval.Glob.{glob_match}

pub data AskMode : Type 0 where
  off : AskMode
  on_miss : AskMode
  always : AskMode

unfoldable pub ask_mode_from_string : Str → AskMode
ask_mode_from_string s =
    if str_eq s (bytes "off") then off else if str_eq s (bytes "always") then always else on_miss

unfoldable pub ask_mode_to_string : AskMode → Str
ask_mode_to_string off = bytes "off"
ask_mode_to_string always = bytes "always"
ask_mode_to_string on_miss = bytes "on-miss"

pub data ApprovalDecision : Type 0 where
  approved : ApprovalDecision
  denied : ApprovalDecision
  timeout : ApprovalDecision
  pending : ApprovalDecision

pub record ApprovalRequest : Type 0 where
  pub id : Str
  pub command : Str
  pub cwd : Str
  pub agent_id : Str
  pub session_key : Str
  pub security_note : Str
  pub created_at : ℕ
  pub expires_at : ℤ

pub record ApprovalResolved : Type 0 where
  pub id : Str
  pub decision : ApprovalDecision
  pub resolved_by : Str
  pub resolved_at : ℕ

unfoldable pub add_pattern : Str → List Str → List Str
add_pattern pattern patterns = patterns ++ pattern ∷ []

-- ExecAllowlist::Matches
unfoldable pub allows : List Str → Str → Bool
allows patterns command = any (λ pattern. glob_match pattern command) patterns

pub record ExecApprovalConfig : Type 0 where
  pub ask : AskMode
  pub timeout_seconds : ℤ
  pub timeout_fallback : ApprovalDecision
  pub allowlist : List Str
  pub approval_notice_ms : ℤ

pub record ExecApprovalManager : Type 0 where
  pub config : ExecApprovalConfig
  pub allowlist : List Str
  pub approval_handler : Option (ApprovalRequest → ApprovalDecision)
  pub pending : Map ApprovalRequest
  pub resolved : List ApprovalResolved

add_all : List Str → List Str → List Str
unfolding add_pattern
add_all patterns [] = patterns
add_all patterns (p ∷ ps) = add_all (add_pattern p patterns) ps

unfoldable pub configure : ExecApprovalConfig → ExecApprovalManager → ExecApprovalManager
unfolding add_all
configure c s = record s { config = c; allowlist = add_all [] c.allowlist }

unfoldable pub set_approval_handler :
    Option (ApprovalRequest → ApprovalDecision) → ExecApprovalManager → ExecApprovalManager
set_approval_handler handler s = record s { approval_handler = handler }

abbrev pub second : ℕ
second = 1_000_000_000

-- now + std::chrono::seconds(seconds)
abbrev pub after_seconds : ℕ → ℤ → ℤ
after_seconds now s = sub_ℕ (now + pos_part s * second) (neg_part s * second)

unfoldable pub resolve :
    Str → ApprovalDecision → Str → ℕ → ExecApprovalManager → Bool × ExecApprovalManager
resolve id decision resolved_by now s = elim (lookup id s.pending) [
  | none ↦ (false, s)
  | some _ ↦ (
    true,
    record s {
      pending = erase id s.pending;
      resolved =
          s.resolved
          ++ record { id = id; decision = decision; resolved_by = resolved_by; resolved_at = now }
            ∷ [];
    },
  )
]

abbrev pub or_fallback : ApprovalDecision → ApprovalDecision → ApprovalDecision
or_fallback pending fallback = fallback
or_fallback decision fallback = decision

-- The handler's answer, or the fallback.
unfoldable pub ask_operator : ApprovalRequest → ExecApprovalManager → ApprovalDecision
ask_operator req s = elim s.approval_handler [
  | none ↦ s.config.timeout_fallback
  | some handler ↦ or_fallback (handler req) s.config.timeout_fallback
]

-- Whether the command is approved without a request.
unfoldable pub auto_approved : Str → ExecApprovalManager → Bool
auto_approved command s = elim s.config.ask [
  | off ↦ true
  | on_miss ↦ allows s.allowlist command
  | always ↦ false
]

-- `id` is the drawn identifier.
abbrev pub new_request : Str → Str → Str → Str → Str → ℕ → ExecApprovalManager → ApprovalRequest
new_request command cwd agent_id session_key id now s = record {
  id = id;
  command = command;
  cwd = cwd;
  agent_id = agent_id;
  session_key = session_key;
  security_note = [];
  created_at = now;
  expires_at = after_seconds now s.config.timeout_seconds;
}

abbrev pub enter : ApprovalRequest → ExecApprovalManager → ExecApprovalManager
enter req s = record s { pending = insert req.id req s.pending }

-- The request is entered, decided and resolved.
abbrev pub decide :
    ApprovalRequest → ℕ → ExecApprovalManager → ApprovalDecision × ExecApprovalManager
decide req later s =
    let decision = ask_operator req s in
    (decision, (resolve req.id decision (bytes "auto") later (enter req s)).1)

-- The clock is read for the request and again for its resolution.
unfoldable pub request_approval :
    Str
    → Str
    → Str
    → Str
    → Str
    → ℕ
    → ℕ
    → ExecApprovalManager
    → ApprovalDecision × ExecApprovalManager
request_approval command cwd agent_id session_key id now later s =
    if auto_approved command s
    then (approved, s)
    else decide (new_request command cwd agent_id session_key id now s) later s

unfoldable pub pending_requests : ExecApprovalManager → List ApprovalRequest
pending_requests s = map (λ e. e.1) s.pending

unfoldable pub is_expired : ℕ → ApprovalRequest → Bool
is_expired now req = elim req.expires_at [ ℤ.pos t ↦ leb t now | ℤ.negsuc t ↦ true ]

unfoldable pub expired_ids : ℕ → Map ApprovalRequest → List Str
expired_ids now [] = []
expired_ids now ((id, req) ∷ m) =
    let rest = expired_ids now m in if is_expired now req then id ∷ rest else rest

unfoldable pub expire : ℕ → List Str → ExecApprovalManager → ExecApprovalManager
expire now [] s = s
expire now (id ∷ ids) s = expire now ids (record s {
  pending = erase id s.pending;
  resolved =
      s.resolved
      ++ record { id = id; decision = timeout; resolved_by = bytes "system"; resolved_at = now }
        ∷ [];
})

unfoldable pub prune_expired : ℕ → ExecApprovalManager → ExecApprovalManager
unfolding expire expired_ids
prune_expired now s = expire now (expired_ids now s.pending) s

-- ===== src/Security/ExecApproval/Tests.antt =====
-- The theorems about command approvals at concrete inputs.
use rav_bot.Prelude.{◌≡◌, ◌↔◌, refl, arith, true, none, [], ◌∷◌, length, is_some}
use rav_bot.Prelude.Int.{pos}
use rav_bot.Prelude.Text.{Str, bytes}
use rav_bot.Security.ExecApproval.{
  ExecApprovalManager, ApprovalRequest, on_miss, denied, auto_approved, request_approval,
  new_request, allows,
}
use rav_bot.Security.ExecApproval.Glob.{Glob, glob_match, glob_loop, rounds_for, head, only_stars}
use rav_bot.Security.ExecApproval.Glob.Sound.{glob_loop-total}
use rav_bot.Security.ExecApproval.Glob.Complete.{glob_match-Glob}
use rav_bot.Security.ExecApproval.Decision.{Approval, request_approval-Approval}

abbrev pattern_git : Str
pattern_git = bytes "g?t *s"

abbrev git_status : Str
git_status = bytes "git s"

glob_match-Glob_example : (glob_match pattern_git git_status ≡ true) ↔ Glob pattern_git git_status
glob_match-Glob_example = glob_match-Glob pattern_git git_status (
  (λ e. omega arith),
  ((λ e. omega arith), ((λ e. omega arith), ((λ e. omega arith), ((λ e. omega arith), tt)))),
)

glob_loop-total_example :
    is_some
      (glob_loop (rounds_for (length pattern_git) (length git_status)) pattern_git git_status none)
    ≡ true
glob_loop-total_example = glob_loop-total pattern_git git_status

abbrev manager : ExecApprovalManager
manager = record {
  config = record {
    ask = on_miss;
    timeout_seconds = pos 120;
    timeout_fallback = denied;
    allowlist = pattern_git ∷ [];
    approval_notice_ms = pos 5000;
  };
  allowlist = pattern_git ∷ [];
  approval_handler = none;
  pending = [];
  resolved = [];
}

request_approval-Approval_example : Approval manager git_status
unfolding request_approval auto_approved allows glob_match glob_loop head only_stars
request_approval-Approval_example =
    request_approval-Approval git_status [] [] [] (bytes "req_1") 10 20 manager refl

abbrev waiting : ApprovalRequest
waiting = new_request (bytes "rm") [] [] [] (bytes "req_1") 10 manager

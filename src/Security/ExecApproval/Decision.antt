-- ===== src/Security/ExecApproval/Decision.antt =====
-- Which decisions ExecApprovalManager::RequestApproval gives, and what it leaves behind.
use rav_bot.Prelude.{
  ℕ, ◌≡◌, ◌⊎◌, inl, inr, refl, true, none, some, List, [], ◌∷◌, ◌++◌, arith, if◌then◌else◌,
  Option-cases, Bool-cases,
}
use rav_bot.Prelude.Text.{Str, bytes, str_eq_iff, str_eq_refl}
use rav_bot.Prelude.Map.{lookup, insert, lookup-insert, lookup-erase}
use rav_bot.Security.ExecApproval.{
  AskMode, off, on_miss, always, ApprovalDecision, approved, denied, timeout, pending, or_fallback,
  ApprovalRequest, ExecApprovalManager, resolve, ask_operator, auto_approved, allows,
  request_approval, new_request,
}
use rav_bot.Security.ExecApproval.Glob.{Glob, glob_match}
use rav_bot.Security.ExecApproval.Glob.Sound.{glob_match_sound}

-- A pattern of the list has the command in its language.
pub data Listed (command : Str) : List Str → Type 0 where
  here : (p : Str) → (ps : List Str) → Glob p command → Listed command (p ∷ ps)
  further : (p : Str) → (ps : List Str) → Listed command ps → Listed command (p ∷ ps)

allows-Listed : (ps : List Str) (command : Str) → allows ps command ≡ true → Listed command ps
unfolding allows
allows-Listed [] command h = absurd (cc)
allows-Listed (p ∷ ps) command h = elim (Bool-cases (glob_match p command)) [
  | inl e ↦ here p ps (glob_match_sound p command e)
  | inr e ↦ further p ps (allows-Listed ps command (ground arith))
]

-- The reasons for which a command can be approved.
pub data Approval (s : ExecApprovalManager) (command : Str) : Type 0 where
  by_mode : s.config.ask ≡ off → Approval s command
  by_allowlist : s.config.ask ≡ on_miss → Listed command s.allowlist → Approval s command
  by_handler :
      (handler : ApprovalRequest → ApprovalDecision)
      → (req : ApprovalRequest) → s.approval_handler ≡ some handler
      → req.command ≡ command
      → handler req ≡ approved
      → Approval s command
  by_fallback : s.config.timeout_fallback ≡ approved → Approval s command

ask_cases : (m : AskMode) → (m ≡ off) ⊎ ((m ≡ on_miss) ⊎ (m ≡ always))
ask_cases off = inl refl
ask_cases on_miss = inr (inl refl)
ask_cases always = inr (inr refl)

or_fallback-approved :
    (d fallback : ApprovalDecision)
    → or_fallback d fallback ≡ approved
    → (d ≡ approved) ⊎ (fallback ≡ approved)
or_fallback-approved approved fallback h = inl refl
or_fallback-approved denied fallback h = inl h
or_fallback-approved timeout fallback h = inl h
or_fallback-approved pending fallback h = inr h

auto_approved-Approval :
    (s : ExecApprovalManager) (command : Str) → auto_approved command s ≡ true → Approval s command
unfolding auto_approved
auto_approved-Approval s command h = elim (ask_cases s.config.ask) [
  | inl e ↦ by_mode e
  | inr (inl e) ↦ by_allowlist e (allows-Listed s.allowlist command (ground arith))
  | inr (inr e) ↦ absurd (ground arith)
]

ask_operator-Approval :
    (s : ExecApprovalManager) (req : ApprovalRequest)
    → ask_operator req s ≡ approved
    → Approval s req.command
unfolding ask_operator
ask_operator-Approval s req h = elim (Option-cases s.approval_handler) [
  | inl e ↦ by_fallback (ground arith)
  | inr (handler, e) ↦
      elim (or_fallback-approved (handler req) s.config.timeout_fallback (ground arith)) [
        | inl d ↦ by_handler handler req e refl d
        | inr f ↦ by_fallback f
      ]
]

-- A command is approved only if approval is off, if the allowlist is in use and a pattern of it
-- has the command in its language, if the handler approved a request for that command, or if the
-- configured fallback approves.
pub request_approval-Approval :
    (command cwd agent_id session_key id : Str) (now later : ℕ) (s : ExecApprovalManager)
    → (request_approval command cwd agent_id session_key id now later s).0 ≡ approved
    → Approval s command
unfolding request_approval
request_approval-Approval command cwd agent_id session_key id now later s h =
    elim (Bool-cases (auto_approved command s)) [
      | inl e ↦ auto_approved-Approval s command e
      | inr e ↦
          ask_operator-Approval s (new_request command cwd agent_id session_key id now s)
            (ground arith)
    ]

resolve-inserted :
    (id other : Str) (req : ApprovalRequest) (d : ApprovalDecision) (by : Str) (now : ℕ)
    (s : ExecApprovalManager)
    → lookup id s.pending ≡ none
    → (lookup other (resolve id d by now (record s { pending = insert id req s.pending })).1.pending
        ≡ lookup other s.pending)
      × ((resolve id d by now (record s { pending = insert id req s.pending })).1.resolved
          ≡ s.resolved
            ++ record { id = id; decision = d; resolved_by = by; resolved_at = now } ∷ [])
unfolding resolve
resolve-inserted id other req d by now s h = (
  ground (
    arith,
    str_eq_refl id,
    str_eq_iff id other,
    lookup-insert id id req s.pending,
    lookup-insert id other req s.pending,
    lookup-erase id other (insert id req s.pending),
  ),
  ground (arith, str_eq_refl id, lookup-insert id id req s.pending),
)

-- A request whose identifier is not pending leaves the pending requests as they were, and adds
-- one entry to the history exactly when the command was not approved at once; the entry has the
-- decision.
request_approval-resolved :
    (command cwd agent_id session_key id other : Str) (now later : ℕ) (s : ExecApprovalManager)
    → lookup id s.pending ≡ none
    → (lookup other (request_approval command cwd agent_id session_key id now later s).1.pending
        ≡ lookup other s.pending)
      × ((request_approval command cwd agent_id session_key id now later s).1.resolved ≡ (
          if auto_approved command s
          then s.resolved
          else s.resolved
            ++ record {
              id = id;
              decision = (request_approval command cwd agent_id session_key id now later s).0;
              resolved_by = bytes "auto";
              resolved_at = later;
            }
              ∷ []))
unfolding request_approval
request_approval-resolved command cwd agent_id session_key id other now later s h =
    let req = new_request command cwd agent_id session_key id now s in
    let (same, more) =
      resolve-inserted id other req (ask_operator req s) (bytes "auto") later s h in
    elim (Bool-cases (auto_approved command s)) [
      | inl e ↦ rw e (refl, refl)
      | inr e ↦ rw e (same, more)
    ]

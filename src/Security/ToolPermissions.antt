-- ===== src/Security/ToolPermissions.antt =====
-- include/ravbot/security/tool_permissions.hpp and src/security/tool_permissions.cpp. A set of
-- strings is a list that the code only inserts into and asks for membership.
pub mod Rules
pub mod McpRules
mod Tests
use rav_bot.Prelude.{
  Bool, true, false, ◌||◌, ◌&&◌, not, Option, none, some, List, [], ◌∷◌, ◌++◌, any, drop, is_empty,
  if◌then◌else◌,
}
use rav_bot.Prelude.Text.{Str, bytes, str_eq, starts_with}
use rav_bot.Prelude.Map.{Map, lookup}

pub record ToolPermissionConfig : Type 0 where
  pub allow : List Str
  pub deny : List Str

pub record ToolPermissionChecker : Type 0 where
  pub allowed_tools : List Str
  pub denied_tools : List Str
  pub allowed_mcp : List Str
  pub denied_mcp : List Str
  pub allow_all : Bool
  pub mcp_allow_all : Bool

-- kGroups
abbrev pub groups : Map (List Str)
groups =
    (bytes "fs", bytes "read" ∷ bytes "write" ∷ bytes "edit" ∷ [])
    ∷ (bytes "runtime", bytes "exec" ∷ [])
    ∷ (bytes "memory", bytes "memory_search" ∷ bytes "memory_get" ∷ bytes "memory_write" ∷ [])
    ∷ (
      bytes "all",
      bytes "read"
          ∷ bytes "write"
          ∷ bytes "edit"
          ∷ bytes "exec"
          ∷ bytes "message"
          ∷ bytes "apply_patch"
          ∷ bytes "process"
          ∷ bytes "web_search"
          ∷ bytes "web_fetch"
          ∷ bytes "memory_search"
          ∷ bytes "memory_get"
          ∷ bytes "memory_write"
          ∷ bytes "github_search_repos"
          ∷ bytes "github_search_code"
          ∷ bytes "github_get_repo"
          ∷ [],
    )
    ∷ []

-- The tools of a group, none for an unknown one.
unfoldable pub group_tools : Str → List Str
group_tools name = elim (lookup name groups) [ none ↦ [] | some tools ↦ tools ]

-- set.count(x)
unfoldable pub count : Str → List Str → Bool
count x set = any (λ y. str_eq y x) set

-- set.insert for each of the tools
unfoldable pub insert_all : List Str → List Str → List Str
insert_all [] set = set
insert_all (tool ∷ tools) set = insert_all tools (tool ∷ set)

-- A round of the loop over the allow list.
unfoldable pub parse_allow : Str → ToolPermissionChecker → ToolPermissionChecker
parse_allow entry c =
    if str_eq entry (bytes "*")
    then record c { allow_all = true; mcp_allow_all = true }
    else if starts_with (bytes "group:") entry
    then record c {
      allow_all = if str_eq (drop 6 entry) (bytes "all") then true else c.allow_all;
      allowed_tools = insert_all (group_tools (drop 6 entry)) c.allowed_tools;
    }
    else if starts_with (bytes "tool:") entry
    then record c { allowed_tools = drop 5 entry ∷ c.allowed_tools }
    else if starts_with (bytes "mcp:") entry
    then (if str_eq (drop 4 entry) (bytes "*")
        then record c { mcp_allow_all = true }
        else record c { allowed_mcp = drop 4 entry ∷ c.allowed_mcp })
    else c

-- A round of the loop over the deny list.
unfoldable pub parse_deny : Str → ToolPermissionChecker → ToolPermissionChecker
parse_deny entry c =
    if starts_with (bytes "group:") entry
    then record c { denied_tools = insert_all (group_tools (drop 6 entry)) c.denied_tools }
    else if starts_with (bytes "tool:") entry
    then record c { denied_tools = drop 5 entry ∷ c.denied_tools }
    else if starts_with (bytes "mcp:") entry
    then record c { denied_mcp = drop 4 entry ∷ c.denied_mcp }
    else c

unfoldable pub parse_all :
    (Str → ToolPermissionChecker → ToolPermissionChecker)
    → List Str
    → ToolPermissionChecker
    → ToolPermissionChecker
parse_all parse [] c = c
parse_all parse (entry ∷ entries) c = parse_all parse entries (parse entry c)

abbrev pub blank : ToolPermissionChecker
blank = record {
  allowed_tools = [];
  denied_tools = [];
  allowed_mcp = [];
  denied_mcp = [];
  allow_all = false;
  mcp_allow_all = false;
}

-- The last step of the constructor.
unfoldable pub allow_if_empty : List Str → ToolPermissionChecker → ToolPermissionChecker
allow_if_empty [] c = record c { allow_all = true; mcp_allow_all = true }
allow_if_empty (entry ∷ entries) c = c

-- ToolPermissionChecker::ToolPermissionChecker
unfoldable pub make_checker : ToolPermissionConfig → ToolPermissionChecker
unfolding parse_all allow_if_empty
make_checker config =
    allow_if_empty config.allow
      (parse_all parse_deny config.deny (parse_all parse_allow config.allow blank))

unfoldable pub is_allowed : Str → ToolPermissionChecker → Bool
is_allowed tool c =
    if count tool c.denied_tools
    then false
    else if c.allow_all || count tool c.allowed_tools
    then true
    else false

unfoldable pub is_mcp_tool_allowed : Str → Str → ToolPermissionChecker → Bool
is_mcp_tool_allowed server tool c =
    let exact = server ++ b':' ∷ tool in
    let wildcard = server ++ b':' ∷ b'*' ∷ [] in
    if count exact c.denied_mcp || count wildcard c.denied_mcp
    then false
    else if c.mcp_allow_all || (count exact c.allowed_mcp || count wildcard c.allowed_mcp)
    then true
    else false

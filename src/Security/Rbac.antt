-- ===== src/Security/Rbac.antt =====
-- include/ravbot/security/rbac.hpp and src/security/rbac.cpp, with the method names of
-- include/ravbot/gateway/protocol.hpp. A set of scopes is the list of its members.
pub mod Access
mod Tests
use rav_bot.Prelude.{Bool, true, false, Option, none, some, List, [], ◌∷◌, any, if◌then◌else◌}
use rav_bot.Prelude.Text.{Str, bytes, str_eq}
use rav_bot.Prelude.Map.{Map, lookup, insert}

pub data Role : Type 0 where
  operator : Role
  viewer : Role
  node : Role

unfoldable pub role_from_string : Str → Role
role_from_string s =
    if str_eq s (bytes "viewer") then viewer else if str_eq s (bytes "node") then node else operator

unfoldable pub role_to_string : Role → Str
role_to_string operator = bytes "operator"
role_to_string viewer = bytes "viewer"
role_to_string node = bytes "node"

abbrev pub operator_read : Str
operator_read = bytes "operator.read"

abbrev pub operator_write : Str
operator_write = bytes "operator.write"

abbrev pub operator_admin : Str
operator_admin = bytes "operator.admin"

abbrev pub node_execute : Str
node_execute = bytes "node.execute"

abbrev pub node_read : Str
node_read = bytes "node.read"

unfoldable pub default_scopes : Role → List Str
default_scopes operator = operator_read ∷ operator_write ∷ operator_admin ∷ []
default_scopes viewer = operator_read ∷ []
default_scopes node = node_execute ∷ node_read ∷ []

-- Read-only methods.
abbrev pub read_methods : List Str
read_methods =
    bytes "gateway.health"
    ∷ bytes "gateway.status"
    ∷ bytes "config.get"
    ∷ bytes "sessions.list"
    ∷ bytes "sessions.history"
    ∷ bytes "channels.list"
    ∷ bytes "channels.status"
    ∷ bytes "health"
    ∷ bytes "status"
    ∷ bytes "models.list"
    ∷ bytes "sessions.preview"
    ∷ bytes "chat.history"
    ∷ bytes "skills.status"
    ∷ bytes "exec.approvals.get"
    ∷ bytes "cron.list"
    ∷ bytes "cron.runs"
    ∷ bytes "memory.status"
    ∷ bytes "memory.search"
    ∷ bytes "plugins.list"
    ∷ bytes "plugins.tools"
    ∷ bytes "plugins.services"
    ∷ bytes "plugins.providers"
    ∷ bytes "plugins.commands"
    ∷ bytes "plugins.gateway"
    ∷ bytes "queue.status"
    ∷ []

-- Write methods.
abbrev pub write_methods : List Str
write_methods =
    bytes "config.set"
    ∷ bytes "config.reload"
    ∷ bytes "sessions.delete"
    ∷ bytes "sessions.reset"
    ∷ bytes "sessions.patch"
    ∷ bytes "sessions.compact"
    ∷ bytes "models.set"
    ∷ bytes "skills.install"
    ∷ bytes "cron.add"
    ∷ bytes "cron.remove"
    ∷ bytes "cron.update"
    ∷ bytes "cron.run"
    ∷ bytes "exec.approval.request"
    ∷ bytes "plugins.call_tool"
    ∷ bytes "queue.configure"
    ∷ bytes "queue.cancel"
    ∷ bytes "queue.abort"
    ∷ []

-- Agent execution.
abbrev pub agent_methods : List Str
agent_methods =
    bytes "agent.request"
    ∷ bytes "agent.stop"
    ∷ bytes "chat.send"
    ∷ bytes "chat.abort"
    ∷ bytes "chain.execute"
    ∷ []

-- Methods of the user interface.
abbrev pub compat_methods : List Str
compat_methods =
    bytes "agent.identity.get"
    ∷ bytes "node.list"
    ∷ bytes "device.pair.list"
    ∷ bytes "logs.tail"
    ∷ bytes "usage.cost"
    ∷ bytes "sessions.usage"
    ∷ bytes "sessions.usage.timeseries"
    ∷ bytes "sessions.usage.logs"
    ∷ bytes "cron.status"
    ∷ bytes "config.schema"
    ∷ bytes "agents.list"
    ∷ []

abbrev pub read_scopes : List Str
read_scopes = operator_read ∷ operator_write ∷ operator_admin ∷ node_read ∷ node_execute ∷ []

-- `method_scopes_[method] = scopes` for each method of a list.
unfoldable pub assign : List Str → List Str → Map (List Str) → Map (List Str)
assign [] scopes table = table
assign (method ∷ methods) scopes table = assign methods scopes (insert method scopes table)

-- The methods that need no scope.
abbrev pub connect_methods : List Str
connect_methods = bytes "connect.hello" ∷ bytes "connect" ∷ []

abbrev pub catalog : Str
catalog = bytes "tools.catalog"

-- RBACChecker::init_default_rules
unfoldable pub default_rules : Map (List Str)
unfolding assign
default_rules = assign (catalog ∷ []) read_scopes (
    assign connect_methods [] (
      assign compat_methods read_scopes (
        assign agent_methods (operator_write ∷ operator_admin ∷ node_execute ∷ []) (
          assign write_methods (operator_write ∷ operator_admin ∷ [])
            (assign read_methods read_scopes [])))))

-- s is a member.
unfoldable pub member : Str → List Str → Bool
member s set = any (λ t. str_eq t s) set

-- A scope of the client is among the required ones.
unfoldable pub matches_any : List Str → List Str → Bool
unfolding member
matches_any client_scopes [] = true
matches_any client_scopes (r ∷ required) = any (λ s. member s (r ∷ required)) client_scopes

-- RBACChecker::IsAllowed; the role is not used.
unfoldable pub is_allowed : Str → Str → List Str → Map (List Str) → Bool
unfolding matches_any member
is_allowed method role client_scopes table = elim (lookup method table) [
  | none ↦ member operator_admin client_scopes
  | some required ↦ matches_any client_scopes required
]

unfoldable pub required_scopes : Str → Map (List Str) → List Str
required_scopes method table = elim (lookup method table) [
  | none ↦ operator_admin ∷ []
  | some required ↦ required
]

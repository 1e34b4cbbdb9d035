-- ===== src/Security/ToolPermissions/Tests.antt =====
-- The theorems about tool permissions at concrete inputs.
use rav_bot.Prelude.{◌≡◌, ◌||◌, ◌&&◌, not, [], ◌∷◌, any, is_empty}
use rav_bot.Prelude.Text.{bytes}
use rav_bot.Security.ToolPermissions.{ToolPermissionConfig, make_checker, is_allowed}
use rav_bot.Security.ToolPermissions.Rules.{names, grants, is_allowed-make_checker}

abbrev config : ToolPermissionConfig
config = record {
  allow = bytes "group:fs" ∷ bytes "mcp:github:*" ∷ [];
  deny = bytes "tool:write" ∷ [];
}

is_allowed-make_checker_example : is_allowed (bytes "read") (make_checker config) ≡ (
    not (any (names (bytes "read")) config.deny)
    && (is_empty config.allow || any (grants (bytes "read")) config.allow))
is_allowed-make_checker_example = is_allowed-make_checker (bytes "read") config

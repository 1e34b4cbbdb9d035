-- ===== src/Security/Rbac/Tests.antt =====
-- The theorems about access control at concrete inputs.
use rav_bot.Prelude.{◌≡◌, ◌≢◌, ◌||◌, [], ◌∷◌}
use rav_bot.Prelude.Text.{bytes, str_eq}
use rav_bot.Security.Rbac.{
  viewer, default_scopes, read_methods, compat_methods, connect_methods, catalog, member,
  is_allowed, default_rules,
}
use rav_bot.Security.Rbac.Access.{is_allowed-viewer}

is_allowed-viewer_example :
    is_allowed (bytes "config.set") (bytes "viewer") (default_scopes viewer) default_rules ≡ (
      member (bytes "config.set") read_methods
      || (member (bytes "config.set") compat_methods
          || (member (bytes "config.set") connect_methods
              || member (bytes "config.set") (catalog ∷ []))))
is_allowed-viewer_example = is_allowed-viewer (bytes "config.set") (bytes "viewer")

guest_is_no_viewer : bytes "guest" ≢ bytes "viewer"
unfolding str_eq
guest_is_no_viewer e = cc

guest_is_no_node : bytes "guest" ≢ bytes "node"
unfolding str_eq
guest_is_no_node e = cc

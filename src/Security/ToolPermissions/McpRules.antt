-- ===== src/Security/ToolPermissions/McpRules.antt =====
-- What the two lists of a tool permission configuration mean for the tools of MCP servers.
use rav_bot.Prelude.{
  ◌≡◌, refl, Bool, true, false, ◌||◌, ◌&&◌, not, List, [], ◌∷◌, ◌++◌, any, drop, is_empty, arith,
}
use rav_bot.Prelude.Text.{Str, bytes, str_eq, starts_with}
use rav_bot.Security.ToolPermissions.{
  ToolPermissionConfig, ToolPermissionChecker, count, parse_allow, parse_deny, parse_all, blank,
  allow_if_empty, make_checker, is_mcp_tool_allowed,
}

-- An entry `mcp:` with exactly this text after it. The parser reads it as such only where the
-- tests before it fail.
unfoldable pub is_mcp : Str → Str → Bool
is_mcp spec entry = starts_with (bytes "mcp:") entry && str_eq (drop 4 entry) spec

-- An entry names a tool of a server: `mcp:server:tool` or `mcp:server:*`.
abbrev pub names_mcp : Str → Str → Str → Bool
names_mcp server tool entry =
    is_mcp (server ++ b':' ∷ tool) entry || is_mcp (server ++ b':' ∷ b'*' ∷ []) entry

-- An entry of the allow list that allows every tool of every server.
abbrev pub grants_mcp : Str → Bool
grants_mcp entry = str_eq entry (bytes "*") || is_mcp (bytes "*") entry

kinds_differ :
    (entry : Str)
    → starts_with (bytes "mcp:") entry ≡ true
    → (starts_with (bytes "group:") entry ≡ false)
      × (starts_with (bytes "tool:") entry ≡ false)
      × (str_eq entry (bytes "*") ≡ false)
unfolding starts_with str_eq
kinds_differ [] h = absurd (cc)
kinds_differ (c ∷ s) h = ground arith

parse_deny-mcp :
    (spec entry : Str) (c : ToolPermissionChecker)
    → count spec (parse_deny entry c).denied_mcp ≡ (is_mcp spec entry || count spec c.denied_mcp)
unfolding parse_deny is_mcp count
parse_deny-mcp spec entry c = ground (arith, kinds_differ entry)

module _ (server tool : Str) where
  abbrev exact : Str
  exact = server ++ b':' ∷ tool

  abbrev wildcard : Str
  wildcard = server ++ b':' ∷ b'*' ∷ []

  abbrev reaches : ToolPermissionChecker → Bool
  reaches c = c.mcp_allow_all || (count exact c.allowed_mcp || count wildcard c.allowed_mcp)

  abbrev denies : ToolPermissionChecker → Bool
  denies c = count exact c.denied_mcp || count wildcard c.denied_mcp

  parse_allow-reaches :
      (entry : Str) (c : ToolPermissionChecker)
      → reaches (parse_allow entry c)
        ≡ ((grants_mcp entry || names_mcp server tool entry) || reaches c)
  unfolding parse_allow is_mcp count
  parse_allow-reaches entry c = ground (arith, kinds_differ entry)

  parse_all-reaches :
      (entries : List Str) (c : ToolPermissionChecker)
      → reaches (parse_all parse_allow entries c)
        ≡ (any (λ e. grants_mcp e || names_mcp server tool e) entries || reaches c)
  unfolding parse_all
  parse_all-reaches [] c = refl
  parse_all-reaches (e ∷ es) c =
      ground (arith, parse_all-reaches es (parse_allow e c), parse_allow-reaches e c)

  parse_deny-denies :
      (entry : Str) (c : ToolPermissionChecker)
      → (denies (parse_deny entry c) ≡ (names_mcp server tool entry || denies c))
        × (reaches (parse_deny entry c) ≡ reaches c)
  unfolding parse_deny is_mcp count
  parse_deny-denies entry c = ground (arith, kinds_differ entry)

  parse_all-denies :
      (entries : List Str) (c : ToolPermissionChecker)
      → (denies (parse_all parse_deny entries c)
          ≡ (any (names_mcp server tool) entries || denies c))
        × (reaches (parse_all parse_deny entries c) ≡ reaches c)
  unfolding parse_all
  parse_all-denies [] c = (refl, refl)
  parse_all-denies (e ∷ es) c =
      ground (arith, parse_all-denies es (parse_deny e c), parse_deny-denies e c)

  parse_allow-keeps :
      (entries : List Str) (c : ToolPermissionChecker)
      → denies (parse_all parse_allow entries c) ≡ denies c
  unfolding parse_all parse_allow
  parse_allow-keeps [] c = refl
  parse_allow-keeps (e ∷ es) c = ground (arith, parse_allow-keeps es (parse_allow e c))

  with_mcp_lists :
      (allow deny : List Str)
      → is_mcp_tool_allowed server tool
          (allow_if_empty allow (parse_all parse_deny deny (parse_all parse_allow allow blank)))
        ≡ (not (any (names_mcp server tool) deny)
            && (is_empty allow || any (λ e. grants_mcp e || names_mcp server tool e) allow))
  unfolding is_mcp_tool_allowed allow_if_empty count
  with_mcp_lists [] deny =
      let c : ToolPermissionChecker = parse_all parse_allow [] blank in
      ground
        (arith, parse_all-denies deny c, parse_all-reaches [] blank, parse_allow-keeps [] blank)
  with_mcp_lists (e ∷ es) deny =
      let c : ToolPermissionChecker = parse_all parse_allow (e ∷ es) blank in
      ground (
        arith,
        parse_all-denies deny c,
        parse_all-reaches (e ∷ es) blank,
        parse_allow-keeps (e ∷ es) blank,
      )

  -- A tool of a server is allowed exactly when the deny list has neither `mcp:server:tool` nor
  -- `mcp:server:*`, and the allow list is empty or has one of the two, `mcp:*` or `*`.
  is_mcp_tool_allowed-make_checker :
      (config : ToolPermissionConfig)
      → is_mcp_tool_allowed server tool (make_checker config) ≡ (
          not (any (names_mcp server tool) config.deny)
          && (is_empty config.allow
              || any (λ e. grants_mcp e || names_mcp server tool e) config.allow))
  unfolding make_checker
  is_mcp_tool_allowed-make_checker config = with_mcp_lists config.allow config.deny

  star_is_no_tool : (s rest : Str) → str_eq (bytes "*") (s ++ b':' ∷ rest) ≡ false
  unfolding str_eq
  star_is_no_tool [] rest = refl
  star_is_no_tool (c ∷ []) rest = ground arith
  star_is_no_tool (c ∷ d ∷ s) rest = ground arith

  -- An entry `mcp:*` of the deny list denies no tool of any server: the answers are those
  -- without it.
  deny_all_mcp_ignored :
      (allow deny : List Str)
      → is_mcp_tool_allowed server tool
          (make_checker (record { allow = allow; deny = bytes "mcp:*" ∷ deny }))
        ≡ is_mcp_tool_allowed server tool (make_checker (record { allow = allow; deny = deny }))
  unfolding is_mcp starts_with
  deny_all_mcp_ignored allow deny = ground (
    arith,
    is_mcp_tool_allowed-make_checker (record { allow = allow; deny = bytes "mcp:*" ∷ deny }),
    is_mcp_tool_allowed-make_checker (record { allow = allow; deny = deny }),
    star_is_no_tool server tool,
    star_is_no_tool server (b'*' ∷ []),
  )

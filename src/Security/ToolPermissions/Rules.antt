-- ===== src/Security/ToolPermissions/Rules.antt =====
-- What the two lists of a tool permission configuration mean, entry by entry.
use rav_bot.Prelude.{
  ◌≡◌, refl, ap, Bool, ◌||◌, ◌&&◌, not, List, [], ◌∷◌, any, drop, is_empty, arith, if◌then◌else◌,
}
use rav_bot.Prelude.Text.{Str, bytes, str_eq, starts_with}
use rav_bot.Security.ToolPermissions.{
  ToolPermissionConfig, ToolPermissionChecker, group_tools, count, insert_all, parse_allow,
  parse_deny, parse_all, blank, allow_if_empty, make_checker, is_allowed,
}

-- An entry names a tool, by itself or through its group.
unfoldable pub names : Str → Str → Bool
names tool entry =
    if starts_with (bytes "group:") entry
    then count tool (group_tools (drop 6 entry))
    else starts_with (bytes "tool:") entry && str_eq (drop 5 entry) tool

-- An entry of the allow list that allows a tool.
unfoldable pub grants : Str → Str → Bool
unfolding names
grants tool entry =
    str_eq entry (bytes "*")
    || ((starts_with (bytes "group:") entry && str_eq (drop 6 entry) (bytes "all"))
        || names tool entry)

count-insert_all :
    (x : Str) (tools set : List Str)
    → count x (insert_all tools set) ≡ (count x tools || count x set)
unfolding count insert_all
count-insert_all x [] set = refl
count-insert_all x (t ∷ ts) set = ground (arith, count-insert_all x ts (t ∷ set))

abbrev allows : Str → ToolPermissionChecker → Bool
allows tool c = c.allow_all || count tool c.allowed_tools

parse_allow-allows :
    (tool entry : Str) (c : ToolPermissionChecker)
    → allows tool (parse_allow entry c) ≡ (grants tool entry || allows tool c)
unfolding parse_allow grants names count
parse_allow-allows tool entry c =
    ground (arith, count-insert_all tool (group_tools (drop 6 entry)) c.allowed_tools)

parse_all-allows :
    (tool : Str) (entries : List Str) (c : ToolPermissionChecker)
    → allows tool (parse_all parse_allow entries c) ≡ (any (grants tool) entries || allows tool c)
unfolding parse_all
parse_all-allows tool [] c = refl
parse_all-allows tool (e ∷ es) c =
    ground (arith, parse_all-allows tool es (parse_allow e c), parse_allow-allows tool e c)

parse_deny-denied :
    (tool entry : Str) (c : ToolPermissionChecker)
    → (count tool (parse_deny entry c).denied_tools
        ≡ (names tool entry || count tool c.denied_tools))
      × (allows tool (parse_deny entry c) ≡ allows tool c)
unfolding parse_deny names count
parse_deny-denied tool entry c =
    ground (arith, count-insert_all tool (group_tools (drop 6 entry)) c.denied_tools)

parse_all-denied :
    (tool : Str) (entries : List Str) (c : ToolPermissionChecker)
    → (count tool (parse_all parse_deny entries c).denied_tools
        ≡ (any (names tool) entries || count tool c.denied_tools))
      × (allows tool (parse_all parse_deny entries c) ≡ allows tool c)
unfolding parse_all
parse_all-denied tool [] c = (refl, refl)
parse_all-denied tool (e ∷ es) c =
    ground (arith, parse_all-denied tool es (parse_deny e c), parse_deny-denied tool e c)

parse_allow-denied :
    (tool : Str) (entries : List Str) (c : ToolPermissionChecker)
    → ((parse_all parse_allow entries c).denied_tools ≡ c.denied_tools)
      × ((parse_all parse_allow entries c).denied_mcp ≡ c.denied_mcp)
unfolding parse_all parse_allow
parse_allow-denied tool [] c = (refl, refl)
parse_allow-denied tool (e ∷ es) c = ground (arith, parse_allow-denied tool es (parse_allow e c))

count-blank :
    (tool : Str) (allow deny : List Str)
    → (count tool (parse_all parse_deny deny (parse_all parse_allow allow blank)).denied_tools
        ≡ any (names tool) deny)
      × (allows tool (parse_all parse_deny deny (parse_all parse_allow allow blank))
          ≡ any (grants tool) allow)
unfolding count
count-blank tool allow deny =
    let c : ToolPermissionChecker = parse_all parse_allow allow blank in
    ground (
      arith,
      parse_all-denied tool deny c,
      parse_all-allows tool allow blank,
      ap (count tool) (parse_allow-denied tool allow blank).0,
    )

with_lists :
    (tool : Str) (allow deny : List Str)
    → is_allowed tool
        (allow_if_empty allow (parse_all parse_deny deny (parse_all parse_allow allow blank)))
      ≡ (not (any (names tool) deny) && (is_empty allow || any (grants tool) allow))
unfolding is_allowed allow_if_empty
with_lists tool [] deny = ground (arith, count-blank tool [] deny)
with_lists tool (e ∷ es) deny = ground (arith, count-blank tool (e ∷ es) deny)

-- A tool is allowed exactly when no entry of the deny list names it and the allow list is empty
-- or has an entry that allows it: `*`, `group:all`, its group, or itself.
pub is_allowed-make_checker :
    (tool : Str) (config : ToolPermissionConfig)
    → is_allowed tool (make_checker config) ≡ (
        not (any (names tool) config.deny)
        && (is_empty config.allow || any (grants tool) config.allow))
unfolding make_checker
is_allowed-make_checker tool config = with_lists tool config.allow config.deny

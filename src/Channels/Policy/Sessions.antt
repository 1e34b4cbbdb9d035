-- ===== src/Channels/Policy/Sessions.antt =====
-- The class SessionResolver. The search of a regular expression is a parameter; `none` is an
-- expression that does not compile.
use rav_bot.Prelude.{
  ℕ, ◌+◌, Bool, true, false, not, ◌&&◌, List, [], ◌∷◌, ◌++◌, map, Option, none, some, if◌then◌else◌,
  leb, is_empty,
}
use rav_bot.Prelude.Text.{Str, bytes, find, contains}
use rav_bot.Channels.Policy.Modes.{
  DmScope, main, per_peer, per_channel_peer, per_account_channel_peer, GroupActivation, mention,
  always_active,
}

unfoldable pub account_or_default : Str → Str
account_or_default account_id = if is_empty account_id then bytes "default" else account_id

unfoldable pub resolve_session_key : DmScope → Str → Str → Str → Str → Str
unfolding account_or_default
resolve_session_key main agent_id channel_id sender_id account_id =
    bytes "agent:" ++ (agent_id ++ bytes ":main")
resolve_session_key per_peer agent_id channel_id sender_id account_id =
    bytes "agent:" ++ (agent_id ++ (bytes ":peer:" ++ sender_id))
resolve_session_key per_channel_peer agent_id channel_id sender_id account_id =
    bytes "agent:" ++ (agent_id ++ b':' ∷ (channel_id ++ b':' ∷ sender_id))
resolve_session_key per_account_channel_peer agent_id channel_id sender_id account_id =
    bytes "agent:"
    ++ (agent_id
        ++ b':' ∷ (account_or_default account_id ++ b':' ∷ (channel_id ++ b':' ∷ sender_id)))

-- ::tolower in the "C" locale
abbrev pub to_lower : ℕ → ℕ
to_lower c = if leb b'A' c && leb c b'Z' then c + 32 else c

abbrev pub lower : Str → Str
lower s = map to_lower s

unfoldable pub mentions : Str → Str → Bool
unfolding find
mentions message bot_name =
    not (is_empty bot_name) && contains (b'@' ∷ lower bot_name) (lower message)

module _ (regex_search : Str → Str → Option Bool) where
  -- The loop over the patterns.
  unfoldable pub any_pattern : Str → List Str → Bool
  any_pattern message [] = false
  any_pattern message (pattern ∷ patterns) =
      let rest = any_pattern message patterns in
      elim (regex_search message pattern) [ none ↦ rest | some b ↦ if b then true else rest ]

  unfoldable pub should_activate_group : GroupActivation → Str → Str → List Str → Bool
  unfolding mentions any_pattern
  should_activate_group always_active message bot_name patterns = true
  should_activate_group mention message bot_name patterns =
      if mentions message bot_name then true else any_pattern message patterns

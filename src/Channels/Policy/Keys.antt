-- ===== src/Channels/Policy/Keys.antt =====
-- Which messages share a session, and which wake the agent in a group.
use rav_bot.Prelude.{
  ℕ, ◌&&◌, sym, ◌≡◌, refl, ap, ◌∙◌, Bool, true, false, List, [], ◌∷◌, ◌++◌, append_assoc, Option,
  arith, is_empty,
}
use rav_bot.Prelude.Text.{
  Str, bytes, str_eq, str_eq_iff, str_eq_refl, no_byte, append_cancel, cut_unique, contains,
  contains-append,
}
use rav_bot.Channels.Policy.Modes.{
  DmScope, main, per_peer, per_channel_peer, per_account_channel_peer, GroupActivation,
}
use rav_bot.Channels.Policy.Sessions.{
  resolve_session_key, account_or_default, lower, to_lower, mentions, should_activate_group,
}

resolve_session_key_injective :
    (agent_id c d s t a b : Str)
    → no_byte b':' c ≡ true
    → no_byte b':' d ≡ true
    → resolve_session_key per_channel_peer agent_id c s a
      ≡ resolve_session_key per_channel_peer agent_id d t b
    → (c ≡ d) × (s ≡ t)
unfolding resolve_session_key
resolve_session_key_injective agent_id c d s t a b h k e =
    cut_unique b':' c d s t h k
      (cons_cancel (append_cancel agent_id _ _ (append_cancel (bytes "agent:") _ _ e)))
  where
    cons_cancel : {x y : Str} → b':' ∷ x ≡ b':' ∷ y → x ≡ y
    cons_cancel p = ground arith

-- The account that a message without one belongs to.
abbrev pub account_of : Str → Str
account_of [] = bytes "default"
account_of (c ∷ account) = c ∷ account

-- Whether two messages to an agent, with their channels, senders and accounts, are to share a
-- session.
abbrev pub are_together : DmScope → Str → Str → Str → Str → Str → Str → Bool
are_together main c d s t a b = true
are_together per_peer c d s t a b = str_eq s t
are_together per_channel_peer c d s t a b = str_eq c d && str_eq s t
are_together per_account_channel_peer c d s t a b =
    str_eq (account_of a) (account_of b) && (str_eq c d && str_eq s t)

bool_ext : (p q : Bool) → (p ≡ true → q ≡ true) → (q ≡ true → p ≡ true) → p ≡ q
bool_ext true q f g = sym (f refl)
bool_ext false true f g = g refl
bool_ext false false f g = refl

and_split : (p q : Bool) → (p && q) ≡ true → (p ≡ true) × (q ≡ true)
and_split true q h = (refl, h)
and_split false q h = absurd (cc)

account_of-default : (a : Str) → account_or_default a ≡ account_of a
unfolding account_or_default
account_of-default [] = refl
account_of-default (c ∷ a) = refl

account_of-no_byte : (a : Str) → no_byte b':' a ≡ true → no_byte b':' (account_of a) ≡ true
account_of-no_byte [] h = refl
account_of-no_byte (c ∷ a) h = h

cons_tail : {x : ℕ} {s t : Str} → x ∷ s ≡ x ∷ t → s ≡ t
cons_tail p = ground arith

-- Two messages to an agent share a session key exactly where the scope says so: always in the
-- scope of the agent's main session, for the same sender, for the same sender on the same channel,
-- and for these and the same account; where neither the channels nor the accounts have a colon in
-- their names.
pub resolve_session_key_shared :
    (scope : DmScope) (agent_id c d s t a b : Str)
    → no_byte b':' c ≡ true
    → no_byte b':' d ≡ true
    → no_byte b':' a ≡ true
    → no_byte b':' b ≡ true
    → str_eq (resolve_session_key scope agent_id c s a) (resolve_session_key scope agent_id d t b)
      ≡ are_together scope c d s t a b
unfolding resolve_session_key
resolve_session_key_shared main agent_id c d s t a b h k l m = str_eq_refl _
resolve_session_key_shared per_peer agent_id c d s t a b h k l m =
    bool_ext _ _
      (λ e. (str_eq_iff s t).1 (
        append_cancel (bytes ":peer:") s t
          (append_cancel agent_id _ _ (append_cancel (bytes "agent:") _ _ ((str_eq_iff _ _).0 e)))))
      (λ e. rw ((str_eq_iff s t).0 e) (str_eq_refl _))
resolve_session_key_shared per_channel_peer agent_id c d s t a b h k l m =
    bool_ext _ _
      (λ e.
        let (p, q) =
          resolve_session_key_injective agent_id c d s t a b h k ((str_eq_iff _ _).0 e) in
        rw (p, q) (ground (arith, str_eq_refl d, str_eq_refl t)))
      (λ e.
        let (p, q) = and_split _ _ e in
        rw ((str_eq_iff c d).0 p, (str_eq_iff s t).0 q) (str_eq_refl _))
resolve_session_key_shared per_account_channel_peer agent_id c d s t a b h k l m =
    rw (account_of-default a, account_of-default b)
      (bool_ext _ _
        (λ e.
          let (x, rest) =
            cut_unique b':' (account_of a) (account_of b) _ _ (account_of-no_byte a l)
              (account_of-no_byte b m)
              (cons_tail (
                append_cancel agent_id _ _
                  (append_cancel (bytes "agent:") _ _ ((str_eq_iff _ _).0 e)))) in
          let (p, q) = cut_unique b':' c d s t h k rest in
          rw (x, p, q) (ground (arith, str_eq_refl d, str_eq_refl t, str_eq_refl (account_of b))))
        (λ e.
          let (x, rest) = and_split _ _ e in
          let (p, q) = and_split _ _ rest in
          rw
            (
              (str_eq_iff (account_of a) (account_of b)).0 x,
              (str_eq_iff c d).0 p,
              (str_eq_iff s t).0 q,
            )
            (str_eq_refl _)))

-- A colon in the name of a channel or of a sender makes two pairs share a session.
resolve_session_key_collides :
    (agent_id x y z a b : Str)
    → resolve_session_key per_channel_peer agent_id (x ++ b':' ∷ y) z a
      ≡ resolve_session_key per_channel_peer agent_id x (y ++ b':' ∷ z) b
unfolding resolve_session_key
resolve_session_key_collides agent_id x y z a b =
    ap (λ s. bytes "agent:" ++ (agent_id ++ b':' ∷ s)) (append_assoc x (b':' ∷ y) (b':' ∷ z))

lower-append : (s t : Str) → lower (s ++ t) ≡ lower s ++ lower t
lower-append [] t = refl
lower-append (c ∷ s) t = ap (λ u. to_lower c ∷ u) (lower-append s t)

mentions_name :
    (before name after bot_name : Str)
    → lower name ≡ lower bot_name
    → contains (b'@' ∷ lower bot_name) (lower (before ++ (b'@' ∷ name ++ after))) ≡ true
mentions_name before name after bot_name e =
    ap (contains (b'@' ∷ lower bot_name)) (
      lower-append before (b'@' ∷ name ++ after)
      ∙ ap (λ u. lower before ++ (b'@' ∷ u))
          (lower-append name after ∙ ap (λ w. w ++ lower after) e))
    ∙ contains-append (b'@' ∷ lower bot_name) (lower before) (lower after)

-- A message with an @ and the bot's name in it, in whatever case, wakes the agent.
should_activate_group_mention :
    (regex_search : Str → Str → Option Bool) (mode : GroupActivation)
    (before name after bot_name : Str) (patterns : List Str)
    → is_empty bot_name ≡ false
    → lower name ≡ lower bot_name
    → should_activate_group regex_search mode (before ++ (b'@' ∷ name ++ after)) bot_name patterns
      ≡ true
unfolding should_activate_group mentions
should_activate_group_mention regex_search mode before name after bot_name patterns n e =
    ground (arith, mentions_name before name after bot_name e)

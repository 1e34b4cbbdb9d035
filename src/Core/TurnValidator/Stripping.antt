-- ===== src/Core/TurnValidator/Stripping.antt =====
-- Tool calls and their results: what strip_dangling_tool_uses guarantees.
use rav_bot.Prelude.{
  ◌≡◌, inl, inr, refl, ap, sym, ◌∙◌, subst, true, false, ◌&&◌, List, [], ◌∷◌, ◌++◌, arith, All, not,
  Bool-cases, is_empty, filter, any,
}
use rav_bot.Prelude.Text.{Str, bytes, str_eq, str_eq_iff}
use rav_bot.Core.TurnValidator.{
  ContentBlock, Message, make_text, is_role, is_tool_use, has_result, keeps, strip_message,
  fix_message, strip_dangling_tool_uses,
}

abbrev pub assistant : Str
assistant = bytes "assistant"

abbrev pub user : Str
user = bytes "user"

module _ {Json : Type 0} where
  -- A tool call has a result among the blocks.
  unfoldable pub Answered : List (ContentBlock Json) → ContentBlock Json → Type 0
  Answered results block = is_tool_use block ≡ true → has_result block.id results ≡ true

  -- Every tool call of an assistant message that a user message follows has a result in it.
  unfoldable pub Paired : List (Message Json) → Type 0
  Paired [] = Unit
  Paired (a ∷ []) = Unit
  Paired (a ∷ b ∷ ms) =
      (is_role assistant a ≡ true → is_role user b ≡ true → All (Answered b.content) a.content)
      × Paired (b ∷ ms)

  pub user_not_assistant : (m : Message Json) → is_role user m ≡ true → is_role assistant m ≡ false
  unfolding str_eq
  user_not_assistant m h =
      subst (λ r. str_eq r assistant ≡ false) (sym ((str_eq_iff m.role user).0 h)) refl

  filter-Answered :
      (results bs : List (ContentBlock Json)) → All (Answered results) (filter (keeps results) bs)
  unfolding Answered
  filter-Answered results [] = tt
  filter-Answered results (b ∷ bs) = elim (Bool-cases (keeps results b)) [
    | inl e ↦ rw e ((λ h. ground arith), filter-Answered results bs)
    | inr e ↦ rw e (filter-Answered results bs)
  ]

  pub no_tool_use-Answered :
      (results bs : List (ContentBlock Json))
      → any is_tool_use bs ≡ false
      → All (Answered results) bs
  unfolding Answered
  no_tool_use-Answered results [] h = tt
  no_tool_use-Answered results (b ∷ bs) h =
      ((λ e. absurd (ground arith)), no_tool_use-Answered results bs (ground arith))

  has_result-append :
      (id : Str) (xs ys : List (ContentBlock Json))
      → has_result id xs ≡ true
      → has_result id (xs ++ ys) ≡ true
  unfolding has_result
  has_result-append id [] ys h = absurd (cc)
  has_result-append id (x ∷ xs) ys h = ground (arith, has_result-append id xs ys)

  pub Answered-append :
      (xs ys bs : List (ContentBlock Json)) → All (Answered xs) bs → All (Answered (xs ++ ys)) bs
  unfolding Answered
  Answered-append xs ys [] h = tt
  Answered-append xs ys (b ∷ bs) h =
      ((λ e. has_result-append b.id xs ys (h.0 e)), Answered-append xs ys bs h.1)

module _ {Json : Type 0} (null : Json) where
  strip_message-Answered :
      (msg : Message Json) (results : List (ContentBlock Json))
      → All (Answered results) (strip_message null msg results).content
  unfolding strip_message make_text Answered str_eq
  strip_message-Answered msg results = elim (Bool-cases (any is_tool_use msg.content)) [
    | inl e ↦
        elim (Bool-cases
          (is_empty (filter (keeps results) msg.content) && not (is_empty msg.content))) [
            | inl f ↦ rw (e, f) ((λ h. absurd (cc)), tt)
            | inr f ↦ rw (e, f) (filter-Answered results msg.content)
          ]
    | inr e ↦ rw e (no_tool_use-Answered results msg.content e)
  ]

  fix_message-role :
      (msg : Message Json) (rest : List (Message Json))
      → (fix_message null msg rest).role ≡ msg.role
  unfolding fix_message strip_message
  fix_message-role msg [] = refl
  fix_message-role msg (next ∷ rest) = ground arith

  pub fix_message-user :
      (msg : Message Json) (rest : List (Message Json))
      → is_role user msg ≡ true
      → fix_message null msg rest ≡ msg
  unfolding fix_message
  fix_message-user msg [] h = refl
  fix_message-user msg (next ∷ rest) h = rw (user_not_assistant msg h) refl

  fix_message-Answered :
      (msg next : Message Json) (rest : List (Message Json))
      → is_role assistant msg ≡ true
      → is_role user next ≡ true
      → All (Answered next.content) (fix_message null msg (next ∷ rest)).content
  unfolding fix_message
  fix_message-Answered msg next rest h g = rw (h, g) (strip_message-Answered msg next.content)

  -- After stripping, every tool call of an assistant message that a user message follows has a
  -- result in that message.
  pub strip_dangling_tool_uses-Paired :
      (ms : List (Message Json)) → Paired (strip_dangling_tool_uses null ms)
  unfolding strip_dangling_tool_uses Paired
  strip_dangling_tool_uses-Paired [] = tt
  strip_dangling_tool_uses-Paired (a ∷ []) = tt
  strip_dangling_tool_uses-Paired (a ∷ b ∷ ms) = (
    λ h g.
        let is_user : is_role user b ≡ true =
          ap (λ r. str_eq r user) (sym (fix_message-role b ms)) ∙ g in
        subst (λ m. All (Answered m.content) (fix_message null a (b ∷ ms)).content)
          (sym (fix_message-user b ms is_user))
          (fix_message-Answered a b ms
            (ap (λ r. str_eq r assistant) (sym (fix_message-role a (b ∷ ms))) ∙ h) is_user),
    strip_dangling_tool_uses-Paired (b ∷ ms),
  )

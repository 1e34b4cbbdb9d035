-- ===== src/Core/AgentLoop/Sanitize/Merge.antt =====
-- Merging the user's messages keeps calls and results together.
use rav_bot.Prelude.{
  ◌≡◌, refl, sym, ◌∙◌, subst, true, false, ◌&&◌, List, [], ◌∷◌, ◌++◌, arith, All, All-append, inl,
  inr, Bool-cases,
}
use rav_bot.Core.TurnValidator.{ContentBlock, Message, is_role}
use rav_bot.Core.TurnValidator.Stripping.{user, Answered, Answered-append, user_not_assistant}
use rav_bot.Core.AgentLoop.Sanitize.{merge_users_onto, merge_consecutive_user_messages}
use rav_bot.Core.AgentLoop.Sanitize.Links.{CalledIn, CalledIn-weaken, calls_of, results_of, Linked}

module _ {Json : Type 0} where
  calls_of-user : (m : Message Json) → is_role user m ≡ true → calls_of m ≡ []
  calls_of-user m h = rw (user_not_assistant m h) refl

  abbrev joined : Message Json → Message Json → Message Json
  joined back msg = record back { content = back.content ++ msg.content }

  merge_users_onto-join :
      (back msg : Message Json) (rest : List (Message Json))
      → is_role user msg && is_role user back ≡ true
      → merge_users_onto back (msg ∷ rest) ≡ merge_users_onto (joined back msg) rest
  unfolding merge_users_onto
  merge_users_onto-join back msg rest h = rw (h, merge_users_onto) refl

  merge_users_onto-push :
      (back msg : Message Json) (rest : List (Message Json))
      → is_role user msg && is_role user back ≡ false
      → merge_users_onto back (msg ∷ rest) ≡ back ∷ merge_users_onto msg rest
  unfolding merge_users_onto
  merge_users_onto-push back msg rest h = rw (h, merge_users_onto) refl

  -- The results of the first message stay.
  merged-Answered :
      (blocks : List (ContentBlock Json)) (back : Message Json) (rest : List (Message Json))
      → All (Answered (results_of (back ∷ rest))) blocks
      → All (Answered (results_of (merge_users_onto back rest))) blocks
  unfolding merge_users_onto
  merged-Answered blocks back [] h = h
  merged-Answered blocks back (msg ∷ rest) h =
      elim (Bool-cases (is_role user msg && is_role user back)) [
        | inl both ↦
            let ub : is_role user back ≡ true = ground arith in
            subst (λ ms. All (Answered (results_of ms)) blocks)
              (sym (merge_users_onto-join back msg rest both))
              (merged-Answered blocks (joined back msg) rest
                (rw ub (Answered-append back.content msg.content blocks (rw ub at h))))
        | inr apart ↦
            subst (λ ms. All (Answered (results_of ms)) blocks)
              (sym (merge_users_onto-push back msg rest apart)) h
      ]

  merge_users_onto-Linked :
      (before : List (ContentBlock Json)) (back : Message Json) (rest : List (Message Json))
      → Linked before (back ∷ rest)
      → Linked before (merge_users_onto back rest)
  unfolding merge_users_onto Linked
  merge_users_onto-Linked before back [] h = h
  merge_users_onto-Linked before back (msg ∷ rest) h =
      elim (Bool-cases (is_role user msg && is_role user back)) [
        | inl both ↦
            let ub : is_role user back ≡ true = ground arith in
            let um : is_role user msg ≡ true = ground arith in
            rw (merge_users_onto-join back msg rest both) (
              merge_users_onto-Linked before (joined back msg) rest (
                (λ r. absurd (ground (arith, user_not_assistant back ub))),
                (λ r. All-append (CalledIn before) back.content msg.content (h.1 r) (
                    CalledIn-weaken before msg.content (
                      subst (λ bs. All (CalledIn bs) msg.content) (calls_of-user back ub)
                        (h.2.1 um)))),
                subst (λ bs. Linked bs rest)
                    (calls_of-user msg um ∙ sym (calls_of-user (joined back msg) ub)) h.2.2,
              ))
        | inr apart ↦ rw (merge_users_onto-push back msg rest apart) (
          (λ r. merged-Answered back.content msg rest (h.0 r)),
          h.1,
          merge_users_onto-Linked (calls_of back) msg rest h.2,
        )
      ]

  pub merge-Linked :
      (ms : List (Message Json)) → Linked [] ms → Linked [] (merge_consecutive_user_messages ms)
  unfolding merge_consecutive_user_messages
  merge-Linked [] h = h
  merge-Linked (m ∷ ms) h = merge_users_onto-Linked [] m ms h

-- ===== src/Core/AgentLoop/Sanitize/Blocks.antt =====
-- The blocks that the repair of calls and results keeps.
use rav_bot.Prelude.{
  ◌≡◌, refl, true, false, not, ◌&&◌, List, [], ◌∷◌, map, arith, All, any, filter, is_empty, inl,
  inr, Bool-cases,
}
use rav_bot.Prelude.Text.{Str, str_eq, str_eq_refl, str_eq_iff}
use rav_bot.Core.TurnValidator.{ContentBlock, Message, is_tool_use, has_result}
use rav_bot.Core.TurnValidator.Stripping.{Answered}
use rav_bot.Core.Pruner.{is_tool_result}
use rav_bot.Core.AgentLoop.Replay.{has_str}
use rav_bot.Core.AgentLoop.Sanitize.{
  stays_next, filtered_next, matched_ids, stays_call, filtered_calls,
}
use rav_bot.Core.AgentLoop.Sanitize.Links.{CalledIn}

str_eq_sym : (s t : Str) → str_eq s t ≡ str_eq t s
str_eq_sym s t = ground (arith, str_eq_iff s t, str_eq_iff t s)

module _ {Json : Type 0} where
  -- Every call has an identifier.
  abbrev pub HasIds : Message Json → Type 0
  HasIds m = All (λ b. is_tool_use b ≡ true → is_empty b.id ≡ false) m.content

  pub no_ids-no_calls :
      (bs : List (ContentBlock Json))
      → All (λ b. is_tool_use b ≡ true → is_empty b.id ≡ false) bs
      → is_empty (filter (λ b. is_tool_use b && not (is_empty b.id)) bs) ≡ true
      → any is_tool_use bs ≡ false
  no_ids-no_calls [] h e = refl
  no_ids-no_calls (b ∷ bs) h e = ground (arith, h.0, no_ids-no_calls bs h.1)

  pub matched-has_result :
      (ids : List Str) (id : Str) (bs : List (ContentBlock Json))
      → has_str id (matched_ids (filtered_next ids bs)) ≡ true
      → has_result id (filtered_next ids bs) ≡ true
  unfolding matched_ids filtered_next has_result
  matched-has_result ids id [] h = absurd (cc)
  matched-has_result ids id (b ∷ bs) h =
      ground (arith, matched-has_result ids id bs, str_eq_sym id b.tool_use_id)

  pub filtered_calls-Answered :
      (matched : List Str) (results bs : List (ContentBlock Json))
      → ((id : Str) → has_str id matched ≡ true → has_result id results ≡ true)
      → All (Answered results) (filtered_calls matched bs)
  unfolding filtered_calls Answered
  filtered_calls-Answered matched results [] h = tt
  filtered_calls-Answered matched results (b ∷ bs) h = elim (Bool-cases (stays_call matched b)) [
    | inl e ↦ rw e ((λ t. h b.id (ground arith)), filtered_calls-Answered matched results bs h)
    | inr e ↦ rw e (filtered_calls-Answered matched results bs h)
  ]

  call_stays :
      (matched : List Str) (id : Str) (calls : List (ContentBlock Json))
      → has_str id (map (λ b. b.id) (filter (λ b. is_tool_use b && not (is_empty b.id)) calls))
        ≡ true
      → has_str id matched ≡ true
      → any (λ c. is_tool_use c && str_eq c.id id) (filtered_calls matched calls) ≡ true
  unfolding filtered_calls
  call_stays matched id [] h m = absurd (cc)
  call_stays matched id (b ∷ bs) h m =
      ground (arith, call_stays matched id bs, str_eq_iff id b.id, str_eq_sym id b.id)

  -- Every kept result has its call among the calls that are kept.
  pub kept-CalledIn :
      (matched : List Str) (calls bs : List (ContentBlock Json))
      → let ids = map (λ b. b.id) (filter (λ b. is_tool_use b && not (is_empty b.id)) calls) in
        ((id : Str)
          → has_str id (matched_ids (filtered_next ids bs)) ≡ true
          → has_str id matched ≡ true)
        → All (CalledIn (filtered_calls matched calls)) (filtered_next ids bs)
  unfolding matched_ids filtered_next CalledIn
  kept-CalledIn matched calls [] h = tt
  kept-CalledIn matched calls (b ∷ bs) h =
      let ids = map (λ b. b.id) (filter (λ b. is_tool_use b && not (is_empty b.id)) calls) in
      elim (Bool-cases (stays_next ids b)) [
        | inr e ↦ rw e (kept-CalledIn matched calls bs (λ id k. h id (rw e k)))
        | inl e ↦ rw e (
          (λ r.
              call_stays matched b.tool_use_id calls (ground arith)
                (h b.tool_use_id (rw (e, r) (ground (arith, str_eq_refl b.tool_use_id))))),
          kept-CalledIn matched calls bs (λ id k. h id (rw e (ground arith))),
        )
      ]

  pub no_calls_left :
      (bs : List (ContentBlock Json)) → any is_tool_use (filtered_calls [] bs) ≡ false
  unfolding filtered_calls
  no_calls_left [] = refl
  no_calls_left (b ∷ bs) = ground (arith, no_calls_left bs)

  pub no_results-CalledIn :
      (bs : List (ContentBlock Json)) → All (CalledIn []) (filter (λ b. not (is_tool_result b)) bs)
  unfolding CalledIn
  no_results-CalledIn [] = tt
  no_results-CalledIn (b ∷ bs) = elim (Bool-cases (is_tool_result b)) [
    | inl e ↦ rw e (no_results-CalledIn bs)
    | inr e ↦ rw e ((λ r. absurd (ground arith)), no_results-CalledIn bs)
  ]

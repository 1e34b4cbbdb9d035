-- ===== src/Core/AgentLoop/Sanitize/Trim.antt =====
-- Cutting out the current turn, and the calls that are cut off from their results.
use rav_bot.Prelude.{
  ◌≡◌, refl, ap, true, false, none, some, List, [], ◌∷◌, ◌++◌, arith, All, any, inl, inr,
  Bool-cases, ◌↔◌,
}
use rav_bot.Prelude.Text.{bytes, str_eq, str_eq_iff}
use rav_bot.Core.TurnValidator.{ContentBlock, Message, is_role}
use rav_bot.Core.TurnValidator.Stripping.{user}
use rav_bot.Core.Pruner.{is_tool_result}
use rav_bot.Core.AgentLoop.Sanitize.{
  has_non_tool_result_blocks, split_system, from_question, is_replay,
  trim_anthropic_replay_to_current_turn,
}
use rav_bot.Core.AgentLoop.Sanitize.Links.{CalledIn, calls_of, Linked}

module _ {Json : Type 0} where
  abbrev pub IsSystem : Message Json → Type 0
  IsSystem m = is_role (bytes "system") m ≡ true

  split_system-append :
      (system : List (Message Json)) (a : Message Json) (ms : List (Message Json))
      → All IsSystem system
      → is_role (bytes "system") a ≡ false
      → split_system (system ++ a ∷ ms) ≡ (system, a ∷ ms)
  unfolding split_system
  split_system-append [] a ms h k = rw k refl
  split_system-append (m ∷ system) a ms h k = rw (h.0, split_system-append system a ms h.1 k) refl

  from_question-append :
      (pre : List (Message Json)) (q : Message Json) (turn : List (Message Json))
      → has_non_tool_result_blocks q ≡ true
      → from_question turn ≡ none
      → from_question (pre ++ q ∷ turn) ≡ some (q ∷ turn)
  unfolding from_question
  from_question-append [] q turn h k = rw (k, h) refl
  from_question-append (m ∷ pre) q turn h k =
      rw (from_question-append pre q turn h k, from_question) refl

  -- The system's messages before others neither call nor answer.
  system-Linked :
      (system ms : List (Message Json))
      → All IsSystem system
      → Linked [] (system ++ ms) ↔ Linked [] ms
  unfolding Linked str_eq
  system-Linked [] ms h = ((λ l. l), (λ l. l))
  system-Linked (m ∷ system) ms h =
      let is_system = (str_eq_iff m.role (bytes "system")).0 h.0 in
      let rest = system-Linked system ms h.1 in
      (
        λ l. rest.0 (rw is_system at l.2),
        λ l. rw is_system ((λ r. absurd (cc)), (λ r. absurd (cc)), rest.1 l),
      )

  Linked-end :
      (before : List (ContentBlock Json)) (pre ms : List (Message Json))
      → Linked before (pre ++ ms)
      → (b : List (ContentBlock Json)) × Linked b ms
  unfolding Linked
  Linked-end before [] ms h = (before, h)
  Linked-end before (m ∷ pre) ms h = Linked-end (calls_of m) pre ms h.2

  uncalled :
      (bs : List (ContentBlock Json)) → any is_tool_result bs ≡ true → All (CalledIn []) bs → ⊥
  unfolding CalledIn
  uncalled [] h c = cc
  uncalled (b ∷ bs) h c = elim (Bool-cases (is_tool_result b)) [
    | inl e ↦ absurd (ground (arith, c.0 e))
    | inr e ↦ uncalled bs (ground arith) c.1
  ]

  no_results-called :
      (bs : List (ContentBlock Json)) → any is_tool_result bs ≡ false → All (CalledIn []) bs
  unfolding CalledIn
  no_results-called [] h = tt
  no_results-called (b ∷ bs) h = ((λ r. absurd (ground arith)), no_results-called bs (ground arith))

  cut-Linked :
      (b : List (ContentBlock Json)) (q : Message Json) (turn : List (Message Json))
      → is_role user q ≡ true
      → Linked b (q ∷ turn)
      → Linked [] (q ∷ turn) ↔ (any is_tool_result q.content ≡ false)
  unfolding Linked
  cut-Linked b q turn u h = (
    λ l. elim (Bool-cases (any is_tool_result q.content)) [
      | inl e ↦ absurd (uncalled q.content e (l.1 u))
      | inr e ↦ e
    ],
    λ e. (h.0, (λ _. no_results-called q.content e), h.2),
  )

  trim_cuts :
      (system : List (Message Json)) (a : Message Json) (pre : List (Message Json))
      (q : Message Json) (turn : List (Message Json))
      → All IsSystem system
      → is_role (bytes "system") a ≡ false
      → has_non_tool_result_blocks q ≡ true
      → from_question turn ≡ none
      → is_replay (system ++ (a ∷ pre ++ q ∷ turn)) ≡ true
      → trim_anthropic_replay_to_current_turn (system ++ (a ∷ pre ++ q ∷ turn)) ≡ system ++ q ∷ turn
  unfolding trim_anthropic_replay_to_current_turn
  trim_cuts system a pre q turn s na hq ht r =
      let split = split_system-append system a (pre ++ q ∷ turn) s na in
      rw (r, split, from_question-append (a ∷ pre) q turn hq ht) (ap (λ p. p.0 ++ q ∷ turn) split)

  -- Cut out of a sequence whose calls and results belong together, the current turn, after the
  -- system's messages, has that property exactly if the user's message at its start has no
  -- result: otherwise the call of that result is cut off.
  pub trim-Linked :
      (system : List (Message Json)) (a : Message Json) (pre : List (Message Json))
      (q : Message Json) (turn : List (Message Json))
      → All IsSystem system
      → is_role (bytes "system") a ≡ false
      → has_non_tool_result_blocks q ≡ true
      → from_question turn ≡ none
      → is_replay (system ++ (a ∷ pre ++ q ∷ turn)) ≡ true
      → Linked [] (system ++ (a ∷ pre ++ q ∷ turn))
      → Linked [] (trim_anthropic_replay_to_current_turn (system ++ (a ∷ pre ++ q ∷ turn)))
        ↔ (any is_tool_result q.content ≡ false)
  unfolding has_non_tool_result_blocks
  trim-Linked system a pre q turn s na hq ht r l =
      let (b, linked) =
        Linked-end [] (a ∷ pre) (q ∷ turn) ((system-Linked system (a ∷ pre ++ q ∷ turn) s).0 l) in
      let cut = cut-Linked b q turn (ground arith) linked in
      let sys = system-Linked system (q ∷ turn) s in
      rw (trim_cuts system a pre q turn s na hq ht r)
        ((λ k. cut.0 (sys.0 k)), (λ e. sys.1 (cut.1 e)))

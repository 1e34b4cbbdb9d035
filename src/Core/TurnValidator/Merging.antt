-- ===== src/Core/TurnValidator/Merging.antt =====
-- What merge_consecutive_role guarantees of the sequence that it returns.
use rav_bot.Prelude.{
  ◌≡◌, inl, inr, refl, ap, sym, ◌∙◌, subst, true, false, ◌&&◌, List, [], ◌∷◌, ◌++◌, append_assoc,
  arith, All, Bool-cases, is_empty,
}
use rav_bot.Prelude.Text.{Str}
use rav_bot.Core.TurnValidator.{
  ContentBlock, Message, is_role, merged, merge_onto, merge_consecutive_role,
}

module _ {Json : Type 0} where
  -- No two neighbours have the role.
  unfoldable pub Separate : Str → List (Message Json) → Type 0
  Separate role [] = Unit
  Separate role (a ∷ []) = Unit
  Separate role (a ∷ b ∷ ms) = ((is_role role a && is_role role b) ≡ false) × Separate role (b ∷ ms)

  abbrev pub HasContent : Message Json → Type 0
  HasContent msg = is_empty msg.content ≡ false

  -- The blocks of a sequence in order.
  unfoldable pub blocks : List (Message Json) → List (ContentBlock Json)
  blocks [] = []
  blocks (m ∷ ms) = m.content ++ blocks ms

  append-nonempty :
      (xs ys : List (ContentBlock Json)) → is_empty xs ≡ false → is_empty (xs ++ ys) ≡ false
  append-nonempty [] ys h = absurd (cc)
  append-nonempty (x ∷ xs) ys h = refl

  pub merge_onto-skip :
      (role : Str) (back msg : Message Json) (rest : List (Message Json))
      → is_empty msg.content ≡ true
      → merge_onto role back (msg ∷ rest) ≡ merge_onto role back rest
  unfolding merge_onto
  merge_onto-skip role back msg rest e = ground arith

  pub merge_onto-merged :
      (role : Str) (back msg : Message Json) (rest : List (Message Json))
      → is_empty msg.content ≡ false
      → (is_role role back && is_role role msg) ≡ true
      → merge_onto role back (msg ∷ rest) ≡ merge_onto role (merged back msg) rest
  unfolding merge_onto
  merge_onto-merged role back msg rest e both = ground arith

  pub merge_onto-push :
      (role : Str) (back msg : Message Json) (rest : List (Message Json))
      → is_empty msg.content ≡ false
      → (is_role role back && is_role role msg) ≡ false
      → merge_onto role back (msg ∷ rest) ≡ back ∷ merge_onto role msg rest
  unfolding merge_onto
  merge_onto-push role back msg rest e apart = ground arith

  pub merge_consecutive_role-skip :
      (role : Str) (msg : Message Json) (rest : List (Message Json))
      → is_empty msg.content ≡ true
      → merge_consecutive_role role (msg ∷ rest) ≡ merge_consecutive_role role rest
  unfolding merge_consecutive_role
  merge_consecutive_role-skip role msg rest e = ground arith

  pub merge_consecutive_role-start :
      (role : Str) (msg : Message Json) (rest : List (Message Json))
      → is_empty msg.content ≡ false
      → merge_consecutive_role role (msg ∷ rest) ≡ merge_onto role msg rest
  unfolding merge_consecutive_role
  merge_consecutive_role-start role msg rest e = ground arith

  merge_onto-Separate :
      (role : Str) (back : Message Json) (rest : List (Message Json))
      → (first : Message Json) × (others : List (Message Json)) × (merge_onto role back rest
          ≡ first ∷ others)
        × (first.role ≡ back.role)
        × Separate role (first ∷ others)
  unfolding merge_onto Separate
  merge_onto-Separate role back [] = (back, [], refl, refl, tt)
  merge_onto-Separate role back (msg ∷ rest) = elim (Bool-cases (is_empty msg.content)) [
    | inl e ↦ rw (merge_onto-skip role back msg rest e) (merge_onto-Separate role back rest)
    | inr e ↦ elim (Bool-cases (is_role role back && is_role role msg)) [
      | inl both ↦
          rw (merge_onto-merged role back msg rest e both)
            (merge_onto-Separate role (merged back msg) rest)
      | inr apart ↦
          let (first, others, eq, same, sep) = merge_onto-Separate role msg rest in
          rw (merge_onto-push role back msg rest e apart, eq)
            (back, first ∷ others, refl, refl, (ground arith, sep))
    ]
  ]

  merge_onto-HasContent :
      (role : Str) (back : Message Json) (rest : List (Message Json))
      → HasContent back
      → All HasContent (merge_onto role back rest)
  unfolding merge_onto
  merge_onto-HasContent role back [] h = (h, tt)
  merge_onto-HasContent role back (msg ∷ rest) h = elim (Bool-cases (is_empty msg.content)) [
    | inl e ↦ rw (merge_onto-skip role back msg rest e) (merge_onto-HasContent role back rest h)
    | inr e ↦ elim (Bool-cases (is_role role back && is_role role msg)) [
      | inl both ↦ rw (merge_onto-merged role back msg rest e both) (
          merge_onto-HasContent role (merged back msg) rest
            (append-nonempty back.content msg.content h))
      | inr apart ↦
          rw (merge_onto-push role back msg rest e apart) (h, merge_onto-HasContent role msg rest e)
    ]
  ]

  nothing : (xs : List (ContentBlock Json)) → is_empty xs ≡ true → xs ≡ []
  nothing [] h = refl
  nothing (x ∷ xs) h = absurd (cc)

  blocks-empty :
      (msg : Message Json) (rest : List (Message Json))
      → is_empty msg.content ≡ true
      → blocks (msg ∷ rest) ≡ blocks rest
  unfolding blocks
  blocks-empty msg rest e = ap (λ xs. xs ++ blocks rest) (nothing msg.content e)

  blocks-merge_onto :
      (role : Str) (back : Message Json) (rest : List (Message Json))
      → blocks (merge_onto role back rest) ≡ back.content ++ blocks rest
  unfolding merge_onto blocks
  blocks-merge_onto role back [] = refl
  blocks-merge_onto role back (msg ∷ rest) = elim (Bool-cases (is_empty msg.content)) [
    | inl e ↦ rw (merge_onto-skip role back msg rest e) (
        blocks-merge_onto role back rest
        ∙ ap (λ bs. back.content ++ bs) (sym (blocks-empty msg rest e)))
    | inr e ↦ elim (Bool-cases (is_role role back && is_role role msg)) [
      | inl both ↦ rw (merge_onto-merged role back msg rest e both) (
          blocks-merge_onto role (merged back msg) rest
          ∙ append_assoc back.content msg.content (blocks rest))
      | inr apart ↦
          rw (merge_onto-push role back msg rest e apart)
            (ap (λ bs. back.content ++ bs) (blocks-merge_onto role msg rest))
    ]
  ]

  -- No two neighbours of the result have the role, none of its messages is empty, and it has the
  -- same blocks in the same order.
  pub merge_consecutive_role-Separate :
      (role : Str) (ms : List (Message Json))
      → Separate role (merge_consecutive_role role ms)
        × All HasContent (merge_consecutive_role role ms)
        × (blocks (merge_consecutive_role role ms) ≡ blocks ms)
  unfolding merge_consecutive_role Separate blocks
  merge_consecutive_role-Separate role [] = (tt, tt, refl)
  merge_consecutive_role-Separate role (msg ∷ rest) = elim (Bool-cases (is_empty msg.content)) [
    | inl e ↦
        let (sep, full, same) = merge_consecutive_role-Separate role rest in
        rw (merge_consecutive_role-skip role msg rest e)
          (sep, full, same ∙ sym (blocks-empty msg rest e))
    | inr e ↦
        let (first, others, eq, _, sep) = merge_onto-Separate role msg rest in
        rw (merge_consecutive_role-start role msg rest e) (
          subst (Separate role) (sym eq) sep,
          merge_onto-HasContent role msg rest e,
          blocks-merge_onto role msg rest,
        )
  ]

  merge_onto_stable :
      (role : Str) (back : Message Json) (rest : List (Message Json))
      → Separate role (back ∷ rest)
      → All HasContent rest
      → merge_onto role back rest ≡ back ∷ rest
  unfolding merge_onto Separate
  merge_onto_stable role back [] sep full = refl
  merge_onto_stable role back (msg ∷ rest) sep full =
      rw (merge_onto-push role back msg rest full.0 sep.0)
        (ap (λ ms. back ∷ ms) (merge_onto_stable role msg rest sep.1 full.1))

  -- A sequence without empty messages whose neighbours do not share the role stays as it is.
  pub merge_consecutive_role_stable :
      (role : Str) (ms : List (Message Json))
      → Separate role ms
      → All HasContent ms
      → merge_consecutive_role role ms ≡ ms
  unfolding merge_consecutive_role
  merge_consecutive_role_stable role [] sep full = refl
  merge_consecutive_role_stable role (msg ∷ rest) sep full =
      rw (merge_consecutive_role-start role msg rest full.0)
        (merge_onto_stable role msg rest sep full.1)

  -- Merging a second time changes nothing.
  pub merge_consecutive_role_twice :
      (role : Str) (ms : List (Message Json))
      → merge_consecutive_role role (merge_consecutive_role role ms)
        ≡ merge_consecutive_role role ms
  merge_consecutive_role_twice role ms =
      let (sep, full, _) = merge_consecutive_role-Separate role ms in
      merge_consecutive_role_stable role (merge_consecutive_role role ms) sep full

-- ===== src/Security/ExecApproval/Glob/Complete.antt =====
-- A command without a `*` of its own is accepted where the pattern's language has it: going back
-- to the last star loses no match.
use rav_bot.Prelude.{
  ℕ, zero, suc, ◌≡◌, ◌≢◌, ◌⊎◌, ◌↔◌, inl, inr, refl, ap, subst, sym, ◌∙◌, Bool, true, Option, none,
  some, [], ◌∷◌, arith, length, drop, Option-cases, All,
}
use rav_bot.Prelude.Text.{Str}
use rav_bot.Security.ExecApproval.Glob.{
  star, any_one, mismatch, head, only_stars, glob_loop, rounds_for, glob_match, Glob, nil, byte,
  one, empty, more, Single, unsingle,
}
use rav_bot.Security.ExecApproval.Glob.Sound.{
  head_cases, Reachable, glob_match_sound, glob_loop-total,
}

-- The loop has come from one pair of rests to another by single bytes alone.
data Advance (sp st : Str) : Str → Str → Type 0 where
  start : Advance sp st sp st
  step : (c d : ℕ) → (p t : Str) → Single c d → Advance sp st (c ∷ p) (d ∷ t) → Advance sp st p t

un_single : (c d : ℕ) (p t : Str) → c ≢ star → Glob (c ∷ p) (d ∷ t) → Glob p t
un_single c d p t ne g =
    let (d', t', e, _, g') = unsingle c p (d ∷ t) ne g in subst (Glob p) (ap (drop 1) (sym e)) g'

Advance-Glob : (sp st p t : Str) → Advance sp st p t → Glob sp st → Glob p t
Advance-Glob sp st p t start g = g
Advance-Glob sp st p t (step c d _ _ h a) g =
    un_single c d p t h.0 (Advance-Glob sp st (c ∷ p) (d ∷ t) a g)

drop_star-byte : (c : ℕ) (p q u : Str) → c ≢ star → q ≡ star ∷ c ∷ p → Glob q u → Glob (star ∷ p) u
drop_star-byte c p q u ne e nil = absurd (cc)
drop_star-byte c p q u ne e (byte x _ _ n g) = absurd (n (ground arith))
drop_star-byte c p q u ne e (one d _ t g) = absurd (ground arith)
drop_star-byte c p q u ne e (empty r _ g) =
    let (d', t', e', _, g') = unsingle c p u ne (subst (λ x. Glob x u) (ap (drop 1) e) g) in
    subst (Glob (star ∷ p)) (sym e') (more d' p t' (empty p t' g'))
drop_star-byte c p q u ne e (more d r t g) = more d p t (drop_star-byte c p (star ∷ r) t ne e g)

absorb :
    (c d : ℕ) (p t q u : Str)
    → c ≢ star
    → q ≡ star ∷ c ∷ p
    → u ≡ d ∷ t
    → Glob q u
    → Glob (star ∷ p) t
absorb c d p t q u ne e f nil = absurd (cc)
absorb c d p t q u ne e f (byte x _ _ n g) = absurd (n (ground arith))
absorb c d p t q u ne e f (one x _ t' g) = absurd (ground arith)
absorb c d p t q u ne e f (empty r _ g) =
    empty p t
      (un_single c d p t ne (subst (λ x. Glob x (d ∷ t)) (ap (drop 1) e) (subst (Glob r) f g)))
absorb c d p t q u ne e f (more x r t' g) =
    drop_star-byte c p (star ∷ r) t ne e (subst (Glob (star ∷ r)) (ap (drop 1) f) g)

-- A star before bytes that have been consumed absorbs them.
Advance-star : (sp st p t : Str) → Advance sp st p t → Glob (star ∷ sp) st → Glob (star ∷ p) t
Advance-star sp st p t start g = g
Advance-star sp st p t (step c d _ _ h a) g =
    absorb c d p t (star ∷ c ∷ p) (d ∷ t) h.0 refl refl (Advance-star sp st (c ∷ p) (d ∷ t) a g)

two_stars : (p q u : Str) → q ≡ star ∷ star ∷ p → Glob q u → Glob (star ∷ p) u
two_stars p q u e nil = absurd (cc)
two_stars p q u e (byte x _ _ n g) = absurd (n (ground arith))
two_stars p q u e (one d _ t g) = absurd (ground arith)
two_stars p q u e (empty r _ g) = subst (λ x. Glob x u) (ap (drop 1) e) g
two_stars p q u e (more d r t g) = more d p t (two_stars p (star ∷ r) t e g)

Glob-only_stars : (p u : Str) → u ≡ [] → Glob p u → only_stars p ≡ true
unfolding only_stars
Glob-only_stars p u e nil = refl
Glob-only_stars p u e (byte c _ t n g) = absurd (cc)
Glob-only_stars p u e (one d _ t g) = absurd (cc)
Glob-only_stars p u e (empty q _ g) = Glob-only_stars q u e g
Glob-only_stars p u e (more d q t g) = absurd (cc)

mismatch-Glob : (p : Str) (d : ℕ) (t u : Str) → head p d ≡ mismatch → u ≡ d ∷ t → ¬ Glob p u
unfolding head
mismatch-Glob p d t u h e nil = absurd (cc)
mismatch-Glob p d t u h e (byte c q s n g) = absurd (ground arith)
mismatch-Glob p d t u h e (one x q s g) = absurd (ground arith)
mismatch-Glob p d t u h e (empty q _ g) = absurd (ground arith)
mismatch-Glob p d t u h e (more x q s g) = absurd (ground arith)

-- The text from the last star on, and where the loop stands after it.
abbrev Follows : Str → Str → Option (Str × Str) → Type 0
Follows p t none = Unit
Follows p t (some (sp, st)) = Advance sp st p t × All (λ d. d ≢ star) st

follow-step :
    (c d : ℕ) (p t : Str) (back : Option (Str × Str))
    → Single c d
    → Follows (c ∷ p) (d ∷ t) back
    → Follows p t back
follow-step c d p t none h f = tt
follow-step c d p t (some (sp, st)) h (a, n) = (step c d p t h a, n)

Reachable-step :
    (c d : ℕ) (p t : Str) (back : Option (Str × Str))
    → c ≢ star
    → Reachable (c ∷ p) (d ∷ t) back
    → Reachable p t back
Reachable-step c d p t none ne g = un_single c d p t ne g
Reachable-step c d p t (some (sp, st)) ne (inl g) = inl (un_single c d p t ne g)
Reachable-step c d p t (some (sp, st)) ne (inr g) = inr g

-- Where the pattern goes on with a star, that star is enough.
Reachable-star :
    (p t : Str) (back : Option (Str × Str))
    → Follows (star ∷ p) t back
    → Reachable (star ∷ p) t back
    → Glob (star ∷ p) t
Reachable-star p t none f g = g
Reachable-star p t (some (sp, st)) f (inl g) = g
Reachable-star p t (some (sp, st)) (a, n) (inr g) =
    two_stars p (star ∷ star ∷ p) t refl (Advance-star sp st (star ∷ p) t a g)

Reachable-nil :
    (p : Str) (back : Option (Str × Str))
    → Follows p [] back
    → Reachable p [] back
    → only_stars p ≡ true
unfolding only_stars
Reachable-nil p none f g = Glob-only_stars p [] refl g
Reachable-nil p (some (sp, st)) f (inl g) = Glob-only_stars p [] refl g
Reachable-nil p (some (sp, st)) (a, n) (inr g) =
    ground (arith, Glob-only_stars (star ∷ p) [] refl (Advance-star sp st p [] a g))

star_cases : (p q u : Str) → q ≡ star ∷ p → Glob q u → Glob p u ⊎ Glob (star ∷ p) (drop 1 u)
star_cases p q u e nil = absurd (cc)
star_cases p q u e (byte x _ _ n g) = absurd (n (ground arith))
star_cases p q u e (one x _ t g) = absurd (ground arith)
star_cases p q u e (empty r _ g) = inl (subst (λ x. Glob x u) (ap (drop 1) e) g)
star_cases p q u e (more x r t g) = inr (subst (λ x. Glob x t) e g)

-- After a mismatch the text from the last star on has lost a byte.
Reachable-back :
    (p : Str) (d : ℕ) (t sp st : Str)
    → head p d ≡ mismatch
    → Advance sp st p (d ∷ t)
    → Glob (star ∷ sp) st
    → Glob (star ∷ sp) (drop 1 st)
Reachable-back p d t sp st hm a g = elim (star_cases sp (star ∷ sp) st refl g) [
  | inl g' ↦ absurd (mismatch-Glob p d t (d ∷ t) hm refl (Advance-Glob sp st p (d ∷ t) a g'))
  | inr g' ↦ g'
]

All-drop : (st : Str) → All (λ d. d ≢ star) st → All (λ d. d ≢ star) (drop 1 st)
All-drop [] n = n
All-drop (d ∷ st) n = n.1

no_star_byte : (c d : ℕ) → d ≢ star → (c ≡ d) ⊎ (c ≡ any_one) → Single c d
no_star_byte c d n (inl e) = ((λ f. n (sym e ∙ f)), inl e)
no_star_byte c d n (inr e) = ((λ f. omega arith), inr e)

back_cases :
    (p : Str) (d : ℕ) (t : Str) (back : Option (Str × Str))
    → head p d ≡ mismatch
    → Follows p (d ∷ t) back
    → Reachable p (d ∷ t) back
    → (sp : Str) × (st : Str) × (back ≡ some (sp, st))
      × Glob (star ∷ sp) (drop 1 st)
      × All (λ x. x ≢ star) st
back_cases p d t none hm f g = absurd (mismatch-Glob p d t (d ∷ t) hm refl g)
back_cases p d t (some (sp, st)) hm f (inl g) = absurd (mismatch-Glob p d t (d ∷ t) hm refl g)
back_cases p d t (some (sp, st)) hm (a, n) (inr g) =
    (sp, st, refl, Reachable-back p d t sp st hm a g, n)

glob_loop_complete :
    (rounds : ℕ) (p t : Str) (back : Option (Str × Str)) (b : Bool)
    → All (λ d. d ≢ star) t
    → Follows p t back
    → Reachable p t back
    → glob_loop rounds p t back ≡ some b
    → b ≡ true
unfolding glob_loop
glob_loop_complete zero p t back b n f g h = absurd (cc)
glob_loop_complete (suc rounds) p [] back b n f g h = ground (arith, Reachable-nil p back f g)
glob_loop_complete (suc rounds) p (d ∷ t) back b n f g h = elim (head_cases p d) [
  | inl (c, q, e, hm, single) ↦
      let s = no_star_byte c d n.0 single in
      glob_loop_complete rounds q t back b n.1
        (follow-step c d q t back s (subst (λ x. Follows x (d ∷ t) back) e f))
        (Reachable-step c d q t back s.0 (subst (λ x. Reachable x (d ∷ t) back) e g)) (ground arith)
  | inr (inl (q, e, hw, _)) ↦
      glob_loop_complete rounds q (d ∷ t) (some (q, d ∷ t)) b n (start, n)
        (inr (
          Reachable-star q (d ∷ t) back (subst (λ x. Follows x (d ∷ t) back) e f)
            (subst (λ x. Reachable x (d ∷ t) back) e g)))
        (ground arith)
  | inr (inr hm) ↦
      let (sp, st, e, g', n') = back_cases p d t back hm f g in
      glob_loop_complete rounds sp (drop 1 st) (some (sp, drop 1 st)) b (All-drop st n')
        (start, All-drop st n') (inr g') (ground arith)
]

-- For a command without a `*`, glob_match accepts exactly the pattern's language.
pub glob_match-Glob : (p t : Str) → All (λ d. d ≢ star) t → (glob_match p t ≡ true) ↔ Glob p t
unfolding glob_match
glob_match-Glob p t n = (
  glob_match_sound p t,
  λ g.
      let rounds = rounds_for (length p) (length t) in
      elim (Option-cases (glob_loop rounds p t none)) [
        | inl e ↦ absurd (ground (arith, glob_loop-total p t))
        | inr (b, e) ↦ ground (arith, glob_loop_complete rounds p t none b n tt g e)
      ],
)

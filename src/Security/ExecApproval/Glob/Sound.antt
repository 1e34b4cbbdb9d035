-- ===== src/Security/ExecApproval/Glob/Sound.antt =====
-- What the loop of glob_match accepts is in the language of the pattern, and it ends.
use rav_bot.Prelude.{
  ℕ, zero, suc, ◌+◌, ◌*◌, ◌<◌, ◌≤◌, ◌≡◌, ◌≢◌, ◌⊎◌, inl, inr, refl, ap, subst, sym, true, Option,
  none, some, [], ◌∷◌, arith, ◌==◌, length, drop, is_some, Bool-cases,
}
use rav_bot.Prelude.Text.{Str}
use rav_bot.Security.ExecApproval.Glob.{
  star, any_one, matches, wildcard, mismatch, head, only_stars, glob_loop, rounds_for, glob_match,
  Glob, nil, byte, one, empty, more,
}

-- The cases of the head, with what each says of the pattern.
pub head_cases :
    (p : Str) (d : ℕ)
    → ((c : ℕ) × (q : Str) × (p ≡ c ∷ q) × (head p d ≡ matches q) × ((c ≡ d) ⊎ (c ≡ any_one)))
      ⊎ (((q : Str) × (p ≡ star ∷ q) × (head p d ≡ wildcard q) × (d ≢ star))
          ⊎ (head p d ≡ mismatch))
unfolding head
head_cases [] d = inr (inr refl)
head_cases (c ∷ p) d = elim (Bool-cases (c == d)) [
  | inl e ↦ inl (c, p, refl, ground arith, inl (ground arith))
  | inr e ↦ elim (Bool-cases (c == any_one)) [
    | inl f ↦ inl (c, p, refl, ground arith, inr (ground arith))
    | inr f ↦ elim (Bool-cases (c == star)) [
      | inl g ↦ inr (inl (p, ap (λ x. x ∷ p) (ground arith), ground arith, ground arith))
      | inr g ↦ inr (inr (ground arith))
    ]
  ]
]

-- The pattern can match the text, or the one after the last star the text from there.
abbrev pub Reachable : Str → Str → Option (Str × Str) → Type 0
Reachable p t none = Glob p t
Reachable p t (some (sp, st)) = Glob p t ⊎ Glob (star ∷ sp) st

only_stars-Glob : (p : Str) → only_stars p ≡ true → Glob p []
unfolding only_stars
only_stars-Glob [] h = nil
only_stars-Glob (c ∷ p) h =
    subst (λ x. Glob (x ∷ p) []) (ground arith) (empty p [] (only_stars-Glob p (ground arith)))

pub match_byte : (c d : ℕ) (p t : Str) → (c ≡ d) ⊎ (c ≡ any_one) → Glob p t → Glob (c ∷ p) (d ∷ t)
match_byte c d p t (inr e) g = subst (λ x. Glob (x ∷ p) (d ∷ t)) (sym e) (one d p t g)
match_byte c d p t (inl e) g =
    subst (λ x. Glob (c ∷ p) (x ∷ t)) e
      (elim (Bool-cases (c == star)) [
        | inl is_star ↦ subst (λ x. Glob (x ∷ p) (c ∷ t)) (ground arith) (more c p t (empty p t g))
        | inr no_star ↦ byte c p t (ground arith) g
      ])

widen :
    (p t p' t' : Str) (back : Option (Str × Str))
    → (Glob p t → Glob p' t')
    → Reachable p t back
    → Reachable p' t' back
widen p t p' t' none f g = f g
widen p t p' t' (some (sp, st)) f (inl g) = inl (f g)
widen p t p' t' (some (sp, st)) f (inr g) = inr g

restart : (sp st : Str) → Reachable sp (drop 1 st) (some (sp, drop 1 st)) → Glob (star ∷ sp) st
restart sp [] (inl g) = empty sp [] g
restart sp [] (inr g) = g
restart sp (d ∷ st) (inl g) = more d sp st (empty sp st g)
restart sp (d ∷ st) (inr g) = more d sp st g

pub reached : (p t : Str) (back : Option (Str × Str)) → Glob p t → Reachable p t back
reached p t none g = g
reached p t (some (sp, st)) g = inl g

wildcard_end : (q u : Str) → Glob q u ⊎ Glob (star ∷ q) u → Glob (star ∷ q) u
wildcard_end q u (inl g) = empty q u g
wildcard_end q u (inr g) = g

-- A text that is accepted after a mismatch is accepted after the step back.
stepped_back :
    (rounds : ℕ) (p : Str) (d : ℕ) (t : Str) (back : Option (Str × Str))
    → head p d ≡ mismatch
    → glob_loop (suc rounds) p (d ∷ t) back ≡ some true
    → (sp : Str) × (st : Str) × (back ≡ some (sp, st))
      × (glob_loop rounds sp (drop 1 st) (some (sp, drop 1 st)) ≡ some true)
unfolding glob_loop
stepped_back rounds p d t none hm h = absurd (ground arith)
stepped_back rounds p d t (some (sp, st)) hm h = (sp, st, refl, ground arith)

pub glob_loop_sound :
    (rounds : ℕ) (p t : Str) (back : Option (Str × Str))
    → glob_loop rounds p t back ≡ some true
    → Reachable p t back
unfolding glob_loop
glob_loop_sound zero p t back h = absurd (cc)
glob_loop_sound (suc rounds) p [] none h = only_stars-Glob p (ground arith)
glob_loop_sound (suc rounds) p [] (some (sp, st)) h = inl (only_stars-Glob p (ground arith))
glob_loop_sound (suc rounds) p (d ∷ t) back h = elim (head_cases p d) [
  | inl (c, q, e, hm, single) ↦
      widen q t p (d ∷ t) back
        (λ g. subst (λ x. Glob x (d ∷ t)) (sym e) (match_byte c d q t single g))
        (glob_loop_sound rounds q t back (ground arith))
  | inr (inl (q, e, hw, _)) ↦ reached p (d ∷ t) back (
      subst (λ x. Glob x (d ∷ t)) (sym e)
        (wildcard_end q (d ∷ t)
          (glob_loop_sound rounds q (d ∷ t) (some (q, d ∷ t)) (ground arith))))
  | inr (inr hm) ↦
      let (sp, st, e, again) = stepped_back rounds p d t back hm h in
      subst (Reachable p (d ∷ t)) (sym e)
        (inr (restart sp st (glob_loop_sound rounds sp (drop 1 st) (some (sp, drop 1 st)) again)))
]

-- Every byte string that glob_match accepts is in the pattern's language.
pub glob_match_sound : (p t : Str) → glob_match p t ≡ true → Glob p t
unfolding glob_match
glob_match_sound p t h = glob_loop_sound (rounds_for (length p) (length t)) p t none (ground arith)

-- How far the loop is from its end: the rest of the pattern after the last star, the rest of the
-- text from there, and the rest of the text.
abbrev progress : ℕ → Str → Str → Option (Str × Str) → ℕ
progress b p t none = suc (length p) + length t * b + length t
progress b p t (some (sp, st)) = length sp + length st * b + length t

-- The strings at hand are rests of those after the last star, which are short.
abbrev InBounds : ℕ → Str → Str → Option (Str × Str) → Type 0
InBounds b p t none = length t < b
InBounds b p t (some (sp, st)) = (length p ≤ length sp) × (length t ≤ length st) × (length st < b)

suc_times : (n b : ℕ) → suc n * b ≡ b + n * b
suc_times n b = omega arith

times_mono : (m n b : ℕ) → m ≤ n → m * b ≤ n * b
times_mono zero n b h = omega arith
times_mono (suc m) zero b h = absurd (omega arith)
times_mono (suc m) (suc n) b h =
    omega (arith, times_mono m n b (omega arith), suc_times m b, suc_times n b)

progress-match :
    (rounds b : ℕ) (p q : Str) (d : ℕ) (t : Str) (back : Option (Str × Str))
    → length p ≡ suc (length q)
    → InBounds b p (d ∷ t) back
    → progress b p (d ∷ t) back < suc rounds
    → InBounds b q t back × (progress b q t back < rounds)
progress-match rounds b p q d t none e i h = (omega arith, omega (arith, suc_times (length t) b))
progress-match rounds b p q d t (some (sp, st)) e i h =
    ((omega arith, omega arith, omega arith), omega arith)

progress-wildcard :
    (rounds b : ℕ) (p q : Str) (d : ℕ) (t : Str) (back : Option (Str × Str))
    → length p ≡ suc (length q)
    → InBounds b p (d ∷ t) back
    → progress b p (d ∷ t) back < suc rounds
    → InBounds b q (d ∷ t) (some (q, d ∷ t)) × (progress b q (d ∷ t) (some (q, d ∷ t)) < rounds)
progress-wildcard rounds b p q d t none e i h =
    ((omega arith, omega arith, omega arith), omega arith)
progress-wildcard rounds b p q d t (some (sp, [])) e i h = absurd (omega arith)
progress-wildcard rounds b p q d t (some (sp, a ∷ st)) e i h = (
  (omega arith, omega arith, omega arith),
  omega (arith, times_mono (suc (length t)) (suc (length st)) b (omega arith)),
)

progress-back :
    (rounds b : ℕ) (p : Str) (d : ℕ) (t sp st : Str)
    → InBounds b p (d ∷ t) (some (sp, st))
    → progress b p (d ∷ t) (some (sp, st)) < suc rounds
    → InBounds b sp (drop 1 st) (some (sp, drop 1 st))
      × (progress b sp (drop 1 st) (some (sp, drop 1 st)) < rounds)
progress-back rounds b p d t sp [] i h = absurd (omega arith)
progress-back rounds b p d t sp (a ∷ st) i h =
    ((omega arith, omega arith, omega arith), omega (arith, suc_times (length st) b))

glob_loop-ends :
    (rounds b : ℕ) (p t : Str) (back : Option (Str × Str))
    → InBounds b p t back
    → progress b p t back < rounds
    → is_some (glob_loop rounds p t back) ≡ true
unfolding glob_loop
glob_loop-ends zero b p t back inb h = absurd (omega arith)
glob_loop-ends (suc rounds) b p [] back inb h = refl
glob_loop-ends (suc rounds) b p (d ∷ t) none inb h = elim (head_cases p d) [
  | inl (c, q, e, hm, single) ↦
      let (inb', h') = progress-match rounds b p q d t none (ap length e) inb h in
      ground (arith, glob_loop-ends rounds b q t none inb' h')
  | inr (inl (q, e, hw, _)) ↦
      let (inb', h') = progress-wildcard rounds b p q d t none (ap length e) inb h in
      ground (arith, glob_loop-ends rounds b q (d ∷ t) (some (q, d ∷ t)) inb' h')
  | inr (inr hm) ↦ ground arith
]
glob_loop-ends (suc rounds) b p (d ∷ t) (some (sp, st)) inb h = elim (head_cases p d) [
  | inl (c, q, e, hm, single) ↦
      let (inb', h') = progress-match rounds b p q d t (some (sp, st)) (ap length e) inb h in
      ground (arith, glob_loop-ends rounds b q t (some (sp, st)) inb' h')
  | inr (inl (q, e, hw, _)) ↦
      let (inb', h') = progress-wildcard rounds b p q d t (some (sp, st)) (ap length e) inb h in
      ground (arith, glob_loop-ends rounds b q (d ∷ t) (some (q, d ∷ t)) inb' h')
  | inr (inr hm) ↦
      let (inb', h') = progress-back rounds b p d t sp st inb h in
      ground (arith, glob_loop-ends rounds b sp (drop 1 st) (some (sp, drop 1 st)) inb' h')
]

-- The loop always ends within the rounds that glob_match allows.
pub glob_loop-total :
    (p t : Str) → is_some (glob_loop (rounds_for (length p) (length t)) p t none) ≡ true
glob_loop-total p t =
    glob_loop-ends (rounds_for (length p) (length t)) (suc (length t)) p t none (omega arith)
      (omega arith)

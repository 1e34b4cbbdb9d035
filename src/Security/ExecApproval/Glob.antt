-- ===== src/Security/ExecApproval/Glob.antt =====
-- ExecAllowlist::glob_match (src/security/exec_approval.cpp). The indices `pi`, `ti`, `star_p`
-- and `star_t` are the rests of the strings from there on: `star` holds those from `star_p + 1`
-- and from `star_t`.
pub mod Sound
pub mod Complete
pub mod Literal
use rav_bot.Prelude.{
  ℕ, zero, suc, ◌+◌, ◌*◌, ◌<◌, ◌≤◌, ◌≡◌, ◌≢◌, ◌↔◌, ◌⊎◌, inl, inr, refl, ap, subst, sym, ◌∙◌, Bool,
  true, false, ◌||◌, ◌&&◌, Option, none, some, List, [], ◌∷◌, ◌++◌, arith, ◌==◌, if◌then◌else◌,
  length, drop, Option-cases,
}
use rav_bot.Prelude.Text.{Str}

abbrev pub star : ℕ
star = b'*'

abbrev pub any_one : ℕ
any_one = b'?'

-- What the head of the pattern does with a byte.
pub data Head : Type 0 where
  matches : Str → Head
  wildcard : Str → Head
  mismatch : Head

unfoldable pub head : Str → ℕ → Head
head [] d = mismatch
head (c ∷ p) d =
    if c == d || c == any_one then matches p else if c == star then wildcard p else mismatch

-- `while (pi < pattern.size() && pattern[pi] == '*') ++pi; return pi == pattern.size();`
unfoldable pub only_stars : Str → Bool
only_stars [] = true
only_stars (c ∷ p) = (c == star) && only_stars p

-- The loop, with a bound on its rounds; `none` when the bound is too small.
unfoldable pub glob_loop : ℕ → Str → Str → Option (Str × Str) → Option Bool
unfolding head only_stars
glob_loop zero p t back = none
glob_loop (suc rounds) p [] back = some (only_stars p)
glob_loop (suc rounds) p (d ∷ t) back = elim (head p d) [
  | matches p' ↦ glob_loop rounds p' t back
  | wildcard p' ↦ glob_loop rounds p' (d ∷ t) (some (p', d ∷ t))
  | mismatch ↦ elim back [
    | none ↦ some false
    | some (sp, st) ↦ glob_loop rounds sp (drop 1 st) (some (sp, drop 1 st))
  ]
]

-- Rounds that are enough for a pattern and a text of these lengths.
abbrev pub rounds_for : ℕ → ℕ → ℕ
rounds_for p t = suc (suc p + t * suc t + t)

unfoldable pub glob_match : Str → Str → Bool
unfolding glob_loop
glob_match p t = elim (glob_loop (rounds_for (length p) (length t)) p t none) [
  | none ↦ false
  | some b ↦ b
]

-- The language of a pattern: `*` stands for any bytes, `?` for one, any other byte for itself.
pub data Glob : Str → Str → Type 0 where
  nil : Glob [] []
  byte : (c : ℕ) → (p t : Str) → c ≢ star → Glob p t → Glob (c ∷ p) (c ∷ t)
  one : (d : ℕ) → (p t : Str) → Glob p t → Glob (any_one ∷ p) (d ∷ t)
  empty : (p t : Str) → Glob p t → Glob (star ∷ p) t
  more : (d : ℕ) → (p t : Str) → Glob (star ∷ p) t → Glob (star ∷ p) (d ∷ t)

-- One byte of the pattern that is no star against one of the text.
abbrev pub Single : ℕ → ℕ → Type 0
Single c d = (c ≢ star) × ((c ≡ d) ⊎ (c ≡ any_one))

pub single : (c d : ℕ) (p t : Str) → Single c d → Glob p t → Glob (c ∷ p) (d ∷ t)
single c d p t (ne, inl e) g = subst (λ x. Glob (c ∷ p) (x ∷ t)) e (byte c p t ne g)
single c d p t (ne, inr e) g = subst (λ x. Glob (x ∷ p) (d ∷ t)) (sym e) (one d p t g)

pub unsingle :
    (c : ℕ) (p : Str) (u : Str)
    → c ≢ star
    → Glob (c ∷ p) u
    → (d : ℕ) × (t : Str) × (u ≡ d ∷ t) × ((c ≡ d) ⊎ (c ≡ any_one)) × Glob p t
unsingle c p u ne (byte _ _ t _ g) = (c, t, refl, inl refl, g)
unsingle c p u ne (one d _ t g) = (d, t, refl, inr refl, g)
unsingle c p u ne (empty _ _ g) = absurd (ne refl)
unsingle c p u ne (more d _ t g) = absurd (ne refl)

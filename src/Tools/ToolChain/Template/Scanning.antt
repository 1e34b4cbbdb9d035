-- ===== src/Tools/ToolChain/Template/Scanning.antt =====
-- What the searches of the template engine find in a text.
use rav_bot.Prelude.{
  ℕ, suc, ◌+◌, ◌≡◌, refl, ap, ◌∙◌, Bool, true, false, not, List, [], ◌∷◌, ◌++◌, Option, none, some,
  arith, append_assoc, all, length, drop, take, ◌==◌,
}
use rav_bot.Prelude.Text.{Str, find, starts_with}
use rav_bot.Prelude.Decimal.{is_digit}
use rav_bot.Tools.ToolChain.Template.{
  digit_run, after_digits, match_step, search_step, found_at, step_opening, step_closing,
}
use mathlib.Core.Option

abbrev pub no_brace : Str → Bool
no_brace s = all (λ c. not (c == b'{')) s

module _ {ℓ} {A : Type ℓ} where
  pub drop-append : (xs ys : List A) → drop (length xs) (xs ++ ys) ≡ ys
  drop-append [] ys = refl
  drop-append (x ∷ xs) ys = drop-append xs ys

  pub take-append : (xs ys : List A) → take (length xs) (xs ++ ys) ≡ xs
  take-append [] ys = refl
  take-append (x ∷ xs) ys = ap (λ l. x ∷ l) (take-append xs ys)

map_zero : (o : Option ℕ) → o ≡ Option.map (λ i. 0 + i) o
map_zero none = refl
map_zero (some i) = ground arith

map-suc :
    (n : ℕ) (o : Option ℕ)
    → Option.map suc (Option.map (λ i. n + i) o) ≡ Option.map (λ i. suc n + i) o
map-suc n none = refl
map-suc n (some i) = ground arith

find-cons :
    (token s : Str) (c : ℕ)
    → (c == b'{') ≡ false
    → find (b'{' ∷ token) (c ∷ s) ≡ Option.map suc (find (b'{' ∷ token) s)
unfolding find starts_with
find-cons token s c h = ground arith

-- A token that starts with a brace is not found before the end of a text without braces.
pub find-append :
    (token p s : Str)
    → no_brace p ≡ true
    → find (b'{' ∷ token) (p ++ s) ≡ Option.map (λ i. length p + i) (find (b'{' ∷ token) s)
find-append token [] s h = map_zero (find (b'{' ∷ token) s)
find-append token (c ∷ p) s h =
    find-cons token (p ++ s) c (ground arith)
    ∙ ap (Option.map suc) (find-append token p s (ground arith))
    ∙ map-suc (length p) (find (b'{' ∷ token) s)

pub digit_run-append :
    (ds s : Str) (c : ℕ)
    → all is_digit ds ≡ true
    → is_digit c ≡ false
    → digit_run (ds ++ c ∷ s) ≡ (ds, c ∷ s)
unfolding digit_run
digit_run-append [] s c h k = ground arith
digit_run-append (d ∷ ds) s c h k = ground (arith, digit_run-append ds s c)

-- A reference to a step, as it stands in a template.
abbrev pub step_reference : Str → Str
step_reference digits = step_opening ++ (digits ++ step_closing)

pub match_step-append :
    (d : ℕ) (ds s : Str)
    → all is_digit (d ∷ ds) ≡ true
    → match_step (step_reference (d ∷ ds) ++ s) ≡ some (d ∷ ds, s)
unfolding match_step starts_with after_digits
match_step-append d ds s h =
    ap (λ t. after_digits (digit_run t)) (append_assoc (d ∷ ds) step_closing s)
    ∙ ap after_digits (digit_run-append (d ∷ ds) (drop 1 step_closing ++ s) b']' h refl)

match_step-none : (c : ℕ) (s : Str) → (c == b'{') ≡ false → match_step (c ∷ s) ≡ none
unfolding match_step starts_with
match_step-none c s h = ground arith

pub search_step-none : (p : Str) → no_brace p ≡ true → search_step p ≡ none
unfolding search_step found_at
search_step-none [] h = refl
search_step-none (c ∷ p) h = ground (arith, match_step-none c p, search_step-none p)

pub search_step-append :
    (p digits t s : Str) (c : ℕ)
    → no_brace p ≡ true
    → match_step (c ∷ t) ≡ some (digits, s)
    → search_step (p ++ c ∷ t) ≡ some (record { prefix = p; digits = digits; suffix = s })
unfolding search_step found_at
search_step-append [] digits t s c h m = ground arith
search_step-append (a ∷ p) digits t s c h m =
    ground (arith, match_step-none a (p ++ c ∷ t), search_step-append p digits t s c)

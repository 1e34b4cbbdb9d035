-- ===== src/Core/Cron/Fields.antt =====
-- Which values the fields of an expression match.
use rav_bot.Prelude.{
  ℕ, zero, suc, ◌+◌, ◌<◌, ◌≡◌, refl, ap, ◌∙◌, Bool, true, false, not, ◌&&◌, ◌||◌, [], ◌∷◌, ◌++◌,
  some, arith, append-nil, if◌then◌else◌, any, is_empty, take, drop, length, ◌==◌,
}
use rav_bot.Prelude.Int.{ℤ, pos, ◌+ℤ◌, ◌-ℤ◌, leb_ℤ, ltb_ℤ, eq_ℤ, pos_part, neg_part}
use rav_bot.Prelude.Text.{no_byte, Str, bytes, str_eq, starts_with, find}
use rav_bot.Prelude.Decimal.{stoi}
use mathlib.Core.Option
use rav_bot.Core.Cron.Expression.{
  Field, range_from, range, rounds, field_matches, parse_range, parse_token, parse_tokens,
  parse_field, parse_step, getlines, append_field,
}

abbrev pub member : ℤ → Field → Bool
member v f = any (λ i. eq_ℤ i v) f

-- The number of rounds from i on is enough.
abbrev Enough : ℕ → ℤ → ℤ → Type 0
Enough n i max = pos_part max + neg_part i < n + (pos_part i + neg_part max)

member-range_from :
    (n : ℕ) (i hi max v : ℤ)
    → Enough n i max
    → member v (range_from n i hi max) ≡ (leb_ℤ i v && leb_ℤ v hi && leb_ℤ v max)
unfolding range_from ◌+ℤ◌
member-range_from zero i hi max v h = ground arith
member-range_from (suc n) i hi max v h = ground (arith, member-range_from n (i +ℤ pos 1) hi max v)

field_matches-member : (f : Field) (v : ℤ) → field_matches f v ≡ (is_empty f || member v f)
unfolding field_matches
field_matches-member [] v = refl
field_matches-member (i ∷ f) v = refl

is_empty-range : (lo hi max : ℤ) → is_empty (range lo hi max) ≡ not (leb_ℤ lo hi && leb_ℤ lo max)
unfolding range range_from
is_empty-range lo hi max = ground arith

Enough-rounds : (i max : ℤ) → Enough (rounds i max) i max
unfolding ◌-ℤ◌
Enough-rounds i max = ground arith

member-range :
    (lo hi max v : ℤ) → member v (range lo hi max) ≡ (leb_ℤ lo v && leb_ℤ v hi && leb_ℤ v max)
unfolding range
member-range lo hi max v = member-range_from (rounds lo max) lo hi max v (Enough-rounds lo max)

-- What a range of values matches: where it has no value, everything.
abbrev pub in_range : ℤ → ℤ → ℤ → ℤ → Bool
in_range lo hi max v =
    if leb_ℤ lo hi && leb_ℤ lo max then leb_ℤ lo v && leb_ℤ v hi && leb_ℤ v max else true

field_matches-range : (lo hi max v : ℤ) → field_matches (range lo hi max) v ≡ in_range lo hi max v
field_matches-range lo hi max v =
    field_matches-member (range lo hi max) v
    ∙ ground (arith, is_empty-range lo hi max, member-range lo hi max v)

getlines_one : (c : ℕ) (s : Str) → no_byte b',' (c ∷ s) ≡ true → getlines (c ∷ s) ≡ (c ∷ s) ∷ []
unfolding getlines
getlines_one c [] h = ground arith
getlines_one c (d ∷ s) h = ground (arith, getlines_one d s)

find_dash : (a b : Str) → no_byte b'-' a ≡ true → find (b'-' ∷ []) (a ++ b'-' ∷ b) ≡ some (length a)
unfolding find starts_with
find_dash [] b h = refl
find_dash (c ∷ a) b h = ground (arith, find_dash a b)

take-length-append : (a b : Str) (c : ℕ) → take (length a) (a ++ c ∷ b) ≡ a
take-length-append [] b c = refl
take-length-append (d ∷ a) b c = ap (λ s. d ∷ s) (take-length-append a b c)

drop-length-append : (a b : Str) (c : ℕ) → drop (suc (length a)) (a ++ c ∷ b) ≡ b
drop-length-append [] b c = refl
drop-length-append (d ∷ a) b c = drop-length-append a b c

parse_token_found :
    (max : ℤ) (token : Str) {dash : ℕ}
    → find (b'-' ∷ []) token ≡ some dash
    → parse_token max token
      ≡ parse_range (stoi (take dash token)) (stoi (drop (suc dash) token)) max
unfolding parse_token
parse_token_found max token h = ground arith

parse_token-range :
    (a b : Str) (max : ℤ)
    → no_byte b'-' a ≡ true
    → parse_token max (a ++ b'-' ∷ b) ≡ parse_range (stoi a) (stoi b) max
parse_token-range a b max h =
    parse_token_found max (a ++ b'-' ∷ b) (find_dash a b h)
    ∙ rw (take-length-append a b b'-', drop-length-append a b b'-') refl

parse_tokens_one :
    (max : ℤ) (t : Str) (f : Field)
    → parse_token max t ≡ some f
    → parse_tokens max (t ∷ []) ≡ some (f ++ [])
unfolding parse_tokens append_field
parse_tokens_one max t f h = rw h refl

parse_field_plain :
    (c : ℕ) (s : Str) (min max : ℤ)
    → (c == b'*') ≡ false
    → no_byte b',' (c ∷ s) ≡ true
    → parse_field (c ∷ s) min max ≡ parse_tokens max ((c ∷ s) ∷ [])
unfolding parse_field str_eq starts_with
parse_field_plain c s min max h k = ground (arith, getlines_one c s k)

-- A field of two numbers with a dash between them matches the values from the first to the second
-- and to the maximum; one whose range is empty, because the first number is above the second or
-- above the maximum, matches every value.
parse_field-range :
    (c : ℕ) (a b : Str) (lo hi min max v : ℤ)
    → (c == b'*') ≡ false
    → no_byte b'-' (c ∷ a) ≡ true
    → no_byte b',' (c ∷ a ++ b'-' ∷ b) ≡ true
    → stoi (c ∷ a) ≡ some lo
    → stoi b ≡ some hi
    → Option.map (λ f. field_matches f v) (parse_field (c ∷ a ++ b'-' ∷ b) min max)
      ≡ some (in_range lo hi max v)
parse_field-range c a b lo hi min max v star dash comma l h =
    ap (Option.map _) (
      parse_field_plain c (a ++ b'-' ∷ b) min max star comma
      ∙ parse_tokens_one max (c ∷ a ++ b'-' ∷ b) (range lo hi max)
          (parse_token-range (c ∷ a) b max dash ∙ unfold parse_range in rw (l, h) refl))
    ∙ ap some (
        ap (λ f. field_matches f v) (append-nil (range lo hi max))
        ∙ field_matches-range lo hi max v)

parse_field_step :
    (c : ℕ) (s : Str) (min max : ℤ)
    → parse_field (bytes "*/" ++ c ∷ s) min max ≡ parse_step min max (stoi (c ∷ s))
unfolding parse_field str_eq starts_with
parse_field_step c s min max = ground arith

parse_step_zero :
    (step min max : ℤ) → ltb_ℤ (pos 0) step ≡ false → parse_step min max (some step) ≡ some []
unfolding parse_step
parse_step_zero step min max k = rw k refl

-- A step that is not positive gives a field that matches every value.
parse_field-step :
    (c : ℕ) (s : Str) (step min max v : ℤ)
    → stoi (c ∷ s) ≡ some step
    → ltb_ℤ (pos 0) step ≡ false
    → Option.map (λ f. field_matches f v) (parse_field (bytes "*/" ++ c ∷ s) min max) ≡ some true
parse_field-step c s step min max v h k =
    ap (Option.map _)
      (parse_field_step c s min max ∙ ap (parse_step min max) h ∙ parse_step_zero step min max k)
    ∙ unfold field_matches in refl

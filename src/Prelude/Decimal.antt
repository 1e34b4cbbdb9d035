-- ===== src/Prelude/Decimal.antt =====
-- `std::to_string` and `std::stoi`: decimal numerals as bytes.
use Prim.Native.Nat.{ℕ, zero, suc, ◌+◌, ◌-◌, ◌*◌, ◌/◌, ◌%◌, ◌^◌}
use mathlib.Core.Bool.{Bool, true, false, ◌&&◌, ◌||◌}
use mathlib.Core.List.{[], ◌∷◌}
use mathlib.Core.Option.{Option, none, some}
use rav_bot.Prelude.Tests.{ltb, leb, ◌==◌, if◌then◌else◌}
use rav_bot.Prelude.Int.{ℤ, pos, negsuc}
use rav_bot.Prelude.Text.{Str}

-- The digits of a number, put before `acc`; fuel above the number is enough.
digits_onto : ℕ → ℕ → Str → Str
digits_onto zero n acc = acc
digits_onto (suc fuel) n acc =
    let rest = digits_onto fuel (n / 10) ((48 + n % 10) ∷ acc) in
    if ltb n 10 then (48 + n) ∷ acc else rest

unfoldable pub print_ℕ : ℕ → Str
unfolding digits_onto
print_ℕ n = digits_onto (suc n) n []

unfoldable pub to_string : ℤ → Str
unfolding print_ℕ
to_string (pos n) = print_ℕ n
to_string (negsuc n) = b'-' ∷ print_ℕ (suc n)

abbrev pub is_digit : ℕ → Bool
is_digit c = leb 48 c && leb c 57

-- The longest run of digits, as a number, onto `n`.
unfoldable pub read_digits : ℕ → Str → ℕ
read_digits n [] = n
read_digits n (c ∷ s) =
    let rest = read_digits (n * 10 + (c - 48)) s in if is_digit c then rest else n

-- isspace in the "C" locale.
abbrev pub is_space : ℕ → Bool
is_space c = c == 32 || (leb 9 c && leb c 13)

unfoldable pub skip_space : Str → Str
skip_space [] = []
skip_space (c ∷ s) = let rest = skip_space s in if is_space c then rest else c ∷ s

-- `int` is 32 bits wide; out of range `stoi` throws.
in_range : Bool → ℕ → Option ℤ
in_range true zero = some (pos 0)
in_range true (suc n) = if ltb n (2 ^ 31) then some (negsuc n) else none
in_range false n = if ltb n (2 ^ 31) then some (pos n) else none

unfoldable pub read_signed : Bool → Str → Option ℤ
unfolding read_digits in_range
read_signed negative [] = none
read_signed negative (c ∷ s) =
    if is_digit c then in_range negative (read_digits 0 (c ∷ s)) else none

after_sign : Str → Option ℤ
unfolding read_signed
after_sign [] = none
after_sign (c ∷ s) =
    if c == b'-'
    then read_signed true s
    else if c == b'+'
    then read_signed false s
    else read_signed false (c ∷ s)

-- `none` where `stoi` throws.
unfoldable pub stoi : Str → Option ℤ
unfolding after_sign skip_space
stoi s = after_sign (skip_space s)

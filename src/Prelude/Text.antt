-- ===== src/Prelude/Text.antt =====
-- `std::string` as its list of bytes, with the operations that the program calls on it.
use Prim.Native.Nat.{ℕ, suc}
use Prim.Native.Char.{code}
use Prim.Native.String.{String}
use mathlib.Core.Path.{◌≡◌, refl}
use mathlib.Core.Logic.{◌↔◌}
use mathlib.Core.Bool.{Bool, true, false, not, ◌&&◌}
use mathlib.Core.List.{List, [], ◌∷◌, ◌++◌}
use mathlib.Core.Option.{Option, none, some}
use mathlib.Core.Option
use native.Mathlib.Omega.{arith}
use rav_bot.Prelude.Tests.{◌==◌, if◌then◌else◌}
use rav_bot.Prelude.Lists.{all}

abbrev pub Str : Type 0
Str = List ℕ

-- The bytes of a literal in the source, which is ASCII.
abbrev pub bytes : String → Str
bytes String.[] = []
bytes (String.◌∷◌ c s) = code c ∷ bytes s

unfoldable pub str_eq : Str → Str → Bool
str_eq [] [] = true
str_eq [] (b ∷ t) = false
str_eq (a ∷ s) [] = false
str_eq (a ∷ s) (b ∷ t) = (a == b) && str_eq s t

eq_of-str_eq : (s t : Str) → str_eq s t ≡ true → s ≡ t
unfolding str_eq
eq_of-str_eq [] [] h = refl
eq_of-str_eq [] (b ∷ t) h = cc
eq_of-str_eq (a ∷ s) [] h = cc
eq_of-str_eq (a ∷ s) (b ∷ t) h = ground (arith, eq_of-str_eq s t)

pub str_eq_refl : (s : Str) → str_eq s s ≡ true
unfolding str_eq
str_eq_refl [] = refl
str_eq_refl (a ∷ s) = ground (arith, str_eq_refl s)

str_eq_of-eq : (s t : Str) → s ≡ t → str_eq s t ≡ true
str_eq_of-eq s t e = rw (← e) (str_eq_refl s)

pub str_eq_iff : (s t : Str) → (str_eq s t ≡ true) ↔ (s ≡ t)
str_eq_iff s t = (eq_of-str_eq s t, str_eq_of-eq s t)

-- s.substr(0, n) == p for a literal p of length n.
unfoldable pub starts_with : Str → Str → Bool
starts_with [] s = true
starts_with (a ∷ p) [] = false
starts_with (a ∷ p) (b ∷ s) = (a == b) && starts_with p s

-- s.find(p), with `none` for npos.
unfoldable pub find : Str → Str → Option ℕ
unfolding starts_with
find p [] = if starts_with p [] then some 0 else none
find p (b ∷ s) =
    let rest = find p s in if starts_with p (b ∷ s) then some 0 else Option.map suc rest

pub starts_with-append : (p s : Str) → starts_with p (p ++ s) ≡ true
unfolding starts_with
starts_with-append [] s = refl
starts_with-append (a ∷ p) s = ground (arith, starts_with-append p s)

pub find-zero : (p s : Str) → starts_with p s ≡ true → find p s ≡ some 0
unfolding find
find-zero p [] h = rw h
find-zero p (b ∷ s) h = rw h

abbrev pub contains : Str → Str → Bool
contains p s = elim (find p s) [ none ↦ false | some _ ↦ true ]

-- The byte does not occur.
abbrev pub no_byte : ℕ → Str → Bool
no_byte b s = all (λ c. not (c == b)) s

pub append_cancel : (p s t : Str) → p ++ s ≡ p ++ t → s ≡ t
append_cancel [] s t h = h
append_cancel (c ∷ p) s t h = append_cancel p s t (ground arith)

-- A text is cut in one way at the first occurrence of a byte.
pub cut_unique :
    (b : ℕ) (p q s t : Str)
    → no_byte b p ≡ true
    → no_byte b q ≡ true
    → p ++ b ∷ s ≡ q ++ b ∷ t
    → (p ≡ q) × (s ≡ t)
cut_unique b [] [] s t h k e = ground arith
cut_unique b [] (d ∷ q) s t h k e = ground arith
cut_unique b (c ∷ p) [] s t h k e = ground arith
cut_unique b (c ∷ p) (d ∷ q) s t h k e = ground (arith, cut_unique b p q s t)

pub contains-append : (p a s : Str) → contains p (a ++ (p ++ s)) ≡ true
unfolding find
contains-append p [] s = ground (arith, find-zero p (p ++ s), starts_with-append p s)
contains-append p (c ∷ a) s = ground (arith, contains-append p a s)

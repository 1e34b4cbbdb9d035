-- ===== src/Security/ExecApproval/Glob/Literal.antt =====
-- A `*` of the command that meets the pattern's `*` is taken for that byte, not for a wildcard.
use rav_bot.Prelude.{
  ℕ, suc, ◌+◌, ◌-◌, ◌*◌, ◌≡◌, inl, refl, ap, ◌∙◌, false, none, some, [], ◌∷◌, ◌++◌, arith, length,
  length-append,
}
use rav_bot.Prelude.Text.{Str}
use rav_bot.Security.ExecApproval.Glob.{
  star, matches, head, glob_loop, rounds_for, glob_match, Glob, nil, empty, more,
}
use rav_bot.Security.ExecApproval.Glob.Sound.{match_byte}

head-same : (c : ℕ) (p : Str) → head (c ∷ p) c ≡ matches p
unfolding head
head-same c p = ground arith

glob_loop-same :
    (c : ℕ) (p t : Str) (rounds : ℕ)
    → glob_loop (suc rounds) (c ∷ p) (c ∷ t) none ≡ glob_loop rounds p t none
unfolding glob_loop
glob_loop-same c p t rounds = ground (arith, head-same c p)

glob_loop-append :
    (w p t : Str) (rounds : ℕ)
    → glob_loop (length w + rounds) (w ++ p) (w ++ t) none ≡ glob_loop rounds p t none
glob_loop-append [] p t rounds = ap (λ n. glob_loop n p t none) (omega arith)
glob_loop-append (c ∷ w) p t rounds =
    let e : length (c ∷ w) + rounds ≡ suc (length w + rounds) = omega arith in
    ap (λ n. glob_loop n (c ∷ w ++ p) (c ∷ w ++ t) none) e
    ∙ glob_loop-same c (w ++ p) (w ++ t) (length w + rounds)
    ∙ glob_loop-append w p t rounds

Glob-append : (w p t : Str) → Glob p t → Glob (w ++ p) (w ++ t)
Glob-append [] p t g = g
Glob-append (c ∷ w) p t g = match_byte c c (w ++ p) (w ++ t) (inl refl) (Glob-append w p t g)

all_of : (t : Str) → Glob (star ∷ []) t
all_of [] = empty [] [] nil
all_of (d ∷ t) = more d [] t (all_of t)

stops :
    (w ds : Str) (d rounds k : ℕ)
    → rounds ≡ length w + suc (suc k)
    → glob_loop rounds (w ++ star ∷ []) (w ++ star ∷ d ∷ ds) none ≡ some false
unfolding glob_loop head
stops w ds d rounds k e =
    ap (λ n. glob_loop n (w ++ star ∷ []) (w ++ star ∷ d ∷ ds) none) e
    ∙ glob_loop-append w (star ∷ []) (star ∷ d ∷ ds) (suc (suc k))

-- A pattern that ends in a wildcard refuses a command that goes on with a `*` and more where the
-- wildcard stands, though the pattern's language has it: `ls *` refuses `ls *.txt`.
glob_match-literal_star :
    (w ds : Str) (d : ℕ)
    → Glob (w ++ star ∷ []) (w ++ star ∷ d ∷ ds)
      × (glob_match (w ++ star ∷ []) (w ++ star ∷ d ∷ ds) ≡ false)
unfolding glob_match
glob_match-literal_star w ds d = (
  Glob-append w (star ∷ []) (star ∷ d ∷ ds) (all_of (star ∷ d ∷ ds)),
  (let t = length (w ++ star ∷ d ∷ ds) in
      let p = length (w ++ star ∷ []) in
      ground (
        arith,
        stops w ds d (rounds_for p t) (p + t * suc t + t - length w)
            (omega (arith, length-append w (star ∷ []), length-append w (star ∷ d ∷ ds))),
      )),
)

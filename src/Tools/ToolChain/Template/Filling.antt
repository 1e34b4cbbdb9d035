-- ===== src/Tools/ToolChain/Template/Filling.antt =====
-- What resolve_string makes of templates given by their parts.
use rav_bot.Prelude.{
  ℕ, zero, suc, ◌≤◌, ◌≡◌, refl, ap, sym, ◌∙◌, true, List, [], ◌∷◌, ◌++◌, Option, none, some, arith,
  append_assoc, append-nil, all, length, length-append, drop, subst,
}
use rav_bot.Prelude.Int.{ℤ}
use rav_bot.Prelude.Text.{Str, find, starts_with}
use rav_bot.Prelude.Decimal.{is_digit, stoi}
use rav_bot.Tools.ToolChain.Types.{ChainStepResult}
use rav_bot.Tools.ToolChain.Template.{
  prev_token, step_opening, step_closing, replace_prev, last_result, search_step, StepMatch,
  step_text, replace_steps, resolve_string,
}
use rav_bot.Tools.ToolChain.Template.Scanning.{
  no_brace, find-append, step_reference, match_step-append, search_step-none, search_step-append,
}
use mathlib.Core.Option

-- A template: texts, each but the last with a reference to a step behind it.
pub record Part : Type 0 where
  pub before : Str
  pub first : ℕ
  pub digits : Str

abbrev pub write : List Part → Str → Str
write [] last = last
write (p ∷ ps) last = p.before ++ (step_reference (p.first ∷ p.digits) ++ write ps last)

-- The texts have no braces, and the references are numerals.
abbrev pub IsTemplate : List Part → Type 0
IsTemplate [] = Unit
IsTemplate (p ∷ ps) =
    (no_brace p.before ≡ true) × (all is_digit (p.first ∷ p.digits) ≡ true) × IsTemplate ps

-- A reference replaced by the result that it names, before the rest of the text.
unfoldable pub placed : List ChainStepResult → Str → Option ℤ → Option Str → Option Str
unfolding step_text
placed rs before none rest = none
placed rs before (some index) rest = Option.map (λ t. before ++ step_text index rs ++ t) rest

-- Each reference replaced by the result that it names; `none` when an index is out of range.
unfoldable pub fill : List ChainStepResult → List Part → Str → Option Str
unfolding placed stoi
fill rs [] last = some last
fill rs (p ∷ ps) last = placed rs p.before (stoi (p.first ∷ p.digits)) (fill rs ps last)

search_step-write :
    (p : Part) (ps : List Part) (last : Str)
    → no_brace p.before ≡ true
    → all is_digit (p.first ∷ p.digits) ≡ true
    → search_step (write (p ∷ ps) last)
      ≡ some (record { prefix = p.before; digits = p.first ∷ p.digits; suffix = write ps last })
search_step-write p ps last h k =
    search_step-append p.before (p.first ∷ p.digits)
      (drop 1 (step_reference (p.first ∷ p.digits)) ++ write ps last) (write ps last) b'{' h
      (match_step-append p.first p.digits (write ps last) k)

replace_steps_found :
    (rounds : ℕ) (rs : List ChainStepResult) (working : Str) (m : StepMatch)
    → search_step working ≡ some m
    → replace_steps (suc rounds) rs working
      ≡ placed rs m.prefix (stoi m.digits) (replace_steps rounds rs m.suffix)
unfolding replace_steps placed
replace_steps_found rounds rs working m h = ground arith

pub replace_steps-none :
    (rounds : ℕ) (rs : List ChainStepResult) (working : Str)
    → search_step working ≡ none
    → replace_steps (suc rounds) rs working ≡ some working
unfolding replace_steps
replace_steps-none rounds rs working h = ground arith

pub replace_steps-write :
    (rounds : ℕ) (rs : List ChainStepResult) (ps : List Part) (last : Str)
    → length ps ≤ rounds
    → IsTemplate ps
    → no_brace last ≡ true
    → replace_steps (suc rounds) rs (write ps last) ≡ fill rs ps last
unfolding fill
replace_steps-write rounds rs [] last l h k =
    replace_steps-none rounds rs last (search_step-none last k)
replace_steps-write zero rs (p ∷ ps) last l h k = absurd (omega arith)
replace_steps-write (suc rounds) rs (p ∷ ps) last l h k =
    replace_steps_found (suc rounds) rs (write (p ∷ ps) last) _
      (search_step-write p ps last h.0 h.1)
    ∙ ap (placed rs p.before (stoi (p.first ∷ p.digits)))
        (replace_steps-write rounds rs ps last (omega arith) h.2 k)

pub length-write : (ps : List Part) (last : Str) → length ps ≤ length (write ps last)
length-write [] last = omega arith
length-write (p ∷ ps) last =
    let reference = step_reference (p.first ∷ p.digits) in
    omega (
      arith,
      length-append p.before (reference ++ write ps last),
      length-append reference (write ps last),
      length-write ps last,
    )

find-none-append :
    (p s : Str) → no_brace p ≡ true → find prev_token s ≡ none → find prev_token (p ++ s) ≡ none
find-none-append p s h k = find-append (drop 1 prev_token) p s h ∙ ap (Option.map _) k

pub find-none : (p : Str) → no_brace p ≡ true → find prev_token p ≡ none
find-none p h =
    ap (find prev_token) (sym (append-nil p))
    ∙ find-none-append p [] h (unfold find starts_with in refl)

no_brace_digits : (ds : Str) → all is_digit ds ≡ true → no_brace ds ≡ true
no_brace_digits [] h = refl
no_brace_digits (d ∷ ds) h = ground (arith, no_brace_digits ds)

find-none-opening :
    (s : Str) → find prev_token s ≡ none → find prev_token (step_opening ++ s) ≡ none
unfolding find starts_with
find-none-opening s h = rw h refl

find-write :
    (ps : List Part) (last : Str)
    → IsTemplate ps
    → no_brace last ≡ true
    → find prev_token (write ps last) ≡ none
find-write [] last h k = find-none last k
find-write (p ∷ ps) last h k =
    let ds = p.first ∷ p.digits in
    find-none-append p.before (step_reference ds ++ write ps last) h.0 (
      find-none-opening _ (
        subst (λ t. find prev_token t ≡ none) (sym (append_assoc ds step_closing (write ps last)))
          (find-none-append ds _ (no_brace_digits ds h.1)
            (find-none-append step_closing _ refl (find-write ps last h.2 k)))))

pub replace_prev-none :
    (rounds : ℕ) (replacement result : Str) → replace_prev rounds replacement result none ≡ result
unfolding replace_prev
replace_prev-none zero replacement result = refl
replace_prev-none (suc rounds) replacement result = refl

-- References to steps in a template are replaced by the results of these steps; an index that
-- does not fit an int is an exception.
resolve_string-write :
    (rs : List ChainStepResult) (ps : List Part) (last : Str)
    → IsTemplate ps
    → no_brace last ≡ true
    → resolve_string (write ps last) rs ≡ fill rs ps last
unfolding resolve_string
resolve_string-write rs ps last h k =
    rw
      (
        find-write ps last h k,
        replace_prev-none (suc (length (write ps last))) (last_result rs) (write ps last),
      )
      (replace_steps-write (length (write ps last)) rs ps last (length-write ps last) h k)

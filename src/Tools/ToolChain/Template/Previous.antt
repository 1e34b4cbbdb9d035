-- ===== src/Tools/ToolChain/Template/Previous.antt =====
-- What resolve_string puts in place of the previous result.
use rav_bot.Prelude.{
  ℕ, suc, ◌+◌, ◌≡◌, refl, ap, ◌∙◌, true, List, [], ◌∷◌, ◌++◌, none, some, arith, append_assoc,
  append-nil, length, length-append, drop, take,
}
use rav_bot.Prelude.Text.{Str, find, find-zero, starts_with-append}
use rav_bot.Tools.ToolChain.Types.{ChainStepResult}
use rav_bot.Tools.ToolChain.Template.{
  prev_token, find_from, replace_prev, last_result, replace_steps, resolve_string,
}
use rav_bot.Tools.ToolChain.Template.Scanning.{
  no_brace, drop-append, take-append, find-append, search_step-none,
}
use rav_bot.Tools.ToolChain.Template.Filling.{
  Part, write, IsTemplate, fill, find-none, replace_prev-none, replace_steps-none,
  replace_steps-write, length-write,
}
use mathlib.Core.Option

replace_prev_found :
    (rounds i : ℕ) (replacement result next : Str)
    → take i result ++ replacement ++ drop (i + length prev_token) result ≡ next
    → find prev_token (drop (i + length replacement) next) ≡ none
    → replace_prev (suc rounds) replacement result (some i) ≡ next
unfolding replace_prev find_from
replace_prev_found rounds i replacement result next h k =
    rw (h, k) (replace_prev-none rounds replacement next)

drop_more : (xs ys zs : Str) → drop (length xs + length ys) (xs ++ (ys ++ zs)) ≡ zs
drop_more xs ys zs = rw (← append_assoc xs ys zs, ← length-append xs ys) (drop-append (xs ++ ys) zs)

find_prev-append :
    (before after : Str)
    → no_brace before ≡ true
    → find prev_token (before ++ (prev_token ++ after)) ≡ some (length before)
find_prev-append before after h =
    find-append (drop 1 prev_token) before (prev_token ++ after) h
    ∙ ap (Option.map _)
        (find-zero prev_token (prev_token ++ after) (starts_with-append prev_token after))
    ∙ ground arith

-- A reference to the previous result is replaced once: the search goes on behind it.
replace_prev_once :
    (rounds : ℕ) (replacement before after : Str)
    → no_brace before ≡ true
    → no_brace after ≡ true
    → let tmpl = before ++ (prev_token ++ after) in
      replace_prev (suc rounds) replacement tmpl (find prev_token tmpl)
      ≡ before ++ replacement ++ after
replace_prev_once rounds replacement before after h k =
    ap (replace_prev (suc rounds) replacement _) (find_prev-append before after h)
    ∙ replace_prev_found rounds (length before) replacement _ (before ++ replacement ++ after)
        (rw (take-append before (prev_token ++ after), drop_more before prev_token after) refl)
        (rw (append_assoc before replacement after, drop_more before replacement after)
          (find-none after k))

resolve_string_once :
    (rs : List ChainStepResult) (before after : Str)
    → no_brace before ≡ true
    → no_brace after ≡ true
    → let result = before ++ last_result rs ++ after in
      resolve_string (before ++ (prev_token ++ after)) rs
      ≡ replace_steps (suc (length result)) rs result
unfolding resolve_string
resolve_string_once rs before after h k =
    ap (λ result. replace_steps (suc (length result)) rs result)
      (replace_prev_once _ (last_result rs) before after h k)

no_brace-append : (s t : Str) → no_brace s ≡ true → no_brace t ≡ true → no_brace (s ++ t) ≡ true
no_brace-append [] t h k = k
no_brace-append (c ∷ s) t h k = ground (arith, no_brace-append s t)

-- A reference to the previous result is replaced by it, between texts without braces, where the
-- result has no braces either.
pub resolve_string_prev :
    (rs : List ChainStepResult) (before after : Str)
    → no_brace before ≡ true
    → no_brace after ≡ true
    → no_brace (last_result rs) ≡ true
    → resolve_string (before ++ (prev_token ++ after)) rs ≡ some (before ++ last_result rs ++ after)
resolve_string_prev rs before after h k l =
    let result = before ++ last_result rs ++ after in
    resolve_string_once rs before after h k
    ∙ replace_steps-none (length result) rs result (
        search_step-none result
          (no_brace-append (before ++ last_result rs) after (no_brace-append before _ h l) k))

-- A previous result that is itself a template with references to steps is filled in as one:
-- the references in the output of a tool are replaced too, and one whose index does not fit an
-- int is an exception.
resolve_string_rescans :
    (rs : List ChainStepResult) (ps : List Part) (last : Str)
    → last_result rs ≡ write ps last
    → IsTemplate ps
    → no_brace last ≡ true
    → resolve_string prev_token rs ≡ fill rs ps last
resolve_string_rescans rs ps last e h k =
    resolve_string_once rs [] [] refl refl
    ∙ ap (λ result. replace_steps (suc (length result)) rs result) (append-nil (last_result rs) ∙ e)
    ∙ replace_steps-write (length (write ps last)) rs ps last (length-write ps last) h k

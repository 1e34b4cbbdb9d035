-- ===== src/Core/Cron/Expression.antt =====
-- The class CronExpression. `none` is the exception of std::stoi. Times are in seconds; the local
-- calendar is a parameter.
use rav_bot.Prelude.{
  ℕ, zero, suc, ◌+◌, Bool, true, false, not, ◌&&◌, List, [], ◌∷◌, ◌++◌, Option, none, some,
  if◌then◌else◌, ltb, length, take, drop, any, ◌==◌, filter, is_empty, get_elem?,
}
use rav_bot.Prelude.Int.{ℤ, pos, ◌+ℤ◌, ◌-ℤ◌, leb_ℤ, ltb_ℤ, eq_ℤ, pos_part}
use rav_bot.Prelude.Text.{Str, bytes, str_eq, starts_with, find}
use rav_bot.Prelude.Decimal.{stoi, is_space}
use mathlib.Core.Option

-- The values of a field; an empty list is the wildcard.
abbrev pub Field : Type 0
Field = List ℤ

-- for (int i = min; i <= max; i += step), with a bound on the rounds.
unfoldable pub steps_from : ℕ → ℤ → ℤ → ℤ → Field
steps_from zero i max step = []
steps_from (suc rounds) i max step =
    let rest = steps_from rounds (i +ℤ step) max step in if leb_ℤ i max then i ∷ rest else []

-- for (int i = lo; i <= hi && i <= max; ++i), with a bound on the rounds.
unfoldable pub range_from : ℕ → ℤ → ℤ → ℤ → Field
range_from zero i hi max = []
range_from (suc rounds) i hi max =
    let rest = range_from rounds (i +ℤ pos 1) hi max in
    if leb_ℤ i hi && leb_ℤ i max then i ∷ rest else []

-- Every round moves on by at least one: these are enough.
abbrev pub rounds : ℤ → ℤ → ℕ
rounds i max = suc (pos_part (max -ℤ i))

unfoldable pub range : ℤ → ℤ → ℤ → Field
unfolding range_from
range lo hi max = range_from (rounds lo max) lo hi max

-- A byte before the first token.
abbrev put_before : ℕ → List Str → List Str
put_before c [] = (c ∷ []) ∷ []
put_before c (t ∷ ts) = (c ∷ t) ∷ ts

-- The tokens that std::getline gives, up to the end or a comma.
unfoldable pub getlines : Str → List Str
getlines [] = []
getlines (c ∷ s) = let rest = getlines s in if c == b',' then [] ∷ rest else put_before c rest

unfoldable pub parse_range : Option ℤ → Option ℤ → ℤ → Option Field
unfolding range
parse_range (some lo) (some hi) max = some (range lo hi max)
parse_range lo hi max = none

unfoldable pub parse_token : ℤ → Str → Option Field
unfolding stoi find parse_range
parse_token max token = elim (find (b'-' ∷ []) token) [
  | some dash ↦ parse_range (stoi (take dash token)) (stoi (drop (suc dash) token)) max
  | none ↦ Option.map (λ i. i ∷ []) (stoi token)
]

unfoldable pub append_field : Option Field → Option Field → Option Field
append_field (some values) (some rest) = some (values ++ rest)
append_field values rest = none

-- The loop over the tokens.
unfoldable pub parse_tokens : ℤ → List Str → Option Field
unfolding parse_token append_field
parse_tokens max [] = some []
parse_tokens max (t ∷ ts) = append_field (parse_token max t) (parse_tokens max ts)

unfoldable pub parse_step : ℤ → ℤ → Option ℤ → Option Field
unfolding steps_from
parse_step min max none = none
parse_step min max (some step) =
    some (if ltb_ℤ (pos 0) step then steps_from (rounds min max) min max step else [])

unfoldable pub parse_field : Str → ℤ → ℤ → Option Field
unfolding parse_step parse_tokens getlines stoi str_eq starts_with
parse_field field min max =
    if str_eq field (bytes "*")
    then some []
    else if ltb 2 (length field) && starts_with (bytes "*/") field
    then parse_step min max (stoi (drop 2 field))
    else parse_tokens max (getlines field)

unfoldable pub field_matches : Field → ℤ → Bool
field_matches [] value = true
field_matches (v ∷ vs) value = any (λ i. eq_ℤ i value) (v ∷ vs)

pub record CronExpression : Type 0 where
  pub minute : Field
  pub hour : Field
  pub day_of_month : Field
  pub month : Field
  pub day_of_week : Field

-- The text cut at its white space.
unfoldable pub cut_at_spaces : Str → List Str
cut_at_spaces [] = []
cut_at_spaces (c ∷ s) =
    let rest = cut_at_spaces s in if is_space c then [] ∷ rest else put_before c rest

-- The words that `ss >> word` gives.
unfoldable pub words : Str → List Str
unfolding cut_at_spaces
words s = filter (λ w. not (is_empty w)) (cut_at_spaces s)

-- The i-th field, or a star.
unfoldable pub nth_field : ℕ → List Str → Str
nth_field i ws = elim (get_elem? ws i) [ none ↦ bytes "*" | some w ↦ w ]

unfoldable pub make_expression :
    Option Field → Option Field → Option Field → Option Field → Option Field → Option CronExpression
make_expression (some m) (some h) (some d) (some n) (some w) =
    some (record { minute = m; hour = h; day_of_month = d; month = n; day_of_week = w })
make_expression m h d n w = none

unfoldable pub parse : Str → Option CronExpression
unfolding parse_field words nth_field make_expression
parse expr =
    let fields = words expr in
    make_expression (parse_field (nth_field 0 fields) (pos 0) (pos 59))
      (parse_field (nth_field 1 fields) (pos 0) (pos 23))
      (parse_field (nth_field 2 fields) (pos 1) (pos 31))
      (parse_field (nth_field 3 fields) (pos 1) (pos 12))
      (parse_field (nth_field 4 fields) (pos 0) (pos 6))

-- std::tm, as far as it is read here and by mktime.
pub record Tm : Type 0 where
  pub tm_sec : ℤ
  pub tm_min : ℤ
  pub tm_hour : ℤ
  pub tm_mday : ℤ
  pub tm_mon : ℤ
  pub tm_year : ℤ
  pub tm_wday : ℤ
  pub tm_isdst : ℤ

-- The local calendar: localtime_r, and mktime, which normalizes its argument and returns a time.
pub record Calendar : Type 0 where
  pub localtime : ℕ → Tm
  pub mktime : Tm → Tm × ℕ

-- The minute after a time.
unfoldable pub minute_after : Calendar → ℕ → Tm
minute_after cal after =
    let tm = cal.localtime after in
    (cal.mktime (record tm { tm_sec = pos 0; tm_min = tm.tm_min +ℤ pos 1 })).0

unfoldable pub next_minute : Calendar → Tm → Tm
next_minute cal tm = (cal.mktime (record tm { tm_min = tm.tm_min +ℤ pos 1 })).0

unfoldable pub matches : CronExpression → Tm → Bool
unfolding field_matches
matches e tm =
    field_matches e.minute tm.tm_min
    && field_matches e.hour tm.tm_hour
    && field_matches e.day_of_month tm.tm_mday
    && field_matches e.month (tm.tm_mon +ℤ pos 1)
    && field_matches e.day_of_week tm.tm_wday

-- The loop with `n` rounds left.
unfoldable pub search_minutes : Calendar → CronExpression → ℕ → Tm → Option ℕ
unfolding matches next_minute
search_minutes cal e zero tm = none
search_minutes cal e (suc n) tm = elim (matches e tm) [
  | true ↦ some ((cal.mktime tm).1)
  | false ↦ search_minutes cal e n (next_minute cal tm)
]

-- The bound of the loop, in minutes; 366 days would have 527040.
abbrev pub search_limit : ℕ
search_limit = 525_960

unfoldable pub next_after : Calendar → CronExpression → ℕ → ℕ
unfolding search_minutes minute_after
next_after cal e after = elim (search_minutes cal e search_limit (minute_after cal after)) [
  | some t ↦ t
  | none ↦ after + 3_600
]

-- ===== src/Core/Cron/Removal.antt =====
-- Which job RemoveJob removes.
use rav_bot.Prelude.{
  ℕ, suc, ◌+◌, ◌≡◌, refl, sym, ap, ◌∙◌, Bool, true, false, List, [], ◌∷◌, ◌++◌, append_assoc,
  append-nil, ◌==◌, Bool-cases, inl, inr, Option, none, some, arith, if◌then◌else◌, length, any,
  filter,
}
use rav_bot.Prelude.Text.{Str, str_eq}
use rav_bot.Core.Cron.Scheduler.{
  CronJob, erase_at, is_proper_prefix, Scan, exact, prefixes, scan, erase_found, remove_job,
}

-- The list without its first element that passes the test.
abbrev pub drop_first : (CronJob → Bool) → List CronJob → List CronJob
drop_first p [] = []
drop_first p (j ∷ js) = let rest = drop_first p js in if p j then js else j ∷ rest

abbrev pub has_id : Str → CronJob → Bool
has_id id j = str_eq j.id id

abbrev pub extends_id : Str → CronJob → Bool
extends_id id j = is_proper_prefix id j.id

-- What RemoveJob is to do with a list in which some job has the identifier, or none.
abbrev pub removal : Str → List CronJob → Bool × List CronJob
removal id jobs =
    if any (has_id id) jobs
    then (true, drop_first (has_id id) jobs)
    else if length (filter (extends_id id) jobs) == 1
    then (true, drop_first (extends_id id) jobs)
    else (false, jobs)

-- The indices, from `i` on, of the jobs that the identifier is a proper prefix of.
abbrev indices : Str → ℕ → List CronJob → List ℕ
indices id i [] = []
indices id i (j ∷ js) =
    let rest = indices id (suc i) js in if extends_id id j then i ∷ rest else rest

-- The index of the first job with the identifier.
abbrev first_index : Str → ℕ → List CronJob → Option ℕ
first_index id i [] = none
first_index id i (j ∷ js) =
    let rest = first_index id (suc i) js in if has_id id j then some i else rest

scanned : Option ℕ → List ℕ → Scan
scanned (some i) found = exact i
scanned none found = prefixes found

scan-indices :
    (id : Str) (i : ℕ) (jobs : List CronJob) (found : List ℕ)
    → scan id i jobs found ≡ scanned (first_index id i jobs) (found ++ indices id i jobs)
unfolding scan scanned
scan-indices id i [] found = ap prefixes (sym (append-nil found))
scan-indices id i (j ∷ js) found = ground (
  arith,
  scan-indices id (suc i) js found,
  scan-indices id (suc i) js (found ++ i ∷ []),
  append_assoc found (i ∷ []) (indices id (suc i) js),
)

position : (CronJob → Bool) → List CronJob → ℕ
position p [] = 0
position p (j ∷ js) = let rest = position p js in if p j then 0 else suc rest

first_index-position :
    (id : Str) (i : ℕ) (jobs : List CronJob)
    → first_index id i jobs
      ≡ (if any (has_id id) jobs then some (i + position (has_id id) jobs) else none)
unfolding position
first_index-position id i [] = refl
first_index-position id i (j ∷ js) = ground (arith, first_index-position id (suc i) js)

erase_at-position :
    (p : CronJob → Bool) (jobs : List CronJob) → erase_at (position p jobs) jobs ≡ drop_first p jobs
unfolding position
erase_at-position p [] = refl
erase_at-position p (j ∷ js) = ground (arith, erase_at-position p js)

length-indices :
    (id : Str) (i : ℕ) (jobs : List CronJob)
    → length (indices id i jobs) ≡ length (filter (extends_id id) jobs)
length-indices id i [] = refl
length-indices id i (j ∷ js) = ground (arith, length-indices id (suc i) js)

nil_of_length : {A : Type 0} (xs : List A) → length xs ≡ 0 → xs ≡ []
nil_of_length [] h = refl
nil_of_length (x ∷ xs) h = absurd (omega (arith, h))

indices_one :
    (id : Str) (i : ℕ) (jobs : List CronJob)
    → length (filter (extends_id id) jobs) ≡ 1
    → indices id i jobs ≡ (i + position (extends_id id) jobs) ∷ []
unfolding position
indices_one id i [] h = absurd (omega (arith, h))
indices_one id i (j ∷ js) h = ground (
  arith,
  indices_one id (suc i) js,
  length-indices id (suc i) js,
  nil_of_length (indices id (suc i) js),
)

erase_found_many :
    (found : List ℕ) (jobs : List CronJob)
    → (length found == 1) ≡ false
    → erase_found (prefixes found) jobs ≡ (false, jobs)
unfolding erase_found
erase_found_many [] jobs h = refl
erase_found_many (i ∷ []) jobs h = ground arith
erase_found_many (i ∷ k ∷ found) jobs h = refl

erase_found-scanned :
    (id : Str) (jobs : List CronJob)
    → erase_found (scanned (first_index id 0 jobs) (indices id 0 jobs)) jobs ≡ removal id jobs
unfolding erase_found scanned
erase_found-scanned id jobs = elim (Bool-cases (any (has_id id) jobs)) [
  | inl e ↦ ground (arith, first_index-position id 0 jobs, erase_at-position (has_id id) jobs)
  | inr e ↦ elim (Bool-cases (length (filter (extends_id id) jobs) == 1)) [
    | inl one ↦ ground (
      arith,
      first_index-position id 0 jobs,
      indices_one id 0 jobs,
      erase_at-position (extends_id id) jobs,
    )
    | inr many ↦ ground (
      arith,
      first_index-position id 0 jobs,
      length-indices id 0 jobs,
      erase_found_many (indices id 0 jobs) jobs,
    )
  ]
]

-- RemoveJob with a non-empty identifier removes the first job that has it; if there is none, it
-- removes the job whose identifier it is a proper prefix of, if that is one job; otherwise it
-- changes nothing and returns false.
pub remove_job-removal :
    (c : ℕ) (id : Str) (jobs : List CronJob) → remove_job (c ∷ id) jobs ≡ removal (c ∷ id) jobs
unfolding remove_job
remove_job-removal c id jobs =
    ap (λ s. erase_found s jobs) (scan-indices (c ∷ id) 0 jobs [])
    ∙ erase_found-scanned (c ∷ id) jobs

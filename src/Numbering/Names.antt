-- ===== src/Numbering/Names.antt =====
-- The names of runs, the mark of the highest number, and `main` of iterate_run_num.py.
use daq_control_vmm_beam.Base.{
  ℕ, zero, suc, ◌+◌, ◌/◌, ◌%◌, ltb, leb, Bool, false, not, ◌&&◌, ◌||◌, Option, none, some, List, [],
  ◌∷◌, ◌++◌, if◌then◌else◌, Text, text_eq, any, to_nat?,
}

-- `f'{n}'`, with as many divisions as asked for; `suc n` of them are enough.
unfoldable pub digits : ℕ → ℕ → Text → Text
digits zero n acc = acc
digits (suc fuel) n acc =
    let more = digits fuel (n / 10) ((b'0' + n % 10) ∷ acc) in
    if ltb n 10 then (b'0' + n) ∷ acc else more

-- `f"{base}_{n}"`
unfoldable pub numbered : Text → ℕ → Text
numbered base n = base ++ (b'_' ∷ digits (suc n) n [])

-- `re.match(r'^(.*?)_(\d+)$', name)`: the shortest base whose rest is a number; `seen` is the base so
-- far.
unfoldable pub split_number_from : Text → Text → Option (Text × ℕ)
split_number_from seen [] = none
split_number_from seen (c ∷ rest) =
    let later = split_number_from (seen ++ (c ∷ [])) rest in
    if text_eq (c ∷ []) (b'_' ∷ [])
    then elim (to_nat? rest) [ some n ↦ some (seen, n) | none ↦ later ]
    else later

unfoldable pub split_number : Text → Option (Text × ℕ)
split_number name = split_number_from [] name

-- The configuration, the directories of runs, and the mark. `completed` are the sub-runs with a marker in
-- the directory of the run that is named.
pub record RunSite : Type 0 where
  pub run_name : Text
  pub resume : Bool
  pub sub_runs : List Text
  pub completed : List Text
  pub run_dirs : List Text
  pub highwater : ℕ

abbrev pub is_dir : Text → RunSite → Bool
is_dir name s = any (text_eq name) s.run_dirs

-- `_set_highwater`
unfoldable pub set_highwater : ℕ → RunSite → RunSite
set_highwater n s = if ltb s.highwater n then record s { highwater = n } else s

abbrev pub is_used_up : Option (Text × ℕ) → RunSite → Bool
is_used_up none s = false
is_used_up (some (_, n)) s = leb n s.highwater

abbrev pub mark_current : Option (Text × ℕ) → RunSite → RunSite
mark_current none s = s
mark_current (some (_, n)) s = set_highwater n s

-- Where the search starts.
abbrev pub next_number : Text → Option (Text × ℕ) → Text × ℕ
next_number name none = (name, 1)
next_number name (some (base, n)) = (base, n + 1)

-- The loop: `none` where the tries are used up.
unfoldable pub free_number : RunSite → Text → ℕ → ℕ → Option ℕ
free_number s base zero n = none
free_number s base (suc tries) n =
    let later = free_number s base tries (n + 1) in
    if is_dir (numbered base n) s || leb n s.highwater then later else some n

pub data Numbered : Type 0 where
  keeps_name resumes_run searches : Numbered
  renames : Text → ℕ → Numbered

abbrev pub rename : Text → Option ℕ → RunSite → Numbered × RunSite
rename base none s = (searches, s)
rename base (some n) s = (renames base n, set_highwater n (record s { run_name = numbered base n }))

-- `incomplete`, as a test.
unfoldable pub is_incomplete : RunSite → Bool
is_incomplete s = any (λ r. not (any (text_eq r) s.completed)) s.sub_runs

-- What follows where the name is taken.
unfoldable pub resume_or_search : ℕ → RunSite → Numbered × RunSite
resume_or_search tries s =
    let start = next_number s.run_name (split_number s.run_name) in
    if s.resume && is_incomplete s
    then (resumes_run, s)
    else rename start.0 (free_number s start.0 tries start.1) s

unfoldable pub is_unused : RunSite → Bool
is_unused s = not (is_dir s.run_name s) && not (is_used_up (split_number s.run_name) s)

-- `main`
unfoldable pub iterate_run : ℕ → RunSite → Numbered × RunSite
iterate_run tries s =
    if is_unused s
    then (keeps_name, mark_current (split_number s.run_name) s)
    else resume_or_search tries s

-- ===== src/Space/Disk.antt =====
-- The local run store as flask_app/space_manager.py sees it: the entries of the runs root with
-- the answers that the file system gives about them, and the maps from paths to sizes.
use daq_control_vmm_beam.Base.{
  ℕ, ◌+◌, ◌-◌, ◌*◌, Bool, false, not, ◌&&◌, ◌||◌, Option, none, some, List, [], ◌∷◌, if◌then◌else◌,
  ltb, leb, Text, codes, text_eq, strip_prefix?, is_digit,
}
use daq_control_vmm_beam.Base.Dict.{Dict, put}

-- One entry of `root.rglob('*')`, with its path relative to `root`. `readable` is false where
-- asking about it raises OSError.
pub record FileEntry : Type 0 where
  pub path : Text
  pub size : ℕ
  pub is_file : Bool
  pub is_symlink : Bool
  pub readable : Bool

-- One entry of the runs root. `resolves` is false where `resolve()` raises OSError, `under_root`
-- is whether the resolved path stands directly under the resolved root, `mtime` is `none` where
-- `stat()` raises, and `subdirs` are the names of the directories in it, sorted, with `none` where
-- listing them or asking whether an entry is a directory raises.
pub record RunDir : Type 0 where
  pub name : Text
  pub is_dir : Bool
  pub is_symlink : Bool
  pub resolves : Bool
  pub under_root : Bool
  pub mtime : Option ℕ
  pub subdirs : List (Option Text)
  pub files : List FileEntry

-- `active` is the run named in config/current_run_state.json, empty if there is none.
pub record Disk : Type 0 where
  pub runs : List RunDir
  pub active : Text

abbrev pub SizeMap : Type 0
SizeMap = Dict ℕ

unfoldable pub find_run : Text → List RunDir → Option RunDir
find_run run [] = none
find_run run (r ∷ rs) = if text_eq r.name run then some r else find_run run rs

-- The loop of `_local_size_map`.
unfoldable pub local_sizes_from : SizeMap → List FileEntry → SizeMap
local_sizes_from out [] = out
local_sizes_from out (f ∷ fs) =
    local_sizes_from
      (if f.readable && (f.is_file && not f.is_symlink) then put f.path f.size out else out) fs

unfoldable pub local_size_map : RunDir → SizeMap
unfolding local_sizes_from
local_size_map r = local_sizes_from [] r.files

-- `sum(local.values())`
unfoldable pub total_size : SizeMap → ℕ
total_size [] = 0
total_size ((_, size) ∷ m) = size + total_size m

unfoldable pub dir_size_from : ℕ → List FileEntry → ℕ
dir_size_from total [] = total
dir_size_from total (f ∷ fs) =
    dir_size_from (if f.readable && (f.is_file && not f.is_symlink) then total + f.size else total)
      fs

unfoldable pub dir_size : RunDir → ℕ
unfolding dir_size_from
dir_size r = dir_size_from 0 r.files

-- One or more digits up to the end, where `$` lets one newline stand.
unfoldable pub digits_to_end : Text → Bool
digits_to_end [] = false
digits_to_end (c ∷ []) = is_digit c
digits_to_end (c ∷ d ∷ s) = is_digit c && (text_eq (d ∷ s) (codes "\n") || digits_to_end (d ∷ s))

-- `RUN_NAME_RE.match(name)`, for names of ASCII letters.
unfoldable pub is_run_name : Text → Bool
unfolding strip_prefix? digits_to_end
is_run_name name = elim (strip_prefix? (codes "run_") name) [
  | none ↦ false
  | some s ↦ digits_to_end s
]

-- `int` of the digits at the head of a text, the part before them read.
unfoldable pub leading_number : ℕ → Text → ℕ
leading_number n [] = n
leading_number n (c ∷ s) =
    let more = leading_number (n * 10 + (c - b'0')) s in if is_digit c then more else n

-- `_run_num`, plus one: 0 stands for -1, the answer for a name with no digit.
unfoldable pub run_num : Text → ℕ
unfolding leading_number
run_num [] = 0
run_num (c ∷ s) = let more = run_num s in if is_digit c then leading_number 0 (c ∷ s) + 1 else more

-- `sorted(…, key=_run_num)` by insertion, which is stable as `sorted` is.
unfoldable pub insert_by_num : Text → List Text → List Text
insert_by_num n [] = n ∷ []
insert_by_num n (m ∷ ms) =
    let rest = insert_by_num n ms in if leb (run_num n) (run_num m) then n ∷ m ∷ ms else m ∷ rest

unfoldable pub sort_by_num : List Text → List Text
unfolding insert_by_num
sort_by_num [] = []
sort_by_num (n ∷ ns) = insert_by_num n (sort_by_num ns)

unfoldable pub run_names : List RunDir → List Text
run_names [] = []
run_names (r ∷ rs) =
    let rest = run_names rs in if r.is_dir && is_run_name r.name then r.name ∷ rest else rest

unfoldable pub list_runs : Disk → List Text
unfolding sort_by_num run_names run_num is_run_name
list_runs d = sort_by_num (run_names d.runs)

-- One round of the loop of `newest_run`: the name and the time of the newest run so far. A time `t`
-- is held as `t + 1`, so that the 0 of the start is below every time.
unfoldable pub newest_step : Text × ℕ → RunDir → Text × ℕ
newest_step (newest, newest_t) r =
    if r.is_dir && is_run_name r.name
    then elim r.mtime [
      | none ↦ (newest, newest_t)
      | some t ↦ if ltb newest_t (t + 1) then (r.name, t + 1) else (newest, newest_t)
    ]
    else (newest, newest_t)

unfoldable pub newest_from : Text × ℕ → List RunDir → Text × ℕ
unfolding newest_step
newest_from best [] = best
newest_from best (r ∷ rs) = newest_from (newest_step best r) rs

unfoldable pub newest_run : Disk → Text
unfolding newest_from
newest_run d = (newest_from ([], 0) d.runs).0

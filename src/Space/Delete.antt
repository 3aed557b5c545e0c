-- ===== src/Space/Delete.antt =====
-- `delete_run` and `delete_runs` of flask_app/space_manager.py, and the sweep of prune_backed_up.py.
use daq_control_vmm_beam.Base.{
  ℕ, ◌+◌, Bool, true, false, not, none, some, List, [], ◌∷◌, if◌then◌else◌, leb, Text, codes,
  text_eq,
}
use daq_control_vmm_beam.Space.Disk.{
  RunDir, Disk, find_run, dir_size, is_run_name, list_runs, newest_run,
}
use daq_control_vmm_beam.Space.Verify.{Site, Verdict, verify_run, apply_local_guards}

pub data Deletion : Type 0 where
  unknown_disk invalid_name cannot_resolve is_link not_directory outside_root : Deletion
  not_safe : Verdict → Deletion
  delete_failed : Deletion
  deleted : ℕ → Deletion

unfoldable pub remove_run : Text → List RunDir → List RunDir
remove_run run [] = []
remove_run run (r ∷ rs) =
    let rest = remove_run run rs in if text_eq r.name run then rest else r ∷ rest

-- What an `rmtree` that raised has left in the place of the run.
unfoldable pub replace_run : Text → RunDir → List RunDir → List RunDir
replace_run run left [] = []
replace_run run left (r ∷ rs) =
    let rest = replace_run run left rs in if text_eq r.name run then left ∷ rest else r ∷ rest

-- The verdict on which `delete_run` and the sweep decide.
unfoldable pub judge_run : Site → Disk → Text → Verdict
unfolding verify_run apply_local_guards
judge_run site d run = apply_local_guards d (verify_run site d run) run d.active (newest_run d)

-- `shutil.rmtree` of the verified directory.
unfoldable pub remove_tree : Site → Disk → Text → RunDir → Deletion × Disk
unfolding remove_run replace_run dir_size
remove_tree site d run r = elim (site.rmtree r) [
  | none ↦ (deleted (dir_size r), record d { runs = remove_run run d.runs })
  | some left ↦ (delete_failed, record d { runs = replace_run run left d.runs })
]

-- The guards on the path, in the order of the code.
unfoldable pub delete_dir : Site → Disk → Text → RunDir → Deletion × Disk
unfolding remove_tree judge_run
delete_dir site d run r =
    if not r.resolves
    then (cannot_resolve, d)
    else if r.is_symlink
    then (is_link, d)
    else if not r.is_dir
    then (not_directory, d)
    else if not r.under_root
    then (outside_root, d)
    else let verdict = judge_run site d run in
      if not verdict.safe then (not_safe verdict, d) else remove_tree site d run r

unfoldable pub delete_run : Site → Disk → Text → Text → Deletion × Disk
unfolding delete_dir is_run_name find_run
delete_run site d disk run =
    if not (text_eq disk (codes "data"))
    then (unknown_disk, d)
    else if not (is_run_name run)
    then (invalid_name, d)
    else elim (find_run run d.runs) [ none ↦ (not_directory, d) | some r ↦ delete_dir site d run r ]

abbrev pub freed_by : Deletion → ℕ
freed_by (deleted size) = size
freed_by _ = 0

-- The loop of `delete_runs`, with the results and the bytes freed.
unfoldable pub delete_runs : Site → Disk → Text → List Text → List Deletion × ℕ × Disk
delete_runs site d disk [] = ([], 0, d)
delete_runs site d disk (run ∷ runs) =
    let (r, d') = delete_run site d disk run in
    let (rs, freed, d'') = delete_runs site d' disk runs in (r ∷ rs, freed_by r + freed, d'')

-- How a sweep ends: it goes through its list, or the log line after a deletion raises because the
-- free space cannot be read any more.
pub record Swept : Type 0 where
  pub disk : Disk
  pub freed : ℕ
  pub raised : Bool

-- `free_gb` against a mark; a mark in GB is held in bytes.
abbrev pub has_free : Site → Disk → ℕ → Bool
has_free site d mark = elim (site.free d) [ none ↦ true | some free ↦ leb mark free ]

-- The count after a deletion, and the log line that reads the free space.
unfoldable pub after_deletion : Site → ℕ → ℕ → Deletion × Disk → Swept
after_deletion site freed size (deleted _, d) = record {
  disk = d;
  freed = freed + size;
  raised = elim (site.free d) [ none ↦ true | some _ ↦ false ];
}
after_deletion site freed size (_, d) = record { disk = d; freed = freed; raised = false }

-- The body of the loop of `sweep` for one run, past the test of the target.
unfoldable pub sweep_one : Site → Bool → ℕ → Text → Disk → Swept
unfolding after_deletion
sweep_one site dry freed run d =
    let v = judge_run site d run in
    if not v.safe
    then record { disk = d; freed = freed; raised = false }
    else if dry
    then record { disk = d; freed = freed; raised = false }
    else after_deletion site freed v.size (delete_run site d (codes "data") run)

-- The loop of `sweep`.
unfoldable pub sweep_loop : Site → ℕ → Bool → ℕ → List Text → Disk → Swept
unfolding sweep_one
sweep_loop site target dry freed [] d = record { disk = d; freed = freed; raised = false }
sweep_loop site target dry freed (run ∷ runs) d =
    let s = sweep_one site dry freed run d in
    let rest = sweep_loop site target dry s.freed runs s.disk in
    if has_free site d target
    then record { disk = d; freed = freed; raised = false }
    else if s.raised
    then s
    else rest

unfoldable pub sweep : Site → ℕ → ℕ → Bool → Disk → Swept
unfolding sweep_loop
sweep site low target dry d =
    if has_free site d low
    then record { disk = d; freed = 0; raised = false }
    else sweep_loop site target dry 0 (list_runs d) d

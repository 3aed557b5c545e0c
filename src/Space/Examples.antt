-- ===== src/Space/Examples.antt =====
-- Runs of the space manager over a small store, and its theorems at concrete data.
use daq_control_vmm_beam.Base.{
  ℕ, ◌≡◌, refl, true, false, none, some, [], ◌∷◌, arith, Text, codes, text_eq, text_eq_refl,
}
use daq_control_vmm_beam.Base.Dict.{lookup, put, lookup-put}
use daq_control_vmm_beam.Space.Disk.{
  FileEntry, RunDir, Disk, local_size_map, list_runs, newest_run, total_size,
}
use daq_control_vmm_beam.Space.Listing.{Listing, printed, remote_size_map}
use daq_control_vmm_beam.Space.Verify.{Site, incomplete_subruns, has_file}
use daq_control_vmm_beam.Space.Delete.{deleted, delete_run, sweep}
use daq_control_vmm_beam.Space.Deleted.{IsDeletion, delete_run-deleted, is_refusal}
use daq_control_vmm_beam.Space.Swept.{IsKept, sweep-IsKept}
use daq_control_vmm_beam.Space.Restore.{Copier, Target, restore_run}
use daq_control_vmm_beam.Space.Restored.{IsFaithful, restore_run_complete}

abbrev file : Text → ℕ → FileEntry
file path size = record {
  path = path;
  size = size;
  is_file = true;
  is_symlink = false;
  readable = true;
}

abbrev run_dir : Text → ℕ → RunDir
run_dir name t = record {
  name = name;
  is_dir = true;
  is_symlink = false;
  resolves = true;
  under_root = true;
  mtime = some t;
  subdirs = some (codes "s") ∷ [];
  files = file (codes "s/a") 3 ∷ file (codes "s/.subrun_complete") 20 ∷ [];
}

abbrev store : Disk
store = record {
  runs = run_dir (codes "run_1") 5 ∷ run_dir (codes "run_2") 9 ∷ [];
  active = codes "run_3";
}

abbrev listing : Listing
listing = printed (
    codes "-rw-r--r-- u g 3 2026-07-01 00:00:00 /eos/runs/run_1/s/a"
    ∷ codes "-rw-r--r-- u g 20 2026-07-01 00:00:00 /eos/runs/run_1/s/.subrun_complete"
    ∷ [])

abbrev site : Site
site = record {
  eos_runs = codes "/eos/runs";
  xrdfs = λ _. listing;
  free = λ _. some 10;
  rmtree = λ _. none;
}

deletes_old : (delete_run site store (codes "data") (codes "run_1")).0 ≡ deleted 23
unfolding delete_run local_size_map lookup put total_size remote_size_map newest_run text_eq
    incomplete_subruns has_file
deletes_old = refl

refuses_newest : is_refusal (delete_run site store (codes "data") (codes "run_2")).0 ≡ true
unfolding delete_run local_size_map lookup put total_size remote_size_map newest_run text_eq
    incomplete_subruns has_file
refuses_newest = refl

-- A sweep takes the older run only.
sweeps_one : (sweep site 100 200 false store).disk.runs ≡ run_dir (codes "run_2") 9 ∷ []
unfolding sweep list_runs delete_run local_size_map lookup put total_size remote_size_map newest_run
    text_eq incomplete_subruns has_file
sweeps_one = refl

delete_run-deleted_example :
    IsDeletion site store
      (codes "data")
      (codes "run_1")
      23
      (delete_run site store (codes "data") (codes "run_1")).1
delete_run-deleted_example =
    delete_run-deleted site store (codes "data") (codes "run_1") 23 deletes_old

sweep-IsKept_example : IsKept site store (sweep site 100 200 false store).disk
sweep-IsKept_example = sweep-IsKept site (λ _. refl) 100 200 false store

abbrev copier : Copier
copier rel size files = (true, put rel size files)

copier-IsFaithful : IsFaithful copier
copier-IsFaithful = record {
  arrives = λ rel size files h. rw (lookup-put rel rel size files, text_eq_refl rel);
  spares = λ rel other size files h. rw (lookup-put rel other size files, h);
}

abbrev here : Target
here = record {
  active = codes "run_3";
  remote = some ((codes "s/a", 3) ∷ (codes "s/.subrun_complete", 20) ∷ []);
  free = none;
  files = (codes "s/a", 2) ∷ [];
}

restore_run_complete_example :
    lookup (codes "s/a") (restore_run copier here (codes "run_1")).1 ≡ some 3
unfolding restore_run lookup put total_size remote_size_map text_eq
restore_run_complete_example =
    restore_run_complete copier copier-IsFaithful here (codes "run_1") (codes "/eos/runs/run_1")
      listing ((codes "s/a", 3) ∷ (codes "s/.subrun_complete", 20) ∷ []) (codes "s/a") 3 refl refl
      refl refl (omega arith)

-- The only file that is missing here is empty.
abbrev hollow : Target
hollow = record here { remote = some ((codes "s/a", 2) ∷ (codes "s/log", 0) ∷ []) }

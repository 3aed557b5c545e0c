-- ===== src/Backup/Examples.antt =====
-- A sub-run that grows and rests, and the theorems about backup_watcher.py at concrete data.
use daq_control_vmm_beam.Base.{
  ℕ, ◌≡◌, refl, true, false, none, some, List, [], ◌∷◌, Text, codes, text_eq, text_eq_refl,
  text_eq_iff, All, arith, not, ◌==◌,
}
use daq_control_vmm_beam.Base.Dict.{lookup, put, lookup-put}
use daq_control_vmm_beam.Backup.Polls.{
  RunLook, BackupConfig, fresh_backup, key_of, is_size, poll_subrun, poll_subruns, run_is_stale,
  poll_run, poll_runs, poll_rounds, BackupRound, poll_round, reconcile, swept_runs,
}
use daq_control_vmm_beam.Backup.Copied.{IsSound, poll_rounds-IsSound}
use daq_control_vmm_beam.Space.Disk.{FileEntry, SizeMap}
use daq_control_vmm_beam.Backup.Sync.{
  Xrdcp, sync_tree, IsFaithful, IsTrue, IsBackedUp, sync_tree-IsBackedUp,
}

abbrev all_runs : BackupConfig
all_runs = record {
  stale_run_days = 10;
  reconcile_interval = 100;
  include_runs = none;
  exclude_runs = [];
}

abbrev look_at : ℕ → ℕ → ℕ → RunLook
look_at t mtime size = record {
  run = codes "run_7";
  now = t;
  subruns = record { subrun = codes "scan"; dir_bytes = size; mtime = mtime } ∷ [];
}

abbrev round_at : ℕ → ℕ → ℕ → BackupRound
round_at t mtime size = record {
  at = t;
  can_copy = true;
  looks = look_at t mtime size ∷ [];
  copies_well = λ key n. not (t == 90);
}

-- 100 bytes, then 300, at rest, copied once though the first try fails; 400 after an edit, copied again.
abbrev rounds : List BackupRound
rounds =
    round_at 30 20 100
    ∷ round_at 60 50 300
    ∷ round_at 90 50 300
    ∷ round_at 120 50 300
    ∷ round_at 150 140 400
    ∷ round_at 180 140 400
    ∷ []

copied_at_rest :
    (poll_rounds all_runs rounds (fresh_backup [])).copies
    ≡ (key_of (codes "run_7") (codes "scan"), 400)
      ∷ (key_of (codes "run_7") (codes "scan"), 300)
      ∷ []
unfolding poll_rounds poll_round poll_runs poll_run poll_subruns poll_subrun run_is_stale lookup put
    text_eq reconcile swept_runs
copied_at_rest = refl

-- The first idle round sweeps, and a later one after the interval.
swept_when_idle :
    (poll_rounds all_runs rounds (fresh_backup [])).sweeps
    ≡ (150, codes "run_7" ∷ []) ∷ (30, codes "run_7" ∷ []) ∷ []
unfolding poll_rounds poll_round poll_runs poll_run poll_subruns poll_subrun run_is_stale lookup put
    text_eq reconcile swept_runs
swept_when_idle = refl

poll_rounds-IsSound_example : IsSound all_runs [] (poll_rounds all_runs rounds (fresh_backup []))
poll_rounds-IsSound_example =
    poll_rounds-IsSound all_runs [] rounds (fresh_backup [])
      (record { recorded = λ k. refl; frugal = tt; dated = refl; spaced = tt })

a_is_not_b : text_eq (codes "a") (codes "b") ≡ false
unfolding text_eq
a_is_not_b = refl

abbrev entry : Text → ℕ → FileEntry
entry name n = record { path = name; size = n; is_file = true; is_symlink = false; readable = true }

abbrev tree : List FileEntry
tree = entry (codes "a") 10 ∷ entry (codes "b") 20 ∷ []

-- "a" is there, "b" at another size.
abbrev on_eos : SizeMap
on_eos = (codes "a", 10) ∷ (codes "b", 15) ∷ []

abbrev good_xrdcp : Xrdcp
good_xrdcp k n m = (true, put k n m)

good_xrdcp-IsFaithful : IsFaithful good_xrdcp
good_xrdcp-IsFaithful = record {
  lands = λ k n m e. ground (arith, lookup-put k k n m, text_eq_refl k);
  keeps = λ k n m j d. ground (arith, lookup-put k j n m, text_eq_iff k j);
}

on_eos-IsTrue : (k : Text) → IsTrue on_eos on_eos k
on_eos-IsTrue k n e =
    elim (lookup k on_eos) as (λ o. is_size o n ≡ true → o ≡ some n) [
      | none ↦ λ h. ground arith
      | some m ↦ λ h. ground arith
    ]
      e

tree_syncs : (sync_tree good_xrdcp on_eos tree on_eos).0 ≡ true
unfolding sync_tree lookup text_eq
tree_syncs = refl

sync_tree-IsBackedUp_example : All (IsBackedUp (sync_tree good_xrdcp on_eos tree on_eos).1) tree
sync_tree-IsBackedUp_example =
    sync_tree-IsBackedUp good_xrdcp good_xrdcp-IsFaithful on_eos tree on_eos
      (((λ e. ground (arith, text_eq_iff (codes "a") (codes "b"), a_is_not_b)), tt), (tt, tt))
      (on_eos-IsTrue (codes "a"), (on_eos-IsTrue (codes "b"), tt)) tree_syncs

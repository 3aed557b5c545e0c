-- ===== src/Backup/Polls.antt =====
-- The loop of `run_watcher` in backup_watcher.py: the per-sub-run sync, the mark on stale runs, and the
-- full-reconcile sweep.
use daq_control_vmm_beam.Base.{
  ℕ, ◌+◌, ◌*◌, ltb, leb, ◌==◌, Bool, true, false, not, ◌&&◌, ◌||◌, Option, none, some, List, [],
  ◌∷◌, ◌++◌, if◌then◌else◌, Text, text_eq, any, max,
}
use daq_control_vmm_beam.Base.Dict.{Dict, lookup, put}

-- A sub-run directory: the bytes below it, and its own time of change.
pub record SubRunSize : Type 0 where
  pub subrun : Text
  pub dir_bytes : ℕ
  pub mtime : ℕ

pub record RunLook : Type 0 where
  pub run : Text
  pub now : ℕ
  pub subruns : List SubRunSize

pub record BackupConfig : Type 0 where
  pub stale_run_days : ℕ
  pub reconcile_interval : ℕ
  pub include_runs : Option (List Text)
  pub exclude_runs : List Text

-- `prev_sizes`, `synced_sizes`, `checked_stale_runs`, `found_new` and `last_reconcile`, which is none
-- before the first sweep; the copies of sub-runs, and the sweeps with their times and runs, the last one
-- first.
pub record Backup : Type 0 where
  pub prev_sizes : Dict ℕ
  pub synced_sizes : Dict ℕ
  pub stale_runs : List Text
  pub found_new : Bool
  pub last_reconcile : Option ℕ
  pub copies : List (Text × ℕ)
  pub sweeps : List (ℕ × List Text)

abbrev pub fresh_backup : Dict ℕ → Backup
fresh_backup synced = record {
  prev_sizes = [];
  synced_sizes = synced;
  stale_runs = [];
  found_new = false;
  last_reconcile = none;
  copies = [];
  sweeps = [];
}

-- The pair of names as one key: no name of a directory has a slash.
abbrev pub key_of : Text → Text → Text
key_of run subrun = run ++ (b'/' ∷ subrun)

abbrev pub is_size : Option ℕ → ℕ → Bool
is_size none n = false
is_size (some m) n = m == n

-- One sub-run. `copies_well` says whether `_xrd_sync_tree` succeeds in this round for a key and a size.
unfoldable pub poll_subrun : (Text → ℕ → Bool) → Text → ℕ → Backup → Backup
poll_subrun copies_well key size b =
    if not (is_size (lookup key b.prev_sizes) size)
    then record b { prev_sizes = put key size b.prev_sizes }
    else if is_size (lookup key b.synced_sizes) size
    then b
    else if copies_well key size
    then record b {
      synced_sizes = put key size b.synced_sizes;
      found_new = true;
      copies = (key, size) ∷ b.copies;
    }
    else b

unfoldable pub poll_subruns : (Text → ℕ → Bool) → Text → List SubRunSize → Backup → Backup
poll_subruns copies_well run [] b = b
poll_subruns copies_well run (s ∷ ss) b =
    poll_subruns copies_well run ss (poll_subrun copies_well (key_of run s.subrun) s.dir_bytes b)

abbrev pub is_included : Option (List Text) → Text → Bool
is_included none run = true
is_included (some runs) run = any (text_eq run) runs

abbrev pub is_passed_over : BackupConfig → Backup → Text → Bool
is_passed_over f b run =
    not (is_included f.include_runs run)
    || (any (text_eq run) f.exclude_runs || any (text_eq run) b.stale_runs)

abbrev pub newest_time : List SubRunSize → ℕ
newest_time [] = 0
newest_time (s ∷ ss) = max s.mtime (newest_time ss)

-- `_run_is_stale`: the newest sub-run is older than the limit; a run without sub-runs is not stale.
unfoldable pub run_is_stale : ℕ → ℕ → List SubRunSize → Bool
run_is_stale days now [] = false
run_is_stale days now (s ∷ ss) = ltb (newest_time (s ∷ ss) + days * 86400) now

abbrev pub mark_stale : Bool → RunLook → Backup → Backup
mark_stale is_stale r b = if is_stale then record b { stale_runs = r.run ∷ b.stale_runs } else b

unfoldable pub poll_run : (Text → ℕ → Bool) → BackupConfig → RunLook → Backup → Backup
poll_run copies_well f r b =
    if is_passed_over f b r.run
    then b
    else mark_stale (run_is_stale f.stale_run_days r.now r.subruns) r
        (poll_subruns copies_well r.run r.subruns b)

-- The loop over the runs in one round of the watcher.
unfoldable pub poll_runs : (Text → ℕ → Bool) → BackupConfig → List RunLook → Backup → Backup
poll_runs copies_well f [] b = b
poll_runs copies_well f (r ∷ rs) b = poll_runs copies_well f rs (poll_run copies_well f r b)

-- The runs of a sweep, stale ones included.
unfoldable pub swept_runs : BackupConfig → List RunLook → List Text
swept_runs f [] = []
swept_runs f (r ∷ rs) =
    let rest = swept_runs f rs in
    if not (is_included f.include_runs r.run) || any (text_eq r.run) f.exclude_runs
    then rest
    else r.run ∷ rest

abbrev pub is_due : BackupConfig → ℕ → Option ℕ → Bool
is_due f now none = true
is_due f now (some last) = leb (last + f.reconcile_interval) now

-- The sweep, in a round in which no sub-run was copied; it leaves the sizes on record as they are.
unfoldable pub reconcile : BackupConfig → ℕ → List RunLook → Backup → Backup
reconcile f now looks b =
    if not b.found_new && is_due f now b.last_reconcile
    then record b { last_reconcile = some now; sweeps = (now, swept_runs f looks) ∷ b.sweeps }
    else b

-- What a round finds: its time, whether the ticket of Kerberos is good and the directories are there,
-- the runs, and which copies succeed.
pub record BackupRound : Type 0 where
  pub at : ℕ
  pub can_copy : Bool
  pub looks : List RunLook
  pub copies_well : Text → ℕ → Bool

unfoldable pub poll_round : BackupConfig → BackupRound → Backup → Backup
poll_round f x b =
    let b' = record b { found_new = false } in
    if x.can_copy then reconcile f x.at x.looks (poll_runs x.copies_well f x.looks b') else b'

-- A series of rounds.
unfoldable pub poll_rounds : BackupConfig → List BackupRound → Backup → Backup
poll_rounds f [] b = b
poll_rounds f (x ∷ rounds) b = poll_rounds f rounds (poll_round f x b)

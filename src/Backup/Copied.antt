-- ===== src/Backup/Copied.antt =====
-- What backup_watcher.py copies, and what it never comes to.
use daq_control_vmm_beam.Base.{
  ℕ, ◌≡◌, inl, inr, Bool, true, false, Option, some, List, [], ◌∷◌, if◌then◌else◌, Text, text_eq,
  arith, Bool-cases, none, not, ◌&&◌, ◌+◌, ◌≤◌, refl, subst, if-elim, &&-split,
}
use daq_control_vmm_beam.Base.Dict.{Dict, lookup, put, lookup-put}
use daq_control_vmm_beam.Backup.Polls.{
  SubRunSize, RunLook, BackupConfig, Backup, key_of, is_size, poll_subrun, poll_subruns,
  is_passed_over, run_is_stale, mark_stale, poll_run, poll_runs, poll_rounds, is_due, reconcile,
  BackupRound, poll_round,
}

-- The size of a key at its last copy, or where there is none, the one that the state file names.
abbrev pub last_copy : Dict ℕ → List (Text × ℕ) → Text → Option ℕ
last_copy kept [] k = lookup k kept
last_copy kept ((j, n) ∷ copies) k = if text_eq j k then some n else last_copy kept copies k

-- No copy repeats the size of the one before it.
abbrev pub IsFrugal : Dict ℕ → List (Text × ℕ) → Type 0
IsFrugal kept [] = Unit
IsFrugal kept ((k, n) ∷ copies) =
    (is_size (last_copy kept copies k) n ≡ false) × IsFrugal kept copies

-- The last sweep, and sweeps that are an interval apart at least.
abbrev pub last_sweep : List (ℕ × List Text) → Option ℕ
last_sweep [] = none
last_sweep ((t, _) ∷ sweeps) = some t

abbrev pub IsLater : ℕ → ℕ → Option ℕ → Type 0
IsLater interval t none = Unit
IsLater interval t (some t') = t' + interval ≤ t

abbrev pub IsSpaced : ℕ → List (ℕ × List Text) → Type 0
IsSpaced interval [] = Unit
IsSpaced interval ((t, _) ∷ sweeps) =
    IsLater interval t (last_sweep sweeps) × IsSpaced interval sweeps

pub record IsSound (f : BackupConfig) (kept : Dict ℕ) (b : Backup) : Type 0 where
  pub recorded : (k : Text) → lookup k b.synced_sizes ≡ last_copy kept b.copies k
  pub frugal : IsFrugal kept b.copies
  pub dated : b.last_reconcile ≡ last_sweep b.sweeps
  pub spaced : IsSpaced f.reconcile_interval b.sweeps

module _ (f : BackupConfig) (kept : Dict ℕ) (copies_well : Text → ℕ → Bool) where
  poll_subrun-IsSound :
      (key : Text) (size : ℕ) (b : Backup)
      → IsSound f kept b
      → IsSound f kept (poll_subrun copies_well key size b)
  unfolding poll_subrun
  poll_subrun-IsSound key size b h =
      let noted = record b { prev_sizes = put key size b.prev_sizes } in
      let copied = record b {
        synced_sizes = put key size b.synced_sizes;
        found_new = true;
        copies = (key, size) ∷ b.copies;
      } in
      let same = is_size (lookup key b.synced_sizes) size in
      let ok = copies_well key size in
      if-elim (IsSound f kept) (not (is_size (lookup key b.prev_sizes) size)) noted
        (if same then b else if ok then copied else b)
        (λ _. record {
          recorded = h.recorded;
          frugal = h.frugal;
          dated = h.dated;
          spaced = h.spaced;
        })
        (λ _.
          if-elim (IsSound f kept) same b (if ok then copied else b) (λ _. h)
            (λ other.
              if-elim (IsSound f kept) ok copied b
                (λ _. record {
                  recorded =
                      λ k. ground (arith, h.recorded k, lookup-put key k size b.synced_sizes);
                  frugal = (ground (arith, h.recorded key, other), h.frugal);
                  dated = h.dated;
                  spaced = h.spaced;
                })
                (λ _. h)))

  poll_subruns-IsSound :
      (run : Text) (ss : List SubRunSize) (b : Backup)
      → IsSound f kept b
      → IsSound f kept (poll_subruns copies_well run ss b)
  unfolding poll_subruns
  poll_subruns-IsSound run [] b h = h
  poll_subruns-IsSound run (s ∷ ss) b h =
      let key = key_of run s.subrun in
      poll_subruns-IsSound run ss (poll_subrun copies_well key s.dir_bytes b)
        (poll_subrun-IsSound key s.dir_bytes b h)

  mark_stale-IsSound :
      (t : Bool) (r : RunLook) (b : Backup) → IsSound f kept b → IsSound f kept (mark_stale t r b)
  mark_stale-IsSound true r b h = record {
    recorded = h.recorded;
    frugal = h.frugal;
    dated = h.dated;
    spaced = h.spaced;
  }
  mark_stale-IsSound false r b h = h

  poll_run-IsSound :
      (r : RunLook) (b : Backup) → IsSound f kept b → IsSound f kept (poll_run copies_well f r b)
  unfolding poll_run
  poll_run-IsSound r b h = elim (Bool-cases (is_passed_over f b r.run)) [
    | inl e ↦ rw e h
    | inr e ↦ rw e (
        mark_stale-IsSound (run_is_stale f.stale_run_days r.now r.subruns) r
          (poll_subruns copies_well r.run r.subruns b) (poll_subruns-IsSound r.run r.subruns b h))
  ]

  poll_runs-IsSound :
      (rs : List RunLook) (b : Backup)
      → IsSound f kept b
      → IsSound f kept (poll_runs copies_well f rs b)
  unfolding poll_runs
  poll_runs-IsSound [] b h = h
  poll_runs-IsSound (r ∷ rs) b h =
      poll_runs-IsSound rs (poll_run copies_well f r b) (poll_run-IsSound r b h)

module _ (f : BackupConfig) (kept : Dict ℕ) where
  is_due-IsLater :
      (now : ℕ) (last : Option ℕ) → is_due f now last ≡ true → IsLater f.reconcile_interval now last
  is_due-IsLater now none e = tt
  is_due-IsLater now (some last) e = ground (arith, e)

  reconcile-IsSound :
      (now : ℕ) (looks : List RunLook) (b : Backup)
      → IsSound f kept b
      → IsSound f kept (reconcile f now looks b)
  unfolding reconcile
  reconcile-IsSound now looks b h =
      if-elim (IsSound f kept) (not b.found_new && is_due f now b.last_reconcile) _ b
        (λ due. record {
          recorded = h.recorded;
          frugal = h.frugal;
          dated = refl;
          spaced = (
            subst (λ (last : Option ℕ). IsLater f.reconcile_interval now last) h.dated
                (is_due-IsLater now b.last_reconcile ((&&-split _ _ due).1)),
            h.spaced,
          );
        })
        (λ _. h)

  poll_round-IsSound :
      (x : BackupRound) (b : Backup) → IsSound f kept b → IsSound f kept (poll_round f x b)
  unfolding poll_round
  poll_round-IsSound x b h =
      let b' = record b { found_new = false } in
      let h' : IsSound f kept b' = record {
        recorded = h.recorded;
        frugal = h.frugal;
        dated = h.dated;
        spaced = h.spaced;
      } in
      if-elim (IsSound f kept) x.can_copy
        (reconcile f x.at x.looks (poll_runs x.copies_well f x.looks b')) b'
        (λ _.
          reconcile-IsSound x.at x.looks (poll_runs x.copies_well f x.looks b')
            (poll_runs-IsSound f kept x.copies_well x.looks b' h'))
        (λ _. h')

  -- In any series of rounds, whatever copies fail in some of them, the sizes on record are those of the
  -- last copies of sub-runs, and the sync of the sub-runs does not copy one again at the size at which it
  -- copied it last, before a restart or after it. The sweeps over all runs, which may, are at
  -- least the configured interval apart.
  pub poll_rounds-IsSound :
      (rounds : List BackupRound) (b : Backup)
      → IsSound f kept b
      → IsSound f kept (poll_rounds f rounds b)
  unfolding poll_rounds
  poll_rounds-IsSound [] b h = h
  poll_rounds-IsSound (x ∷ rounds) b h =
      poll_rounds-IsSound rounds (poll_round f x b) (poll_round-IsSound x b h)

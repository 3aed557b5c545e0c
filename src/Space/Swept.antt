-- ===== src/Space/Swept.antt =====
-- What a sweep of prune_backed_up.py keeps of the run store.
use daq_control_vmm_beam.Base.{
  ℕ, ◌≡◌, ◌∙◌, refl, ◌≢◌, ◌⊎◌, Bool, true, false, none, some, List, [], ◌∷◌, arith, Text, codes,
  text_eq, text_eq→eq, inl, inr, subst, subst₂, Option-cases, Bool-cases, sym,
}
use daq_control_vmm_beam.Space.Disk.{RunDir, Disk, find_run, newest_run, list_runs}
use daq_control_vmm_beam.Space.Verify.{Site}
use daq_control_vmm_beam.Space.Preserved.{IsPreserved}
use daq_control_vmm_beam.Space.Delete.{
  Deletion, deleted, delete_failed, remove_run, judge_run, remove_tree, delete_dir, delete_run,
  after_deletion, sweep_one, has_free, sweep_loop, sweep,
}
use daq_control_vmm_beam.Space.Deleted.{
  IsDeletion, delete_run-deleted, is_refusal, delete_run-refused,
}
use daq_control_vmm_beam.Space.Removed.{find_run-remove_run, newest_from-remove_run}

-- `rmtree` always gets to its end.
abbrev pub Removes : Site → Type 0
Removes site = (r : RunDir) → site.rmtree r ≡ none

Deletion-cases :
    (r : Deletion)
    → ((freed : ℕ) × (r ≡ deleted freed)) ⊎ ((r ≡ delete_failed) ⊎ (is_refusal r ≡ true))
Deletion-cases (deleted freed) = inl (freed, refl)
Deletion-cases delete_failed = inr (inl refl)
Deletion-cases _ = inr (inr refl)

module _ (site : Site) (removes : Removes site) where
  remove_tree-removes :
      (d : Disk) (run : Text) (r : RunDir) → (remove_tree site d run r).0 ≢ delete_failed
  unfolding remove_tree
  remove_tree-removes d run r = ground (arith, removes r)

  delete_dir-removes :
      (d : Disk) (run : Text) (r : RunDir) → (delete_dir site d run r).0 ≢ delete_failed
  unfolding delete_dir
  delete_dir-removes d run r = ground (arith, remove_tree-removes d run r)

  delete_run-removes : (d : Disk) (disk run : Text) → (delete_run site d disk run).0 ≢ delete_failed
  unfolding delete_run
  delete_run-removes d disk run = elim (Option-cases (find_run run d.runs)) [
    | inl e ↦ ground arith
    | inr (r, e) ↦ ground (arith, delete_dir-removes d run r)
  ]

module _ (site : Site) where
  -- What one deletion keeps: the newest run, the active run, and every run that EOS does not have.
  pub record IsKept (d d' : Disk) : Type 0 where
    pub same_newest : newest_run d' ≡ newest_run d
    pub same_active : d'.active ≡ d.active
    pub active_stays : find_run d.active d'.runs ≡ find_run d.active d.runs
    pub kept_or_saved :
        (name : Text) (r : RunDir)
        → find_run name d.runs ≡ some r
        → (find_run name d'.runs ≡ some r) ⊎ IsPreserved site name r

  IsKept-refl : (d : Disk) → IsKept d d
  IsKept-refl d = record {
    same_newest = refl;
    same_active = refl;
    active_stays = refl;
    kept_or_saved = λ name r e. inl e;
  }

  IsKept-trans : (a b c : Disk) → IsKept a b → IsKept b c → IsKept a c
  IsKept-trans a b c h k = record {
    same_newest = k.same_newest ∙ h.same_newest;
    same_active = k.same_active ∙ h.same_active;
    active_stays =
        subst (λ (name : Text). find_run name c.runs ≡ find_run name b.runs) h.same_active
          k.active_stays
        ∙ h.active_stays;
    kept_or_saved = λ name r e. elim (h.kept_or_saved name r e) [
      | inl e' ↦ k.kept_or_saved name r e'
      | inr saved ↦ inr saved
    ];
  }

  saved_as :
      (run name : Text) (dir r : RunDir) (rs : List RunDir)
      → run ≡ name
      → find_run run rs ≡ some dir
      → find_run name rs ≡ some r
      → IsPreserved site run dir
      → IsPreserved site name r
  saved_as run name dir r rs e f g saved =
      let same : dir ≡ r = ground arith in subst₂ (IsPreserved site) e same saved

  remove_run-others :
      (run name : Text) (rs : List RunDir)
      → run ≢ name
      → find_run name (remove_run run rs) ≡ find_run name rs
  remove_run-others run name rs other =
      ground (arith, find_run-remove_run name run rs, text_eq→eq run name)

  IsDeletion-newest :
      (d : Disk) (run : Text)
      → run ≢ newest_run d
      → newest_run (record d { runs = remove_run run d.runs }) ≡ newest_run d
  unfolding newest_run
  IsDeletion-newest d run other =
      newest_from-remove_run run ([], 0) ([], 0) d.runs (inl refl) (λ e. other (sym e))

  IsDeletion-IsKept :
      (d : Disk) (disk run : Text) (freed : ℕ) (d' : Disk)
      → IsDeletion site d disk run freed d'
      → IsKept d d'
  IsDeletion-IsKept d disk run freed d' h = rw h.only_run (record {
    same_newest = IsDeletion-newest d run h.deletable.not_newest;
    same_active = refl;
    active_stays = remove_run-others run d.active d.runs h.deletable.not_active;
    kept_or_saved = λ name r e. elim (Bool-cases (text_eq run name)) [
      | inl same ↦ inr (
          saved_as run name h.dir r d.runs (text_eq→eq run name same) h.deletable.found e
            h.deletable.verified.preserved)
      | inr other ↦ inl (rw (find_run-remove_run, other) e)
    ];
  })

module _ (site : Site) (removes : Removes site) where
  delete_run-IsKept : (d : Disk) (disk run : Text) → IsKept site d (delete_run site d disk run).1
  delete_run-IsKept d disk run = elim (Deletion-cases (delete_run site d disk run).0) [
    | inl (freed, e) ↦
        IsDeletion-IsKept site d disk run freed _ (delete_run-deleted site d disk run freed e)
    | inr (inl e) ↦ absurd (delete_run-removes site removes d disk run e)
    | inr (inr e) ↦ rw (delete_run-refused site d disk run e) (IsKept-refl site d)
  ]

  after_deletion-disk :
      (freed size : ℕ) (p : Deletion × Disk) → (after_deletion site freed size p).disk ≡ p.1
  unfolding after_deletion
  after_deletion-disk freed size (deleted n, d) = refl
  after_deletion-disk freed size (_, d) = refl

  sweep_one-IsKept :
      (dry : Bool) (freed : ℕ) (run : Text) (d : Disk)
      → IsKept site d (sweep_one site dry freed run d).disk
  unfolding sweep_one
  sweep_one-IsKept true freed run d = elim (Bool-cases (judge_run site d run).safe) [
    | inl e ↦ rw e (IsKept-refl site d)
    | inr e ↦ rw e (IsKept-refl site d)
  ]
  sweep_one-IsKept false freed run d = elim (Bool-cases (judge_run site d run).safe) [
    | inl e ↦
        rw
          (
            e,
            after_deletion-disk freed (judge_run site d run).size
                (delete_run site d (codes "data") run),
          )
          (delete_run-IsKept d (codes "data") run)
    | inr e ↦ rw e (IsKept-refl site d)
  ]

  sweep_loop-IsKept :
      (target : ℕ) (dry : Bool) (freed : ℕ) (runs : List Text) (d : Disk)
      → IsKept site d (sweep_loop site target dry freed runs d).disk
  unfolding sweep_loop
  sweep_loop-IsKept target dry freed [] d = IsKept-refl site d
  sweep_loop-IsKept target dry freed (run ∷ runs) d =
      let s = sweep_one site dry freed run d in
      let one = sweep_one-IsKept dry freed run d in
      elim (Bool-cases (has_free site d target)) [
        | inl e ↦ rw e (IsKept-refl site d)
        | inr e ↦ elim (Bool-cases s.raised) [
          | inl k ↦ rw (e, k) one
          | inr k ↦
              rw (e, k)
                (IsKept-trans site d s.disk (sweep_loop site target dry s.freed runs s.disk).disk
                  one (sweep_loop-IsKept target dry s.freed runs s.disk))
        ]
      ]

  -- Where `rmtree` gets to its end, a sweep leaves the active run in the store as it is, the newest run
  -- is the same one after it, and any run that it takes away is one of which EOS lists every
  -- regular file that can be read and is no link at its size.
  pub sweep-IsKept :
      (low target : ℕ) (dry : Bool) (d : Disk) → IsKept site d (sweep site low target dry d).disk
  unfolding sweep
  sweep-IsKept low target dry d = elim (Bool-cases (has_free site d low)) [
    | inl e ↦ rw e (IsKept-refl site d)
    | inr e ↦ rw e (sweep_loop-IsKept target dry 0 (list_runs d) d)
  ]

sweep_loop-dry :
    (site : Site) (target freed : ℕ) (runs : List Text) (d : Disk)
    → (sweep_loop site target true freed runs d).disk ≡ d
unfolding sweep_loop sweep_one
sweep_loop-dry site target freed [] d = refl
sweep_loop-dry site target freed (run ∷ runs) d =
    ground (arith, sweep_loop-dry site target freed runs d)

-- Above the low mark, where the free space cannot be read, and in a dry run, a sweep deletes nothing.
pub sweep-quiet :
    (site : Site) (low target : ℕ) (dry : Bool) (d : Disk)
    → (has_free site d low ≡ true) ⊎ (dry ≡ true)
    → (sweep site low target dry d).disk ≡ d
unfolding sweep
sweep-quiet site low target dry d (inl h) = rw h
sweep-quiet site low target dry d (inr h) =
    rw h (ground (arith, sweep_loop-dry site target 0 (list_runs d) d))

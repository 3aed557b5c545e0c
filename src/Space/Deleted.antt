-- ===== src/Space/Deleted.antt =====
-- When `delete_run` of flask_app/space_manager.py removes a run, and what it leaves alone.
use daq_control_vmm_beam.Base.{
  ℕ, ◌≡◌, ◌∙◌, ◌≢◌, Bool, true, false, Option, none, some, List, [], ◌∷◌, ◌++◌, refl, arith, Text,
  codes, text_eq_iff, inl, inr, Option-cases,
}
use daq_control_vmm_beam.Space.Disk.{
  FileEntry, RunDir, Disk, find_run, dir_size, is_run_name, newest_run,
}
use daq_control_vmm_beam.Space.Verify.{
  Site, Verdict, verify_run, apply_local_guards, incomplete_subruns, incomplete_in, has_file,
  marker, after_marker, incomplete_of,
}
use daq_control_vmm_beam.Space.Preserved.{IsVerified, verify_run-safe}
use daq_control_vmm_beam.Space.Delete.{
  Deletion, deleted, delete_failed, remove_run, judge_run, remove_tree, delete_dir, delete_run,
}

-- A marker that is there, and one that cannot be asked for.
abbrev HasMarker : Option Bool → Type 0 → Type 0
HasMarker none rest = Unit
HasMarker (some b) rest = (b ≡ true) × rest

-- Each sub-run has its marker, up to the first one where the answers fail.
abbrev pub AreComplete : List FileEntry → List (Option Text) → Type 0
AreComplete files [] = Unit
AreComplete files (none ∷ subs) = Unit
AreComplete files (some sub ∷ subs) =
    HasMarker (has_file (sub ++ codes "/.subrun_complete") files) (AreComplete files subs)

-- An entry that may be deleted: verified on EOS, not being acquired, not the newest, and with the
-- markers of its sub-runs.
pub record IsDeletable (site : Site) (d : Disk) (run : Text) (r : RunDir) : Type 0 where
  pub found : find_run run d.runs ≡ some r
  pub verified : IsVerified site run r
  pub not_active : run ≢ d.active
  pub not_newest : run ≢ newest_run d
  pub complete : AreComplete r.files r.subdirs

apply_local_guards-safe :
    (d : Disk) (v : Verdict) (run act newest : Text)
    → (apply_local_guards d v run act newest).safe ≡ true
    → (v.safe ≡ true) × (run ≢ act) × (run ≢ newest) × (incomplete_in d run ≡ [])
unfolding apply_local_guards
apply_local_guards-safe d v run act newest h =
    ground (arith, text_eq_iff run act, text_eq_iff run newest)

after_marker-HasMarker :
    (sub : Text) (answer : Option Bool) (rest : List Text) (more : Type 0)
    → (rest ≡ [] → more)
    → after_marker sub answer rest ≡ []
    → HasMarker answer more
after_marker-HasMarker sub none rest more go e = tt
after_marker-HasMarker sub (some true) rest more go e = (refl, go e)
after_marker-HasMarker sub (some false) rest more go e = absurd (cc e)

incomplete_of-AreComplete :
    (files : List FileEntry) (subs : List (Option Text))
    → incomplete_of files subs ≡ []
    → AreComplete files subs
unfolding incomplete_of
incomplete_of-AreComplete files [] e = tt
incomplete_of-AreComplete files (none ∷ subs) e = tt
incomplete_of-AreComplete files (some sub ∷ subs) e =
    after_marker-HasMarker sub (has_file (marker sub) files) (incomplete_of files subs)
      (AreComplete files subs) (incomplete_of-AreComplete files subs) e

incomplete_subruns-AreComplete :
    (r : RunDir) → incomplete_subruns r ≡ [] → AreComplete r.files r.subdirs
unfolding incomplete_subruns
incomplete_subruns-AreComplete r e = incomplete_of-AreComplete r.files r.subdirs e

judge_run-safe :
    (site : Site) (d : Disk) (run : Text) (r : RunDir)
    → find_run run d.runs ≡ some r
    → (judge_run site d run).safe ≡ true
    → IsDeletable site d run r
unfolding judge_run
judge_run-safe site d run r e h =
    let (s, a, n, c) =
      apply_local_guards-safe d (verify_run site d run) run d.active (newest_run d) h in
    record {
      found = e;
      verified = verify_run-safe site d run r e s;
      not_active = a;
      not_newest = n;
      complete = incomplete_subruns-AreComplete r (rw (e, incomplete_in) at c);
    }

remove_tree-deleted :
    (site : Site) (d : Disk) (run : Text) (r : RunDir) (freed : ℕ)
    → (remove_tree site d run r).0 ≡ deleted freed
    → (freed ≡ dir_size r)
      × ((remove_tree site d run r).1 ≡ record d { runs = remove_run run d.runs })
unfolding remove_tree
remove_tree-deleted site d run r freed h = ground arith

delete_dir-deleted :
    (site : Site) (d : Disk) (run : Text) (r : RunDir) (freed : ℕ)
    → (delete_dir site d run r).0 ≡ deleted freed
    → ((judge_run site d run).safe ≡ true)
      × (r.is_symlink ≡ false)
      × (r.under_root ≡ true)
      × (freed ≡ dir_size r)
      × ((delete_dir site d run r).1 ≡ record d { runs = remove_run run d.runs })
unfolding delete_dir
delete_dir-deleted site d run r freed h = ground (arith, remove_tree-deleted site d run r freed)

delete_run-dir :
    (site : Site) (d : Disk) (disk run : Text) (freed : ℕ)
    → (delete_run site d disk run).0 ≡ deleted freed
    → (r : RunDir) × (disk ≡ codes "data")
      × (is_run_name run ≡ true)
      × (find_run run d.runs ≡ some r)
      × ((delete_dir site d run r).0 ≡ deleted freed)
      × ((delete_run site d disk run).1 ≡ (delete_dir site d run r).1)
unfolding delete_run
delete_run-dir site d disk run freed h = elim (Option-cases (find_run run d.runs)) [
  | inl e ↦ absurd (ground arith)
  | inr (r, e) ↦ (
    r,
    ground (arith, text_eq_iff disk (codes "data")),
    ground arith,
    e,
    ground arith,
    ground arith,
  )
]

-- What a successful deletion has established, and what it has done.
pub record IsDeletion (site : Site) (d : Disk) (disk run : Text) (freed : ℕ) (d' : Disk)
    : Type 0 where
  pub dir : RunDir
  pub known_disk : disk ≡ codes "data"
  pub named : is_run_name run ≡ true
  pub deletable : IsDeletable site d run dir
  pub no_link : dir.is_symlink ≡ false
  pub in_place : dir.under_root ≡ true
  pub counted : freed ≡ dir_size dir
  pub only_run : d' ≡ record d { runs = remove_run run d.runs }

-- Whenever `delete_run` reports success, the disk and the name were accepted, the entry of that name
-- is a directory directly under the runs root and no link, EOS lists its directory with every regular
-- file of it that can be read and is no link at its size, it is neither the active nor the newest run,
-- its sub-runs have their markers, at least up to the first one where the file system gives an error,
-- the bytes reported are those of its files, and the store has lost that name and nothing else.
pub delete_run-deleted :
    (site : Site) (d : Disk) (disk run : Text) (freed : ℕ)
    → (delete_run site d disk run).0 ≡ deleted freed
    → IsDeletion site d disk run freed (delete_run site d disk run).1
delete_run-deleted site d disk run freed h =
    let (r, k, n, e, done, same) = delete_run-dir site d disk run freed h in
    let (s, l, u, c, only) = delete_dir-deleted site d run r freed done in
    record {
      dir = r;
      known_disk = k;
      named = n;
      deletable = judge_run-safe site d run r e s;
      no_link = l;
      in_place = u;
      counted = c;
      only_run = same ∙ only;
    }

-- Neither a deletion nor one that failed half way.
abbrev pub is_refusal : Deletion → Bool
is_refusal (deleted _) = false
is_refusal delete_failed = false
is_refusal _ = true

remove_tree-refuses :
    (site : Site) (d : Disk) (run : Text) (r : RunDir)
    → is_refusal (remove_tree site d run r).0 ≡ false
unfolding remove_tree
remove_tree-refuses site d run r = ground arith

delete_dir-refused :
    (site : Site) (d : Disk) (run : Text) (r : RunDir)
    → is_refusal (delete_dir site d run r).0 ≡ true
    → (delete_dir site d run r).1 ≡ d
unfolding delete_dir
delete_dir-refused site d run r h = ground (arith, remove_tree-refuses site d run r)

-- A deletion that is refused, for whatever reason, leaves the store as it was.
pub delete_run-refused :
    (site : Site) (d : Disk) (disk run : Text)
    → is_refusal (delete_run site d disk run).0 ≡ true
    → (delete_run site d disk run).1 ≡ d
unfolding delete_run
delete_run-refused site d disk run h = elim (Option-cases (find_run run d.runs)) [
  | inl e ↦ ground arith
  | inr (r, e) ↦ ground (arith, delete_dir-refused site d run r)
]

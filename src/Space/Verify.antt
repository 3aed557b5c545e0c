-- ===== src/Space/Verify.antt =====
-- `verify_run`, `incomplete_subruns` and `_apply_local_guards` of flask_app/space_manager.py.
use daq_control_vmm_beam.Base.{
  ℕ, ◌+◌, Bool, true, false, ◌&&◌, Option, none, some, List, [], ◌∷◌, ◌++◌, if◌then◌else◌, ltb,
  ◌==◌, Text, codes, text_eq, length,
}
use daq_control_vmm_beam.Base.Dict.{lookup}
use daq_control_vmm_beam.Space.Disk.{
  FileEntry, RunDir, Disk, SizeMap, find_run, local_size_map, total_size,
}
use daq_control_vmm_beam.Space.Listing.{Listing, remote_size_map}

-- What stands outside the repository: the place of the runs on EOS, `xrdfs` on it, the free bytes
-- of the data file system (`none` where they cannot be read), and `shutil.rmtree` (`none` where
-- everything is gone, what is left where it raises).
pub record Site : Type 0 where
  pub eos_runs : Text
  pub xrdfs : Text → Listing
  pub free : Disk → Option ℕ
  pub rmtree : RunDir → Option RunDir

-- The `reason` of a verdict, without its wording.
pub data Reason : Type 0 where
  not_judged not_found not_listed no_files acquiring newest_on_disk : Reason
  verified : ℕ → Reason
  differs : ℕ → ℕ → Reason
  mid_write : ℕ → Reason

pub record Verdict : Type 0 where
  pub run : Text
  pub size : ℕ
  pub files : ℕ
  pub matching : ℕ
  pub missing : ℕ
  pub mismatch : ℕ
  pub safe : Bool
  pub reason : Reason
  pub unverifiable : Bool
  pub active : Bool
  pub newest : Bool

pub record Counts : Type 0 where
  pub matching : ℕ
  pub missing : ℕ
  pub mismatch : ℕ

-- One round of the loop of `verify_run`.
unfoldable pub count_file : SizeMap → Text → ℕ → Counts → Counts
count_file remote rel size c = elim (lookup rel remote) [
  | none ↦ record c { missing = c.missing + 1 }
  | some there ↦
      if there == size
      then record c { matching = c.matching + 1 }
      else record c { mismatch = c.mismatch + 1 }
]

-- The loop of `verify_run` over `local.items()`.
unfoldable pub count_files : SizeMap → Counts → SizeMap → Counts
unfolding count_file
count_files remote c [] = c
count_files remote c ((rel, size) ∷ m) = count_files remote (count_file remote rel size c) m

abbrev pub unjudged : Text → Verdict
unjudged run = record {
  run = run;
  size = 0;
  files = 0;
  matching = 0;
  missing = 0;
  mismatch = 0;
  safe = false;
  reason = not_judged;
  unverifiable = false;
  active = false;
  newest = false;
}

-- The end of `verify_run`, once the files are counted.
unfoldable pub conclude : Verdict → Counts → Verdict
conclude v c =
    let res = record v { matching = c.matching; missing = c.missing; mismatch = c.mismatch } in
    if c.missing == 0 && (c.mismatch == 0 && (c.matching == v.files && ltb 0 v.files))
    then record res { safe = true; reason = verified c.matching }
    else if v.files == 0
    then record res { reason = no_files }
    else record res { reason = differs c.missing c.mismatch }

abbrev pub no_counts : Counts
no_counts = record { matching = 0; missing = 0; mismatch = 0 }

-- The part of `verify_run` that follows the listing of the run on EOS.
unfoldable pub verify_against : Verdict → SizeMap → Option SizeMap → Verdict
unfolding count_files conclude
verify_against v here none = record v { unverifiable = true; reason = not_listed }
verify_against v here (some remote) = conclude v (count_files remote no_counts here)

abbrev pub eos_dir_of : Site → Text → Text
eos_dir_of site run = site.eos_runs ++ codes "/" ++ run

abbrev pub listed_on : Site → Text → Option SizeMap
listed_on site run = remote_size_map (eos_dir_of site run) (site.xrdfs (eos_dir_of site run))

-- The verdict before the listing: the local files and bytes are known.
abbrev pub measured : Text → RunDir → Verdict
measured run r = record (unjudged run) {
  files = length (local_size_map r);
  size = total_size (local_size_map r);
}

unfoldable pub verify_dir : Site → Text → RunDir → Verdict
unfolding verify_against
verify_dir site run r = verify_against (measured run r) (local_size_map r) (listed_on site run)

unfoldable pub verify_run : Site → Disk → Text → Verdict
unfolding verify_dir
verify_run site d run = elim (find_run run d.runs) [
  | none ↦ record (unjudged run) { reason = not_found }
  | some r ↦
      if r.is_dir then verify_dir site run r else record (unjudged run) { reason = not_found }
]

-- `(sub / '.subrun_complete').is_file()`, none where it raises.
unfoldable pub has_file : Text → List FileEntry → Option Bool
has_file path [] = some false
has_file path (f ∷ fs) =
    let rest = has_file path fs in
    if text_eq f.path path then if f.readable then some f.is_file else none else rest

abbrev pub marker : Text → Text
marker sub = sub ++ codes "/.subrun_complete"

-- One sub-run with what follows it; an exception ends the loop.
abbrev pub after_marker : Text → Option Bool → List Text → List Text
after_marker sub none rest = []
after_marker sub (some true) rest = rest
after_marker sub (some false) rest = sub ∷ rest

unfoldable pub incomplete_of : List FileEntry → List (Option Text) → List Text
incomplete_of files [] = []
incomplete_of files (none ∷ subs) = []
incomplete_of files (some sub ∷ subs) =
    after_marker sub (has_file (marker sub) files) (incomplete_of files subs)

unfoldable pub incomplete_subruns : RunDir → List Text
unfolding incomplete_of
incomplete_subruns r = incomplete_of r.files r.subdirs

abbrev pub incomplete_in : Disk → Text → List Text
incomplete_in d run = elim (find_run run d.runs) [ none ↦ [] | some r ↦ incomplete_subruns r ]

unfoldable pub apply_local_guards : Disk → Verdict → Text → Text → Text → Verdict
apply_local_guards d verdict run act newest =
    let v = record verdict { active = text_eq run act; newest = text_eq run newest } in
    if text_eq run act
    then record v { safe = false; reason = acquiring }
    else if text_eq run newest
    then record v { safe = false; reason = newest_on_disk }
    else if ltb 0 (length (incomplete_in d run))
    then record v { safe = false; reason = mid_write (length (incomplete_in d run)) }
    else v

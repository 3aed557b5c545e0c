-- ===== src/Space/Preserved.antt =====
-- What a safe verdict of flask_app/space_manager.py says about the files of the run.
use daq_control_vmm_beam.Base.{
  ℕ, ◌+◌, ◌<◌, ◌≡◌, refl, true, false, some, [], ◌∷◌, arith, Text, text_eq_iff, length, inl, inr,
  Option-cases, Bool-cases,
}
use daq_control_vmm_beam.Base.Dict.{lookup}
use daq_control_vmm_beam.Space.Disk.{RunDir, Disk, SizeMap, find_run, local_size_map}
use daq_control_vmm_beam.Space.Verify.{
  Site, Verdict, Counts, count_file, count_files, conclude, verify_dir, verify_run, verify_against,
  no_counts, measured, listed_on,
}

-- EOS lists the directory of the run, and has every file of the local map at its size.
pub record IsPreserved (site : Site) (run : Text) (r : RunDir) : Type 0 where
  pub remote : SizeMap
  pub lists : listed_on site run ≡ some remote
  pub has_all :
      (path : Text) (size : ℕ)
      → lookup path (local_size_map r) ≡ some size
      → lookup path remote ≡ some size

count_file_total :
    (remote : SizeMap) (rel : Text) (size : ℕ) (c : Counts)
    → let c' = count_file remote rel size c in
      c'.matching + c'.missing + c'.mismatch ≡ c.matching + c.missing + c.mismatch + 1
unfolding count_file
count_file_total remote rel size c = ground arith

-- The three counts add up to the files seen.
pub count_files_total :
    (remote : SizeMap) (c : Counts) (m : SizeMap)
    → let c' = count_files remote c m in
      c'.matching + c'.missing + c'.mismatch ≡ c.matching + c.missing + c.mismatch + length m
unfolding count_files
count_files_total remote c [] = omega arith
count_files_total remote c ((rel, size) ∷ m) = omega (
  arith,
  count_file_total remote rel size c,
  count_files_total remote (count_file remote rel size c) m,
)

count_file_matches :
    (remote : SizeMap) (rel : Text) (size : ℕ) (c : Counts)
    → (count_file remote rel size c).missing ≡ 0
    → (count_file remote rel size c).mismatch ≡ 0
    → (c.missing ≡ 0) × (c.mismatch ≡ 0) × (lookup rel remote ≡ some size)
unfolding count_file
count_file_matches remote rel size c p q = ground arith

-- A loop that ends with nothing missing or mismatched began so.
count_files_start :
    (remote : SizeMap) (c : Counts) (m : SizeMap)
    → (count_files remote c m).missing ≡ 0
    → (count_files remote c m).mismatch ≡ 0
    → (c.missing ≡ 0) × (c.mismatch ≡ 0)
unfolding count_files
count_files_start remote c [] p q = (p, q)
count_files_start remote c ((rel, size) ∷ m) p q =
    let (a, b) = count_files_start remote (count_file remote rel size c) m p q in
    let (a', b', _) = count_file_matches remote rel size c a b in (a', b')

-- Such a loop has found every file of its map in `remote`, at its size.
pub count_files_all :
    (remote : SizeMap) (c : Counts) (m : SizeMap) (path : Text) (size : ℕ)
    → (count_files remote c m).missing ≡ 0
    → (count_files remote c m).mismatch ≡ 0
    → lookup path m ≡ some size
    → lookup path remote ≡ some size
unfolding count_files lookup
count_files_all remote c [] path size p q h = cc
count_files_all remote c ((rel, sz) ∷ m) path size p q h =
    let c' = count_file remote rel sz c in
    let (a, b) = count_files_start remote c' m p q in
    ground (
      arith,
      count_file_matches remote rel sz c a b,
      text_eq_iff rel path,
      count_files_all remote c' m path size p q,
    )

-- A run that the verification finds in order.
pub record IsVerified (site : Site) (run : Text) (r : RunDir) : Type 0 where
  pub is_dir : r.is_dir ≡ true
  pub not_empty : 0 < length (local_size_map r)
  pub preserved : IsPreserved site run r

conclude-safe :
    (v : Verdict) (c : Counts)
    → v.safe ≡ false
    → (conclude v c).safe ≡ true
    → (c.missing ≡ 0) × (c.mismatch ≡ 0) × (0 < v.files)
unfolding conclude
conclude-safe v c u h = ground arith

verify_against-safe :
    (v : Verdict) (here remote : SizeMap)
    → v.safe ≡ false
    → (verify_against v here (some remote)).safe ≡ true
    → ((path : Text) (size : ℕ) → lookup path here ≡ some size → lookup path remote ≡ some size)
      × (0 < v.files)
unfolding verify_against
verify_against-safe v here remote u h =
    let (a, b, c) = conclude-safe v (count_files remote no_counts here) u h in
    (λ path size. count_files_all remote no_counts here path size a b, c)

verify_dir-safe :
    (site : Site) (run : Text) (r : RunDir)
    → (verify_dir site run r).safe ≡ true
    → IsPreserved site run r × (0 < length (local_size_map r))
unfolding verify_dir
verify_dir-safe site run r h = elim (Option-cases (listed_on site run)) [
  | inl e ↦ cc (rw (e, verify_dir) at h)
  | inr (remote, e) ↦
      let (kept, full) =
        verify_against-safe (measured run r) (local_size_map r) remote refl
          (rw (e, verify_dir) at h) in
      (record { remote = remote; lists = e; has_all = kept }, full)
]

-- A safe verdict on an entry means that it is a directory here, holds files, and that EOS has each
-- of them.
pub verify_run-safe :
    (site : Site) (d : Disk) (run : Text) (r : RunDir)
    → find_run run d.runs ≡ some r
    → (verify_run site d run).safe ≡ true
    → IsVerified site run r
unfolding verify_run
verify_run-safe site d run r e h = elim (Bool-cases r.is_dir) [
  | inl dir ↦
      let (kept, full) = verify_dir-safe site run r (simp dir at (rw (e, verify_run) at h)) in
      record { is_dir = dir; not_empty = full; preserved = kept }
  | inr dir ↦ cc (simp dir at (rw (e, verify_run) at h))
]

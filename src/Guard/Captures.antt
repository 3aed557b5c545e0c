-- ===== src/Guard/Captures.antt =====
-- What capture_guard.py reads from the runs directory: which run and sub-run are being written, and
-- the sizes of their closed capture files.
use daq_control_vmm_beam.Base.{
  ℕ, ◌-◌, ltb, ◌==◌, Bool, true, false, ◌&&◌, ◌||◌, Option, none, some, List, [], ◌∷◌, map,
  if◌then◌else◌, Text, codes, text_eq, length, drop, all, last_n,
}

pub record CaptureFile : Type 0 where
  pub file_name : Text
  pub mtime : ℕ
  pub size : ℕ

-- `raw` is the listing of `raw_daq_data`: `none` where it is no directory.
pub record SubRunDir : Type 0 where
  pub subrun : Text
  pub raw : Option (List CaptureFile)

-- `walked` is every file that `os.walk` finds below the directory of the run.
pub record RunTree : Type 0 where
  pub run : Text
  pub walked : List CaptureFile
  pub sub_runs : List SubRunDir

-- The `CAPTURE_STALE_S`, `EMPTY_TRIP` and `EMPTY_MAX_BYTES` of the program.
abbrev pub capture_stale_s : ℕ
capture_stale_s = 180

abbrev pub empty_trip : ℕ
empty_trip = 2

abbrev pub empty_max_bytes : ℕ
empty_max_bytes = 320

-- `f.endswith('.pcapng')`
unfoldable pub is_pcapng : CaptureFile → Bool
is_pcapng f = let name = f.file_name in text_eq (drop (length name - 7) name) (codes ".pcapng")

-- One file under the search for the newest one: an earlier one stays on a tie.
unfoldable pub newer : {A : Type 0} → A → CaptureFile → Option (ℕ × A) → Option (ℕ × A)
newer a f none = if is_pcapng f then some (f.mtime, a) else none
newer a f (some (t, b)) = if is_pcapng f && ltb t f.mtime then some (f.mtime, a) else some (t, b)

unfoldable pub newest_among : {A : Type 0} → A → List CaptureFile → Option (ℕ × A) → Option (ℕ × A)
newest_among a [] best = best
newest_among a (f ∷ fs) best = newest_among a fs (newer a f best)

unfoldable pub newest_of_runs : List RunTree → Option (ℕ × Text) → Option (ℕ × Text)
newest_of_runs [] best = best
newest_of_runs (r ∷ rs) best = newest_of_runs rs (newest_among r.run r.walked best)

-- The run directory is trusted only if a file in it was written recently.
abbrev pub trusted : ℕ → Option (ℕ × Text) → Option Text
trusted now none = none
trusted now (some (t, run)) = if ltb (now - t) capture_stale_s then some run else none

-- `current_run`: what the Flask says, and where it says no name, the disk; `none` for a disk that
-- cannot be listed.
unfoldable pub current_run : Option Text → ℕ → Option (List RunTree) → Option Text
unfolding newest_of_runs
current_run (some (c ∷ name)) now runs = some (c ∷ name)
current_run _ now none = none
current_run _ now (some runs) = trusted now (newest_of_runs runs none)

unfoldable pub newest_subrun : List SubRunDir → Option (ℕ × Text) → Option (ℕ × Text)
newest_subrun [] best = best
newest_subrun (s ∷ ss) best =
    newest_subrun ss (elim s.raw [ none ↦ best | some fs ↦ newest_among s.subrun fs best ])

abbrev pub name_of : Option (ℕ × Text) → Option Text
name_of none = none
name_of (some (t, s)) = some s

unfoldable pub find_tree : Text → List RunTree → Option RunTree
find_tree run [] = none
find_tree run (r ∷ rs) = let rest = find_tree run rs in if text_eq run r.run then some r else rest

-- `current_subrun`
unfoldable pub current_subrun : Option RunTree → Option Text
current_subrun none = none
current_subrun (some r) = name_of (newest_subrun r.sub_runs none)

unfoldable pub raw_of : Text → List SubRunDir → Option (List CaptureFile)
raw_of s [] = none
raw_of s (d ∷ ds) = let rest = raw_of s ds in if text_eq s d.subrun then d.raw else rest

-- `capture_active`: `max` of no file raises, which answers False.
unfoldable pub capture_active : ℕ → Option (List CaptureFile) → Bool
capture_active now none = false
capture_active now (some fs) = elim (newest_among tt fs none) [
  | none ↦ false
  | some (t, _) ↦ ltb (now - t) capture_stale_s
]

-- The order of Python's tuples of a time and a path.
abbrev pub text_leb : Text → Text → Bool
text_leb [] t = true
text_leb (_ ∷ _) [] = false
text_leb (a ∷ s) (b ∷ t) = ltb a b || (a == b && text_leb s t)

abbrev pub before_eq : CaptureFile → CaptureFile → Bool
before_eq f g = ltb f.mtime g.mtime || (f.mtime == g.mtime && text_leb f.file_name g.file_name)

-- `files.sort()`
unfoldable pub insert_file : CaptureFile → List CaptureFile → List CaptureFile
insert_file f [] = f ∷ []
insert_file f (g ∷ gs) =
    let rest = insert_file f gs in if before_eq f g then f ∷ g ∷ gs else g ∷ rest

unfoldable pub sort_files : List CaptureFile → List CaptureFile
sort_files [] = []
sort_files (f ∷ fs) = let rest = sort_files fs in if is_pcapng f then insert_file f rest else rest

-- `files[:-1]`
abbrev pub init : {A : Type 0} → List A → List A
init [] = []
init (_ ∷ []) = []
init (x ∷ y ∷ xs) = x ∷ init (y ∷ xs)

abbrev pub size_of : CaptureFile → ℕ
size_of f = f.size

unfoldable pub closed_capture_sizes : Option (List CaptureFile) → List ℕ
closed_capture_sizes none = []
closed_capture_sizes (some fs) = map size_of (init (sort_files fs))

-- The test of the main loop on the sizes.
unfoldable pub is_silent : List ℕ → Bool
is_silent sizes =
    let tail = last_n empty_trip sizes in
    length tail == empty_trip && all (λ s. ltb s empty_max_bytes) tail

-- ===== src/Space/Restore.antt =====
-- `restore_run`, `restore_runs` and `scan_restore` of flask_app/space_manager.py.
use daq_control_vmm_beam.Base.{
  ℕ, ◌+◌, ◌-◌, ◌*◌, Bool, true, false, not, ◌&&◌, Option, none, some, [], ◌∷◌, if◌then◌else◌, ltb,
  ◌==◌, Text, text_eq, length,
}
use daq_control_vmm_beam.Base.Dict.{lookup}
use daq_control_vmm_beam.Space.Disk.{SizeMap, total_size, is_run_name}

-- One download by `_xrdcp_download`: whether it succeeded, and the local files after it.
abbrev pub Copier : Type 0
Copier = Text → ℕ → SizeMap → Bool × SizeMap

-- What a restore sees: the active run, the listing of the run on EOS (`none` where it failed), the
-- free bytes (`none` where they cannot be read), and the local files of the run with their sizes.
pub record Target : Type 0 where
  pub active : Text
  pub remote : Option SizeMap
  pub free : Option ℕ
  pub files : SizeMap

pub data Restoration : Type 0 where
  invalid_name is_active not_listed not_on_eos already_complete no_space : Restoration
  partial : ℕ → ℕ → ℕ → Restoration
  restored : ℕ → ℕ → Restoration

-- `lp.is_file() and lp.stat().st_size == sz`
abbrev pub matches : SizeMap → Text → ℕ → Bool
matches files rel size = elim (lookup rel files) [ none ↦ false | some here ↦ here == size ]

unfoldable pub to_fetch : SizeMap → SizeMap → SizeMap
to_fetch files [] = []
to_fetch files ((rel, size) ∷ m) =
    let rest = to_fetch files m in if matches files rel size then rest else (rel, size) ∷ rest

-- `MARGIN`: 5 GB.
abbrev pub margin : ℕ
margin = 5 * (1024 * (1024 * 1024))

-- `need > free - MARGIN`
abbrev pub lacks_space : ℕ → Option ℕ → Bool
lacks_space need none = false
lacks_space need (some free) = ltb free (need + margin)

-- The loop that downloads: the files and the bytes fetched, the number of failures, the local files.
pub record Fetched : Type 0 where
  pub count : ℕ
  pub bytes : ℕ
  pub failures : ℕ
  pub files : SizeMap

unfoldable pub fetch_one : Copier → Text → ℕ → Fetched → Fetched
fetch_one copy rel size s =
    let (done, files) = copy rel size s.files in
    if done
    then record s { count = s.count + 1; bytes = s.bytes + size; files = files }
    else record s { failures = s.failures + 1; files = files }

unfoldable pub fetch_all : Copier → SizeMap → Fetched → Fetched
unfolding fetch_one
fetch_all copy [] s = s
fetch_all copy ((rel, size) ∷ m) s = fetch_all copy m (fetch_one copy rel size s)

abbrev pub nothing_fetched : SizeMap → Fetched
nothing_fetched files = record { count = 0; bytes = 0; failures = 0; files = files }

unfoldable pub report_fetch : Fetched → Restoration × SizeMap
report_fetch s = (
  if ltb 0 s.failures then partial s.count s.bytes s.failures else restored s.count s.bytes,
  s.files,
)

-- The part of `restore_run` that follows the listing.
unfoldable pub restore_listed : Copier → Option ℕ → SizeMap → SizeMap → Restoration × SizeMap
unfolding to_fetch fetch_all report_fetch
restore_listed copy free remote files =
    let wanted = to_fetch files remote in
    if total_size wanted == 0
    then (already_complete, files)
    else if lacks_space (total_size wanted) free
    then (no_space, files)
    else report_fetch (fetch_all copy wanted (nothing_fetched files))

abbrev is_empty_map : SizeMap → Bool
is_empty_map [] = true
is_empty_map (_ ∷ _) = false

unfoldable pub restore_run : Copier → Target → Text → Restoration × SizeMap
unfolding restore_listed is_run_name
restore_run copy t run =
    if not (is_run_name run)
    then (invalid_name, t.files)
    else if text_eq run t.active
    then (is_active, t.files)
    else elim t.remote [
      | none ↦ (not_listed, t.files)
      | some remote ↦
          if is_empty_map remote
          then (not_on_eos, t.files)
          else restore_listed copy t.free remote t.files
    ]

-- `res['success']`
abbrev pub is_success : Restoration → Bool
is_success already_complete = true
is_success (restored _ _) = true
is_success _ = false

-- The status that `scan_restore` gives to a listed run, with the files and bytes to fetch.
pub data Status : Type 0 where
  complete missing partly : Status

pub record Scanned : Type 0 where
  pub status : Status
  pub restorable : Bool
  pub total : ℕ
  pub have : ℕ
  pub fetch_files : ℕ
  pub fetch_bytes : ℕ

-- The loop over `remote.items()`: the files at hand, and the bytes of the others.
unfoldable pub tally : SizeMap → SizeMap → ℕ × ℕ
tally files [] = (0, 0)
tally files ((rel, size) ∷ m) =
    let (have, bytes) = tally files m in
    if matches files rel size then (have + 1, bytes) else (have, bytes + size)

unfoldable pub scan_one : SizeMap → SizeMap → Bool → Scanned
unfolding tally
scan_one files remote active =
    let (have, bytes) = tally files remote in
    let fetch = length remote - have in
    record {
      status = if fetch == 0 then complete else if is_empty_map files then missing else partly;
      restorable = ltb 0 fetch && not active;
      total = length remote;
      have = have;
      fetch_files = fetch;
      fetch_bytes = bytes;
    }

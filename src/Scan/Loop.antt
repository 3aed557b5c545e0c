-- ===== src/Scan/Loop.antt =====
-- config_scan.py: the loop of `main` over the configurations, with its `finally`, and the refusals before.
use daq_control_vmm_beam.Base.{
  ℕ, ◌+◌, ◌-◌, ◌/◌, ltb, Bool, true, false, not, ◌&&◌, Option, none, some, List, [], ◌∷◌, map,
  if◌then◌else◌, Text, codes, text_eq, length,
}
use daq_control_vmm_beam.Scan.Hall.{Hall, Scan, ask_hall, is_file}
use daq_control_vmm_beam.Scan.Point.{PointEnd, fatal, failed, crashed, dry, finished, run_one}

-- What a configuration came to; `dry_run` stands for True.
pub data Fate : Type 0 where
  taken : Option ℕ → Fate
  dry_run stopped no_time refused killed : Fate

-- The entries of `done` and `failed`, in the order in which they are made.
abbrev pub Fates : Type 0
Fates = List (Text × Fate)

-- How the loop ends: at its end or by `break`, or by an exception.
pub data ScanEnd : Type 0 where
  over : Fates → Scan → ScanEnd
  thrown : Fates → Scan → ScanEnd

abbrev pub overhead_min : ℕ
overhead_min = 6

-- `cfg == configs[-1]`
abbrev pub is_last : Text → List Text → Bool
is_last cfg [] = false
is_last cfg (c ∷ []) = text_eq cfg c
is_last cfg (_ ∷ c ∷ cs) = is_last cfg (c ∷ cs)

-- The hold of the voltages between the runs of a scan.
unfoldable pub set_hold : Hall → Bool → List Text → Text → Scan → Scan
set_hold hall is_dry configs cfg s =
    if not is_dry && hall.is_beam_site then record s { hold = not (is_last cfg configs) } else s

abbrev pub note : Text × Fate → ScanEnd → ScanEnd
note entry (over fates s) = over (entry ∷ fates) s
note entry (thrown fates s) = thrown (entry ∷ fates) s

abbrev pub after_point : Text → PointEnd → (Scan → ScanEnd) → ScanEnd
after_point cfg (fatal s) next = over ((cfg, killed) ∷ []) s
after_point cfg (failed s) next = note (cfg, refused) (next s)
after_point cfg (crashed s) next = thrown [] s
after_point cfg (dry s) next = note (cfg, dry_run) (next s)
after_point cfg (finished events s) next = note (cfg, taken events) (next s)

-- The loop over the configurations that are left.
unfoldable pub scan_loop : Hall → Bool → ℕ → List Text → List Text → Scan → ScanEnd
scan_loop hall is_dry minutes configs [] s = over [] s
scan_loop hall is_dry minutes configs (cfg ∷ rest) s =
    let next = scan_loop hall is_dry minutes configs rest in
    let s1 = ask_hall s in
    let s2 = ask_hall (set_hold hall is_dry configs cfg s1) in
    if not is_dry && hall.stop_requested s.asked
    then over (map (λ c. (c, stopped)) (cfg ∷ rest)) s1
    else if ltb (hall.minutes_left s1.asked) (minutes + overhead_min)
    then note (cfg, no_time) (next s2)
    else after_point cfg (run_one hall is_dry minutes cfg s2) next

-- The `finally`.
abbrev pub clean_up : Hall → Bool → Scan → Scan
clean_up hall is_dry s =
    if is_dry
    then s
    else record s { no_recovery = false; hold = if hall.is_beam_site then false else s.hold }

abbrev pub finally : Hall → Bool → ScanEnd → ScanEnd
finally hall is_dry (over fates s) = over fates (clean_up hall is_dry s)
finally hall is_dry (thrown fates s) = thrown fates (clean_up hall is_dry s)

-- The scan from the file that stops the recovery on.
unfoldable pub run_scan : Hall → Bool → ℕ → List Text → Scan → ScanEnd
run_scan hall is_dry minutes configs s = finally hall is_dry (
    scan_loop hall is_dry minutes configs configs
      (if is_dry then s else record s { no_recovery = true }))

-- The refusals before: too few minutes for each run, or another plan.
abbrev pub is_too_short : Bool → ℕ → Bool
is_too_short is_beam_site minutes = ltb minutes (if is_beam_site then 5 else 2)

-- The minutes of each run where none are given.
unfoldable pub equal_minutes : ℕ → List Text → ℕ
equal_minutes available configs = available / length configs - overhead_min

unfoldable pub start_scan : Hall → Bool → Option Text → ℕ → List Text → Scan → Option ScanEnd
start_scan hall is_dry plan minutes configs s =
    if is_too_short hall.is_beam_site minutes
    then none
    else if not (is_file (codes "config_scan") plan) && not is_dry
    then none
    else some (run_scan hall is_dry minutes configs s)

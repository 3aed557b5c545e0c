-- ===== src/Scan/Point.antt =====
-- config_scan.py: `run_one`, one configuration of a scan.
use daq_control_vmm_beam.Base.{
  ℕ, zero, suc, ◌+◌, ◌*◌, ltb, ◌==◌, Bool, true, false, not, ◌&&◌, Option, none, some, List, [],
  ◌∷◌, if◌then◌else◌, Text, codes,
}
use daq_control_vmm_beam.Scan.Hall.{
  post_update, post_start, post_stop, RunFile, Hall, Scan, ask_hall, post, wait_for, idle_polls,
  appear_polls, warm_reset_tries, is_file, reset_until_ready, select_and_apply,
}

-- How `run_one` ends: None, False, the dict of a finished run with its triggers, True for a dry run, or an
-- exception.
pub data PointEnd : Type 0 where
  fatal failed crashed dry : Scan → PointEnd
  finished : Option ℕ → Scan → PointEnd

abbrev pub floor_bytes : ℕ
floor_bytes = 60000000000

-- `0 <= fg < MIN_FREE_GB`
abbrev pub is_below_floor : Option ℕ → Bool
is_below_floor none = false
is_below_floor (some free) = ltb free floor_bytes

-- Whether 1.5 times the volume of the point before would leave less than the floor.
abbrev pub would_overrun : Option ℕ → Option ℕ → Bool
would_overrun (some last) (some free) = ltb (2 * free) (2 * floor_bytes + 3 * last)
would_overrun _ _ = false

-- `verify_started_run`
abbrev pub is_one_run_of : ℕ → List ℕ → Bool
is_one_run_of minutes (time ∷ []) = time == minutes
is_one_run_of minutes _ = false

unfoldable pub verify_started_run : Text → ℕ → Option RunFile → Bool
verify_started_run cfg minutes none = false
verify_started_run cfg minutes (some file) =
    is_file (codes "config_scan") file.run_plan
    && (is_file cfg file.chip_config && is_one_run_of minutes file.run_times)

-- The end of a run at a lab site, whose volume is kept, and at the beam, whose triggers are read.
abbrev pub finish_lab : Option ℕ → Scan → PointEnd
finish_lab none s = crashed s
finish_lab (some bytes) s = finished none (record s { last_bytes = some bytes })

abbrev pub finish_beam : Option ℕ → Option ℕ → Scan → PointEnd
finish_beam none events s = crashed s
finish_beam (some bytes) events s = finished events s

-- The wait for the end of the run, with the polls until its deadline; each poll may look twice.
unfoldable pub watch_point : Hall → ℕ → Scan → PointEnd
watch_point hall zero s = fatal s
watch_point hall (suc polls) s =
    let s1 = ask_hall s in
    let s2 = ask_hall s1 in
    let rest = watch_point hall polls s2 in
    if not (hall.daq_running s.asked) && not hall.is_beam_site
    then finish_lab (hall.run_bytes s1.asked) (ask_hall s1)
    else if hall.daq_running s1.asked
    then rest
    else finish_beam (hall.run_bytes s2.asked) (hall.dream_events (s2.asked + 1))
        (ask_hall (ask_hall s2))

-- Three times OVERHEAD_MIN beyond the minutes of the run, a poll each 10 s.
abbrev pub watch_polls : ℕ → ℕ
watch_polls minutes = (minutes + 18) * 6

abbrev pub either_way : Bool × Scan → (Scan → PointEnd) → (Scan → PointEnd) → PointEnd
either_way (true, s) next other = next s
either_way (false, s) next other = other s

-- From the process of the run on.
unfoldable pub follow_point : Hall → ℕ → Text → Scan → PointEnd
follow_point hall minutes cfg s =
    if verify_started_run cfg minutes (hall.run_file s.asked)
    then watch_point hall (watch_polls minutes) (ask_hall s)
    else fatal (post post_stop (ask_hall s))

-- The start, once the chips are configured.
unfoldable pub start_point : Hall → ℕ → Text → Scan → PointEnd
start_point hall minutes cfg s =
    let s' = post post_update s in
    if hall.starts s'.asked
    then either_way (wait_for hall.daq_running appear_polls (post post_start s'))
        (follow_point hall minutes cfg) failed
    else failed (post post_start s')

-- The warm reset and the apply.
unfoldable pub configure_point : Hall → ℕ → Text → Scan → PointEnd
configure_point hall minutes cfg s =
    either_way (reset_until_ready hall warm_reset_tries s)
      (λ s'. either_way (select_and_apply hall cfg s') (start_point hall minutes cfg) failed) fatal

-- The wait for Dream, at the beam only.
unfoldable pub idle_point : Hall → ℕ → Text → Scan → PointEnd
idle_point hall minutes cfg s =
    if hall.is_beam_site
    then either_way (wait_for hall.dream_idle idle_polls s) (configure_point hall minutes cfg)
        failed
    else configure_point hall minutes cfg s

-- `run_one`
unfoldable pub run_one : Hall → Bool → ℕ → Text → Scan → PointEnd
run_one hall is_dry minutes cfg s =
    let free = hall.free_bytes (s.asked + 1) in
    let s' = ask_hall (ask_hall s) in
    if is_dry
    then dry s
    else if hall.daq_running s.asked
    then failed (ask_hall s)
    else if is_below_floor free
    then fatal s'
    else if not hall.is_beam_site && would_overrun s.last_bytes free
    then fatal s'
    else idle_point hall minutes cfg s'

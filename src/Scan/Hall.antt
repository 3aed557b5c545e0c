-- ===== src/Scan/Hall.antt =====
-- What config_scan.py asks and sends, its waits, and the preparation of the chips for a run.
use daq_control_vmm_beam.Base.{
  ℕ, zero, suc, ◌+◌, Bool, true, false, ◌&&◌, Option, none, some, List, ◌∷◌, if◌then◌else◌, Text,
  text_eq,
}
use daq_control_vmm_beam.Base.Int.{ℤ, is_zero}

-- The requests to the web application.
pub data Sent : Type 0 where
  post_reset post_apply post_update post_start post_stop : Sent
  post_select : Text → Sent

-- The answers of the others, by the number of questions before: `none` stands for a missing field, for
-- the free space for a failed `statvfs`, and for the bytes of a run for a file that vanishes, which
-- raises. The generated run config is its plan, its chip configuration and the minutes of its sub-runs.
pub record RunFile : Type 0 where
  pub run_plan : Option Text
  pub chip_config : Option Text
  pub run_times : List ℕ

pub record Hall : Type 0 where
  pub is_beam_site : Bool
  pub daq_running : ℕ → Bool
  pub free_bytes : ℕ → Option ℕ
  pub dream_idle : ℕ → Bool
  pub reset_running : ℕ → Option Bool
  pub reset_failed : ℕ → Option ℤ
  pub selects : ℕ → Bool
  pub applying : ℕ → Option Bool
  pub last_rc : ℕ → Option ℤ
  pub last_file : ℕ → Option Text
  pub armed : ℕ → Bool
  pub starts : ℕ → Bool
  pub run_file : ℕ → Option RunFile
  pub run_bytes : ℕ → Option ℕ
  pub dream_events : ℕ → Option ℕ
  pub stop_requested : ℕ → Bool
  pub minutes_left : ℕ → ℕ

-- `no_recovery` and `hold` are the files that stop the recovery of the guard and keep the voltages up.
-- `last_bytes` is the volume of the point before, at a lab site: its rate times the minutes, which are
-- those of every point of the scan. `asked` counts the questions, `sent` has the last request first.
pub record Scan : Type 0 where
  pub asked : ℕ
  pub sent : List Sent
  pub no_recovery : Bool
  pub hold : Bool
  pub last_bytes : Option ℕ

abbrev pub ask_hall : Scan → Scan
ask_hall s = record s { asked = s.asked + 1 }

abbrev pub post : Sent → Scan → Scan
post r s = record s { asked = s.asked + 1; sent = r ∷ s.sent }

-- `wait_until`, a poll each 3 s.
unfoldable pub wait_for : (ℕ → Bool) → ℕ → Scan → Bool × Scan
wait_for pred zero s = (false, s)
wait_for pred (suc polls) s =
    let rest = wait_for pred polls (ask_hall s) in if pred s.asked then (true, ask_hall s) else rest

-- 300 s for a step, 900 s for the teardown of Dream, 120 s for the process to appear.
abbrev pub reset_polls : ℕ
reset_polls = 100

abbrev pub idle_polls : ℕ
idle_polls = 300

abbrev pub appear_polls : ℕ
appear_polls = 40

abbrev pub warm_reset_tries : ℕ
warm_reset_tries = 3

abbrev pub is_said_off : Option Bool → Bool
is_said_off (some false) = true
is_said_off _ = false

abbrev pub is_said_zero : Option ℤ → Bool
is_said_zero none = false
is_said_zero (some n) = is_zero n

abbrev pub is_file : Text → Option Text → Bool
is_file cfg none = false
is_file cfg (some file) = text_eq file cfg

-- One warm reset: whether it left no hybrid failed.
unfoldable pub reset_once : Hall → Scan → Bool × Scan
reset_once hall s =
    let waited =
      wait_for (λ k. is_said_off (hall.reset_running k)) reset_polls (post post_reset s) in
    (is_said_zero (hall.reset_failed waited.1.asked), ask_hall waited.1)

-- `warm_reset_until_ready`
unfoldable pub reset_until_ready : Hall → ℕ → Scan → Bool × Scan
reset_until_ready hall zero s = (false, s)
reset_until_ready hall (suc tries) s =
    let tried = reset_once hall s in
    let rest = reset_until_ready hall tries tried.1 in if tried.0 then tried else rest

-- One apply: it does not end in time, it has taken and leaves the run armed or not, or it has failed.
pub data Applied : Type 0 where
  no_end : Scan → Applied
  took : Bool → Scan → Applied
  not_taken : Scan → Applied

abbrev pub read_apply : Hall → Text → Bool × Scan → Applied
read_apply hall cfg (false, s) = no_end s
read_apply hall cfg (true, s) =
    if is_said_zero (hall.last_rc s.asked) && is_file cfg (hall.last_file s.asked)
    then took (hall.armed (s.asked + 1)) (ask_hall (ask_hall s))
    else not_taken (ask_hall s)

unfoldable pub apply_once : Hall → Text → Scan → Applied
apply_once hall cfg s =
    read_apply hall cfg
      (wait_for (λ k. is_said_off (hall.applying k)) reset_polls (post post_apply s))

abbrev pub after_apply : Applied → (Scan → Bool × Scan) → Bool × Scan
after_apply (no_end s) next = (false, s)
after_apply (took armed s) next = (armed, s)
after_apply (not_taken s) next = next s

-- The loop of `select_and_apply`.
unfoldable pub apply_tries : Hall → Text → ℕ → Scan → Bool × Scan
apply_tries hall cfg zero s = (false, s)
apply_tries hall cfg (suc tries) s =
    after_apply (apply_once hall cfg s) (apply_tries hall cfg tries)

unfoldable pub select_and_apply : Hall → Text → Scan → Bool × Scan
select_and_apply hall cfg s =
    let s' = post (post_select cfg) s in
    if hall.selects s.asked then apply_tries hall cfg warm_reset_tries s' else (false, s')

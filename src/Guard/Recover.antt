-- ===== src/Guard/Recover.antt =====
-- The steps of capture_guard.py outside its own state: the verdict against the VMM, the stop of the run,
-- and the recovery up to the start of a follow-up run.
use daq_control_vmm_beam.Base.{
  ℕ, zero, suc, ◌+◌, ltb, Bool, true, false, not, ◌&&◌, Option, none, some, List, ◌∷◌,
  if◌then◌else◌,
}
use daq_control_vmm_beam.Base.Int.{ℤ, is_zero}

-- The requests that the guard sends, and the file that it writes and removes.
pub data Step : Type 0 where
  stop_by_flask stop_by_script write_continuation remove_continuation : Step
  post_warm_reset post_apply new_number post_start : Step

-- The answer of `/chip_config/status`; a missing field is `none`.
pub record ChipStatus : Type 0 where
  pub reset_running : Option Bool
  pub failed : Option ℤ
  pub applying : Option Bool
  pub rc : Option ℤ
  pub armed : Bool

-- The answers of the others at each look, by the number of looks and requests before it.
pub record Bench : Type 0 where
  pub is_beam_site : Bool
  pub is_disabled : ℕ → Bool
  pub daq_running : ℕ → Bool
  pub dream_idle : ℕ → Bool
  pub beam_off : ℕ → Bool
  pub can_write : ℕ → Bool
  pub chip_status : ℕ → ChipStatus
  pub stops : ℕ → Bool
  pub starts : ℕ → Bool
  pub has_run : ℕ → Bool
  pub run_events : ℕ → Option ℕ

-- `at` counts the looks and requests, `steps` are the requests, the last one first.
pub record Work : Type 0 where
  pub at : ℕ
  pub steps : List Step

abbrev pub see : Work → Work
see w = record w { at = w.at + 1 }

abbrev pub send : Step → Work → Work
send s w = record w { at = w.at + 1; steps = s ∷ w.steps }

-- `dream_recording`: whether triggers arrive now.
abbrev pub has_grown : Option ℕ → Option ℕ → Bool
has_grown none _ = false
has_grown (some e0) none = false
has_grown (some e0) (some e1) = ltb e0 e1

unfoldable pub dream_recording : Bench → ℕ → Bool
dream_recording b k = b.has_run k && has_grown (b.run_events (k + 1)) (b.run_events (k + 2))

-- `blame_the_vmm`
unfoldable pub blame_the_vmm : Bench → ℕ → Bool
blame_the_vmm b k = if not b.is_beam_site then true else dream_recording b k

-- `stop_the_run`: the script where the Flask does not stop the run.
unfoldable pub stop_the_run : Bench → Work → Work
stop_the_run b w =
    let w' = send stop_by_flask w in if b.stops w.at then w' else send stop_by_script w'

-- `wait_until`, with the polls that fit in its time.
unfoldable pub wait_until : (ℕ → Bool) → ℕ → Work → Bool × Work
wait_until pred zero w = (false, w)
wait_until pred (suc polls) w =
    let rest = wait_until pred polls (see w) in if pred w.at then (true, see w) else rest

-- A poll each 3 s, in 300 s and in 900 s.
abbrev pub step_polls : ℕ
step_polls = 100

abbrev pub teardown_polls : ℕ
teardown_polls = 300

abbrev pub is_off : Option Bool → Bool
is_off (some false) = true
is_off _ = false

abbrev pub is_none_failed : Option ℤ → Bool
is_none_failed none = false
is_none_failed (some n) = is_zero n

-- `warm_reset_until_ready`
unfoldable pub warm_reset_until_ready : Bench → ℕ → Work → Bool × Work
warm_reset_until_ready b zero w = (false, w)
warm_reset_until_ready b (suc tries) w =
    let waited =
      wait_until (λ k. is_off (b.chip_status k).reset_running) step_polls
        (send post_warm_reset w) in
    let rest = warm_reset_until_ready b tries (see waited.1) in
    if is_none_failed (b.chip_status waited.1.at).failed then (true, see waited.1) else rest

-- `apply_chip_config`: the exit code and the arming are two looks.
unfoldable pub apply_chip_config : Bench → ℕ → Work → Bool × Work
apply_chip_config b zero w = (false, w)
apply_chip_config b (suc tries) w =
    let waited =
      wait_until (λ k. is_off (b.chip_status k).applying) step_polls (send post_apply w) in
    let w' = see waited.1 in
    let rest = apply_chip_config b tries (see w') in
    if waited.0 && (is_none_failed (b.chip_status waited.1.at).rc && (b.chip_status w'.at).armed)
    then (true, see w')
    else rest

unfoldable pub start_run : Bench → ℕ → Work → Bool × Work
start_run b zero w = (false, w)
start_run b (suc tries) w =
    let w' = send new_number w in
    let rest = start_run b tries (send post_start w') in
    if b.starts w'.at then (true, send post_start w') else rest

-- The continuation is removed once the follow-up run has started.
abbrev pub consumed : Bool × Work → Bool × Work
consumed (true, w) = (true, send remove_continuation w)
consumed (false, w) = (false, w)

-- One step of the recovery after another, each only where the one before it has succeeded.
abbrev pub then_if : Bool × Work → (Work → Bool × Work) → Bool × Work
then_if (true, w) next = next w
then_if (false, w) next = (false, w)

unfoldable pub restart : Bench → Work → Bool × Work
restart b w =
    then_if (warm_reset_until_ready b 3 w)
      (λ w1. then_if (apply_chip_config b 3 w1) (λ w2. consumed (start_run b 2 w2)))

unfoldable pub continue_plan : Bench → Work → Bool × Work
continue_plan b w =
    if b.can_write w.at then restart b (send write_continuation w) else (false, see w)

unfoldable pub beam_gate : Bench → Work → Bool × Work
beam_gate b w =
    if b.is_beam_site
    then then_if (wait_until b.dream_idle teardown_polls w) (λ w'. (not (b.beam_off w'.at), see w'))
    else (true, w)

-- `recover`
unfoldable pub recover : Bench → Work → Bool × Work
recover b w =
    if b.is_disabled w.at
    then (false, see w)
    else then_if (wait_until (λ k. not (b.daq_running k)) step_polls (see w))
        (λ w1. then_if (beam_gate b w1) (continue_plan b))

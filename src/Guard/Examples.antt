-- ===== src/Guard/Examples.antt =====
-- A dead readout at a site without beam, and the theorems about capture_guard.py at concrete data.
use daq_control_vmm_beam.Base.{
  ℕ, ◌≡◌, ◌≢◌, refl, ◌⊎◌, keep, inl, true, false, none, some, List, [], ◌∷◌, codes, arith, text_eq,
}
use daq_control_vmm_beam.Base.Int.{pos}
use daq_control_vmm_beam.Guard.Captures.{
  CaptureFile, RunTree, current_run, current_subrun, newest_subrun, newest_among, newer, is_pcapng,
  find_tree, raw_of, capture_active, closed_capture_sizes, insert_file, sort_files, is_silent,
}
use daq_control_vmm_beam.Guard.Recover.{
  write_continuation, post_warm_reset, post_apply, new_number, post_start, remove_continuation,
  ChipStatus, Bench, Work, dream_recording, blame_the_vmm, stop_the_run, wait_until,
  warm_reset_until_ready, apply_chip_config, start_run, restart, continue_plan, beam_gate, recover,
}
use daq_control_vmm_beam.Guard.Phases.{phase, idle, is_end_of, recover-phase}
use daq_control_vmm_beam.Guard.Continuation.{IsSeen, recover-IsSeen}
use daq_control_vmm_beam.Guard.Loop.{
  Round, stops_run, tries_recovery, start_guard, try_recovery, trip, judge, guard_round,
  guard_rounds,
}
use daq_control_vmm_beam.Guard.Budget.{IsWithinBudget, guard_rounds-IsWithinBudget}
use daq_control_vmm_beam.Guard.Caused.{IsStopped, IsCaused, guard_rounds-IsCaused}
use daq_control_vmm_beam.Guard.Sorted.{AllButNewest, closed_capture_sizes-AllButNewest}

abbrev ready : ChipStatus
ready = record {
  reset_running = some false;
  failed = some (pos 0);
  applying = some false;
  rc = some (pos 0);
  armed = true;
}

abbrev lab : Bench
lab = record {
  is_beam_site = false;
  is_disabled = λ _. false;
  daq_running = λ _. false;
  dream_idle = λ _. true;
  beam_off = λ _. false;
  can_write = λ _. true;
  chip_status = λ _. ready;
  stops = λ _. true;
  starts = λ _. true;
  has_run = λ _. false;
  run_events = λ _. none;
}

-- Hybrids that never come up.
abbrev dead_hybrids : Bench
dead_hybrids = record lab {
  chip_status = λ _. record ready { failed = some (pos 3); armed = false };
}

abbrev file : ℕ → ℕ → CaptureFile
file t n = record { file_name = codes "a.pcapng"; mtime = t; size = n }

abbrev three_files : List CaptureFile
three_files = file 1040 272 ∷ file 1000 272 ∷ file 1080 272 ∷ []

abbrev trees : List RunTree
trees =
    record {
      run = codes "run_7";
      walked = three_files;
      sub_runs = record { subrun = codes "scan"; raw = some three_files } ∷ [];
    }
    ∷ []

abbrev dead_round : Round
dead_round = record {
  flask_run = some (codes "run_7");
  now = 1090;
  runs = some trees;
  bench = lab;
  looked = 0;
  raises_early = false;
  raises_in_recovery = false;
}

abbrev idle_work : Work
idle_work = record { at = 0; steps = [] }

recovery_order :
    (recover lab idle_work).1.steps
    ≡ remove_continuation ∷ post_start ∷ new_number ∷ post_apply ∷ post_warm_reset
      ∷ write_continuation ∷ []
unfolding recover beam_gate continue_plan restart warm_reset_until_ready apply_chip_config start_run
    wait_until
recovery_order = refl

starts_follow_up : (recover lab idle_work).0 ≡ true
unfolding recover beam_gate continue_plan restart warm_reset_until_ready apply_chip_config start_run
    wait_until
starts_follow_up = refl

gives_up :
    ((recover dead_hybrids idle_work).0 ≡ false)
    × ((recover dead_hybrids idle_work).1.steps
        ≡ post_warm_reset ∷ post_warm_reset ∷ post_warm_reset ∷ write_continuation ∷ [])
unfolding recover beam_gate continue_plan restart warm_reset_until_ready apply_chip_config start_run
    wait_until
gives_up = (refl, refl)

given_up : phase (recover dead_hybrids idle_work).1.steps ≢ idle
given_up = rw gives_up.1 (λ e. ground arith)

dead_readout_stops_twice :
    (guard_rounds (dead_round ∷ dead_round ∷ []) start_guard).deeds
    ≡ tries_recovery (codes "run_7")
      ∷ stops_run (codes "run_7")
      ∷ tries_recovery (codes "run_7")
      ∷ stops_run (codes "run_7")
      ∷ []
unfolding guard_rounds guard_round judge trip try_recovery recover beam_gate continue_plan restart
    warm_reset_until_ready apply_chip_config start_run wait_until stop_the_run blame_the_vmm
    dream_recording current_run current_subrun newest_subrun newest_among newer is_pcapng find_tree
    raw_of capture_active closed_capture_sizes insert_file sort_files is_silent text_eq
dead_readout_stops_twice = refl

guard_rounds-IsStopped :
    IsStopped (codes "run_7") (guard_rounds (dead_round ∷ dead_round ∷ []) start_guard).deeds
guard_rounds-IsStopped = rw dead_readout_stops_twice (inl refl)

recover-phase_example :
    is_end_of (recover lab idle_work).0 (phase (recover lab idle_work).1.steps) ≡ true
recover-phase_example = recover-phase lab idle_work refl

recover-IsSeen_example : IsSeen lab 0 (recover lab idle_work).1.at
recover-IsSeen_example = recover-IsSeen lab idle_work starts_follow_up

guard_rounds-IsWithinBudget_example :
    IsWithinBudget (guard_rounds (dead_round ∷ dead_round ∷ dead_round ∷ []) start_guard)
guard_rounds-IsWithinBudget_example =
    guard_rounds-IsWithinBudget (dead_round ∷ dead_round ∷ dead_round ∷ []) start_guard
      (record { counted = refl; bounded = omega arith })

guard_rounds-IsCaused_example :
    IsStopped (codes "run_7") [] ⊎ IsCaused (dead_round ∷ dead_round ∷ []) (codes "run_7")
guard_rounds-IsCaused_example =
    guard_rounds-IsCaused (dead_round ∷ dead_round ∷ []) (codes "run_7") start_guard
      guard_rounds-IsStopped

closed_capture_sizes-AllButNewest_example :
    AllButNewest three_files (closed_capture_sizes (some three_files))
    ⊎ ((keep is_pcapng three_files ≡ []) × (closed_capture_sizes (some three_files) ≡ []))
closed_capture_sizes-AllButNewest_example = closed_capture_sizes-AllButNewest three_files

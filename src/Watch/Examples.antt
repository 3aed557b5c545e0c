-- ===== src/Watch/Examples.antt =====
-- A child that finishes, one that freezes, and the theorems about watcher_common.py at concrete data.
use daq_control_vmm_beam.Base.{ℕ, ◌≡◌, refl, true, none, some, List, [], ◌∷◌}
use daq_control_vmm_beam.Base.Int.{pos}
use daq_control_vmm_beam.Watch.Monitored.{
  Limits, WatchRound, finished, stalled, watch_growth, check_round, monitor, run_monitored,
}
use daq_control_vmm_beam.Watch.Ended.{IsHealthy, run_monitored-IsHealthy}

abbrev limits : Limits
limits = record {
  memory_kill_pct = 80;
  hard_timeout_s = 100;
  stall_timeout_s = 30;
  watches_path = true;
}

abbrev alive : ℕ → ℕ → WatchRound
alive t size = record { polled = none; now = t; mem_pct = 40; path_size = some size }

abbrev exits : WatchRound
exits = record { polled = some (pos 0); now = 0; mem_pct = 0; path_size = none }

abbrev good_child : List WatchRound
good_child = alive 20 5 ∷ alive 40 9 ∷ exits ∷ []

good_child_finishes : run_monitored limits 0 good_child ≡ some finished
unfolding run_monitored monitor check_round watch_growth
good_child_finishes = refl

frozen_child_is_killed :
    run_monitored limits 0 (alive 20 5 ∷ alive 40 5 ∷ alive 60 5 ∷ []) ≡ some stalled
unfolding run_monitored monitor check_round watch_growth
frozen_child_is_killed = refl

run_monitored-IsHealthy_example : IsHealthy limits 0 good_child
run_monitored-IsHealthy_example = run_monitored-IsHealthy limits 0 good_child good_child_finishes

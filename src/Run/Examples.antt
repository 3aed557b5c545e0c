-- ===== src/Run/Examples.antt =====
-- Small runs of daq_control.py, and the theorems about its loop at concrete data.
use daq_control_vmm_beam.Base.{◌≡◌, refl, leb, true, false, [], ◌∷◌, codes, text_eq, arith, ◌||◌}
use daq_control_vmm_beam.Run.World.{
  Flags, SubRun, RunConfig, make_dirs, begin_hv, start_hv, start_daq, write_run_time, end_hv,
  finished, World, Others, Servers, starting, look, sleep_unless_stop, wait_resume,
}
use daq_control_vmm_beam.Run.SubRun.{
  goes_on, controller_run, run_daq_controller, settle_marker, post_pause, close_sub_run, take_data,
  ramp, take_sub_run,
}
use daq_control_vmm_beam.Run.Control.{
  head_after_wait, round_head, sub_run_loop, close_down, run_sub_runs,
}
use daq_control_vmm_beam.Run.Marked.{NeverClears}
use daq_control_vmm_beam.Run.Closed.{world_of}
use daq_control_vmm_beam.Run.Completed.{GrowsBy, run_sub_runs-GrowsBy}
use daq_control_vmm_beam.Run.Ends.{Ends, StopsBy, run_sub_runs-Ends}

abbrev cosmics : SubRun
cosmics = record { sub_run_name = codes "cosmics"; settle_time = 5; post_pause_s = 2 }

abbrev beam : SubRun
beam = record { sub_run_name = codes "beam"; settle_time = 0; post_pause_s = 0 }

abbrev pub two_sub_runs : RunConfig
two_sub_runs = record {
  sub_runs = cosmics ∷ beam ∷ [];
  resume = true;
  hv_monitoring = true;
  lv_monitoring = false;
  check_before_subrun = false;
  power_off_hv_at_end = false;
}

abbrev no_flags : Flags
no_flags = record { stop_run = false; stop_subrun = false; pause = false }

abbrev pub fresh : World
fresh = record { tick = 0; flags = no_flags; completed = []; done = [] }

abbrev pub good_servers : Servers
good_servers = record {
  hv_set = λ _. true;
  lv_ok = λ _. true;
  daq_starts = λ _. starting;
  daq_stops = λ _. true;
}

abbrev pub nobody : Others
nobody k f = f

-- Stop Run is pressed before the sixth look and stays.
abbrev stop_at_five : Others
stop_at_five k f = record f { stop_run = f.stop_run || leb 5 k }

nobody_clears : NeverClears nobody
nobody_clears = record { keeps_run = λ n f e. e; keeps_subrun = λ n f e. e }

stop_at_five_stops : StopsBy 5 stop_at_five
stop_at_five_stops k f l = ground arith

both_sub_runs_complete :
    (world_of (run_sub_runs nobody good_servers two_sub_runs 3 fresh)).completed
    ≡ codes "beam" ∷ codes "cosmics" ∷ []
unfolding run_sub_runs sub_run_loop round_head head_after_wait take_sub_run ramp take_data
    run_daq_controller controller_run close_sub_run settle_marker post_pause sleep_unless_stop
    wait_resume look close_down text_eq
both_sub_runs_complete = refl

stopped_run_marks_nothing :
    run_sub_runs stop_at_five good_servers two_sub_runs 6 fresh
    ≡ goes_on (record {
      tick = 9;
      flags = no_flags;
      completed = [];
      done =
          finished
          ∷ end_hv
          ∷ write_run_time (codes "cosmics")
          ∷ start_daq (codes "cosmics")
          ∷ start_hv (codes "cosmics")
          ∷ begin_hv (codes "cosmics")
          ∷ make_dirs (codes "cosmics")
          ∷ [];
    })
unfolding run_sub_runs sub_run_loop round_head head_after_wait take_sub_run ramp take_data
    run_daq_controller controller_run close_sub_run settle_marker post_pause sleep_unless_stop
    wait_resume look close_down text_eq
stopped_run_marks_nothing = refl

run_sub_runs-GrowsBy_example :
    GrowsBy good_servers
      (cosmics ∷ beam ∷ [])
      fresh
      (world_of (run_sub_runs nobody good_servers two_sub_runs 3 fresh))
run_sub_runs-GrowsBy_example =
    run_sub_runs-GrowsBy nobody good_servers nobody_clears two_sub_runs 3 fresh

run_sub_runs-Ends_example : Ends (run_sub_runs stop_at_five good_servers two_sub_runs 6 fresh)
run_sub_runs-Ends_example =
    run_sub_runs-Ends 5 stop_at_five stop_at_five_stops good_servers two_sub_runs 5 (omega arith)
      fresh

-- ===== src/Crate/Examples.antt =====
-- A small crate, and the theorems about it.
use daq_control_vmm_beam.Base.{
  false, none, some, List, [], ◌∷◌, ◌≡◌, refl, ◌==◌, ◌&&◌, leb, if◌then◌else◌, arith, Text, codes,
  contains_text, text_eq,
}
use daq_control_vmm_beam.Base.Int.{pos}
use daq_control_vmm_beam.Crate.Voltages.{
  Crate, Hvs, Readings, set_channel, set_channels, set_slots, wait_ramped, all_ramped,
  channels_ramped, is_far, off_channels, power_off_hvs,
}
use daq_control_vmm_beam.Crate.Applied.{
  channel_of, after_settings, settings_of, set_slots-after_settings,
}
use daq_control_vmm_beam.Crate.Ramped.{EndsBy, wait_ramped-EndsBy}
use daq_control_vmm_beam.Crate.Server.{
  Panel, HvSubRun, HvServer, HvEvent, message, wake, Row, request_of, serve_hv, handle_request,
  begin_monitoring, start_hvs, row_slots, thread_at, end_monitoring, switch_off, wake_thread,
}
use daq_control_vmm_beam.Crate.Watched.{at_rest, WatchedBy, served_of}
use daq_control_vmm_beam.Run.World.{look, sleep_unless_stop, wait_resume}
use daq_control_vmm_beam.Run.SubRun.{
  controller_run, run_daq_controller, settle_marker, post_pause, close_sub_run, take_data, ramp,
  take_sub_run,
}
use daq_control_vmm_beam.Run.Control.{
  head_after_wait, round_head, sub_run_loop, close_down, run_sub_runs,
}
use daq_control_vmm_beam.Run.Examples.{two_sub_runs, fresh, good_servers, nobody}
use daq_control_vmm_beam.Crate.Monitored.{run_sub_runs-IsWatched}
use daq_control_vmm_beam.Crate.Leaked.{monitors, begin_for, end_now, serve_hv-leaks}

-- Channel 1 of slot 0 is on, at 100 V.
abbrev one_on : Crate
one_on = record { power = λ s c. s == 0 && c == 1; v0 = λ s c. 100000; sent = [] }

-- Channel 0 to 450 V, channel 1 off, channel 2 only monitored.
abbrev settings : Hvs
settings = (0, (0, some 450000) ∷ (1, some 0) ∷ (2, none) ∷ []) ∷ []

set_slots-after_settings_example :
    channel_of (set_slots settings one_on) 0 1
    ≡ after_settings (settings_of 0 1 settings) (channel_of one_on 0 1)
set_slots-after_settings_example = set_slots-after_settings settings one_on 0 1

switched_off : channel_of (set_slots settings one_on) 0 1 ≡ (false, 100000)
unfolding set_slots set_channels set_channel
switched_off = refl

-- From the third check on the voltages are there.
abbrev ramping : Readings
ramping k s c = if leb 2 k then (if c == 0 then pos 449000 else pos 300) else pos 20000

wait_ramped-EndsBy_example : EndsBy ramping settings 2 (wait_ramped ramping settings 5 0)
wait_ramped-EndsBy_example =
    wait_ramped-EndsBy ramping settings 2 5
      (((omega arith, omega arith), ((omega arith, omega arith), (tt, tt))), tt) (omega arith)

-- A crate with one card of four channels whose voltages are there from the third check on.
abbrev one_card : Panel
one_card = record {
  ramp_vmon = λ _. ramping;
  vmon = ramping;
  imon = λ _ _ _. pos 0;
  n_cards = 1;
  n_channels_per_card = 4;
}

abbrev first_point : HvSubRun
first_point = record { sub_run_name = codes "drift_450"; hvs = settings }

abbrev second_point : HvSubRun
second_point = record { sub_run_name = codes "drift_500"; hvs = settings }

abbrev idle_server : HvServer
idle_server = record {
  crate = one_on;
  ramps = 0;
  monitor_stop = false;
  monitor_print = false;
  monitor_thread = none;
  threads = [];
  started = 0;
  rows = [];
  replies = [];
}

abbrev names_of : List Row → List Text
names_of [] = []
names_of (row ∷ rows) = row.row_of ∷ names_of rows

abbrev cosmics_point : HvSubRun
cosmics_point = record { sub_run_name = codes "cosmics"; hvs = settings }

abbrev beam_point : HvSubRun
beam_point = record { sub_run_name = codes "beam"; hvs = settings }

-- Two sub-runs, each with its monitoring, and the power switched off.
abbrev two_points : List HvEvent
two_points =
    message (codes "Begin Monitoring") (some first_point)
    ∷ wake 0
    ∷ message (codes "Start") (some first_point)
    ∷ message (codes "End Monitoring") none
    ∷ message (codes "Begin Monitoring") (some second_point)
    ∷ wake 1
    ∷ message (codes "Power Off") none
    ∷ message (codes "Finished") none
    ∷ []

rows_of_two_points :
    names_of (served_of (serve_hv one_card 5 two_points idle_server)).rows
    ≡ codes "drift_500" ∷ codes "drift_450" ∷ []
unfolding serve_hv request_of handle_request begin_monitoring start_hvs end_monitoring switch_off
    wake_thread power_off_hvs off_channels set_slots set_channels set_channel wait_ramped all_ramped
    channels_ramped is_far contains_text
rows_of_two_points = refl

abbrev one_begun : HvServer
one_begun = record idle_server { started = 1 }

-- A thread monitors the first point, when two more monitorings come.
serve_hv-leaks_example :
    ((served_of (
        serve_hv one_card 5
          (begin_for second_point ∷ end_now ∷ begin_for second_point ∷ wake 0 ∷ [])
          (monitors one_begun 0 first_point))).rows
      ≡ record { row_of = codes "drift_450"; readings = row_slots one_card one_on 0 settings } ∷ [])
    × (thread_at 0
          (served_of (
            serve_hv one_card 5
              (begin_for second_point ∷ end_now ∷ wake 0 ∷ begin_for second_point ∷ [])
              (monitors one_begun 0 first_point))).threads
        ≡ none)
serve_hv-leaks_example =
    serve_hv-leaks one_card 5 0 first_point second_point second_point one_begun (omega arith)

-- The messages of a run over two sub-runs, with rounds of the threads.
abbrev events_of_run : List HvEvent
events_of_run =
    message (codes "Begin Monitoring") (some cosmics_point)
    ∷ wake 0
    ∷ message (codes "Start") (some cosmics_point)
    ∷ wake 0
    ∷ message (codes "End Monitoring") none
    ∷ message (codes "Begin Monitoring") (some beam_point)
    ∷ message (codes "Start") (some beam_point)
    ∷ wake 1
    ∷ message (codes "End Monitoring") none
    ∷ message (codes "Finished") none
    ∷ []

run_sub_runs-IsWatched_example :
    WatchedBy (served_of (serve_hv one_card 5 events_of_run idle_server))
unfolding run_sub_runs sub_run_loop round_head head_after_wait take_sub_run ramp take_data
    run_daq_controller controller_run close_sub_run settle_marker post_pause sleep_unless_stop
    wait_resume look close_down text_eq
run_sub_runs-IsWatched_example =
    run_sub_runs-IsWatched nobody good_servers two_sub_runs 3 fresh (λ _. settings) one_card 5
      events_of_run idle_server (λ n. refl) refl (at_rest false) refl refl

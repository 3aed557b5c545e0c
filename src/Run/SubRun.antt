-- ===== src/Run/SubRun.antt =====
-- One sub-run: DAQController.run of DAQController.py, `run_daq_controller` of daq_control.py, and the
-- body of the loop of its `main`.
use daq_control_vmm_beam.Base.{
  ℕ, zero, suc, ltb, Bool, true, false, ◌&&◌, ◌||◌, ◌∷◌, if◌then◌else◌, Text, text_eq, any, ◌==◌,
}
use daq_control_vmm_beam.Run.World.{
  SubRun, RunConfig, make_dirs, check_lv, begin_hv, begin_lv, start_hv, start_daq, write_run_time,
  mark_complete, end_hv, end_lv, World, Others, closed, starting, other, Servers, count_actions,
  act, act_if, look, remove_stop_subrun, sleep_unless_stop,
}

-- How `DAQController.run` ends: it raises ConnectionError, or returns its flag.
pub data Attempt : Type 0 where
  connection_lost : Attempt
  returned : Bool → Attempt

-- `DAQController.run` without a keyboard interrupt. The `finally` writes the run time on every way
-- out, since nothing but an interrupt sets `run_successful` to False.
unfoldable pub controller_run : Servers → Text → World → Attempt × World
controller_run servers name w =
    let n = count_actions w.done in
    let w' = act (write_run_time name) (act (start_daq name) w) in
    elim (servers.daq_starts n) [
      | closed ↦ (connection_lost, w')
      | starting ↦ (returned (servers.daq_stops n), w')
      | other ↦ (returned false, w')
    ]

-- How the loop of `run_daq_controller` ends; `unfinished` where the attempts are used up.
pub data DaqEnd : Type 0 where
  succeeded stopped lost unfinished : DaqEnd

-- After one attempt the loop ends or goes on with `rest`.
abbrev pub after_attempt : Attempt × World → DaqEnd × World → DaqEnd × World
after_attempt (connection_lost, w) rest = (lost, w)
after_attempt (returned true, w) rest = (succeeded, w)
after_attempt (returned false, w) rest = rest

unfoldable pub run_daq_controller : Others → Servers → ℕ → Text → World → DaqEnd × World
run_daq_controller others servers zero name w = (unfinished, w)
run_daq_controller others servers (suc attempts) name w =
    let w' = look others w in
    let w'' = look others w' in
    let tried = controller_run servers name w'' in
    let rest = run_daq_controller others servers attempts name tried.1 in
    if w'.flags.stop_run
    then (stopped, w')
    else if w''.flags.stop_subrun
    then (stopped, w'')
    else after_attempt tried rest

-- How the body of the loop ends: `continue` or its end, an exception, or a loop with no end yet.
pub data Body : Type 0 where
  goes_on : World → Body
  raises : World → Body
  hangs : World → Body

-- The look at both stop flags after the DAQ, and the marker.
unfoldable pub settle_marker : Others → Text → World → World
settle_marker others name w =
    let w1 = look others w in
    let w2 = look others w1 in
    let w3 = if w2.flags.stop_subrun then remove_stop_subrun w2 else w2 in
    if w1.flags.stop_run || w2.flags.stop_subrun
    then w3
    else act (mark_complete name) (record w3 { completed = name ∷ w3.completed })

-- The configured pause after a sub-run.
unfoldable pub post_pause : Others → ℕ → World → World
post_pause others seconds w =
    let w' = look others w in
    if ltb 0 seconds
    then if w'.flags.stop_run then w' else sleep_unless_stop others seconds w'
    else w

-- What follows the DAQ: monitoring ends, the marker is set or not, and the pause.
unfoldable pub close_sub_run : Others → RunConfig → SubRun → World → World
close_sub_run others config s w = post_pause others s.post_pause_s (
    settle_marker others s.sub_run_name
      (act_if config.lv_monitoring end_lv (act_if config.hv_monitoring end_hv w)))

abbrev pub after_daq : Others → RunConfig → SubRun → DaqEnd × World → Body
after_daq others config s (lost, w) = raises w
after_daq others config s (unfinished, w) = hangs w
after_daq others config s (_, w) = goes_on (close_sub_run others config s w)

-- The settling time asks for the stop flag only if it is not 0.
unfoldable pub take_data : Others → Servers → RunConfig → ℕ → SubRun → World → Body
take_data others servers config attempts s w = after_daq others config s (
    run_daq_controller others servers attempts s.sub_run_name
      (if s.settle_time == 0 then w else look others w))

-- The ramp, with the monitoring that is begun before it.
unfoldable pub ramp : Others → Servers → RunConfig → ℕ → SubRun → World → Body
ramp others servers config attempts s w =
    let name = s.sub_run_name in
    let w' = act (start_hv name) (
      act_if config.lv_monitoring (begin_lv name)
        (act_if config.hv_monitoring (begin_hv name) w)) in
    if servers.hv_set (count_actions w'.done)
    then take_data others servers config attempts s w'
    else goes_on w'

-- The body of the loop from the test of the marker on.
unfoldable pub take_sub_run : Others → Servers → RunConfig → ℕ → SubRun → World → Body
take_sub_run others servers config attempts s w =
    let name = s.sub_run_name in
    let w' = act (make_dirs name) w in
    let w'' = act (check_lv name) w' in
    if config.resume && any (text_eq name) w.completed
    then goes_on w
    else if config.lv_monitoring && config.check_before_subrun
    then if servers.lv_ok (count_actions w''.done)
      then ramp others servers config attempts s w''
      else goes_on w''
    else ramp others servers config attempts s w'

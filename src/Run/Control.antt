-- ===== src/Run/Control.antt =====
-- The loop over the sub-runs and the end of `main` of daq_control.py.
use daq_control_vmm_beam.Base.{ℕ, Option, none, some, List, [], ◌∷◌, if◌then◌else◌}
use daq_control_vmm_beam.Run.World.{
  SubRun, RunConfig, power_off, finished, World, Others, Servers, act, act_if, look,
  remove_stop_subrun, remove_stop_run, remove_pause, wait_resume,
}
use daq_control_vmm_beam.Run.SubRun.{Body, goes_on, raises, hangs, take_sub_run}

-- The two tests at the head of a round: the sub-run is taken, the loop is left by `break`, or the wait
-- for Resume has not ended in the rounds given.
pub data Head : Type 0 where
  taken : World → Head
  left : World → Head
  waits : World → Head

unfoldable pub head_after_wait : Others → World → Option World → Head
head_after_wait others w none = waits w
head_after_wait others w (some w') =
    let w'' = look others w' in if w''.flags.stop_run then left w'' else taken w''

unfoldable pub round_head : Others → ℕ → World → Head
round_head others rounds w =
    let w1 = look others w in
    let w2 = look others w1 in
    if w1.flags.stop_run
    then left w1
    else if w2.flags.pause
    then head_after_wait others w2 (wait_resume others rounds w2)
    else taken w2

-- What comes after a sub-run whose body has not ended the loop.
abbrev pub and_then : Body → (World → Body) → Body
and_then (goes_on w) next = next w
and_then (raises w) next = raises w
and_then (hangs w) next = hangs w

-- A round after its head: the sub-run, and the rest of the loop.
abbrev pub after_head : (World → Body) → (World → Body) → Head → Body
after_head take next (left w) = goes_on w
after_head take next (waits w) = hangs w
after_head take next (taken w) = and_then (take w) next

-- `for sub_run in config.sub_runs`
unfoldable pub sub_run_loop : Others → Servers → RunConfig → ℕ → List SubRun → World → Body
sub_run_loop others servers config fuel [] w = goes_on w
sub_run_loop others servers config fuel (s ∷ ss) w =
    after_head (take_sub_run others servers config fuel s)
      (sub_run_loop others servers config fuel ss) (round_head others fuel w)

-- The `finally`: the stop flags are removed.
abbrev pub remove_stops : World → World
remove_stops w = remove_stop_subrun (remove_stop_run w)

-- The end of `main`: subsystems are closed unless an exception goes through.
unfoldable pub close_down : RunConfig → Body → Body
close_down config (goes_on w) =
    goes_on (act finished (act_if config.power_off_hv_at_end power_off (remove_stops w)))
close_down config (raises w) = raises (remove_stops w)
close_down config (hangs w) = hangs w

-- The sub-runs of a run, from the removal of stale flags on.
unfoldable pub run_sub_runs : Others → Servers → RunConfig → ℕ → World → Body
run_sub_runs others servers config fuel w =
    close_down config
      (sub_run_loop others servers config fuel config.sub_runs (remove_pause (remove_stops w)))

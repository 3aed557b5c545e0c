-- ===== src/Run/World.antt =====
-- What daq_control.py shares with other processes while a run goes on: the flag files, the
-- completion markers, and the requests that it sends to the HV, LV and VMM servers.
use daq_control_vmm_beam.Base.{
  ℕ, zero, suc, ◌+◌, Bool, true, false, not, Option, none, some, List, [], ◌∷◌, if◌then◌else◌, Text,
}

-- `.stop_run`, `.stop_subrun` and `.pause_run`: whether each file exists.
pub record Flags : Type 0 where
  pub stop_run : Bool
  pub stop_subrun : Bool
  pub pause : Bool

pub record SubRun : Type 0 where
  pub sub_run_name : Text
  pub settle_time : ℕ
  pub post_pause_s : ℕ

pub record RunConfig : Type 0 where
  pub sub_runs : List SubRun
  pub resume : Bool
  pub hv_monitoring : Bool
  pub lv_monitoring : Bool
  pub check_before_subrun : Bool
  pub power_off_hv_at_end : Bool

-- What the program does to the outside.
pub data Action : Type 0 where
  make_dirs check_lv begin_hv begin_lv start_hv start_daq write_run_time mark_complete :
      Text → Action
  end_hv end_lv power_off finished : Action

-- `completed` are the sub-runs with a `.subrun_complete` marker, `done` are the actions, the last one
-- first, and `tick` counts the looks at the flags.
pub record World : Type 0 where
  pub tick : ℕ
  pub flags : Flags
  pub completed : List Text
  pub done : List Action

-- What other processes do to the flags before each look at them.
abbrev pub Others : Type 0
Others = ℕ → Flags → Flags

-- The first answer of the VMM server to `Start`.
pub data Answer : Type 0 where
  closed starting other : Answer

-- The answers of the servers, by the number of actions done when they are asked: whether the HV was
-- set, whether the LV is good, what the VMM server says to a start, and whether it says at the end
-- that it stopped.
pub record Servers : Type 0 where
  pub hv_set : ℕ → Bool
  pub lv_ok : ℕ → Bool
  pub daq_starts : ℕ → Answer
  pub daq_stops : ℕ → Bool

abbrev pub count_actions : List Action → ℕ
count_actions [] = 0
count_actions (_ ∷ rest) = count_actions rest + 1

abbrev pub act : Action → World → World
act a w = record w { done = a ∷ w.done }

abbrev pub act_if : Bool → Action → World → World
act_if true a w = act a w
act_if false a w = w

-- A look at the flag files, after whatever the others have done to them.
unfoldable pub look : Others → World → World
look others w = record w { tick = w.tick + 1; flags = others w.tick w.flags }

-- `_remove_flag(STOP_SUBRUN_FLAG)` and `_remove_flag(STOP_RUN_FLAG)`
abbrev pub remove_stop_subrun : World → World
remove_stop_subrun w = record w { flags = record w.flags { stop_subrun = false } }

abbrev pub remove_stop_run : World → World
remove_stop_run w = record w { flags = record w.flags { stop_run = false } }

abbrev pub remove_pause : World → World
remove_pause w = record w { flags = record w.flags { pause = false } }

-- `_sleep_unless_stop`: a look before each of the seconds that are left.
unfoldable pub sleep_unless_stop : Others → ℕ → World → World
sleep_unless_stop others zero w = w
sleep_unless_stop others (suc n) w =
    let w' = look others w in
    let rest = sleep_unless_stop others n w' in if w'.flags.stop_run then w' else rest

-- The wait for Resume: `none` where the rounds are used up and neither flag has changed.
unfoldable pub wait_resume : Others → ℕ → World → Option World
wait_resume others zero w = none
wait_resume others (suc rounds) w =
    let w' = look others w in
    let w'' = look others w' in
    let rest = wait_resume others rounds w'' in
    if not w'.flags.pause then some w' else if w''.flags.stop_run then some w'' else rest

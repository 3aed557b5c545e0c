-- ===== src/Chip/State.antt =====
-- The state of flask_app/chip_config.py: its JSON state file, the flags of the operations in flight,
-- and the rule that arms a run.
use daq_control_vmm_beam.Base.{
  ℕ, Bool, true, false, not, ◌&&◌, ◌||◌, Option, none, some, List, if◌then◌else◌, ltb, leb, Text,
  text_eq, any,
}
use daq_control_vmm_beam.Base.Int.{ℤ, is_zero}

-- Times are the seconds of the program's `%Y-%m-%d %H:%M:%S` stamps, whose order as texts it is.
pub record LastApplied : Type 0 where
  pub file : Text
  pub base_yaml : Text
  pub rc : ℤ
  pub ts : ℕ

pub record LastReset : Type 0 where
  pub failed : ℤ
  pub ts : ℕ

pub record StateFile : Type 0 where
  pub selected_ext : Option Text
  pub last_applied : Option LastApplied
  pub warm_reset_last : Option LastReset
  pub consumed_ts : Option ℕ

-- `has_apply_script` and `has_reset_script` are whether config/chip_config.json names the scripts,
-- `base_yaml` and `ext_files` are what the files of `conf_dir` give.
pub record ChipConfig : Type 0 where
  pub configured : Bool
  pub has_apply_script : Bool
  pub has_reset_script : Bool
  pub base_yaml : Option Text
  pub ext_files : List Text
  pub running : Bool
  pub reset_running : Bool
  pub last : Option LastApplied
  pub state : StateFile

abbrev pub after_consumed : Option ℕ → ℕ → Bool
after_consumed none ts = true
after_consumed (some consumed) ts = ltb consumed ts

abbrev pub applied_since : Option LastApplied → ℕ → Bool
applied_since none ts = false
applied_since (some a) ts = is_zero a.rc && leb ts a.ts

-- The tests of `run_armed` on the state file.
unfoldable pub is_armed : Option LastReset → StateFile → Bool
is_armed none st = false
is_armed (some last) st =
    is_zero last.failed
    && (applied_since st.last_applied last.ts && after_consumed st.consumed_ts last.ts)

unfoldable pub run_armed : ChipConfig → Bool
unfolding is_armed
run_armed c =
    if not c.configured || not c.has_reset_script
    then true
    else is_armed c.state.warm_reset_last c.state

-- `_write_state(warm_reset_consumed_ts=…)`
unfoldable pub consume_warm_reset : ℕ → ChipConfig → ChipConfig
consume_warm_reset now c = record c { state = record c.state { consumed_ts = some now } }

pub data Reply : Type 0 where
  not_configured unknown_file no_base no_selection capture_running in_progress no_script : Reply
  accepted : Reply

unfoldable pub select : Text → ChipConfig → Reply × ChipConfig
select fname c =
    if not c.configured
    then (not_configured, c)
    else if not (any (text_eq fname) c.ext_files)
    then (unknown_file, c)
    else (accepted, record c { state = record c.state { selected_ext = some fname } })

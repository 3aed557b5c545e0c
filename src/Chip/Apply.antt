-- ===== src/Chip/Apply.antt =====
-- `apply`, `_run`, `_run_locked`, `warm_reset`, `_warm_run` and `_do_warm_reset` of
-- flask_app/chip_config.py.
use daq_control_vmm_beam.Base.{
  ℕ, Bool, true, false, not, ◌&&◌, ◌||◌, Option, none, some, if◌then◌else◌, Text, text_eq, any,
}
use daq_control_vmm_beam.Base.Int.{ℤ, negsuc, is_zero}
use daq_control_vmm_beam.Chip.State.{
  LastApplied, ChipConfig, Reply, not_configured, no_base, no_selection, capture_running,
  in_progress, no_script, accepted,
}

-- `apply` up to the start of its thread. `capturing` is the answer of `capture_active`.
unfoldable pub apply : Bool → ChipConfig → Reply × ChipConfig
apply capturing c = if not c.configured then (not_configured, c) else elim c.base_yaml [
  | none ↦ (no_base, c)
  | some base ↦ elim c.state.selected_ext [
    | none ↦ (no_selection, c)
    | some sel ↦
        if not (any (text_eq sel) c.ext_files)
        then (no_selection, c)
        else if capturing
        then (capture_running, c)
        else if c.running
        then (in_progress, c)
        else (accepted, record c { running = true })
  ]
]

-- `warm_reset` up to the start of its thread.
unfoldable pub warm_reset : Bool → ChipConfig → Reply × ChipConfig
warm_reset capturing c =
    if not c.configured
    then (not_configured, c)
    else if not c.has_reset_script
    then (no_script, c)
    else elim c.base_yaml [
      | none ↦ (no_base, c)
      | some base ↦
          if capturing
          then (capture_running, c)
          else if c.running || c.reset_running
          then (in_progress, c)
          else (accepted, record c { reset_running = true })
    ]

-- How a script ends: with an exit code, or by its timeout or another exception.
pub data Ran : Type 0 where
  exited : ℤ → Ran
  timed_out raised : Ran

abbrev pub code_of : Ran → ℤ
code_of (exited rc) = rc
code_of timed_out = negsuc 0
code_of raised = negsuc 0

-- The answer of `_session_lock`.
pub data Lock : Type 0 where
  no_lock_applies acquired refused : Lock

-- What becomes of the keeper of the lock.
pub data Release : Type 0 where
  no_keeper detached stopped : Release

-- `_write_state(last_applied=…)` with `self.last`, and the flag taken back.
unfoldable pub finish_apply : LastApplied → ChipConfig → ChipConfig
finish_apply a c = record c {
  last = some a;
  running = false;
  state = record c.state { last_applied = some a };
}

-- `_do_warm_reset`: the outcome of the script is recorded.
unfoldable pub do_warm_reset : Ran → ℕ → ChipConfig → Bool × ChipConfig
do_warm_reset r now c = (
  is_zero (code_of r),
  record c {
    state = record c.state { warm_reset_last = some (record { failed = code_of r; ts = now }) };
  },
)

-- What the thread of `apply` meets: the lock, the warm reset and its end, the apply script and its end.
pub record ApplyRun : Type 0 where
  pub lock : Lock
  pub lock_ts : ℕ
  pub reset : Ran
  pub reset_ts : ℕ
  pub script : Ran
  pub script_ts : ℕ

abbrev pub entry : Text → Text → ℤ → ℕ → LastApplied
entry base sel rc now = record { file = sel; base_yaml = base; rc = rc; ts = now }

-- The apply script. A configuration with no `apply_script` raises KeyError before anything is recorded.
unfoldable pub run_script : Text → Text → ApplyRun → ChipConfig → ChipConfig
unfolding finish_apply
run_script base sel x c =
    if c.has_apply_script then finish_apply (entry base sel (code_of x.script) x.script_ts) c else c

-- `_run_locked`: the warm reset comes first where there is a script for it.
unfoldable pub run_locked : Text → Text → ApplyRun → ChipConfig → ChipConfig
unfolding do_warm_reset run_script
run_locked base sel x c =
    let (ready, c') = do_warm_reset x.reset x.reset_ts c in
    if c.has_reset_script
    then if ready
      then run_script base sel x c'
      else finish_apply (entry base sel (negsuc 0) x.reset_ts) c'
    else run_script base sel x c

-- `self.last and rc == 0 and file == sel`
abbrev pub applied_ok : Option LastApplied → Text → Bool
applied_ok none sel = false
applied_ok (some a) sel = is_zero a.rc && text_eq a.file sel

-- `_run`, with what becomes of the lock.
unfoldable pub run_apply : Text → Text → ApplyRun → ChipConfig → Release × ChipConfig
unfolding run_locked
run_apply base sel x c = elim x.lock [
  | refused ↦ (no_keeper, finish_apply (entry base sel (negsuc 0) x.lock_ts) c)
  | no_lock_applies ↦ (no_keeper, run_locked base sel x c)
  | acquired ↦
      let c' = run_locked base sel x c in (if applied_ok c'.last sel then detached else stopped, c')
]

-- `_warm_run`
unfoldable pub warm_run : Lock → Ran → ℕ → ChipConfig → Release × ChipConfig
unfolding do_warm_reset
warm_run lock r now c =
    let done = record (do_warm_reset r now c).1 { reset_running = false } in
    elim lock [
      | refused ↦ (
        no_keeper,
        record c {
          reset_running = false;
          state = record c.state {
            warm_reset_last = some (record { failed = negsuc 0; ts = now });
          };
        },
      )
      | no_lock_applies ↦ (no_keeper, done)
      | acquired ↦ (stopped, done)
    ]

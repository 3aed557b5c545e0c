-- ===== src/Guard/Loop.antt =====
-- The main loop of capture_guard.py: what a round does with the state that the guard keeps.
use daq_control_vmm_beam.Base.{
  ℕ, ◌+◌, ltb, Bool, false, not, Option, none, some, List, [], ◌∷◌, if◌then◌else◌, Text, text_eq,
}
use daq_control_vmm_beam.Guard.Captures.{
  CaptureFile, RunTree, current_run, current_subrun, find_tree, raw_of, capture_active,
  closed_capture_sizes, is_silent,
}
use daq_control_vmm_beam.Guard.Recover.{Bench, Work, blame_the_vmm, stop_the_run, recover}

-- What one round finds: the answer of the Flask, the time, the runs directory, and the others. A round
-- in which a call raises ends there: before the verdict, or in the recovery.
pub record Round : Type 0 where
  pub flask_run : Option Text
  pub now : ℕ
  pub runs : Option (List RunTree)
  pub bench : Bench
  pub looked : ℕ
  pub raises_early : Bool
  pub raises_in_recovery : Bool

pub data Deed : Type 0 where
  stops_run : Text → Deed
  tries_recovery : Text → Deed

-- `stopped_run`, `recoveries` and `consecutive_errors`, and what the guard has done, the last deed first.
pub record Guard : Type 0 where
  pub stopped_run : Option Text
  pub recoveries : ℕ
  pub consecutive_errors : ℕ
  pub deeds : List Deed

abbrev pub max_recoveries : ℕ
max_recoveries = 2

abbrev pub start_guard : Guard
start_guard = record { stopped_run = none; recoveries = 0; consecutive_errors = 0; deeds = [] }

abbrev pub is_run : Text → Option Text → Bool
is_run run none = false
is_run run (some r) = text_eq run r

abbrev pub tree_in : Text → Option (List RunTree) → Option RunTree
tree_in run none = none
tree_in run (some ts) = find_tree run ts

abbrev pub raw_in : Text → Option RunTree → Option (List CaptureFile)
raw_in s none = none
raw_in s (some t) = raw_of s t.sub_runs

abbrev pub clear_errors : Guard → Guard
clear_errors g = record g { consecutive_errors = 0 }

abbrev pub add_error : Guard → Guard
add_error g = record g { consecutive_errors = g.consecutive_errors + 1 }

-- The recovery after a stop, within its budget. `w` is the state in which the stop has left the others.
unfoldable pub try_recovery : Round → Text → Work → Guard → Guard
try_recovery x run w g =
    if not (ltb g.recoveries max_recoveries)
    then clear_errors g
    else let g' = record g {
      recoveries = g.recoveries + 1;
      deeds = tries_recovery run ∷ g.deeds;
    } in
      if x.raises_in_recovery
      then add_error g'
      else if (recover x.bench w).0
      then clear_errors (record g' { stopped_run = none })
      else clear_errors g'

-- The stop of a run that records nothing.
unfoldable pub trip : Round → Text → Guard → Guard
trip x run g =
    let w = stop_the_run x.bench (record { at = x.looked + 3; steps = [] }) in
    try_recovery x run (record w { steps = [] })
      (record g { stopped_run = some run; deeds = stops_run run ∷ g.deeds })

-- A sub-run whose captures go on.
unfoldable pub judge : Round → Text → Option (List CaptureFile) → Guard → Guard
judge x run raw g =
    if not (is_silent (closed_capture_sizes raw))
    then clear_errors g
    else if not (blame_the_vmm x.bench x.looked)
    then g
    else trip x run g

abbrev pub watch_subrun : Round → Text → Option Text → Guard → Guard
watch_subrun x run none g = g
watch_subrun x run (some s) g =
    let raw = raw_in s (tree_in run x.runs) in
    if capture_active x.now raw then judge x run raw g else g

abbrev pub watch_run : Round → Option Text → Guard → Guard
watch_run x none g = g
watch_run x (some run) g =
    if is_run run g.stopped_run
    then g
    else watch_subrun x run (current_subrun (tree_in run x.runs)) g

-- A round of the loop of `main`.
unfoldable pub guard_round : Round → Guard → Guard
guard_round x g =
    if x.raises_early then add_error g else watch_run x (current_run x.flask_run x.now x.runs) g

unfoldable pub guard_rounds : List Round → Guard → Guard
guard_rounds [] g = g
guard_rounds (x ∷ xs) g = guard_rounds xs (guard_round x g)

-- ===== src/Guard/Budget.antt =====
-- What the loop of capture_guard.py never exceeds: its budget, and its right to stop a run.
use daq_control_vmm_beam.Base.{ℕ, ◌+◌, ◌≤◌, ◌≡◌, Option, none, some, List, [], ◌∷◌, Text, arith}
use daq_control_vmm_beam.Guard.Captures.{CaptureFile, current_run, current_subrun}
use daq_control_vmm_beam.Guard.Recover.{Work, stop_the_run}
use daq_control_vmm_beam.Guard.Loop.{
  Round, Deed, stops_run, tries_recovery, Guard, max_recoveries, tree_in, raw_in, try_recovery,
  trip, judge, watch_subrun, watch_run, guard_round, guard_rounds,
}

abbrev pub recoveries_in : List Deed → ℕ
recoveries_in [] = 0
recoveries_in (tries_recovery _ ∷ ds) = recoveries_in ds + 1
recoveries_in (stops_run _ ∷ ds) = recoveries_in ds

-- The count is the number of recoveries tried, and the budget holds.
pub record IsWithinBudget (g : Guard) : Type 0 where
  pub counted : g.recoveries ≡ recoveries_in g.deeds
  pub bounded : g.recoveries ≤ max_recoveries

try_recovery-IsWithinBudget :
    (x : Round) (run : Text) (w : Work) (g : Guard)
    → IsWithinBudget g
    → IsWithinBudget (try_recovery x run w g)
unfolding try_recovery
try_recovery-IsWithinBudget x run w g h = record {
  counted = ground (arith, h.counted);
  bounded = ground (arith, h.bounded);
}

trip-IsWithinBudget :
    (x : Round) (run : Text) (g : Guard) → IsWithinBudget g → IsWithinBudget (trip x run g)
unfolding trip
trip-IsWithinBudget x run g h =
    let w = stop_the_run x.bench (record { at = x.looked + 3; steps = [] }) in
    try_recovery-IsWithinBudget x run (record w { steps = [] })
      (record g { stopped_run = some run; deeds = stops_run run ∷ g.deeds })
      (record { counted = h.counted; bounded = h.bounded })

judge-IsWithinBudget :
    (x : Round) (run : Text) (raw : Option (List CaptureFile)) (g : Guard)
    → IsWithinBudget g
    → IsWithinBudget (judge x run raw g)
unfolding judge
judge-IsWithinBudget x run raw g h =
    let t = trip-IsWithinBudget x run g h in
    record {
      counted = ground (arith, h.counted, t.counted);
      bounded = ground (arith, h.bounded, t.bounded);
    }

watch_subrun-IsWithinBudget :
    (x : Round) (run : Text) (s : Option Text) (g : Guard)
    → IsWithinBudget g
    → IsWithinBudget (watch_subrun x run s g)
watch_subrun-IsWithinBudget x run none g h = h
watch_subrun-IsWithinBudget x run (some s) g h =
    let raw = raw_in s (tree_in run x.runs) in
    let t = judge-IsWithinBudget x run raw g h in
    record {
      counted = ground (arith, h.counted, t.counted);
      bounded = ground (arith, h.bounded, t.bounded);
    }

watch_run-IsWithinBudget :
    (x : Round) (run : Option Text) (g : Guard)
    → IsWithinBudget g
    → IsWithinBudget (watch_run x run g)
watch_run-IsWithinBudget x none g h = h
watch_run-IsWithinBudget x (some run) g h =
    let t = watch_subrun-IsWithinBudget x run (current_subrun (tree_in run x.runs)) g h in
    record {
      counted = ground (arith, h.counted, t.counted);
      bounded = ground (arith, h.bounded, t.bounded);
    }

guard_round-IsWithinBudget :
    (x : Round) (g : Guard) → IsWithinBudget g → IsWithinBudget (guard_round x g)
unfolding guard_round
guard_round-IsWithinBudget x g h =
    let t = watch_run-IsWithinBudget x (current_run x.flask_run x.now x.runs) g h in
    record {
      counted = ground (arith, h.counted, t.counted);
      bounded = ground (arith, h.bounded, t.bounded);
    }

-- Whatever the rounds find, and whichever of them raise, the guard never tries more than two
-- recoveries, and its counter is the number of those it has tried.
pub guard_rounds-IsWithinBudget :
    (xs : List Round) (g : Guard) → IsWithinBudget g → IsWithinBudget (guard_rounds xs g)
unfolding guard_rounds
guard_rounds-IsWithinBudget [] g h = h
guard_rounds-IsWithinBudget (x ∷ xs) g h =
    guard_rounds-IsWithinBudget xs (guard_round x g) (guard_round-IsWithinBudget x g h)

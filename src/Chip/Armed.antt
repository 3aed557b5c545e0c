-- ===== src/Chip/Armed.antt =====
-- What arms and what disarms a run in flask_app/chip_config.py.
use daq_control_vmm_beam.Base.{
  ℕ, ◌≤◌, ◌<◌, ◌≡◌, refl, Bool, true, false, not, ◌||◌, Option, none, some, List, [], ◌∷◌, arith,
  leb, Text, All,
}
use daq_control_vmm_beam.Base.Int.{is_zero}
use daq_control_vmm_beam.Chip.State.{LastApplied, ChipConfig, run_armed, consume_warm_reset, select}
use daq_control_vmm_beam.Chip.Apply.{
  apply, warm_reset, Ran, code_of, Lock, ApplyRun, run_apply, warm_run,
}

-- What changes the state: a request, the end of a thread, or the start of a run.
pub data Event : Type 0 where
  starts_apply : Bool → Event
  ends_apply : Text → Text → ApplyRun → Event
  starts_reset : Bool → Event
  ends_reset : Lock → Ran → ℕ → Event
  selects : Text → Event
  starts_run : ℕ → Event

unfoldable pub step : Event → ChipConfig → ChipConfig
step (starts_apply capturing) c = (apply capturing c).1
step (ends_apply base sel x) c = (run_apply base sel x c).1
step (starts_reset capturing) c = (warm_reset capturing c).1
step (ends_reset lock r now) c = (warm_run lock r now c).1
step (selects fname) c = (select fname c).1
step (starts_run now) c = consume_warm_reset now c

unfoldable pub run_events : List Event → ChipConfig → ChipConfig
unfolding step
run_events [] c = c
run_events (e ∷ es) c = run_events es (step e c)

-- An event that applies no configuration with success, and lies at `k` or later if it starts a run.
abbrev pub IsIdle : ℕ → Event → Type 0
IsIdle k (ends_apply base sel x) = is_zero (code_of x.script) ≡ false
IsIdle k (starts_run now) = k ≤ now
IsIdle k _ = Unit

abbrev spent : ℕ → Option LastApplied → Bool
spent k none = true
spent k (some a) = not (is_zero a.rc) || leb a.ts k

abbrev used : ℕ → Option ℕ → Bool
used k none = false
used k (some t) = leb k t

-- The last successful apply is not younger than the run start that used it up.
record IsSpent (k : ℕ) (c : ChipConfig) : Type 0 where
  configured : c.configured ≡ true
  has_script : c.has_reset_script ≡ true
  applied : spent k c.state.last_applied ≡ true
  consumed : used k c.state.consumed_ts ≡ true

IsSpent-run_armed : (k : ℕ) (c : ChipConfig) → IsSpent k c → run_armed c ≡ false
unfolding run_armed
IsSpent-run_armed k c h = ground arith

run_apply-IsSpent :
    (k : ℕ) (base sel : Text) (x : ApplyRun) (c : ChipConfig)
    → is_zero (code_of x.script) ≡ false
    → IsSpent k c
    → IsSpent k (run_apply base sel x c).1
unfolding run_apply
run_apply-IsSpent k base sel x c e h = ground arith

step-IsSpent :
    (k : ℕ) (e : Event) (c : ChipConfig) → IsIdle k e → IsSpent k c → IsSpent k (step e c)
unfolding step apply warm_reset warm_run select consume_warm_reset
step-IsSpent k (ends_apply base sel x) c i h = run_apply-IsSpent k base sel x c i h
step-IsSpent k (starts_apply capturing) c i h = ground arith
step-IsSpent k (starts_reset capturing) c i h = ground arith
step-IsSpent k (ends_reset lock r now) c i h = ground arith
step-IsSpent k (selects fname) c i h = ground arith
step-IsSpent k (starts_run now) c i h = ground arith

run_events-IsSpent :
    (k : ℕ) (es : List Event) (c : ChipConfig)
    → All (IsIdle k) es
    → IsSpent k c
    → IsSpent k (run_events es c)
unfolding run_events
run_events-IsSpent k [] c i h = h
run_events-IsSpent k (e ∷ es) c (i, is) h =
    run_events-IsSpent k es (step e c) is (step-IsSpent k e c i h)

-- The last apply was recorded at `k` or before; the last run start lies before `k`.
abbrev pub IsAppliedBy : ℕ → Option LastApplied → Type 0
IsAppliedBy k none = Unit
IsAppliedBy k (some a) = a.ts ≤ k

abbrev pub IsConsumedBefore : ℕ → Option ℕ → Type 0
IsConsumedBefore k none = Unit
IsConsumedBefore k (some t) = t < k

spent_by : (k : ℕ) (a : Option LastApplied) → IsAppliedBy k a → spent k a ≡ true
spent_by k none h = refl
spent_by k (some a) h = ground arith

consume-IsSpent :
    (k : ℕ) (c : ChipConfig)
    → c.configured ≡ true
    → c.has_reset_script ≡ true
    → IsAppliedBy k c.state.last_applied
    → IsSpent k (consume_warm_reset k c)
unfolding consume_warm_reset
consume-IsSpent k c f s l = record {
  configured = f;
  has_script = s;
  applied = spent_by k c.state.last_applied l;
  consumed = ground arith;
}

-- Every run start uses up the arming: from a start at `k` on, whatever is selected, reset, requested or
-- started, no run is armed until an apply script has succeeded again, where warm resets are configured
-- and the last apply of before was not recorded later than `k`.
pub run_events-disarmed :
    (k : ℕ) (es : List Event) (c : ChipConfig)
    → c.configured ≡ true
    → c.has_reset_script ≡ true
    → IsAppliedBy k c.state.last_applied
    → All (IsIdle k) es
    → run_armed (run_events es (consume_warm_reset k c)) ≡ false
run_events-disarmed k es c f s l i =
    IsSpent-run_armed k (run_events es (consume_warm_reset k c))
      (run_events-IsSpent k es (consume_warm_reset k c) i (consume-IsSpent k c f s l))

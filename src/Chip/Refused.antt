-- ===== src/Chip/Refused.antt =====
-- Failed operations of flask_app/chip_config.py, and operations that meet one another.
use daq_control_vmm_beam.Base.{
  ℕ, ◌<◌, ◌≡◌, refl, ◌⊎◌, Bool, true, false, Option, none, some, arith, Text, text_eq, any,
}
use daq_control_vmm_beam.Base.Int.{is_zero}
use daq_control_vmm_beam.Chip.State.{LastApplied, ChipConfig, accepted, applied_since, run_armed}
use daq_control_vmm_beam.Chip.Apply.{
  apply, warm_reset, Ran, code_of, Lock, acquired, refused, Release, stopped, no_keeper, ApplyRun,
  run_apply, warm_run,
}
use daq_control_vmm_beam.Chip.Armed.{IsAppliedBy}

-- The keeper after a failure: there is none, or it gives the lock back.
abbrev pub kept_after : Lock → Release
kept_after acquired = stopped
kept_after _ = no_keeper

-- An apply that does not get the lock, whose warm reset leaves hybrids failed, or whose script fails
-- leaves the run unarmed and the flag cleared, and does not hand a lock over, where both scripts are
-- configured.
pub run_apply-failed :
    (base sel : Text) (x : ApplyRun) (c : ChipConfig)
    → c.configured ≡ true
    → c.has_reset_script ≡ true
    → c.has_apply_script ≡ true
    → (x.lock ≡ refused)
      ⊎ ((is_zero (code_of x.reset) ≡ false) ⊎ (is_zero (code_of x.script) ≡ false))
    → (run_armed (run_apply base sel x c).1 ≡ false)
      × ((run_apply base sel x c).1.running ≡ false)
      × ((run_apply base sel x c).0 ≡ kept_after x.lock)
unfolding run_apply run_armed
run_apply-failed base sel x c f s a h = ground arith

applied_since_lem :
    (now k : ℕ) (a : Option LastApplied) → IsAppliedBy k a → k < now → applied_since a now ≡ false
applied_since_lem now k none l t = refl
applied_since_lem now k (some a) l t = ground arith

-- A warm reset on its own that ends after the last apply was recorded disarms the run, whatever its
-- outcome, and clears its flag.
pub warm_run-disarms :
    (lock : Lock) (r : Ran) (now k : ℕ) (c : ChipConfig)
    → c.configured ≡ true
    → c.has_reset_script ≡ true
    → IsAppliedBy k c.state.last_applied
    → k < now
    → (run_armed (warm_run lock r now c).1 ≡ false)
      × ((warm_run lock r now c).1.reset_running ≡ false)
unfolding warm_run run_armed
warm_run-disarms lock r now k c f s l t =
    ground (arith, applied_since_lem now k c.state.last_applied l t)

-- A warm reset is started only while nothing captures and no operation is in flight; otherwise the
-- state stays as it is.
pub warm_reset-exclusive :
    (capturing : Bool) (c : ChipConfig)
    → (((warm_reset capturing c).0 ≡ accepted)
        × (capturing ≡ false)
        × (c.running ≡ false)
        × (c.reset_running ≡ false)
        × ((warm_reset capturing c).1 ≡ record c { reset_running = true }))
      ⊎ ((warm_reset capturing c).1 ≡ c)
unfolding warm_reset
warm_reset-exclusive capturing c = ground arith

-- A warm reset that was accepted does not keep an apply from being accepted while it is in flight: both
-- flags are then up, and both utilities run at once.
pub apply-ignores_reset :
    (c : ChipConfig) (sel : Text)
    → (warm_reset false c).0 ≡ accepted
    → c.state.selected_ext ≡ some sel
    → any (text_eq sel) c.ext_files ≡ true
    → let p = apply false (warm_reset false c).1 in
      (p.0 ≡ accepted) × (p.1.running ≡ true) × (p.1.reset_running ≡ true)
unfolding apply warm_reset
apply-ignores_reset c sel r s e = ground (arith, r, s, e)

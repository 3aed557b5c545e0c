-- ===== src/Chip/Examples.antt =====
-- The life of one configuration, and the theorems of the chip configuration at concrete data.
use daq_control_vmm_beam.Base.{
  ◌≡◌, refl, true, false, none, some, [], ◌∷◌, arith, Text, codes, text_eq,
}
use daq_control_vmm_beam.Base.Int.{pos}
use daq_control_vmm_beam.Chip.State.{ChipConfig, accepted, run_armed, consume_warm_reset}
use daq_control_vmm_beam.Chip.Apply.{warm_reset, exited, timed_out, acquired, ApplyRun, run_apply}
use daq_control_vmm_beam.Chip.Armed.{
  starts_reset, ends_reset, starts_run, run_events, run_events-disarmed,
}

abbrev ext : Text
ext = codes "t.txt"

abbrev idle : ChipConfig
idle = record {
  configured = true;
  has_apply_script = true;
  has_reset_script = true;
  base_yaml = some (codes "b.yaml");
  ext_files = ext ∷ [];
  running = false;
  reset_running = false;
  last = none;
  state = record {
    selected_ext = some ext;
    last_applied = none;
    warm_reset_last = none;
    consumed_ts = some 100;
  };
}

abbrev good_apply : ApplyRun
good_apply = record {
  lock = acquired;
  lock_ts = 101;
  reset = exited (pos 0);
  reset_ts = 110;
  script = exited (pos 0);
  script_ts = 120;
}

abbrev slow_apply : ApplyRun
slow_apply = record good_apply { script = timed_out }

abbrev armed : ChipConfig
armed = record idle {
  last = some (record { file = ext; base_yaml = codes "b.yaml"; rc = pos 0; ts = 120 });
  state = record {
    selected_ext = some ext;
    last_applied = some (record { file = ext; base_yaml = codes "b.yaml"; rc = pos 0; ts = 120 });
    warm_reset_last = some (record { failed = pos 0; ts = 110 });
    consumed_ts = some 100;
  };
}

good_apply_arms : (run_apply (codes "b.yaml") ext good_apply idle).1 ≡ armed
unfolding run_apply text_eq
good_apply_arms = refl

run_events-disarmed_example :
    run_armed (
      run_events
        (starts_reset false ∷ ends_reset acquired (exited (pos 0)) 140 ∷ starts_run 150 ∷ [])
        (consume_warm_reset 130 armed))
    ≡ false
run_events-disarmed_example =
    run_events-disarmed 130
      (starts_reset false ∷ ends_reset acquired (exited (pos 0)) 140 ∷ starts_run 150 ∷ []) armed
      refl refl (omega arith) (omega arith)

accepts_reset : (warm_reset false idle).0 ≡ accepted
unfolding warm_reset
accepts_reset = refl

-- ===== src/Scan/Examples.antt =====
-- A scan of two configurations, and the theorems about it.
use daq_control_vmm_beam.Base.{
  ◌*◌, ◌≤◌, true, false, none, some, [], ◌∷◌, ◌≡◌, refl, ◌&&◌, leb, codes, Text, text_eq, length,
}
use daq_control_vmm_beam.Base.Int.{pos}
use daq_control_vmm_beam.Scan.Hall.{
  Hall, Scan, post_start, post_update, post_apply, post_select, post_reset, wait_for, reset_once,
  reset_until_ready, apply_once, apply_tries, select_and_apply,
}
use daq_control_vmm_beam.Scan.Point.{
  finished, run_one, idle_point, configure_point, start_point, follow_point, verify_started_run,
  watch_point,
}
use daq_control_vmm_beam.Scan.Loop.{Fates, taken, refused, run_scan}
use daq_control_vmm_beam.Scan.Vouched.{end_of, IsVouched, run_one-IsVouched}
use daq_control_vmm_beam.Scan.Accounted.{IsAccount, run_scan-IsAccount}
use daq_control_vmm_beam.Scan.Retake.{stats_of, insert, sorted, median, retake, retake-length}

abbrev low : Text
low = codes "low.txt"

abbrev high : Text
high = codes "high.txt"

-- A lab with everything in order; the run is there for the questions 12 to 17.
abbrev lab : Hall
lab = record {
  is_beam_site = false;
  daq_running = λ k. leb 12 k && leb k 17;
  free_bytes = λ _. some 90000000000;
  dream_idle = λ _. true;
  reset_running = λ _. some false;
  reset_failed = λ _. some (pos 0);
  selects = λ _. true;
  applying = λ _. some false;
  last_rc = λ _. some (pos 0);
  last_file = λ _. some low;
  armed = λ _. true;
  starts = λ _. true;
  run_file = λ _. some (record {
    run_plan = some (codes "config_scan");
    chip_config = some low;
    run_times = 2 ∷ [];
  });
  run_bytes = λ _. some 5000;
  dream_events = λ _. none;
  stop_requested = λ _. false;
  minutes_left = λ _. 100;
}

abbrev begin : Scan
begin = record { asked = 0; sent = []; no_recovery = false; hold = false; last_bytes = none }

run_one-IsVouched_example : IsVouched lab low begin (end_of (run_one lab false 2 low begin))
run_one-IsVouched_example = run_one-IsVouched lab false 2 low begin

run_scan-IsAccount_example :
    IsAccount false 0 (low ∷ high ∷ []) (run_scan lab false 2 (low ∷ high ∷ []) begin)
run_scan-IsAccount_example = run_scan-IsAccount lab false 2 (low ∷ high ∷ []) begin

-- Three runs with triggers, one of them with few.
abbrev three_runs : Fates
three_runs =
    (low, taken (some 1000))
    ∷ (high, refused)
    ∷ (high, taken (some 50))
    ∷ (low, taken (some 900))
    ∷ []

few_triggers : retake (stats_of three_runs) ≡ (high, 50) ∷ []
unfolding retake stats_of median sorted insert
few_triggers = refl

retake-length_example : 2 * length (retake (stats_of three_runs)) ≤ length (stats_of three_runs)
retake-length_example = retake-length three_runs

-- A point that is taken to its end.
low_finishes :
    run_one lab false 2 low begin
    ≡ finished none (record {
      asked = 20;
      sent = post_start ∷ post_update ∷ post_apply ∷ post_select low ∷ post_reset ∷ [];
      no_recovery = false;
      hold = false;
      last_bytes = some 5000;
    })
unfolding run_one idle_point configure_point reset_until_ready reset_once wait_for select_and_apply
    apply_tries apply_once start_point follow_point verify_started_run watch_point text_eq
low_finishes = refl

-- The same lab, with the run ending one question earlier, between the two looks of a poll.
abbrev early : Hall
early = record lab { daq_running = λ k. leb 12 k && leb k 16 }

-- The point is then closed in the way of the beam, and its volume is not kept.
low_ends_between_looks :
    run_one early false 2 low begin
    ≡ finished none (record {
      asked = 20;
      sent = post_start ∷ post_update ∷ post_apply ∷ post_select low ∷ post_reset ∷ [];
      no_recovery = false;
      hold = false;
      last_bytes = none;
    })
unfolding run_one idle_point configure_point reset_until_ready reset_once wait_for select_and_apply
    apply_tries apply_once start_point follow_point verify_started_run watch_point text_eq
low_ends_between_looks = refl

-- ===== src/Capture/Examples.antt =====
-- Sub-runs on a bench with two interfaces, and the theorems about them.
use daq_control_vmm_beam.Base.{true, false, [], ◌∷◌, ◌≡◌, refl, codes, text_eq, Text, leb, All}
use daq_control_vmm_beam.Run.SubRun.{returned}
use daq_control_vmm_beam.Capture.Arming.{
  alinx, p2basket, Interface, DaqInfo, Hardware, Daq, goes, sc_interfaces, needs_lock, acq_on_tries,
  alinx_acq_on,
}
use daq_control_vmm_beam.Capture.Server.{
  starting_text, stopped_text, acq_error, say, make, lock_and_take, handle_start, recover_server,
  serve,
}
use daq_control_vmm_beam.Capture.Client.{ended, read_replies, read_end}
use daq_control_vmm_beam.Capture.Talked.{start_message, talk, IsFair, talk-IsFair}
use daq_control_vmm_beam.Capture.Left.{LeavesOn, serve-LeavesOn}
use daq_control_vmm_beam.Capture.Quiet.{IsOff, handle_start-IsOff}

abbrev eth0 : Interface
eth0 = record { iface = codes "eth0"; slow_control = alinx; has_alinx_config = true }

abbrev eth1 : Interface
eth1 = record { iface = codes "eth1"; slow_control = p2basket; has_alinx_config = false }

abbrev bench_info : DaqInfo
bench_info = record {
  simulate = false;
  session_lock = true;
  interfaces = eth0 ∷ eth1 ∷ [];
  acq_on_retries = 3;
}

abbrev good_hardware : Hardware
good_hardware = record {
  link_ok = λ _. true;
  acq_on_ok = λ _. true;
  acq_off_ok = λ _. true;
  lock_ok = λ _. true;
  stop_pressed = λ _. false;
  some_alive = λ _. true;
  stops_well = λ _. true;
  can_make = λ _. true;
  can_send = λ _. true;
}

-- Acquisition is refused from the third question on.
abbrev no_acq : Hardware
no_acq = record good_hardware { acq_on_ok = λ k. leb k 3 }

abbrev gone : Hardware
gone = record good_hardware { can_send = λ _. false }

abbrev all_quiet : Daq
all_quiet = record {
  asked = 0;
  acquiring = [];
  capturing = [];
  locked = false;
  stop = false;
  marked = false;
  unread = [];
}

abbrev busy : Text
busy = codes "busy"

taken_capture : read_replies false (starting_text ∷ stopped_text ∷ []) ≡ ended (returned true) []
unfolding read_replies read_end text_eq
taken_capture = refl

talk-IsFair_example :
    All IsFair (talk good_hardware busy ((bench_info, 2) ∷ (bench_info, 3) ∷ []) all_quiet)
talk-IsFair_example =
    talk-IsFair good_hardware busy ((bench_info, 2) ∷ (bench_info, 3) ∷ []) all_quiet refl refl

handle_start-IsOff_example : IsOff (handle_start good_hardware bench_info 2 busy all_quiet)
handle_start-IsOff_example =
    handle_start-IsOff good_hardware bench_info 2 busy all_quiet (λ _. refl) (λ _. refl) refl refl

serve-LeavesOn_example :
    LeavesOn bench_info
      (recover_server (serve gone busy (start_message (bench_info, 2) ∷ []) all_quiet))
serve-LeavesOn_example =
    serve-LeavesOn gone bench_info 2 2 busy all_quiet
      (record {
        all_on = λ _. refl;
        all_made = λ _. refl;
        lock_free = λ _. refl;
        none_sent = λ _. refl;
      })
      refl

-- The reply on a bench on which the second interface does not come on: the first one stays on.
refused_on_second :
    handle_start no_acq bench_info 2 busy all_quiet
    ≡ goes (record all_quiet { asked = 9; acquiring = codes "eth0" ∷ []; unread = acq_error ∷ [] })
unfolding handle_start lock_and_take sc_interfaces needs_lock alinx_acq_on acq_on_tries say make
refused_on_second = refl

-- ===== src/Capture/Server.antt =====
-- vmm_daq_control.py: the server's handling of a sub-run, its loop over the client's messages, and
-- its recovery from an exception.
use daq_control_vmm_beam.Base.{
  ℕ, zero, suc, Bool, true, false, ◌||◌, Option, none, some, List, [], ◌∷◌, ◌++◌, if◌then◌else◌,
  Text, codes, contains_text,
}
use daq_control_vmm_beam.Capture.Arming.{
  DaqInfo, Hardware, Daq, ask, Flow, goes, raised, after_flow, sc_interfaces, needs_lock,
  alinx_acq_on, alinx_acq_off, start_captures, stop_captures,
}

abbrev pub starting_text : Text
starting_text = codes "VMM DAQ starting"

abbrev pub stopped_text : Text
stopped_text = codes "VMM DAQ stopped"

abbrev pub lock_error : Text → Text
lock_error msg = codes "VMM DAQ error: session lock: " ++ msg

abbrev pub acq_error : Text
acq_error = codes "VMM DAQ error: alinx acq-on failed"

-- `server.send`
unfoldable pub say : Hardware → Text → Daq → Flow
say hw text d =
    if hw.can_send d.asked
    then goes (record (ask d) { unread = d.unread ++ (text ∷ []) })
    else raised (ask d)

-- A directory or a file that is made, or the exception.
unfoldable pub make : Hardware → Daq → Flow
make hw d = if hw.can_make d.asked then goes (ask d) else raised (ask d)

abbrev pub set_marker : Bool → Daq → Daq
set_marker b d = record d { marked = b }

-- `release_session_lock`
abbrev pub release_session_lock : Daq → Daq
release_session_lock d = record d { locked = false }

abbrev pub remove_stop_vmm : Daq → Daq
remove_stop_vmm d = record d { stop = false }

-- A look at the stop flag.
abbrev pub look_at_stop : Hardware → Daq → Daq
look_at_stop hw d = record (ask d) { stop = d.stop || hw.stop_pressed d.asked }

-- The loop while data are taken, one second each.
unfoldable pub capture_loop : Hardware → ℕ → Daq → Daq
capture_loop hw zero d = d
capture_loop hw (suc seconds) d =
    let d' = look_at_stop hw d in
    let rest = capture_loop hw seconds (ask d') in
    if d'.stop then d' else if hw.some_alive d'.asked then rest else ask d'

-- From the end of the loop to the reply.
unfoldable pub close_capture : Hardware → DaqInfo → Daq → Flow
close_capture hw info d =
    let quiet =
      release_session_lock
        (alinx_acq_off hw (sc_interfaces info) (stop_captures hw d.capturing d)) in
    after_flow (make hw quiet) (λ d'. say hw stopped_text (remove_stop_vmm (set_marker true d')))

-- The capture, from its start on.
unfoldable pub take_capture : Hardware → DaqInfo → ℕ → Daq → Flow
take_capture hw info seconds d = after_flow (start_captures hw info.interfaces d) (λ d'.
    after_flow (say hw starting_text d')
      (λ d''. close_capture hw info (capture_loop hw seconds d'')))

-- From the lock on: acquisition is switched on, or the sub-run is given up.
abbrev pub arm_and_take : Hardware → DaqInfo → ℕ → Bool × Daq → Flow
arm_and_take hw info seconds (true, d) = take_capture hw info seconds d
arm_and_take hw info seconds (false, d) = say hw acq_error (release_session_lock d)

-- `acquire_session_lock`, and what follows it; `msg` is the answer of a failed keeper.
unfoldable pub lock_and_take : Hardware → DaqInfo → ℕ → Text → Daq → Flow
lock_and_take hw info seconds msg d =
    let interfaces = sc_interfaces info in
    let held = record (ask d) { locked = true } in
    if needs_lock info
    then if hw.lock_ok d.asked
      then arm_and_take hw info seconds (alinx_acq_on hw info.acq_on_retries interfaces held)
      else say hw (lock_error msg) (ask d)
    else arm_and_take hw info seconds (alinx_acq_on hw info.acq_on_retries interfaces d)

-- What follows `Start`: the sub-run with its run time in seconds.
unfoldable pub handle_start : Hardware → DaqInfo → ℕ → Text → Daq → Flow
handle_start hw info seconds msg d =
    after_flow (make hw d)
      (λ d'. lock_and_take hw info seconds msg (set_marker false (remove_stop_vmm d')))

-- A message of the client, with the sub-run that follows it; without one the JSON is missing or bad.
pub record Message : Type 0 where
  pub text : Text
  pub sub_run : Option (DaqInfo × ℕ)

abbrev pub start_with : Hardware → Text → Option (DaqInfo × ℕ) → Daq → Flow
start_with hw msg none d = raised d
start_with hw msg (some (info, seconds)) d = handle_start hw info seconds msg d

-- A round of the loop of `main`.
unfoldable pub answer_message : Hardware → Text → Message → Daq → Flow
answer_message hw msg m d =
    if contains_text (codes "Start") m.text
    then start_with hw msg m.sub_run d
    else say hw (codes "Unknown Command") d

-- A connection: the server waits for the next message, has been told that the run is finished, or has
-- left the loop with an exception.
pub data Served : Type 0 where
  waiting finished failed : Daq → Served

abbrev pub next_message : Flow → (Daq → Served) → Served
next_message (goes d) next = next d
next_message (raised d) next = failed d

-- `main`, from the run's information on.
unfoldable pub serve : Hardware → Text → List Message → Daq → Served
serve hw msg [] d = waiting d
serve hw msg (m ∷ ms) d =
    let rest = next_message (answer_message hw msg m d) (serve hw msg ms) in
    if contains_text (codes "Finished") m.text then finished d else rest

-- `except Exception`: the lock is released. The socket is closed by then, so no reply comes through.
unfoldable pub recover_server : Served → Served
recover_server (waiting d) = waiting d
recover_server (finished d) = finished d
recover_server (failed d) = failed (release_session_lock d)

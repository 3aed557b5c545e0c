-- ===== src/Crate/Server.antt =====
-- hv_control.py: the loop over the messages of one client, and the threads that monitor the voltages.
use daq_control_vmm_beam.Base.{
  ℕ, suc, ◌+◌, ◌==◌, Bool, true, false, Option, none, some, List, [], ◌∷◌, ◌++◌, if◌then◌else◌,
  Text, codes, contains_text,
}
use daq_control_vmm_beam.Base.Int.{ℤ}
use daq_control_vmm_beam.Crate.Voltages.{
  Crate, Hvs, Channels, Readings, set_slots, wait_ramped, power_off_hvs,
}

-- What the loop takes a text of the client for, the tests in their order.
pub data Request : Type 0 where
  to_finish to_start to_power_off to_begin to_end to_nothing : Request

unfoldable pub request_of : Text → Request
request_of res =
    if contains_text (codes "Finished") res
    then to_finish
    else if contains_text (codes "Start") res
    then to_start
    else if contains_text (codes "Power Off") res
    then to_power_off
    else if contains_text (codes "Begin Monitoring") res
    then to_begin
    else if contains_text (codes "End Monitoring") res
    then to_end
    else to_nothing

pub record HvSubRun : Type 0 where
  pub sub_run_name : Text
  pub hvs : Hvs

-- A channel in a row of `hv_monitor.csv`: power, setting, voltage and current.
abbrev pub Reading : Type 0
Reading = Bool × Option ℕ × ℤ × ℤ

pub record Row : Type 0 where
  pub row_of : Text
  pub readings : List Reading

-- What is read from the crate: voltages by the number of the ramp and by the number of the row, and
-- currents by the number of the row. The cards and channels are those of `hv_info`.
pub record Panel : Type 0 where
  pub ramp_vmon : ℕ → Readings
  pub vmon : Readings
  pub imon : Readings
  pub n_cards : ℕ
  pub n_channels_per_card : ℕ

-- The two events, the thread that `monitor_thread` holds, and all threads that have not ended, each with
-- its number and its sub-run. `rows` and `replies` have the last one first.
pub record HvServer : Type 0 where
  pub crate : Crate
  pub ramps : ℕ
  pub monitor_stop : Bool
  pub monitor_print : Bool
  pub monitor_thread : Option ℕ
  pub threads : List (ℕ × HvSubRun)
  pub started : ℕ
  pub rows : List Row
  pub replies : List Text

-- The state after a handler, an exception, or a ramp that does not end within the checks.
pub data Handled : Type 0 where
  goes_on raises hangs : HvServer → Handled

abbrev pub reply : Text → HvServer → HvServer
reply text h = record h { replies = text ∷ h.replies }

abbrev pub row_channels : Panel → Crate → ℕ → ℕ → Channels → List Reading
row_channels panel crate row slot [] = []
row_channels panel crate row slot ((channel, v0) ∷ cs) =
    (crate.power slot channel, v0, panel.vmon row slot channel, panel.imon row slot channel)
    ∷ row_channels panel crate row slot cs

abbrev pub row_slots : Panel → Crate → ℕ → Hvs → List Reading
row_slots panel crate row [] = []
row_slots panel crate row ((slot, channels) ∷ hvs) =
    row_channels panel crate row slot channels ++ row_slots panel crate row hvs

abbrev pub count_rows : List Row → ℕ
count_rows [] = 0
count_rows (_ ∷ rows) = suc (count_rows rows)

-- A row that a thread writes for its sub-run.
abbrev pub write_row : Panel → HvSubRun → HvServer → HvServer
write_row panel s h = record h {
  rows =
      record {
        row_of = s.sub_run_name;
        readings = row_slots panel h.crate (count_rows h.rows) s.hvs;
      }
      ∷ h.rows;
}

abbrev pub thread_at : ℕ → List (ℕ × HvSubRun) → Option HvSubRun
thread_at i [] = none
thread_at i ((j, s) ∷ ts) = let rest = thread_at i ts in if i == j then some s else rest

abbrev pub drop_thread : ℕ → List (ℕ × HvSubRun) → List (ℕ × HvSubRun)
drop_thread i [] = []
drop_thread i ((j, s) ∷ ts) = let rest = drop_thread i ts in if i == j then rest else (j, s) ∷ rest

-- A round of a thread in `monitor_hvs`: it ends if the stop event is set, else it writes a row.
abbrev pub wake_with : Panel → ℕ → Option HvSubRun → HvServer → HvServer
wake_with panel i none h = h
wake_with panel i (some s) h =
    if h.monitor_stop then record h { threads = drop_thread i h.threads } else write_row panel s h

unfoldable pub wake_thread : Panel → ℕ → HvServer → HvServer
wake_thread panel i h = wake_with panel i (thread_at i h.threads) h

-- From the ramp on: without an answer within the checks the server stays in the wait.
abbrev pub after_ramp : Text → Option ℕ → HvServer → Handled
after_ramp name none h = hangs h
after_ramp name (some check) h =
    goes_on (record (reply (codes "HV Set " ++ name) h) { monitor_print = true })

-- `Start`, with the sub-run that follows; the bound is one of the checks of a ramp.
unfoldable pub start_hvs : Panel → ℕ → Option HvSubRun → HvServer → Handled
start_hvs panel checks none h =
    raises (reply (codes "HV ready to start") (record h { monitor_print = false }))
start_hvs panel checks (some s) h =
    let h' = reply (codes "HV ready to start") (record h { monitor_print = false }) in
    after_ramp s.sub_run_name (wait_ramped (panel.ramp_vmon h.ramps) s.hvs checks 0)
      (record h' { crate = set_slots s.hvs h'.crate; ramps = h'.ramps + 1 })

-- `Begin Monitoring`
unfoldable pub begin_monitoring : Option HvSubRun → HvServer → Handled
begin_monitoring none h = raises (reply (codes "Starting HV monitor") h)
begin_monitoring (some s) h =
    let h' = reply (codes "Starting HV monitor") h in
    goes_on (
      reply (codes "HV monitoring started for " ++ s.sub_run_name) (record h' {
        monitor_stop = false;
        monitor_print = true;
        monitor_thread = some h'.started;
        threads = (h'.started, s) ∷ h'.threads;
        started = h'.started + 1;
      }))

-- `monitor_stop_event.set()` and `join()`, which waits until this thread has ended.
abbrev pub join_monitor : Option ℕ → HvServer → HvServer
join_monitor none h = h
join_monitor (some i) h = record h {
  monitor_stop = true;
  monitor_thread = none;
  threads = drop_thread i h.threads;
}

-- `End Monitoring`
unfoldable pub end_monitoring : HvServer → Handled
end_monitoring h = goes_on (
    reply (codes "HV Monitor Stopped")
      (join_monitor h.monitor_thread (reply (codes "Stopping HV monitor") h)))

-- `Power Off`
unfoldable pub switch_off : Panel → HvServer → Handled
switch_off panel h =
    let h' = reply (codes "HV ready to power off") h in
    goes_on (
      reply (codes "HV Powered Off")
        (record h' { crate = power_off_hvs panel.n_cards panel.n_channels_per_card h'.crate }))

-- A round of the loop over the messages.
unfoldable pub handle_request : Panel → ℕ → Request → Option HvSubRun → HvServer → Handled
handle_request panel checks to_finish sub_run h = goes_on h
handle_request panel checks to_start sub_run h = start_hvs panel checks sub_run h
handle_request panel checks to_power_off sub_run h = switch_off panel h
handle_request panel checks to_begin sub_run h = begin_monitoring sub_run h
handle_request panel checks to_end sub_run h = end_monitoring h
handle_request panel checks to_nothing sub_run h = goes_on (reply (codes "Unknown Command") h)

-- A message with the sub-run that follows it, none where its JSON is missing or bad, or a round of one
-- of the threads.
pub data HvEvent : Type 0 where
  message : Text → Option HvSubRun → HvEvent
  wake : ℕ → HvEvent

-- A connection: it waits for the next message, has been told that the run is finished, was left with
-- an exception, or waits for a ramp.
pub data HvServed : Type 0 where
  hv_waiting hv_finished hv_failed hv_ramping : HvServer → HvServed

abbrev pub next_event : Handled → (HvServer → HvServed) → HvServed
next_event (goes_on h) next = next h
next_event (raises h) next = hv_failed h
next_event (hangs h) next = hv_ramping h

abbrev pub unless_finished : Request → HvServer → HvServed → HvServed
unless_finished to_finish h rest = hv_finished h
unless_finished _ h rest = rest

-- The inner loop of `main`, with the rounds of the threads between its messages.
unfoldable pub serve_hv : Panel → ℕ → List HvEvent → HvServer → HvServed
serve_hv panel checks [] h = hv_waiting h
serve_hv panel checks (wake i ∷ events) h = serve_hv panel checks events (wake_thread panel i h)
serve_hv panel checks (message res sub_run ∷ events) h = unless_finished (request_of res) h (
    next_event (handle_request panel checks (request_of res) sub_run h)
      (serve_hv panel checks events))

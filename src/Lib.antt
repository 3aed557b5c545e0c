-- ===== src/Lib.antt =====
-- Models of the control programs of the VMM beam DAQ, and what they keep.
--
-- The repository runs a data acquisition around a beam line: daq_control.py takes a list of sub-runs
-- with the help of three servers (HV, LV, VMM), and a set of daemons and a web application watch it.
-- The parts share little but files: flags that stop or pause a run, markers of completed sub-runs,
-- small state files, and the directories of the runs. Each part below is a module of its own.
--
--   Base       Boolean tests on numbers, lists, texts as lists of code points, dicts, the helpers of
--              all others.
--   Run        daq_control.py (the loop of `main` over the sub-runs, `run_daq_controller`,
--              `_sleep_unless_stop`, the flags) and `DAQController.run` of DAQController.py. `World` is
--              what is shared: a clock of looks at the flags, the flags, the markers, the requests
--              sent. Other processes are a function that changes the flags before each look, the
--              servers are functions that answer.
--   Chip       flask_app/chip_config.py: `ChipConfig`, with the state file, `select`, `apply`,
--              `warm_reset` and the two worker threads (`_run`, `_warm_run`), `run_armed` and
--              `consume_warm_reset`. A worker is one step from its lock to its last write; the exit
--              codes and times are inputs. `Chip.Armed` makes a series of events of these.
--   Guard      capture_guard.py: which run and sub-run are written and which sizes are judged
--              (Captures), the verdict, the stop and the recovery (Recover), the loop (Loop). The
--              answers of the web application and of the second DAQ are a `Bench` of functions of the
--              number of looks so far.
--   Space      flask_app/space_manager.py and prune_backed_up.py: sizes of local files, the parse of
--              `xrdfs` listings, the verification, the guards, `delete_run`, `restore_run`, and the
--              `sweep` of the pruner. The store is a list of directories; `xrdfs`, `xrdcp` and
--              `rmtree` are parameters.
--   Beam       flask_app/beam_state.py: runs of ink, tokens and values of the page (Columns), and the
--              tracker of the beam with its history (Tracker). The image and the glyph tables are
--              inputs; an intensity is counted in the last digit that the page shows.
--   Memory     mem_guardian.py: `biggest_killable`, `_kill`, the settings of the GUI, the loop.
--   Numbering  iterate_run_num.py: names with numbers, the mark of the highest one, `main`.
--   Rate       rate_guard.py: the window, the strikes, the loop.
--   Backup     backup_watcher.py: the rounds of `run_watcher` with `prev_sizes`, `synced_sizes`,
--              `checked_stale_runs` and `last_reconcile` (Polls), and `_xrd_sync_tree` (Sync). A round
--              takes which copies of sub-runs succeed as an input; of a sweep over all runs the model has
--              its time and its runs, not the files that it copies.
--   Watch      watcher_common.py: the loop of `run_monitored`. A round is what `poll`, the clock, the
--              memory and the watched path say.
--   Wire       Client.py and Server.py: the frames with a length of four bytes, `_recv_exactly`,
--              `receive` and `send`. A text is the list of its UTF-8 bytes; the socket is a list of bytes
--              and a function that says how many each `recv` returns.
--   Keeper     session_lock.py: the thread of `SessionLockKeeper` with its children, `stop` and `detach`,
--              as a relation of steps that interleave in any way (Steps).
--   Capture    vmm_daq_control.py: the slow control, the captures, the session lock and what a sub-run
--              does with them (Arming, Server), the loop over the messages; the part of DAQController.py
--              that talks to it (Client). The hardware is a `Hardware` of functions of the number of
--              questions so far.
--   Crate      hv_control.py: `set_hvs` with the checks until the voltages are reached, and
--              `power_off_hvs` (Voltages); the loop over the messages of a client and the monitor threads
--              (Server). A slot is a list of channels with voltages in mV; an event is a message or one
--              round of a thread.
--   Scan       config_scan.py: the waits, `run_one` for a point and `run_scan` over the points, with
--              the retakes. What the hall answers is a `Hall` of functions of the number of questions.
--   Settings   gui_settings.py: `overrides`, `value` and `save` over the store of values and files
--              (Store, Overrides), with a record `Rules` of what `save` needs of the schema; `coerce`
--              over a `SCHEMA` that is given (Coerce, Schema), and `check_together` (Together).
--
-- How they meet: `Chip.run_armed` is what `Guard.Recover.apply_chip_config` waits for; the markers that
-- `Run.SubRun.settle_marker` sets are those that `Space.Verify.incomplete_subruns` and
-- `Numbering.Names.is_incomplete` look for; the stop flag that `Guard.Recover.stop_the_run` and the
-- rate guard raise is the one that `Run.World.look` finds. `Capture.Talked` lets the server of the
-- capture and the client of `DAQController` answer each other command by command, and its outcome is the
-- `Attempt` that `Run.SubRun` takes. `Scan` asks for the same chip status that `Chip` keeps.
-- `Crate.Monitored` sends the requests of a run to the HV server, with rounds of the monitor threads
-- between them. The lock that `Capture.Server.lock_and_take` and `Chip` ask for is held by a keeper as
-- in `Keeper`. `Settings` has the limits that the memory guardian and the run configuration read, and
-- `Settings.Schema.rules_of` fills the interface `Rules` that `Settings.Overrides` takes.
--
-- Times are natural numbers of seconds, sizes natural numbers of bytes. Where the code subtracts, the
-- model subtracts down to 0, which decides the comparisons in the same way. Loops without a bound in
-- the code are given a number of rounds: the wait for Resume and the retries of the DAQ (a run with more
-- rounds than the look from which Stop Run stays raised does not use them up), and the search for a
-- number (more tries than the first free number and the mark are enough). `run_monitored` goes over a
-- list of rounds, and has no answer where they are used up with the child alive. The polls of `wait_until`
-- are those that fit in its time, one each 3 s. The tries of the recovery are the constants of the code.
-- A receive takes as many rounds as bytes are missing, since each chunk brings one at least; the loop of a
-- capture takes as many as seconds of the run; the polls of a scan are those that fit in the timeouts of
-- the code. The ramp of the HV takes a number of checks from its caller, since the code waits without end.
--
-- In `Settings` the checks of a path and of an address are parameters, the kind `float` is left out, and a
-- value is a number, a flag, a real number with its text, a text, or a list of texts or of whole numbers.
-- Values of different types count as different, while Python finds 1 and True equal. In `Space` the file
-- system answers whether an entry of the runs root is a directory; an error there is left out, while
-- one below a run is modelled. In `Wire` a text is not decoded, so bytes that are no UTF-8 are no error. In
-- `Keeper` SIGINT ends the child that gets it, and in `Crate` a monitor thread ends by the stop event only.
--
-- Not modelled: the web application and its pages, the monitor, the LV server and the bridge of the HV,
-- the restart of the HV server, the processes and the status thread of the capture server, the beam
-- samples and the quality files of the scan, the watchers that process data, the reconcile sweep of the
-- backup, the readers of the beam line, the plans of the run configuration, the analysis with numpy, log
-- files and the wording of messages. Keyboard interrupts of a run are left out.
-- Two threads of one process interleave in the model of the chip configuration at the ends of their
-- locked sections only.
pub mod Base
pub mod Space
pub mod Chip
pub mod Run
pub mod Guard
pub mod Beam
pub mod Memory
pub mod Numbering
pub mod Rate
pub mod Backup
pub mod Watch
pub mod Wire
pub mod Capture
pub mod Crate
pub mod Scan
pub mod Settings
pub mod Keeper

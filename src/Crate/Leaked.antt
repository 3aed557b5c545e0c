-- ===== src/Crate/Leaked.antt =====
-- A second `Begin Monitoring` of the HV server while a thread monitors.
use daq_control_vmm_beam.Base.{
  ℕ, ◌<◌, true, false, none, some, List, [], ◌∷◌, codes, contains_text, ◌≡◌, refl, ◌∙◌, ◌+◌, arith,
}
use daq_control_vmm_beam.Crate.Server.{
  request_of, HvSubRun, Panel, HvServer, drop_thread, thread_at, row_slots, count_rows, wake_thread,
  begin_monitoring, end_monitoring, handle_request, HvEvent, message, wake, serve_hv,
}
use daq_control_vmm_beam.Crate.Watched.{served_of}

-- A server whose thread of a sub-run monitors and is the one that is kept.
abbrev pub monitors : HvServer → ℕ → HvSubRun → HvServer
monitors h i s = record h { monitor_stop = false; monitor_thread = some i; threads = (i, s) ∷ [] }

abbrev pub begin_for : HvSubRun → HvEvent
begin_for s = message (codes "Begin Monitoring") (some s)

abbrev pub end_now : HvEvent
end_now = message (codes "End Monitoring") none

wake_thread-rows :
    (panel : Panel) (i : ℕ) (s : HvSubRun) (h : HvServer)
    → thread_at i h.threads ≡ some s
    → h.monitor_stop ≡ false
    → (wake_thread panel i h).rows
      ≡ record {
        row_of = s.sub_run_name;
        readings = row_slots panel h.crate (count_rows h.rows) s.hvs;
      }
        ∷ h.rows
unfolding wake_thread
wake_thread-rows panel i s h runs goes = rw (runs, goes) refl

drop_thread-gone : (i : ℕ) (ts : List (ℕ × HvSubRun)) → thread_at i (drop_thread i ts) ≡ none
drop_thread-gone i [] = refl
drop_thread-gone i ((j, s) ∷ ts) = ground (arith, drop_thread-gone i ts)

wake_thread-gone :
    (panel : Panel) (i : ℕ) (s : HvSubRun) (h : HvServer)
    → thread_at i h.threads ≡ some s
    → h.monitor_stop ≡ true
    → thread_at i (wake_thread panel i h).threads ≡ none
unfolding wake_thread
wake_thread-gone panel i s h runs stops = rw (runs, stops) (drop_thread-gone i h.threads)

wake_thread-started :
    (panel : Panel) (i : ℕ) (s : HvSubRun) (h : HvServer)
    → thread_at i h.threads ≡ some s
    → h.monitor_stop ≡ true
    → (wake_thread panel i h).started ≡ h.started
unfolding wake_thread
wake_thread-started panel i s h runs stops = rw (runs, stops) refl

skips :
    (i j : ℕ) (s : HvSubRun) (ts : List (ℕ × HvSubRun))
    → i < j
    → thread_at i ((j, s) ∷ ts) ≡ thread_at i ts
skips i j s ts lt = ground arith

after_end :
    (i n : ℕ) (old second : HvSubRun)
    → i < n
    → thread_at i (drop_thread n ((n, second) ∷ (i, old) ∷ [])) ≡ some old
after_end i n old second lt = ground arith

-- Where a thread of a sub-run monitors and a second `Begin Monitoring` comes, the server loses the
-- thread: if it sleeps through the following `End Monitoring` and the next `Begin Monitoring`, its next
-- round still writes a row to the file of its old sub-run, with the channels of that. With a round of
-- its own between the two, while the stop event is set, it ends.
pub serve_hv-leaks :
    (panel : Panel) (checks i : ℕ) (old second third : HvSubRun) (h : HvServer)
    → i < h.started
    → let start = monitors h i old in
      ((served_of (
          serve_hv panel checks
            (begin_for second ∷ end_now ∷ begin_for third ∷ wake i ∷ [])
            start)).rows
        ≡ record {
          row_of = old.sub_run_name;
          readings = row_slots panel h.crate (count_rows h.rows) old.hvs;
        }
          ∷ h.rows)
      × (thread_at i
            (served_of (
              serve_hv panel checks
                (begin_for second ∷ end_now ∷ wake i ∷ begin_for third ∷ [])
                start)).threads
          ≡ none)
unfolding serve_hv request_of contains_text handle_request begin_monitoring end_monitoring
    wake_thread
serve_hv-leaks panel checks i old second third h old_number =
    let stays = after_end i h.started old second old_number in
    let ended : HvServer =
      served_of (serve_hv panel checks (begin_for second ∷ end_now ∷ []) (monitors h i old)) in
    let woken = wake_thread panel i ended in
    let again : HvServer = served_of (
      serve_hv panel checks (begin_for second ∷ end_now ∷ begin_for third ∷ [])
        (monitors h i old)) in
    (
      wake_thread-rows panel i old again (skips i (h.started + 1) third _ (omega arith) ∙ stays)
          refl,
      skips i woken.started third woken.threads
            (omega (arith, wake_thread-started panel i old ended stays refl))
          ∙ wake_thread-gone panel i old ended stays refl,
    )

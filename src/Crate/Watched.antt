-- ===== src/Crate/Watched.antt =====
-- The threads that monitor the HV, as long as the client ends a monitoring before it begins the next.
use daq_control_vmm_beam.Base.{
  ℕ, Bool, true, false, Option, none, some, List, [], ◌∷◌, ◌≡◌, refl, sym, subst, arith, if-elim,
}
use daq_control_vmm_beam.Crate.Voltages.{wait_ramped}
use daq_control_vmm_beam.Crate.Server.{
  Request, to_finish, to_start, to_power_off, to_begin, to_end, to_nothing, request_of, HvSubRun,
  Panel, HvServer, Handled, goes_on, raises, hangs, drop_thread, thread_at, wake_with, wake_thread,
  after_ramp, start_hvs, begin_monitoring, end_monitoring, switch_off, handle_request, HvEvent,
  message, wake, HvServed, hv_waiting, hv_finished, hv_failed, hv_ramping, unless_finished,
  next_event, serve_hv,
}

-- The stop event, the thread that is kept, and the threads: none is kept and none runs, or the one that
-- is kept is the only one, and is not told to stop.
pub data IsWatched : Bool → Option ℕ → List (ℕ × HvSubRun) → Type 0 where
  at_rest : (stop : Bool) → IsWatched stop none []
  watching : (i : ℕ) (s : HvSubRun) → IsWatched false (some i) ((i, s) ∷ [])

abbrev pub WatchedBy : HvServer → Type 0
WatchedBy h = IsWatched h.monitor_stop h.monitor_thread h.threads

abbrev pub keeps_thread : Option ℕ → Bool
keeps_thread none = false
keeps_thread (some i) = true

-- The messages begin a monitoring only where none is kept.
abbrev pub Follows : Request → Bool → (Bool → Type 0) → Type 0
Follows to_begin kept next = (kept ≡ false) × next true
Follows to_end kept next = next false
Follows to_finish kept next = next kept
Follows to_start kept next = next kept
Follows to_power_off kept next = next kept
Follows to_nothing kept next = next kept

abbrev pub IsPaired : List HvEvent → Bool → Type 0
IsPaired [] kept = Unit
IsPaired (wake i ∷ events) kept = IsPaired events kept
IsPaired (message res sub_run ∷ events) kept = Follows (request_of res) kept (IsPaired events)

abbrev pub served_of : HvServed → HvServer
served_of (hv_waiting h) = h
served_of (hv_finished h) = h
served_of (hv_failed h) = h
served_of (hv_ramping h) = h

abbrev After : (Bool → Type 0) → Handled → Type 0
After next (goes_on h) = WatchedBy h × next (keeps_thread h.monitor_thread)
After next (raises h) = WatchedBy h
After next (hangs h) = WatchedBy h

-- A server with its monitoring replaced.
abbrev with_monitor : HvServer → Bool → Option ℕ → List (ℕ × HvSubRun) → HvServer
with_monitor h stop kept threads = record h {
  monitor_stop = stop;
  monitor_thread = kept;
  threads = threads;
}

drop_thread-own : (i : ℕ) (s : HvSubRun) → drop_thread i ((i, s) ∷ []) ≡ []
drop_thread-own i s = ground arith

module _ (panel : Panel) where
  wake_with-WatchedBy :
      (i : ℕ) (woken : Option HvSubRun) (h : HvServer)
      → h.monitor_stop ≡ false
      → WatchedBy h
      → WatchedBy (wake_with panel i woken h)
  wake_with-WatchedBy i none h e w = w
  wake_with-WatchedBy i (some s) h e w =
      if-elim WatchedBy h.monitor_stop _ _ (λ stopped. absurd (cc (e, stopped))) (λ _. w)

  wake_thread-WatchedBy :
      (i : ℕ) (h : HvServer) (stop : Bool) (kept : Option ℕ) (threads : List (ℕ × HvSubRun))
      → IsWatched stop kept threads
      → WatchedBy (wake_thread panel i (with_monitor h stop kept threads))
  unfolding wake_thread
  wake_thread-WatchedBy i h stop kept threads (at_rest b) = at_rest b
  wake_thread-WatchedBy i h stop kept threads (watching j s) =
      wake_with-WatchedBy i (thread_at i ((j, s) ∷ []))
        (with_monitor h false (some j) ((j, s) ∷ [])) refl (watching j s)

  wake_with-keeps :
      (i : ℕ) (woken : Option HvSubRun) (h : HvServer)
      → (wake_with panel i woken h).monitor_thread ≡ h.monitor_thread
  wake_with-keeps i none h = refl
  wake_with-keeps i (some s) h =
      if-elim (λ (h' : HvServer). h'.monitor_thread ≡ h.monitor_thread) h.monitor_stop _ _
        (λ _. refl) (λ _. refl)

  wake_thread-keeps :
      (i : ℕ) (h : HvServer) → (wake_thread panel i h).monitor_thread ≡ h.monitor_thread
  unfolding wake_thread
  wake_thread-keeps i h = wake_with-keeps i (thread_at i h.threads) h

module _ (panel : Panel) (checks : ℕ) (next : Bool → Type 0) where
  after_ramp-After :
      (name : _) (ended : Option ℕ) (h : HvServer)
      → WatchedBy h
      → next (keeps_thread h.monitor_thread)
      → After next (after_ramp name ended h)
  after_ramp-After name none h w p = w
  after_ramp-After name (some check) h w p = (w, p)

  start_hvs-After :
      (sub_run : Option HvSubRun) (h : HvServer)
      → WatchedBy h
      → next (keeps_thread h.monitor_thread)
      → After next (start_hvs panel checks sub_run h)
  unfolding start_hvs
  start_hvs-After none h w p = w
  start_hvs-After (some s) h w p =
      after_ramp-After s.sub_run_name (wait_ramped (panel.ramp_vmon h.ramps) s.hvs checks 0) _ w p

  begin_monitoring-After :
      (sub_run : Option HvSubRun) (h : HvServer) (stop : Bool) (kept : Option ℕ)
      (threads : List (ℕ × HvSubRun))
      → IsWatched stop kept threads
      → Follows to_begin (keeps_thread kept) next
      → After next (begin_monitoring sub_run (with_monitor h stop kept threads))
  unfolding begin_monitoring
  begin_monitoring-After none h stop kept threads w p = w
  begin_monitoring-After (some s) h stop kept threads (at_rest b) (e, p) = (watching h.started s, p)
  begin_monitoring-After (some s) h stop kept threads (watching i _) (e, p) = absurd (cc e)

  end_monitoring-After :
      (h : HvServer) (stop : Bool) (kept : Option ℕ) (threads : List (ℕ × HvSubRun))
      → IsWatched stop kept threads
      → next false
      → After next (end_monitoring (with_monitor h stop kept threads))
  unfolding end_monitoring
  end_monitoring-After h stop kept threads (at_rest b) p = (at_rest b, p)
  end_monitoring-After h stop kept threads (watching i s) p = (
    subst (λ (ts : List (ℕ × HvSubRun)). IsWatched true none ts) (sym (drop_thread-own i s))
        (at_rest true),
    p,
  )

  handle_request-After :
      (request : Request) (sub_run : Option HvSubRun) (h : HvServer)
      → WatchedBy h
      → Follows request (keeps_thread h.monitor_thread) next
      → After next (handle_request panel checks request sub_run h)
  unfolding handle_request switch_off
  handle_request-After to_finish sub_run h w p = (w, p)
  handle_request-After to_start sub_run h w p = start_hvs-After sub_run h w p
  handle_request-After to_power_off sub_run h w p = (w, p)
  handle_request-After to_begin sub_run h w p =
      begin_monitoring-After sub_run h h.monitor_stop h.monitor_thread h.threads w p
  handle_request-After to_end sub_run h w p =
      end_monitoring-After h h.monitor_stop h.monitor_thread h.threads w p
  handle_request-After to_nothing sub_run h w p = (w, p)

unless_finished-WatchedBy :
    (request : Request) (h : HvServer) (rest : HvServed)
    → WatchedBy h
    → WatchedBy (served_of rest)
    → WatchedBy (served_of (unless_finished request h rest))
unless_finished-WatchedBy to_finish h rest w r = w
unless_finished-WatchedBy to_start h rest w r = r
unless_finished-WatchedBy to_power_off h rest w r = r
unless_finished-WatchedBy to_begin h rest w r = r
unless_finished-WatchedBy to_end h rest w r = r
unless_finished-WatchedBy to_nothing h rest w r = r

next_event-WatchedBy :
    (step : Bool → Type 0) (handled : Handled) (next : HvServer → HvServed)
    → After step handled
    → ((h : HvServer)
        → WatchedBy h
        → step (keeps_thread h.monitor_thread)
        → WatchedBy (served_of (next h)))
    → WatchedBy (served_of (next_event handled next))
next_event-WatchedBy step (goes_on h) next (w, p) go = go h w p
next_event-WatchedBy step (raises h) next w go = w
next_event-WatchedBy step (hangs h) next w go = w

-- The HV server, from a state where no thread monitors or only the one that is kept: where the client
-- begins a monitoring only while none is kept, it is in such a state again after any messages, failures
-- included, whenever the threads run. So one thread at most writes rows, it runs exactly while the
-- monitoring is kept, and after `End Monitoring` none is left.
pub serve_hv-IsWatched :
    (panel : Panel) (checks : ℕ) (events : List HvEvent) (h : HvServer)
    → IsWatched h.monitor_stop h.monitor_thread h.threads
    → IsPaired events (keeps_thread h.monitor_thread)
    → WatchedBy (served_of (serve_hv panel checks events h))
unfolding serve_hv
serve_hv-IsWatched panel checks [] h w p = w
serve_hv-IsWatched panel checks (wake i ∷ events) h w p =
    let w' = wake_thread-WatchedBy panel i h h.monitor_stop h.monitor_thread h.threads w in
    serve_hv-IsWatched panel checks events (wake_thread panel i h) w' (
      subst (λ (kept : Option ℕ). IsPaired events (keeps_thread kept))
        (sym (wake_thread-keeps panel i h)) p)
serve_hv-IsWatched panel checks (message res sub_run ∷ events) h w p =
    unless_finished-WatchedBy (request_of res) h _ w (
      next_event-WatchedBy (IsPaired events)
        (handle_request panel checks (request_of res) sub_run h) (serve_hv panel checks events)
        (handle_request-After panel checks (IsPaired events) (request_of res) sub_run h w p)
        (λ h' w' p'. serve_hv-IsWatched panel checks events h' w' p'))

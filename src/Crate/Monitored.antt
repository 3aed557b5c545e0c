-- ===== src/Crate/Monitored.antt =====
-- A run of daq_control.py with the HV server of hv_control.py.
use daq_control_vmm_beam.Base.{
  ℕ, Bool, true, false, Option, none, some, List, [], ◌∷◌, ◌++◌, Text, codes, contains_text, ◌≡◌,
  refl, ap, sym, ◌∙◌, subst,
}
use daq_control_vmm_beam.Run.World.{
  RunConfig, Action, make_dirs, check_lv, begin_hv, begin_lv, start_hv, start_daq, write_run_time,
  mark_complete, end_hv, end_lv, power_off, finished, World, Others, Servers,
}
use daq_control_vmm_beam.Run.SubRun.{Body, goes_on, raises, hangs}
use daq_control_vmm_beam.Run.Control.{run_sub_runs}
use daq_control_vmm_beam.Run.Closed.{world_of}
use daq_control_vmm_beam.Run.Paired.{
  begun_after, ended_after, monitored, monitoring, Pairs, IsKnown, IsKnown-from,
}
use daq_control_vmm_beam.Run.Looped.{run_sub_runs-Pairs}
use daq_control_vmm_beam.Crate.Voltages.{Hvs}
use daq_control_vmm_beam.Crate.Server.{
  Request, to_finish, to_start, to_power_off, to_begin, to_end, to_nothing, request_of, HvSubRun,
  Panel, HvServer, HvEvent, message, wake, serve_hv,
}
use daq_control_vmm_beam.Crate.Watched.{
  IsWatched, WatchedBy, keeps_thread, Follows, IsPaired, served_of, serve_hv-IsWatched,
}

abbrev pub Messages : Type 0
Messages = List (Text × Option HvSubRun)

-- What a run sends to the HV server for its actions, the last of which is first. The voltages are those
-- of the sub-run of a name.
abbrev pub messages_of : (Text → Hvs) → List Action → Messages
messages_of hvs [] = []
messages_of hvs (begin_hv name ∷ rest) =
    messages_of hvs rest
    ++ ((codes "Begin Monitoring", some (record { sub_run_name = name; hvs = hvs name })) ∷ [])
messages_of hvs (start_hv name ∷ rest) =
    messages_of hvs rest
    ++ ((codes "Start", some (record { sub_run_name = name; hvs = hvs name })) ∷ [])
messages_of hvs (end_hv ∷ rest) = messages_of hvs rest ++ ((codes "End Monitoring", none) ∷ [])
messages_of hvs (power_off ∷ rest) = messages_of hvs rest ++ ((codes "Power Off", none) ∷ [])
messages_of hvs (finished ∷ rest) = messages_of hvs rest ++ ((codes "Finished", none) ∷ [])
messages_of hvs (_ ∷ rest) = messages_of hvs rest

-- The messages among the events of a server.
abbrev pub messages_in : List HvEvent → Messages
messages_in [] = []
messages_in (wake i ∷ events) = messages_in events
messages_in (message res sub_run ∷ events) = (res, sub_run) ∷ messages_in events

-- Whether a thread is kept after a request; none for a monitoring that is begun while one is kept.
abbrev kept_step : Request → Bool → Option Bool
kept_step to_begin false = some true
kept_step to_begin true = none
kept_step to_end kept = some false
kept_step to_finish kept = some kept
kept_step to_start kept = some kept
kept_step to_power_off kept = some kept
kept_step to_nothing kept = some kept

abbrev and_kept : Option Bool → (Bool → Option Bool) → Option Bool
and_kept none next = none
and_kept (some kept) next = next kept

abbrev kept_after : Messages → Bool → Option Bool
kept_after [] kept = some kept
kept_after ((res, _) ∷ ms) kept = and_kept (kept_step (request_of res) kept) (kept_after ms)

and_kept-some : (o : Option Bool) → and_kept o (λ kept. some kept) ≡ o
and_kept-some none = refl
and_kept-some (some kept) = refl

and_kept-and_kept :
    (o : Option Bool) (f g h : Bool → Option Bool)
    → ((kept : Bool) → f kept ≡ and_kept (g kept) h)
    → and_kept o f ≡ and_kept (and_kept o g) h
and_kept-and_kept none f g h e = refl
and_kept-and_kept (some kept) f g h e = e kept

kept_after-last :
    (ms : Messages) (res : Text) (sub_run : Option HvSubRun) (kept : Bool)
    → kept_after (ms ++ ((res, sub_run) ∷ [])) kept
      ≡ and_kept (kept_after ms kept) (kept_step (request_of res))
kept_after-last [] res sub_run kept = and_kept-some (kept_step (request_of res) kept)
kept_after-last ((r, s) ∷ ms) res sub_run kept =
    and_kept-and_kept (kept_step (request_of r) kept) _ (kept_after ms) (kept_step (request_of res))
      (kept_after-last ms res sub_run)

begun_after_lem : (o : Option Bool) → begun_after o ≡ and_kept o (kept_step to_begin)
begun_after_lem none = refl
begun_after_lem (some true) = refl
begun_after_lem (some false) = refl

ended_after_lem : (o : Option Bool) → ended_after o ≡ and_kept o (kept_step to_end)
ended_after_lem none = refl
ended_after_lem (some kept) = refl

-- The last request keeps what is kept.
last-keeps :
    (ms : Messages) (res : Text) (sub_run : Option HvSubRun) (o : Option Bool)
    → o ≡ kept_after ms false
    → ((kept : Bool) → kept_step (request_of res) kept ≡ some kept)
    → o ≡ kept_after (ms ++ ((res, sub_run) ∷ [])) false
last-keeps ms res sub_run o e same =
    e
    ∙ sym (and_kept-some (kept_after ms false))
    ∙ and_kept-and_kept (kept_after ms false) (λ kept. some kept) (λ kept. some kept)
        (kept_step (request_of res)) (λ kept. sym (same kept))
    ∙ ap (λ (o' : Option Bool). and_kept o' (kept_step (request_of res)))
        (and_kept-some (kept_after ms false))
    ∙ sym (kept_after-last ms res sub_run false)

monitored-kept_after :
    (hvs : Text → Hvs) (actions : List Action)
    → monitored actions ≡ kept_after (messages_of hvs actions) false
unfolding request_of contains_text
monitored-kept_after hvs [] = refl
monitored-kept_after hvs (begin_hv name ∷ rest) =
    ap begun_after (monitored-kept_after hvs rest)
    ∙ begun_after_lem (kept_after (messages_of hvs rest) false)
    ∙ sym (kept_after-last (messages_of hvs rest) (codes "Begin Monitoring") _ false)
monitored-kept_after hvs (end_hv ∷ rest) =
    ap ended_after (monitored-kept_after hvs rest)
    ∙ ended_after_lem (kept_after (messages_of hvs rest) false)
    ∙ sym (kept_after-last (messages_of hvs rest) (codes "End Monitoring") _ false)
monitored-kept_after hvs (start_hv name ∷ rest) =
    last-keeps (messages_of hvs rest) (codes "Start") _ _ (monitored-kept_after hvs rest)
      (λ kept. refl)
monitored-kept_after hvs (power_off ∷ rest) =
    last-keeps (messages_of hvs rest) (codes "Power Off") _ _ (monitored-kept_after hvs rest)
      (λ kept. refl)
monitored-kept_after hvs (finished ∷ rest) =
    last-keeps (messages_of hvs rest) (codes "Finished") _ _ (monitored-kept_after hvs rest)
      (λ kept. refl)
monitored-kept_after hvs (make_dirs name ∷ rest) = monitored-kept_after hvs rest
monitored-kept_after hvs (check_lv name ∷ rest) = monitored-kept_after hvs rest
monitored-kept_after hvs (begin_lv name ∷ rest) = monitored-kept_after hvs rest
monitored-kept_after hvs (start_daq name ∷ rest) = monitored-kept_after hvs rest
monitored-kept_after hvs (write_run_time name ∷ rest) = monitored-kept_after hvs rest
monitored-kept_after hvs (mark_complete name ∷ rest) = monitored-kept_after hvs rest
monitored-kept_after hvs (end_lv ∷ rest) = monitored-kept_after hvs rest

follows-from :
    (request : Request) (kept b : Bool) (rest : Bool → Option Bool) (next : Bool → Type 0)
    → and_kept (kept_step request kept) rest ≡ some b
    → ((k : Bool) → rest k ≡ some b → next k)
    → Follows request kept next
follows-from to_begin false b rest next e go = (refl, go true e)
follows-from to_begin true b rest next e go = absurd (cc e)
follows-from to_end kept b rest next e go = go false e
follows-from to_finish kept b rest next e go = go kept e
follows-from to_start kept b rest next e go = go kept e
follows-from to_power_off kept b rest next e go = go kept e
follows-from to_nothing kept b rest next e go = go kept e

kept_after-IsPaired :
    (events : List HvEvent) (kept b : Bool)
    → kept_after (messages_in events) kept ≡ some b
    → IsPaired events kept
kept_after-IsPaired [] kept b e = tt
kept_after-IsPaired (wake i ∷ events) kept b e = kept_after-IsPaired events kept b e
kept_after-IsPaired (message res sub_run ∷ events) kept b e =
    follows-from (request_of res) kept b (kept_after (messages_in events)) (IsPaired events) e
      (λ k. kept_after-IsPaired events k b)

known-IsPaired :
    (events : List HvEvent) (o : Option Bool)
    → IsKnown o
    → o ≡ kept_after (messages_in events) false
    → IsPaired events false
known-IsPaired events none k e = absurd k
known-IsPaired events (some b) k e = kept_after-IsPaired events false b (sym e)

Pairs-IsKnown : (body : Body) → Pairs body → IsKnown (monitoring (world_of body))
Pairs-IsKnown (goes_on w) e = IsKnown-from (monitoring w) false e
Pairs-IsKnown (raises w) k = k
Pairs-IsKnown (hangs w) k = k

-- A run of daq_control.py over any sub-runs, with any stops, pauses, retries and losses of the DAQ's
-- connection, whose HV server answers each `Start` with the voltages set, and its HV server, which gets the
-- messages of the run from a state without a monitor thread on, with rounds of the threads anywhere
-- between them: then one thread at most monitors, and exactly while the server keeps it.
pub run_sub_runs-IsWatched :
    (others : Others) (servers : Servers) (config : RunConfig) (fuel : ℕ) (w : World)
    (hvs : Text → Hvs) (panel : Panel) (checks : ℕ) (events : List HvEvent) (h : HvServer)
    → ((n : ℕ) → servers.hv_set n ≡ true)
    → w.done ≡ []
    → IsWatched h.monitor_stop none h.threads
    → h.monitor_thread ≡ none
    → messages_in events
      ≡ messages_of hvs (world_of (run_sub_runs others servers config fuel w)).done
    → WatchedBy (served_of (serve_hv panel checks events h))
run_sub_runs-IsWatched others servers config fuel w hvs panel checks events h sets new rest idle
      sent =
    let body = run_sub_runs others servers config fuel w in
    let paired = run_sub_runs-Pairs others config servers sets fuel w (ap monitored new) in
    let kept =
      monitored-kept_after hvs (world_of body).done
      ∙ ap (λ (ms : Messages). kept_after ms false) (sym sent) in
    serve_hv-IsWatched panel checks events h
      (subst (λ (o : Option ℕ). IsWatched h.monitor_stop o h.threads) (sym idle) rest)
      (subst (λ (o : Option ℕ). IsPaired events (keeps_thread o)) (sym idle)
        (known-IsPaired events (monitoring (world_of body)) (Pairs-IsKnown body paired) kept))

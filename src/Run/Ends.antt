-- ===== src/Run/Ends.antt =====
-- Stop Run ends a run of daq_control.py, and a completed run resumes into nothing.
use daq_control_vmm_beam.Base.{
  ℕ, zero, suc, ◌+◌, ◌≤◌, ◌≡◌, refl, ◌≢◌, inl, inr, true, ◌&&◌, Option, none, some, List, [], ◌∷◌,
  if◌then◌else◌, Text, text_eq, any, ◌==◌, arith, Bool-cases,
}
use daq_control_vmm_beam.Run.World.{
  Flags, SubRun, RunConfig, make_dirs, check_lv, begin_hv, begin_lv, start_hv, World, Others,
  Servers, count_actions, act, act_if, look, wait_resume,
}
use daq_control_vmm_beam.Run.SubRun.{
  controller_run, DaqEnd, unfinished, lost, succeeded, stopped, run_daq_controller, Body, goes_on,
  raises, hangs, after_daq, take_data, ramp, take_sub_run,
}
use daq_control_vmm_beam.Run.Control.{
  Head, taken, left, waits, head_after_wait, round_head, and_then, after_head, sub_run_loop,
  close_down, run_sub_runs,
}
use daq_control_vmm_beam.Run.Completed.{cleared}

-- From the look number `n` on, the stop flag of the run is up whenever it is looked at.
abbrev pub StopsBy : ℕ → Others → Type 0
StopsBy n others = (k : ℕ) (f : Flags) → n ≤ k → (others k f).stop_run ≡ true

-- The body comes to an end: it goes on or raises.
abbrev pub Ends : Body → Type 0
Ends (goes_on w) = Unit
Ends (raises w) = Unit
Ends (hangs w) = ⊥

controller_run-tick :
    (servers : Servers) (name : Text) (w : World) → (controller_run servers name w).1.tick ≡ w.tick
unfolding controller_run
controller_run-tick servers name w = ground arith

and_then-Ends :
    (b : Body) (next : World → Body)
    → Ends b
    → ((w : World) → Ends (next w))
    → Ends (and_then b next)
and_then-Ends (goes_on w) next h g = g w
and_then-Ends (raises w) next h g = tt
and_then-Ends (hangs w) next h g = h

close_down-Ends : (config : RunConfig) (b : Body) → Ends b → Ends (close_down config b)
unfolding close_down
close_down-Ends config (goes_on w) h = tt
close_down-Ends config (raises w) h = tt
close_down-Ends config (hangs w) h = h

module _ (n : ℕ) (others : Others) (stops : StopsBy n others) where
  wait_resume-ends :
      (rounds : ℕ) (w : World) → n ≤ w.tick + rounds → wait_resume others (suc rounds) w ≢ none
  unfolding wait_resume look
  wait_resume-ends zero w l = ground (arith, stops (w.tick + 1) (others w.tick w.flags))
  wait_resume-ends (suc rounds) w l = ground (
    arith,
    stops (w.tick + 1) (others w.tick w.flags),
    wait_resume-ends rounds (look others (look others w)),
  )

  run_daq_controller-ends :
      (servers : Servers) (attempts : ℕ) (name : Text) (w : World)
      → n ≤ w.tick + attempts
      → (run_daq_controller others servers (suc attempts) name w).0 ≢ unfinished
  unfolding run_daq_controller look
  run_daq_controller-ends servers zero name w l =
      let tried = controller_run servers name (look others (look others w)) in
      ground (arith, stops w.tick w.flags)
  run_daq_controller-ends servers (suc attempts) name w l =
      let w'' = look others (look others w) in
      let tried = controller_run servers name w'' in
      ground (
        arith,
        stops w.tick w.flags,
        controller_run-tick servers name w'',
        run_daq_controller-ends servers attempts name tried.1,
      )

  after_daq-Ends :
      (config : RunConfig) (s : SubRun) (p : DaqEnd × World)
      → p.0 ≢ unfinished
      → Ends (after_daq others config s p)
  after_daq-Ends config s (lost, w) h = tt
  after_daq-Ends config s (unfinished, w) h = h refl
  after_daq-Ends config s (succeeded, w) h = tt
  after_daq-Ends config s (stopped, w) h = tt

  module _ (servers : Servers) (config : RunConfig) (fuel : ℕ) (enough : n ≤ fuel) where
    take_data-Ends :
        (s : SubRun) (w : World) → Ends (take_data others servers config (suc fuel) s w)
    unfolding take_data
    take_data-Ends s w =
        let w1 = if s.settle_time == 0 then w else look others w in
        after_daq-Ends config s (run_daq_controller others servers (suc fuel) s.sub_run_name w1)
          (run_daq_controller-ends servers fuel s.sub_run_name w1 (omega arith))

    ramp-Ends : (s : SubRun) (w : World) → Ends (ramp others servers config (suc fuel) s w)
    unfolding ramp
    ramp-Ends s w =
        let name = s.sub_run_name in
        let w1 = act_if config.hv_monitoring (begin_hv name) w in
        let w2 = act (start_hv name) (act_if config.lv_monitoring (begin_lv name) w1) in
        elim (Bool-cases (servers.hv_set (count_actions w2.done))) [
          | inl e ↦ rw e (take_data-Ends s w2)
          | inr e ↦ rw e tt
        ]

    take_sub_run-Ends :
        (s : SubRun) (w : World) → Ends (take_sub_run others servers config (suc fuel) s w)
    unfolding take_sub_run
    take_sub_run-Ends s w =
        let name = s.sub_run_name in
        let w1 = act (make_dirs name) w in
        let w2 = act (check_lv name) w1 in
        elim (Bool-cases (config.resume && any (text_eq name) w.completed)) [
          | inl e ↦ rw e tt
          | inr e ↦ elim (Bool-cases (config.lv_monitoring && config.check_before_subrun)) [
            | inl k ↦ elim (Bool-cases (servers.lv_ok (count_actions w2.done))) [
              | inl l ↦ rw (e, k, l) (ramp-Ends s w2)
              | inr l ↦ rw (e, k, l) tt
            ]
            | inr k ↦ rw (e, k) (ramp-Ends s w1)
          ]
        ]

    head_after_wait-ends :
        (w : World) (o : Option World) (w' : World)
        → o ≢ none
        → head_after_wait others w o ≢ waits w'
    unfolding head_after_wait
    head_after_wait-ends w none w' h e = h refl
    head_after_wait-ends w (some v) w' h e = ground arith

    round_head-ends : (w w' : World) → round_head others (suc fuel) w ≢ waits w'
    unfolding round_head
    round_head-ends w w' e =
        let w2 = look others (look others w) in
        ground (
          arith,
          wait_resume-ends fuel w2,
          head_after_wait-ends w2 (wait_resume others (suc fuel) w2) w',
        )

    after_head-Ends :
        (take next : World → Body) (head : Head)
        → ((w : World) → head ≢ waits w)
        → ((w : World) → Ends (take w))
        → ((w : World) → Ends (next w))
        → Ends (after_head take next head)
    after_head-Ends take next (left w) h f g = tt
    after_head-Ends take next (waits w) h f g = h w refl
    after_head-Ends take next (taken w) h f g = and_then-Ends (take w) next (f w) g

    sub_run_loop-Ends :
        (ss : List SubRun) (w : World) → Ends (sub_run_loop others servers config (suc fuel) ss w)
    unfolding sub_run_loop
    sub_run_loop-Ends [] w = tt
    sub_run_loop-Ends (s ∷ ss) w =
        after_head-Ends (take_sub_run others servers config (suc fuel) s)
          (sub_run_loop others servers config (suc fuel) ss) (round_head others (suc fuel) w)
          (round_head-ends w) (take_sub_run-Ends s) (sub_run_loop-Ends ss)

    -- Once Stop Run stays raised from the look number `n` on, the run comes to an end, whatever the
    -- servers answer: with more than `n` rounds for each wait it does not run out of them.
    pub run_sub_runs-Ends : (w : World) → Ends (run_sub_runs others servers config (suc fuel) w)
    unfolding run_sub_runs
    run_sub_runs-Ends w =
        close_down-Ends config
          (sub_run_loop others servers config (suc fuel) config.sub_runs (cleared w))
          (sub_run_loop-Ends config.sub_runs (cleared w))

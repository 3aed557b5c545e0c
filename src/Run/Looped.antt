-- ===== src/Run/Looped.antt =====
-- The HV monitoring over the rounds of the loop of daq_control.py, up to the end of the run.
use daq_control_vmm_beam.Base.{
  ℕ, zero, suc, not, Bool, true, false, Option, none, some, List, [], ◌∷◌, if◌then◌else◌, ◌≡◌, refl,
  ap, ◌∙◌, if-elim,
}
use daq_control_vmm_beam.Run.World.{
  SubRun, RunConfig, Action, power_off, World, Others, Servers, act_if, look, remove_pause,
  wait_resume,
}
use daq_control_vmm_beam.Run.SubRun.{Body, goes_on, raises, hangs, take_sub_run}
use daq_control_vmm_beam.Run.Control.{
  Head, taken, left, waits, head_after_wait, round_head, after_head, sub_run_loop, remove_stops,
  close_down, run_sub_runs,
}
use daq_control_vmm_beam.Run.Paired.{
  monitored, monitoring, Pairs, IsKnown-from, and_then-Pairs, take_sub_run-Pairs,
}

-- The head of a round leaves the actions as they are.
abbrev HasDone : List Action → Head → Type 0
HasDone actions (taken w) = w.done ≡ actions
HasDone actions (left w) = w.done ≡ actions
HasDone actions (waits w) = w.done ≡ actions

abbrev WaitHasDone : List Action → Option World → Type 0
WaitHasDone actions none = Unit
WaitHasDone actions (some w) = w.done ≡ actions

wait_resume-WaitHasDone :
    (others : Others) (rounds : ℕ) (w : World) → WaitHasDone w.done (wait_resume others rounds w)
unfolding wait_resume look
wait_resume-WaitHasDone others zero w = tt
wait_resume-WaitHasDone others (suc rounds) w =
    let w1 = look others w in
    let w2 = look others w1 in
    let rest = wait_resume others rounds w2 in
    if-elim (WaitHasDone w.done) (not w1.flags.pause) (some w1)
      (if w2.flags.stop_run then some w2 else rest) (λ _. refl)
      (λ _.
        if-elim (WaitHasDone w.done) w2.flags.stop_run (some w2) rest (λ _. refl)
          (λ _. wait_resume-WaitHasDone others rounds w2))

head_after_wait-HasDone :
    (others : Others) (w : World) (resumed : Option World)
    → WaitHasDone w.done resumed
    → HasDone w.done (head_after_wait others w resumed)
unfolding head_after_wait look
head_after_wait-HasDone others w none d = refl
head_after_wait-HasDone others w (some w') d =
    if-elim (HasDone w.done) (look others w').flags.stop_run (left (look others w'))
      (taken (look others w')) (λ _. d) (λ _. d)

round_head-HasDone :
    (others : Others) (rounds : ℕ) (w : World) → HasDone w.done (round_head others rounds w)
unfolding round_head look
round_head-HasDone others rounds w =
    let w1 = look others w in
    let w2 = look others w1 in
    let after = head_after_wait others w2 (wait_resume others rounds w2) in
    if-elim (HasDone w.done) w1.flags.stop_run (left w1)
      (if w2.flags.pause then after else taken w2) (λ _. refl)
      (λ _.
        if-elim (HasDone w.done) w2.flags.pause after (taken w2)
          (λ _.
            head_after_wait-HasDone others w2 (wait_resume others rounds w2)
              (wait_resume-WaitHasDone others rounds w2))
          (λ _. refl))

power_off-monitoring : (b : Bool) (w : World) → monitoring (act_if b power_off w) ≡ monitoring w
power_off-monitoring true w = refl
power_off-monitoring false w = refl

module _ (others : Others) (config : RunConfig) (servers : Servers)
    (sets : (n : ℕ) → servers.hv_set n ≡ true) (fuel : ℕ) where
  after_head-Pairs :
      (head : Head) (take next : World → Body) (actions : List Action)
      → HasDone actions head
      → monitored actions ≡ some false
      → ((w : World) → monitoring w ≡ some false → Pairs (take w))
      → ((w : World) → monitoring w ≡ some false → Pairs (next w))
      → Pairs (after_head take next head)
  after_head-Pairs (taken w) take next actions d e go more =
      and_then-Pairs others config servers sets fuel (take w) next (go w (ap monitored d ∙ e)) more
  after_head-Pairs (left w) take next actions d e go more = ap monitored d ∙ e
  after_head-Pairs (waits w) take next actions d e go more =
      IsKnown-from (monitoring w) false (ap monitored d ∙ e)

  sub_run_loop-Pairs :
      (ss : List SubRun) (w : World)
      → monitoring w ≡ some false
      → Pairs (sub_run_loop others servers config fuel ss w)
  unfolding sub_run_loop
  sub_run_loop-Pairs [] w e = e
  sub_run_loop-Pairs (s ∷ ss) w e =
      after_head-Pairs (round_head others fuel w) (take_sub_run others servers config fuel s)
        (sub_run_loop others servers config fuel ss) w.done (round_head-HasDone others fuel w) e
        (take_sub_run-Pairs others config servers sets fuel s) (sub_run_loop-Pairs ss)

  close_down-Pairs : (body : Body) → Pairs body → Pairs (close_down config body)
  unfolding close_down
  close_down-Pairs (goes_on w) e =
      power_off-monitoring config.power_off_hv_at_end (remove_stops w) ∙ e
  close_down-Pairs (raises w) k = k
  close_down-Pairs (hangs w) k = k

  pub run_sub_runs-Pairs :
      (w : World) → monitoring w ≡ some false → Pairs (run_sub_runs others servers config fuel w)
  unfolding run_sub_runs
  run_sub_runs-Pairs w e =
      close_down-Pairs
        (sub_run_loop others servers config fuel config.sub_runs (remove_pause (remove_stops w)))
        (sub_run_loop-Pairs config.sub_runs (remove_pause (remove_stops w)) e)

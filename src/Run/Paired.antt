-- ===== src/Run/Paired.antt =====
-- The HV monitoring of a sub-run of daq_control.py, in the order of its requests.
use daq_control_vmm_beam.Base.{
  ℕ, zero, suc, ◌==◌, Bool, true, false, ◌&&◌, Option, none, some, List, [], ◌∷◌, if◌then◌else◌,
  Text, text_eq, any, ◌≡◌, refl, ap, ◌∙◌, arith, if-elim,
}
use daq_control_vmm_beam.Run.World.{
  SubRun, RunConfig, Action, make_dirs, check_lv, begin_hv, begin_lv, start_hv, end_hv, end_lv,
  World, Others, Servers, act, act_if, count_actions, look,
}
use daq_control_vmm_beam.Run.SubRun.{
  DaqEnd, succeeded, stopped, lost, unfinished, Body, goes_on, raises, hangs, controller_run,
  run_daq_controller, settle_marker, close_sub_run, after_daq, take_data, ramp, take_sub_run,
}
use daq_control_vmm_beam.Run.Marked.{post_pause-same}
use daq_control_vmm_beam.Run.Control.{and_then}

abbrev pub begun_after : Option Bool → Option Bool
begun_after (some false) = some true
begun_after _ = none

abbrev pub ended_after : Option Bool → Option Bool
ended_after (some _) = some false
ended_after none = none

-- Whether HV monitoring is on after the actions, the last one first; none where it was begun while on.
abbrev pub monitored : List Action → Option Bool
monitored [] = some false
monitored (begin_hv _ ∷ rest) = begun_after (monitored rest)
monitored (end_hv ∷ rest) = ended_after (monitored rest)
monitored (_ ∷ rest) = monitored rest

abbrev pub monitoring : World → Option Bool
monitoring w = monitored w.done

settle_marker-monitoring :
    (others : Others) (name : Text) (w : World)
    → monitoring (settle_marker others name w) ≡ monitoring w
unfolding settle_marker look
settle_marker-monitoring others name w = ground arith

controller_run-monitoring :
    (servers : Servers) (name : Text) (w : World)
    → monitoring (controller_run servers name w).1 ≡ monitoring w
unfolding controller_run
controller_run-monitoring servers name w = ground arith

run_daq_controller-monitoring :
    (others : Others) (servers : Servers) (attempts : ℕ) (name : Text) (w : World)
    → monitoring (run_daq_controller others servers attempts name w).1 ≡ monitoring w
unfolding run_daq_controller look
run_daq_controller-monitoring others servers zero name w = refl
run_daq_controller-monitoring others servers (suc attempts) name w =
    let w'' = look others (look others w) in
    let tried = controller_run servers name w'' in
    ground (
      arith,
      controller_run-monitoring servers name w'',
      run_daq_controller-monitoring others servers attempts name tried.1,
    )

-- What is known of the monitoring.
abbrev pub IsKnown : Option Bool → Type 0
IsKnown none = ⊥
IsKnown (some b) = Unit

-- A loop that goes on has ended its monitoring, and in no case was it begun while on.
abbrev pub Pairs : Body → Type 0
Pairs (goes_on w) = monitoring w ≡ some false
Pairs (raises w) = IsKnown (monitoring w)
Pairs (hangs w) = IsKnown (monitoring w)

pub IsKnown-from : (o : Option Bool) (b : Bool) → o ≡ some b → IsKnown o
IsKnown-from none b e = absurd (cc e)
IsKnown-from (some _) b e = tt

begins-monitoring :
    (b : Bool) (name : Text) (w : World)
    → monitoring w ≡ some false
    → monitoring (act_if b (begin_hv name) w) ≡ some b
begins-monitoring true name w e = ap begun_after e
begins-monitoring false name w e = e

ends-monitoring :
    (b : Bool) (w : World) → monitoring w ≡ some b → monitoring (act_if b end_hv w) ≡ some false
ends-monitoring true w e = ap ended_after e
ends-monitoring false w e = e

act_lv-monitoring :
    (b : Bool) (name : Text) (w : World) → monitoring (act_if b (begin_lv name) w) ≡ monitoring w
act_lv-monitoring true name w = refl
act_lv-monitoring false name w = refl

end_lv-monitoring : (b : Bool) (w : World) → monitoring (act_if b end_lv w) ≡ monitoring w
end_lv-monitoring true w = refl
end_lv-monitoring false w = refl

module _ (others : Others) (config : RunConfig) where
  close_sub_run-monitoring :
      (s : SubRun) (w : World)
      → monitoring w ≡ some config.hv_monitoring
      → monitoring (close_sub_run others config s w) ≡ some false
  unfolding close_sub_run
  close_sub_run-monitoring s w e =
      let w1 = act_if config.hv_monitoring end_hv w in
      let w2 = act_if config.lv_monitoring end_lv w1 in
      let w3 = settle_marker others s.sub_run_name w2 in
      ap monitored ((post_pause-same others s.post_pause_s w3).1)
      ∙ settle_marker-monitoring others s.sub_run_name w2
      ∙ end_lv-monitoring config.lv_monitoring w1
      ∙ ends-monitoring config.hv_monitoring w e

  after_daq-Pairs :
      (s : SubRun) (p : DaqEnd × World)
      → monitoring p.1 ≡ some config.hv_monitoring
      → Pairs (after_daq others config s p)
  after_daq-Pairs s (lost, w) e = IsKnown-from (monitoring w) _ e
  after_daq-Pairs s (unfinished, w) e = IsKnown-from (monitoring w) _ e
  after_daq-Pairs s (succeeded, w) e = close_sub_run-monitoring s w e
  after_daq-Pairs s (stopped, w) e = close_sub_run-monitoring s w e

  module _ (servers : Servers) (sets : (n : ℕ) → servers.hv_set n ≡ true) (fuel : ℕ) where
    take_data-Pairs :
        (s : SubRun) (w : World)
        → monitoring w ≡ some config.hv_monitoring
        → Pairs (take_data others servers config fuel s w)
    unfolding take_data look
    take_data-Pairs s w e =
        let settled = if s.settle_time == 0 then w else look others w in
        after_daq-Pairs s (run_daq_controller others servers fuel s.sub_run_name settled) (
          run_daq_controller-monitoring others servers fuel s.sub_run_name settled
          ∙ if-elim (λ (w' : World). monitoring w' ≡ monitoring w) (s.settle_time == 0) w
              (look others w) (λ _. refl) (λ _. refl)
          ∙ e)

    ramp-Pairs :
        (s : SubRun) (w : World)
        → monitoring w ≡ some false
        → Pairs (ramp others servers config fuel s w)
    unfolding ramp
    ramp-Pairs s w e =
        let w1 = act_if config.hv_monitoring (begin_hv s.sub_run_name) w in
        let w2 =
          act (start_hv s.sub_run_name)
            (act_if config.lv_monitoring (begin_lv s.sub_run_name) w1) in
        if-elim Pairs (servers.hv_set (count_actions w2.done))
          (take_data others servers config fuel s w2) (goes_on w2)
          (λ _. take_data-Pairs s w2 (
            act_lv-monitoring config.lv_monitoring s.sub_run_name w1
            ∙ begins-monitoring config.hv_monitoring s.sub_run_name w e))
          (λ no. absurd (cc (no, sets (count_actions w2.done))))

    pub take_sub_run-Pairs :
        (s : SubRun) (w : World)
        → monitoring w ≡ some false
        → Pairs (take_sub_run others servers config fuel s w)
    unfolding take_sub_run
    take_sub_run-Pairs s w e =
        let w1 = act (make_dirs s.sub_run_name) w in
        let w2 = act (check_lv s.sub_run_name) w1 in
        let unchecked = ramp others servers config fuel s w1 in
        let checked =
          if servers.lv_ok (count_actions w2.done)
          then ramp others servers config fuel s w2
          else goes_on w2 in
        let checks = config.lv_monitoring && config.check_before_subrun in
        if-elim Pairs (config.resume && any (text_eq s.sub_run_name) w.completed) (goes_on w)
          (if checks then checked else unchecked) (λ _. e)
          (λ _.
            if-elim Pairs checks checked unchecked
              (λ _.
                if-elim Pairs (servers.lv_ok (count_actions w2.done))
                  (ramp others servers config fuel s w2) (goes_on w2) (λ _. ramp-Pairs s w2 e)
                  (λ _. e))
              (λ _. ramp-Pairs s w1 e))

    pub and_then-Pairs :
        (body : Body) (next : World → Body)
        → Pairs body
        → ((w : World) → monitoring w ≡ some false → Pairs (next w))
        → Pairs (and_then body next)
    and_then-Pairs (goes_on w) next e go = go w e
    and_then-Pairs (raises w) next k go = k
    and_then-Pairs (hangs w) next k go = k

-- ===== src/Run/Taken.antt =====
-- The marker of one sub-run of daq_control.py.
use daq_control_vmm_beam.Base.{
  ℕ, ◌≤◌, ◌≡◌, ◌∙◌, refl, inl, inr, true, ◌&&◌, if◌then◌else◌, text_eq, any, ◌==◌, arith,
  Bool-cases,
}
use daq_control_vmm_beam.Run.World.{
  SubRun, RunConfig, make_dirs, check_lv, begin_hv, begin_lv, start_hv, World, Others, Servers,
  count_actions, act, act_if, look,
}
use daq_control_vmm_beam.Run.SubRun.{run_daq_controller, take_data, ramp, take_sub_run}
use daq_control_vmm_beam.Run.Marked.{
  NeverClears, acts_of, MarksTaken, MarksTaken-from, run_daq_controller-same,
  run_daq_controller-stopped, run_daq_controller-succeeded,
}
use daq_control_vmm_beam.Run.Closed.{world_of, act_if-same, after_daq-MarksTaken}

settled-same :
    (others : Others) (n : ℕ) (w : World)
    → ((if n == 0 then w else look others w).completed ≡ w.completed)
      × (acts_of w ≤ acts_of (if n == 0 then w else look others w))
unfolding look
settled-same others n w = ground arith

module _ (others : Others) (servers : Servers) (keeps : NeverClears others) where
  take_data-MarksTaken :
      (config : RunConfig) (attempts : ℕ) (s : SubRun) (w : World) (m : ℕ)
      → servers.hv_set m ≡ true
      → m ≡ acts_of w
      → MarksTaken servers s.sub_run_name w
          (world_of (take_data others servers config attempts s w))
  unfolding take_data
  take_data-MarksTaken config attempts s w m hv e =
      let w1 = if s.settle_time == 0 then w else look others w in
      let p = run_daq_controller others servers attempts s.sub_run_name w1 in
      let (c, n) = settled-same others s.settle_time w in
      let (c', n') = run_daq_controller-same others servers attempts s.sub_run_name w1 in
      after_daq-MarksTaken others servers config s p w m keeps hv (omega arith) (c' ∙ c)
        (omega arith)
        (run_daq_controller-succeeded others servers attempts s.sub_run_name w1 m (omega arith))
        (run_daq_controller-stopped others servers attempts s.sub_run_name w1)

  ramp-MarksTaken :
      (config : RunConfig) (attempts : ℕ) (s : SubRun) (w : World)
      → MarksTaken servers s.sub_run_name w (world_of (ramp others servers config attempts s w))
  unfolding ramp
  ramp-MarksTaken config attempts s w =
      let name = s.sub_run_name in
      let w1 = act_if config.hv_monitoring (begin_hv name) w in
      let w2 = act_if config.lv_monitoring (begin_lv name) w1 in
      let w3 = act (start_hv name) w2 in
      let (c, _, n) = act_if-same config.lv_monitoring (begin_lv name) w1 in
      let (c', _, n') = act_if-same config.hv_monitoring (begin_hv name) w in
      elim (Bool-cases (servers.hv_set (count_actions w3.done))) [
        | inl e ↦ rw e (
            MarksTaken-from servers name w3 w
              (world_of (take_data others servers config attempts s w3)) (c ∙ c') (omega arith)
              (take_data-MarksTaken config attempts s w3 (count_actions w3.done) e refl))
        | inr e ↦ rw e (omega arith, inl (c ∙ c'))
      ]

  -- A sub-run is marked complete only when the HV was set for it and a capture was started and stopped.
  pub take_sub_run-MarksTaken :
      (config : RunConfig) (attempts : ℕ) (s : SubRun) (w : World)
      → MarksTaken servers s.sub_run_name w
          (world_of (take_sub_run others servers config attempts s w))
  unfolding take_sub_run
  take_sub_run-MarksTaken config attempts s w =
      let name = s.sub_run_name in
      let w1 = act (make_dirs name) w in
      let w2 = act (check_lv name) w1 in
      elim (Bool-cases (config.resume && any (text_eq name) w.completed)) [
        | inl e ↦ rw e (omega arith, inl refl)
        | inr e ↦ elim (Bool-cases (config.lv_monitoring && config.check_before_subrun)) [
          | inl k ↦ elim (Bool-cases (servers.lv_ok (count_actions w2.done))) [
            | inl l ↦
                rw (e, k, l)
                  (MarksTaken-from servers name w2 w
                    (world_of (ramp others servers config attempts s w2)) refl (omega arith)
                    (ramp-MarksTaken config attempts s w2))
            | inr l ↦ rw (e, k, l) (omega arith, inl refl)
          ]
          | inr k ↦
              rw (e, k)
                (MarksTaken-from servers name w1 w
                  (world_of (ramp others servers config attempts s w1)) refl (omega arith)
                  (ramp-MarksTaken config attempts s w1))
        ]
      ]

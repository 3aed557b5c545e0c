-- ===== src/Run/Closed.antt =====
-- The end of a sub-run of daq_control.py, and its marker.
use daq_control_vmm_beam.Base.{ℕ, ◌≤◌, ◌≡◌, ◌∙◌, refl, inl, inr, Bool, true, false, arith}
use daq_control_vmm_beam.Run.World.{
  SubRun, RunConfig, Action, World, Others, Servers, act_if, end_hv, end_lv,
}
use daq_control_vmm_beam.Run.SubRun.{
  DaqEnd, succeeded, stopped, lost, unfinished, Body, goes_on, raises, hangs, settle_marker,
  close_sub_run, after_daq,
}
use daq_control_vmm_beam.Run.Marked.{
  NeverClears, acts_of, IsCaptured, IsMark, MarksTaken, is_stopping, settle_marker-IsMark,
  settle_marker-stopping, post_pause-same,
}

abbrev pub world_of : Body → World
world_of (goes_on w) = w
world_of (raises w) = w
world_of (hangs w) = w

abbrev closing : RunConfig → World → World
closing config w = act_if config.lv_monitoring end_lv (act_if config.hv_monitoring end_hv w)

-- Requests change neither the flags nor the markers.
pub act_if-same :
    (b : Bool) (a : Action) (w : World)
    → ((act_if b a w).completed ≡ w.completed)
      × ((act_if b a w).flags ≡ w.flags)
      × (acts_of w ≤ acts_of (act_if b a w))
act_if-same true a w = (refl, refl, omega arith)
act_if-same false a w = (refl, refl, omega arith)

closing_same :
    (config : RunConfig) (w : World)
    → ((closing config w).completed ≡ w.completed)
      × ((closing config w).flags ≡ w.flags)
      × (acts_of w ≤ acts_of (closing config w))
closing_same config w =
    let w1 = act_if config.hv_monitoring end_hv w in
    let (c, f, n) = act_if-same config.lv_monitoring end_lv w1 in
    let (c', f', n') = act_if-same config.hv_monitoring end_hv w in (c ∙ c', f ∙ f', omega arith)

close_sub_run-IsMark :
    (others : Others) (config : RunConfig) (s : SubRun) (w : World)
    → IsMark s.sub_run_name w (close_sub_run others config s w)
unfolding close_sub_run
close_sub_run-IsMark others config s w =
    let w1 = closing config w in
    ground (
      arith,
      closing_same config w,
      settle_marker-IsMark others s.sub_run_name w1,
      post_pause-same others s.post_pause_s (settle_marker others s.sub_run_name w1),
    )

close_sub_run-stopping :
    (others : Others) (config : RunConfig) (s : SubRun) (w : World)
    → NeverClears others
    → is_stopping w ≡ true
    → (close_sub_run others config s w).completed ≡ w.completed
unfolding close_sub_run
close_sub_run-stopping others config s w keeps h =
    let w1 = closing config w in
    ground (
      arith,
      closing_same config w,
      settle_marker-stopping others s.sub_run_name w1 keeps,
      post_pause-same others s.post_pause_s (settle_marker others s.sub_run_name w1),
    )

later-IsCaptured :
    (servers : Servers) (lo hi hi' : ℕ)
    → hi ≤ hi'
    → IsCaptured servers lo hi
    → IsCaptured servers lo hi'
later-IsCaptured servers lo hi hi' l c = record {
  at = c.at;
  from_lo = c.from_lo;
  before_hi = omega (arith, c.before_hi);
  starts = c.starts;
  stops = c.stops;
}

-- A DAQ that succeeded is followed by the marker or by none, and one that was stopped by none.
pub after_daq-MarksTaken :
    (others : Others) (servers : Servers) (config : RunConfig) (s : SubRun) (p : DaqEnd × World)
    (w : World) (m : ℕ)
    → NeverClears others
    → servers.hv_set m ≡ true
    → acts_of w ≤ m
    → p.1.completed ≡ w.completed
    → acts_of w ≤ acts_of p.1
    → (p.0 ≡ succeeded → IsCaptured servers m (acts_of p.1))
    → (p.0 ≡ stopped → is_stopping p.1 ≡ true)
    → MarksTaken servers s.sub_run_name w (world_of (after_daq others config s p))
after_daq-MarksTaken others servers config s (lost, w') w m keeps hv l e n f g = (n, inl e)
after_daq-MarksTaken others servers config s (unfinished, w') w m keeps hv l e n f g = (n, inl e)
after_daq-MarksTaken others servers config s (succeeded, w') w m keeps hv l e n f g =
    let (n', either) = close_sub_run-IsMark others config s w' in
    (
      omega arith,
      elim either [
        | inl h ↦ inl (h ∙ e)
        | inr h ↦ inr (
          rw (← e) h,
          record {
            hv_at = m;
            from_lo = l;
            hv_set = hv;
            captured = later-IsCaptured servers m (acts_of w') _ n' (f refl);
          },
        )
      ],
    )
after_daq-MarksTaken others servers config s (stopped, w') w m keeps hv l e n f g = (
  omega (arith, (close_sub_run-IsMark others config s w').0),
  inl (close_sub_run-stopping others config s w' keeps (g refl) ∙ e),
)

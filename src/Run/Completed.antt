-- ===== src/Run/Completed.antt =====
-- The markers of a whole run of daq_control.py.
use daq_control_vmm_beam.Base.{
  ℕ, zero, suc, ◌≤◌, ◌≡◌, ◌∙◌, refl, inl, Option, none, some, List, [], ◌∷◌, arith, ap,
}
use daq_control_vmm_beam.Run.World.{
  SubRun, RunConfig, World, Others, Servers, count_actions, look, wait_resume, remove_pause,
  power_off,
}
use daq_control_vmm_beam.Run.SubRun.{Body, goes_on, raises, hangs, take_sub_run}
use daq_control_vmm_beam.Run.Control.{
  Head, taken, left, waits, head_after_wait, round_head, and_then, after_head, sub_run_loop,
  close_down, run_sub_runs, remove_stops,
}
use daq_control_vmm_beam.Run.Marked.{NeverClears, acts_of, MarksTaken, MarksTaken-from}
use daq_control_vmm_beam.Run.Closed.{world_of, act_if-same}
use daq_control_vmm_beam.Run.Taken.{take_sub_run-MarksTaken}

-- From `w` to `w'` the sub-runs pass in order, each in a stretch of its own, at whose end its name has
-- been added to the markers or not, and only if it was taken within the stretch.
abbrev pub GrowsBy : Servers → List SubRun → World → World → Type 0
GrowsBy servers [] w w' = w'.completed ≡ w.completed
GrowsBy servers (s ∷ ss) w w' =
    (mid : World) × MarksTaken servers s.sub_run_name w mid × GrowsBy servers ss mid w'

GrowsBy-refl : (servers : Servers) (ss : List SubRun) (w : World) → GrowsBy servers ss w w
GrowsBy-refl servers [] w = refl
GrowsBy-refl servers (s ∷ ss) w = (w, (omega arith, inl refl), GrowsBy-refl servers ss w)

-- The head of a round leaves the markers alone.
abbrev head_world : Head → World
head_world (taken w) = w
head_world (left w) = w
head_world (waits w) = w

wait_resume-same :
    (others : Others) (rounds : ℕ) (w w' : World)
    → wait_resume others rounds w ≡ some w'
    → (w'.completed ≡ w.completed) × (w'.done ≡ w.done)
unfolding wait_resume look
wait_resume-same others zero w w' h = cc
wait_resume-same others (suc rounds) w w' h =
    ground (arith, wait_resume-same others rounds (look others (look others w)) w')

head_after_wait-same :
    (others : Others) (w : World) (o : Option World)
    → ((w' : World) → o ≡ some w' → (w'.completed ≡ w.completed) × (w'.done ≡ w.done))
    → ((head_world (head_after_wait others w o)).completed ≡ w.completed)
      × ((head_world (head_after_wait others w o)).done ≡ w.done)
unfolding head_after_wait look
head_after_wait-same others w none h = (refl, refl)
head_after_wait-same others w (some w') h = ground (arith, h w' refl)

round_head-same :
    (others : Others) (rounds : ℕ) (w : World)
    → ((head_world (round_head others rounds w)).completed ≡ w.completed)
      × ((head_world (round_head others rounds w)).done ≡ w.done)
unfolding round_head look
round_head-same others rounds w =
    let w2 = look others (look others w) in
    ground (
      arith,
      head_after_wait-same others w2 (wait_resume others rounds w2)
          (λ w' e. wait_resume-same others rounds w2 w' e),
    )

same_acts : (w w' : World) → w'.done ≡ w.done → acts_of w ≤ acts_of w'
same_acts w w' d = omega (arith, ap count_actions d)

and_then-GrowsBy :
    (servers : Servers) (s : SubRun) (ss : List SubRun) (w : World) (b : Body) (next : World → Body)
    → MarksTaken servers s.sub_run_name w (world_of b)
    → ((w' : World) → GrowsBy servers ss w' (world_of (next w')))
    → GrowsBy servers (s ∷ ss) w (world_of (and_then b next))
and_then-GrowsBy servers s ss w (goes_on w') next h ih = (w', h, ih w')
and_then-GrowsBy servers s ss w (raises w') next h ih = (w', h, GrowsBy-refl servers ss w')
and_then-GrowsBy servers s ss w (hangs w') next h ih = (w', h, GrowsBy-refl servers ss w')

after_head-GrowsBy :
    (servers : Servers) (s : SubRun) (ss : List SubRun) (w : World) (head : Head)
    (take next : World → Body)
    → ((head_world head).completed ≡ w.completed) × ((head_world head).done ≡ w.done)
    → ((w' : World) → MarksTaken servers s.sub_run_name w' (world_of (take w')))
    → ((w' : World) → GrowsBy servers ss w' (world_of (next w')))
    → GrowsBy servers (s ∷ ss) w (world_of (after_head take next head))
after_head-GrowsBy servers s ss w (taken w') take next (e, d) h ih =
    and_then-GrowsBy servers s ss w (take w') next
      (MarksTaken-from servers s.sub_run_name w' w (world_of (take w')) e (same_acts w w' d) (h w'))
      ih
after_head-GrowsBy servers s ss w (left w') take next (e, d) h ih =
    (w', (same_acts w w' d, inl e), GrowsBy-refl servers ss w')
after_head-GrowsBy servers s ss w (waits w') take next (e, d) h ih =
    (w', (same_acts w w' d, inl e), GrowsBy-refl servers ss w')

GrowsBy-end :
    (servers : Servers) (ss : List SubRun) (w w' w'' : World)
    → w''.completed ≡ w'.completed
    → GrowsBy servers ss w w'
    → GrowsBy servers ss w w''
GrowsBy-end servers [] w w' w'' e g = e ∙ g
GrowsBy-end servers (s ∷ ss) w w' w'' e (mid, m, g) =
    (mid, m, GrowsBy-end servers ss mid w' w'' e g)

-- The moment at which the loop starts, stale flags removed.
abbrev pub cleared : World → World
cleared w = remove_pause (remove_stops w)

module _ (others : Others) (servers : Servers) (keeps : NeverClears others) where
  sub_run_loop-GrowsBy :
      (config : RunConfig) (fuel : ℕ) (ss : List SubRun) (w : World)
      → GrowsBy servers ss w (world_of (sub_run_loop others servers config fuel ss w))
  unfolding sub_run_loop
  sub_run_loop-GrowsBy config fuel [] w = refl
  sub_run_loop-GrowsBy config fuel (s ∷ ss) w =
      after_head-GrowsBy servers s ss w (round_head others fuel w)
        (take_sub_run others servers config fuel s) (sub_run_loop others servers config fuel ss)
        (round_head-same others fuel w) (take_sub_run-MarksTaken others servers keeps config fuel s)
        (sub_run_loop-GrowsBy config fuel ss)

  close_down-completed :
      (config : RunConfig) (b : Body)
      → (world_of (close_down config b)).completed ≡ (world_of b).completed
  unfolding close_down
  close_down-completed config (goes_on w) =
      (act_if-same config.power_off_hv_at_end power_off (remove_stops w)).0
  close_down-completed config (raises w) = refl
  close_down-completed config (hangs w) = refl

  -- As long as other processes only raise the stop flags, a run passes its sub-runs in order, each in a
  -- stretch of its own, and the markers grow by the name of a sub-run at most once in its stretch, and
  -- only if within it the HV server has set the voltages and after that the VMM server has started and
  -- stopped a capture. The end of the run adds no marker.
  pub run_sub_runs-GrowsBy :
      (config : RunConfig) (fuel : ℕ) (w : World)
      → GrowsBy servers config.sub_runs
          (cleared w)
          (world_of (run_sub_runs others servers config fuel w))
  unfolding run_sub_runs
  run_sub_runs-GrowsBy config fuel w =
      let b = sub_run_loop others servers config fuel config.sub_runs (cleared w) in
      GrowsBy-end servers config.sub_runs (cleared w) (world_of b) (world_of (close_down config b))
        (close_down-completed config b)
        (sub_run_loop-GrowsBy config fuel config.sub_runs (cleared w))

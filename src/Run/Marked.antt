-- ===== src/Run/Marked.antt =====
-- Which sub-runs of daq_control.py get a completion marker.
use daq_control_vmm_beam.Base.{
  ℕ, zero, suc, ◌≤◌, ◌<◌, ◌≡◌, ◌∙◌, refl, ◌⊎◌, inl, inr, Bool, true, false, ◌||◌, ◌∷◌, Text, arith,
  subst, sym, ap,
}
use daq_control_vmm_beam.Run.World.{
  Flags, World, Others, Servers, starting, count_actions, look, sleep_unless_stop,
}
use daq_control_vmm_beam.Run.SubRun.{
  Attempt, connection_lost, returned, controller_run, DaqEnd, succeeded, stopped,
  run_daq_controller, settle_marker, post_pause, after_attempt,
}

-- Other processes raise the stop flags and never take them away, as bash_scripts/stop_run.sh does.
pub record NeverClears (others : Others) : Type 0 where
  pub keeps_run : (n : ℕ) (f : Flags) → f.stop_run ≡ true → (others n f).stop_run ≡ true
  pub keeps_subrun : (n : ℕ) (f : Flags) → f.stop_subrun ≡ true → (others n f).stop_subrun ≡ true

abbrev pub acts_of : World → ℕ
acts_of w = count_actions w.done

-- Between the moments `lo` and `hi`, counted in actions done, the VMM server has started a capture on
-- request and stopped it.
pub record IsCaptured (servers : Servers) (lo hi : ℕ) : Type 0 where
  pub at : ℕ
  pub from_lo : lo ≤ at
  pub before_hi : at < hi
  pub starts : servers.daq_starts at ≡ starting
  pub stops : servers.daq_stops at ≡ true

controller_run-returned :
    (servers : Servers) (name : Text) (w : World) (lo : ℕ)
    → lo ≤ acts_of w
    → (controller_run servers name w).0 ≡ returned true
    → IsCaptured servers lo (acts_of (controller_run servers name w).1)
unfolding controller_run
controller_run-returned servers name w lo l h = record {
  at = acts_of w;
  from_lo = l;
  before_hi = ground arith;
  starts = ground arith;
  stops = ground arith;
}

pub controller_run-same :
    (servers : Servers) (name : Text) (w : World)
    → ((controller_run servers name w).1.completed ≡ w.completed)
      × (acts_of w ≤ acts_of (controller_run servers name w).1)
unfolding controller_run
controller_run-same servers name w = ground arith

pub run_daq_controller-same :
    (others : Others) (servers : Servers) (attempts : ℕ) (name : Text) (w : World)
    → ((run_daq_controller others servers attempts name w).1.completed ≡ w.completed)
      × (acts_of w ≤ acts_of (run_daq_controller others servers attempts name w).1)
unfolding run_daq_controller look
run_daq_controller-same others servers zero name w = (refl, omega arith)
run_daq_controller-same others servers (suc attempts) name w =
    let w'' = look others (look others w) in
    let tried = controller_run servers name w'' in
    ground (
      arith,
      controller_run-same servers name w'',
      run_daq_controller-same others servers attempts name tried.1,
    )

-- A stop flag is up.
abbrev pub is_stopping : World → Bool
is_stopping w = w.flags.stop_run || w.flags.stop_subrun

pub run_daq_controller-stopped :
    (others : Others) (servers : Servers) (attempts : ℕ) (name : Text) (w : World)
    → (run_daq_controller others servers attempts name w).0 ≡ stopped
    → is_stopping (run_daq_controller others servers attempts name w).1 ≡ true
unfolding run_daq_controller look
run_daq_controller-stopped others servers zero name w h = cc
run_daq_controller-stopped others servers (suc attempts) name w h =
    let tried = controller_run servers name (look others (look others w)) in
    ground (arith, run_daq_controller-stopped others servers attempts name tried.1)

after_attempt-succeeded :
    (servers : Servers) (lo : ℕ) (tried : Attempt × World) (rest : DaqEnd × World)
    → (tried.0 ≡ returned true → IsCaptured servers lo (acts_of tried.1))
    → (rest.0 ≡ succeeded → IsCaptured servers lo (acts_of rest.1))
    → (after_attempt tried rest).0 ≡ succeeded
    → IsCaptured servers lo (acts_of (after_attempt tried rest).1)
after_attempt-succeeded servers lo (connection_lost, w) rest f g h = cc
after_attempt-succeeded servers lo (returned true, w) rest f g h = f refl
after_attempt-succeeded servers lo (returned false, w) rest f g h = g h

-- A loop that ends with success has made an attempt.
run_daq_controller-attempts :
    (others : Others) (servers : Servers) (attempts : ℕ) (name : Text) (w : World)
    → (run_daq_controller others servers (suc attempts) name w).0 ≡ succeeded
    → let tried = controller_run servers name (look others (look others w)) in
      run_daq_controller others servers (suc attempts) name w
      ≡ after_attempt tried (run_daq_controller others servers attempts name tried.1)
unfolding run_daq_controller look
run_daq_controller-attempts others servers attempts name w h = ground arith

-- The loop of attempts ends with success only after a capture of its own.
pub run_daq_controller-succeeded :
    (others : Others) (servers : Servers) (attempts : ℕ) (name : Text) (w : World) (lo : ℕ)
    → lo ≤ acts_of w
    → (run_daq_controller others servers attempts name w).0 ≡ succeeded
    → IsCaptured servers lo (acts_of (run_daq_controller others servers attempts name w).1)
unfolding run_daq_controller look
run_daq_controller-succeeded others servers zero name w lo l h = cc
run_daq_controller-succeeded others servers (suc attempts) name w lo l h =
    let w'' = look others (look others w) in
    let tried = controller_run servers name w'' in
    let rest = run_daq_controller others servers attempts name tried.1 in
    let e = run_daq_controller-attempts others servers attempts name w h in
    subst (λ (p : DaqEnd × World). IsCaptured servers lo (acts_of p.1)) (sym e)
      (after_attempt-succeeded servers lo tried rest (controller_run-returned servers name w'' lo l)
        (run_daq_controller-succeeded others servers attempts name tried.1 lo
          (omega (arith, controller_run-same servers name w'')))
        (ap (λ (p : DaqEnd × World). p.0) (sym e) ∙ h))

sleep_unless_stop-same :
    (others : Others) (n : ℕ) (w : World)
    → ((sleep_unless_stop others n w).completed ≡ w.completed)
      × ((sleep_unless_stop others n w).done ≡ w.done)
unfolding sleep_unless_stop look
sleep_unless_stop-same others zero w = (refl, refl)
sleep_unless_stop-same others (suc n) w =
    ground (arith, sleep_unless_stop-same others n (look others w))

pub post_pause-same :
    (others : Others) (n : ℕ) (w : World)
    → ((post_pause others n w).completed ≡ w.completed) × ((post_pause others n w).done ≡ w.done)
unfolding post_pause look
post_pause-same others n w = ground (arith, sleep_unless_stop-same others n (look others w))

-- The sub-run gets its marker or not, and nothing else of the markers changes.
abbrev pub IsMark : Text → World → World → Type 0
IsMark name w w' =
    (acts_of w ≤ acts_of w') × ((w'.completed ≡ w.completed) ⊎ (w'.completed ≡ name ∷ w.completed))

pub settle_marker-IsMark :
    (others : Others) (name : Text) (w : World) → IsMark name w (settle_marker others name w)
unfolding settle_marker look
settle_marker-IsMark others name w = ground arith

pub settle_marker-stopping :
    (others : Others) (name : Text) (w : World)
    → NeverClears others
    → is_stopping w ≡ true
    → (settle_marker others name w).completed ≡ w.completed
unfolding settle_marker look
settle_marker-stopping others name w keeps h =
    let w1 = look others w in
    ground (
      arith,
      keeps.keeps_run w.tick w.flags,
      keeps.keeps_subrun w.tick w.flags,
      keeps.keeps_subrun w1.tick w1.flags,
    )

-- What the marker of a sub-run rests on: between the moments `lo` and `hi` the HV server has set the
-- voltages, and after that a capture was started and stopped.
pub record IsTaken (servers : Servers) (lo hi : ℕ) : Type 0 where
  pub hv_at : ℕ
  pub from_lo : lo ≤ hv_at
  pub hv_set : servers.hv_set hv_at ≡ true
  pub captured : IsCaptured servers hv_at hi

-- From `w` to `w'` the markers stay as they are, or that of the sub-run is added, which has been taken
-- between the two.
abbrev pub MarksTaken : Servers → Text → World → World → Type 0
MarksTaken servers name w w' =
    (acts_of w ≤ acts_of w')
    × ((w'.completed ≡ w.completed)
        ⊎ ((w'.completed ≡ name ∷ w.completed) × IsTaken servers (acts_of w) (acts_of w')))

pub MarksTaken-from :
    (servers : Servers) (name : Text) (w w0 w' : World)
    → w.completed ≡ w0.completed
    → acts_of w0 ≤ acts_of w
    → MarksTaken servers name w w'
    → MarksTaken servers name w0 w'
MarksTaken-from servers name w w0 w' e l (m, inl h) = (omega arith, inl (h ∙ e))
MarksTaken-from servers name w w0 w' e l (m, inr (h, t)) = (
  omega arith,
  inr (
    rw (← e) h,
    record {
      hv_at = t.hv_at;
      from_lo = omega (arith, t.from_lo);
      hv_set = t.hv_set;
      captured = t.captured;
    },
  ),
)

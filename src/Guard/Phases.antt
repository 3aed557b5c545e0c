-- ===== src/Guard/Phases.antt =====
-- The order in which a recovery of capture_guard.py sends its requests, as a state machine over them.
use daq_control_vmm_beam.Base.{
  ℕ, zero, suc, ◌≡◌, refl, ◌⊎◌, Bool, true, false, not, List, [], ◌∷◌, arith,
}
use daq_control_vmm_beam.Guard.Recover.{
  Step, write_continuation, remove_continuation, post_warm_reset, post_apply, new_number,
  post_start, Bench, Work, see, send, wait_until, step_polls, teardown_polls, is_off,
  warm_reset_until_ready, apply_chip_config, start_run, restart, continue_plan, beam_gate, recover,
}

-- How far a recovery is; `wrong` is the phase of a request out of order.
pub data Phase : Type 0 where
  idle continued resetting applying numbered started over wrong : Phase

abbrev pub next_phase : Phase → Step → Phase
next_phase idle write_continuation = continued
next_phase continued post_warm_reset = resetting
next_phase resetting post_warm_reset = resetting
next_phase resetting post_apply = applying
next_phase applying post_apply = applying
next_phase applying new_number = numbered
next_phase numbered post_start = started
next_phase started new_number = numbered
next_phase started remove_continuation = over
next_phase _ _ = wrong

abbrev pub phase : List Step → Phase
phase [] = idle
phase (s ∷ before) = next_phase (phase before) s

-- Phases in which a recovery may have been given up, and the one in which it has succeeded.
abbrev pub is_end_of : Bool → Phase → Bool
is_end_of true over = true
is_end_of false idle = true
is_end_of false continued = true
is_end_of false resetting = true
is_end_of false applying = true
is_end_of false started = true
is_end_of _ _ = false

-- One phase or the other.
abbrev IsAmong : Phase → Phase → Work → Type 0
IsAmong p q w = (phase w.steps ≡ p) ⊎ (phase w.steps ≡ q)

pub wait_until-steps :
    (pred : ℕ → Bool) (polls : ℕ) (w : Work) → (wait_until pred polls w).1.steps ≡ w.steps
unfolding wait_until
wait_until-steps pred zero w = refl
wait_until-steps pred (suc polls) w = ground (arith, wait_until-steps pred polls (see w))

warm_reset_until_ready-phase :
    (b : Bench) (tries : ℕ) (w : Work)
    → IsAmong continued resetting w
    → let r = warm_reset_until_ready b tries w in
      (r.0 ≡ true → phase r.1.steps ≡ resetting) × (r.0 ≡ false → IsAmong continued resetting r.1)
unfolding warm_reset_until_ready
warm_reset_until_ready-phase b zero w h = (λ e. ground arith, λ _. h)
warm_reset_until_ready-phase b (suc tries) w h =
    let pred = λ (k : ℕ). is_off (b.chip_status k).reset_running in
    let waited = wait_until pred step_polls (send post_warm_reset w) in
    ground (
      arith,
      wait_until-steps pred step_polls (send post_warm_reset w),
      warm_reset_until_ready-phase b tries (see waited.1),
    )

apply_chip_config-phase :
    (b : Bench) (tries : ℕ) (w : Work)
    → IsAmong resetting applying w
    → let r = apply_chip_config b tries w in
      (r.0 ≡ true → phase r.1.steps ≡ applying) × (r.0 ≡ false → IsAmong resetting applying r.1)
unfolding apply_chip_config
apply_chip_config-phase b zero w h = (λ e. ground arith, λ _. h)
apply_chip_config-phase b (suc tries) w h =
    let pred = λ (k : ℕ). is_off (b.chip_status k).applying in
    let waited = wait_until pred step_polls (send post_apply w) in
    ground (
      arith,
      wait_until-steps pred step_polls (send post_apply w),
      apply_chip_config-phase b tries (see (see waited.1)),
    )

start_run-phase :
    (b : Bench) (tries : ℕ) (w : Work)
    → IsAmong applying started w
    → let r = start_run b tries w in
      (r.0 ≡ true → phase r.1.steps ≡ started) × (r.0 ≡ false → IsAmong applying started r.1)
unfolding start_run
start_run-phase b zero w h = (λ e. ground arith, λ _. h)
start_run-phase b (suc tries) w h =
    ground (arith, start_run-phase b tries (send post_start (send new_number w)))

abbrev IsEnd : Bool × Work → Type 0
IsEnd r = is_end_of r.0 (phase r.1.steps) ≡ true

restart-phase : (b : Bench) (w : Work) → phase w.steps ≡ continued → IsEnd (restart b w)
unfolding restart
restart-phase b w h =
    let r = warm_reset_until_ready b 3 w in
    let a = apply_chip_config b 3 r.1 in
    ground (
      arith,
      warm_reset_until_ready-phase b 3 w,
      apply_chip_config-phase b 3 r.1,
      start_run-phase b 2 a.1,
    )

continue_plan-phase : (b : Bench) (w : Work) → phase w.steps ≡ idle → IsEnd (continue_plan b w)
unfolding continue_plan
continue_plan-phase b w h = ground (arith, restart-phase b (send write_continuation w))

beam_gate-steps : (b : Bench) (w : Work) → (beam_gate b w).1.steps ≡ w.steps
unfolding beam_gate
beam_gate-steps b w = ground (arith, wait_until-steps b.dream_idle teardown_polls w)

-- A recovery sends its requests in the order of the phases: it writes the continuation, resets at least
-- once, applies at least once, starts after a new number at least once, and removes the continuation
-- exactly if it reports that a run was started.
pub recover-phase :
    (b : Bench) (w : Work)
    → phase w.steps ≡ idle
    → is_end_of (recover b w).0 (phase (recover b w).1.steps) ≡ true
unfolding recover
recover-phase b w h =
    let pred = λ (k : ℕ). not (b.daq_running k) in
    let w1 = (wait_until pred step_polls (see w)).1 in
    let g = beam_gate b w1 in
    ground (
      arith,
      wait_until-steps pred step_polls (see w),
      beam_gate-steps b w1,
      continue_plan-phase b g.1,
    )

-- ===== src/Guard/Continuation.antt =====
-- What a recovery of capture_guard.py has seen before it starts a run, and what it leaves behind.
use daq_control_vmm_beam.Base.{
  ℕ, zero, suc, ◌+◌, ◌≤◌, ◌<◌, ◌≡◌, refl, ◌≢◌, inl, inr, Bool, true, false, not, ◌&&◌, List, [],
  ◌∷◌, arith, Bool-cases,
}
use daq_control_vmm_beam.Guard.Recover.{
  Step, write_continuation, remove_continuation, post_warm_reset, post_apply, new_number,
  post_start, Bench, Work, see, send, wait_until, step_polls, teardown_polls, is_off,
  is_none_failed, warm_reset_until_ready, apply_chip_config, start_run, consumed, then_if, restart,
  continue_plan, beam_gate, recover,
}
use daq_control_vmm_beam.Guard.Phases.{Phase, idle, over, wrong, phase, is_end_of, recover-phase}

-- Whether config/continuation.json is there after the requests.
abbrev pub has_continuation : List Step → Bool
has_continuation [] = false
has_continuation (write_continuation ∷ _) = true
has_continuation (remove_continuation ∷ _) = false
has_continuation (_ ∷ before) = has_continuation before

abbrev is_pending : Phase → Bool
is_pending idle = false
is_pending over = false
is_pending wrong = false
is_pending _ = true

has_continuation_lem :
    (ss : List Step) → phase ss ≢ wrong → has_continuation ss ≡ is_pending (phase ss)
has_continuation_lem [] h = refl
has_continuation_lem (s ∷ ss) h = ground (arith, has_continuation_lem ss)

pending_end :
    (p : Phase) → is_end_of false p ≡ true → p ≢ idle → (is_pending p ≡ true) × (p ≢ wrong)
pending_end p h i = ground arith

-- A recovery that is given up after its first request leaves the continuation behind.
pub recover-has_continuation :
    (b : Bench) (w : Work)
    → phase w.steps ≡ idle
    → (recover b w).0 ≡ false
    → phase (recover b w).1.steps ≢ idle
    → has_continuation (recover b w).1.steps ≡ true
recover-has_continuation b w h f i =
    let steps = (recover b w).1.steps in
    let (p, q) = pending_end (phase steps) (rw f at (recover-phase b w h)) i in
    rw (has_continuation_lem steps q) p

wait_until-at : (pred : ℕ → Bool) (polls : ℕ) (w : Work) → w.at ≤ (wait_until pred polls w).1.at
unfolding wait_until
wait_until-at pred zero w = omega arith
wait_until-at pred (suc polls) w = ground (arith, wait_until-at pred polls (see w))

-- The chips were ready at a look between the two.
abbrev IsReady : Bench → ℕ → ℕ → Type 0
IsReady b lo hi = (k : ℕ) × (lo < k) × (k < hi) × (is_none_failed (b.chip_status k).failed ≡ true)

abbrev IsApplied : Bench → ℕ → ℕ → Type 0
IsApplied b lo hi =
    (k : ℕ) × (lo < k)
    × (k + 1 < hi)
    × (is_none_failed (b.chip_status k).rc ≡ true)
    × ((b.chip_status (k + 1)).armed ≡ true)

abbrev IsAccepted : Bench → ℕ → ℕ → Type 0
IsAccepted b lo hi = (k : ℕ) × (lo < k) × (k < hi) × (b.starts k ≡ true)

warm_reset_until_ready-IsReady :
    (b : Bench) (tries : ℕ) (w : Work)
    → let r = warm_reset_until_ready b tries w in
      (w.at ≤ r.1.at) × (r.0 ≡ true → IsReady b w.at r.1.at)
unfolding warm_reset_until_ready
warm_reset_until_ready-IsReady b zero w = (omega arith, λ e. ground arith)
warm_reset_until_ready-IsReady b (suc tries) w =
    let pred = λ (k : ℕ). is_off (b.chip_status k).reset_running in
    let waited = wait_until pred step_polls (send post_warm_reset w) in
    let n = wait_until-at pred step_polls (send post_warm_reset w) in
    let (m, ih) = warm_reset_until_ready-IsReady b tries (see waited.1) in
    elim (Bool-cases (is_none_failed (b.chip_status waited.1.at).failed)) [
      | inl e ↦ rw e (omega arith, λ _. (waited.1.at, omega arith, omega arith, e))
      | inr e ↦ rw e (omega arith, λ h. let (k, l, u, p) = ih h in (k, omega arith, u, p))
    ]

apply_chip_config-IsApplied :
    (b : Bench) (tries : ℕ) (w : Work)
    → let r = apply_chip_config b tries w in
      (w.at ≤ r.1.at) × (r.0 ≡ true → IsApplied b w.at r.1.at)
unfolding apply_chip_config
apply_chip_config-IsApplied b zero w = (omega arith, λ e. ground arith)
apply_chip_config-IsApplied b (suc tries) w =
    let pred = λ (k : ℕ). is_off (b.chip_status k).applying in
    let waited = wait_until pred step_polls (send post_apply w) in
    let w' = see waited.1 in
    let n = wait_until-at pred step_polls (send post_apply w) in
    let (m, ih) = apply_chip_config-IsApplied b tries (see w') in
    let good = is_none_failed (b.chip_status waited.1.at).rc && (b.chip_status w'.at).armed in
    elim (Bool-cases (waited.0 && good)) [
      | inl e ↦
          rw e
            (omega arith, λ _. (waited.1.at, omega arith, omega arith, ground arith, ground arith))
      | inr e ↦ rw e (omega arith, λ h. let (k, l, u, p, q) = ih h in (k, omega arith, u, p, q))
    ]

start_run-IsAccepted :
    (b : Bench) (tries : ℕ) (w : Work)
    → let r = start_run b tries w in (w.at ≤ r.1.at) × (r.0 ≡ true → IsAccepted b w.at r.1.at)
unfolding start_run
start_run-IsAccepted b zero w = (omega arith, λ e. ground arith)
start_run-IsAccepted b (suc tries) w =
    let w' = send new_number w in
    let (m, ih) = start_run-IsAccepted b tries (send post_start w') in
    elim (Bool-cases (b.starts w'.at)) [
      | inl e ↦ rw e (omega arith, λ _. (w'.at, omega arith, omega arith, e))
      | inr e ↦ rw e (omega arith, λ h. let (k, l, u, p) = ih h in (k, omega arith, u, p))
    ]

-- The looks of a recovery that starts a run, in their order.
abbrev pub IsSeen : Bench → ℕ → ℕ → Type 0
IsSeen b lo hi = (j : ℕ) × (k : ℕ) × IsReady b lo j × IsApplied b j k × IsAccepted b k hi

then_if-true :
    (p : Bool × Work) (next : Work → Bool × Work)
    → (then_if p next).0 ≡ true
    → (p.0 ≡ true) × (then_if p next ≡ next p.1)
then_if-true (true, w) next h = (refl, refl)
then_if-true (false, w) next h = ground arith

consumed-true :
    (p : Bool × Work) → (consumed p).0 ≡ true → (p.0 ≡ true) × ((consumed p).1.at ≡ p.1.at + 1)
consumed-true (true, w) h = (refl, refl)
consumed-true (false, w) h = ground arith

restart-IsSeen : (b : Bench) (w : Work) → (restart b w).0 ≡ true → IsSeen b w.at (restart b w).1.at
unfolding restart
restart-IsSeen b w h =
    let r = warm_reset_until_ready b 3 w in
    let a = apply_chip_config b 3 r.1 in
    let s = start_run b 2 a.1 in
    let last = λ (w2 : Work). consumed (start_run b 2 w2) in
    let next = λ (w1 : Work). then_if (apply_chip_config b 3 w1) last in
    let (e, e') = then_if-true r next h in
    let (f, f') = then_if-true a last (rw e' at h) in
    let (g, g') = consumed-true s (rw (e', f') at h) in
    let (j, jl, ju, jp) = (warm_reset_until_ready-IsReady b 3 w).1 e in
    let (k, kl, ku, kp, kq) = (apply_chip_config-IsApplied b 3 r.1).1 f in
    let (m, ml, mu, mp) = (start_run-IsAccepted b 2 a.1).1 g in
    rw (e', f', g') (r.1.at, a.1.at, (j, jl, ju, jp), (k, kl, ku, kp, kq), (m, ml, omega arith, mp))

continue_plan-IsSeen :
    (b : Bench) (w : Work) → (continue_plan b w).0 ≡ true → IsSeen b w.at (continue_plan b w).1.at
unfolding continue_plan
continue_plan-IsSeen b w h = elim (Bool-cases (b.can_write w.at)) [
  | inl e ↦
      let (j, k, (i, l, u, p), a, s) = restart-IsSeen b (send write_continuation w) (rw e at h) in
      rw e (j, k, (i, omega arith, u, p), a, s)
  | inr e ↦ ground arith
]

beam_gate-at : (b : Bench) (w : Work) → w.at ≤ (beam_gate b w).1.at
unfolding beam_gate
beam_gate-at b w = ground (arith, wait_until-at b.dream_idle teardown_polls w)

-- A recovery reports a started run only after it has seen, in this order, a warm reset that left no
-- hybrid failed, an apply that exited with 0 and left the next run armed, and an accepted start.
pub recover-IsSeen :
    (b : Bench) (w : Work) → (recover b w).0 ≡ true → IsSeen b w.at (recover b w).1.at
unfolding recover
recover-IsSeen b w h =
    let pred = λ (k : ℕ). not (b.daq_running k) in
    let q = wait_until pred step_polls (see w) in
    let g = beam_gate b q.1 in
    let next = λ (w1 : Work). then_if (beam_gate b w1) (continue_plan b) in
    elim (Bool-cases (b.is_disabled w.at)) [
      | inl e ↦ ground arith
      | inr e ↦
          let (f, f') = then_if-true q next (rw e at h) in
          let (c, c') = then_if-true g (continue_plan b) (rw (e, f') at h) in
          let (j, k, (i, l, u, p), a, s) = continue_plan-IsSeen b g.1 (rw (e, f', c') at h) in
          let m = beam_gate-at b q.1 in
          let n = wait_until-at pred step_polls (see w) in
          rw (e, f', c') (j, k, (i, omega arith, u, p), a, s)
    ]

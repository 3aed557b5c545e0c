-- ===== src/Watch/Ended.antt =====
-- How `run_monitored` of watcher_common.py ends.
use mathlib.Core.Option.{some-injective}
use daq_control_vmm_beam.Base.{
  ℕ, ◌+◌, ◌≤◌, ◌<◌, leb, ◌≡◌, refl, ap, ◌∙◌, ◌≢◌, ◌⊎◌, inl, inr, true, Option, none, some, List, [],
  ◌∷◌, arith, Bool-cases,
}
use daq_control_vmm_beam.Base.Int.{ℤ, is_zero}
use daq_control_vmm_beam.Watch.Monitored.{
  Limits, WatchRound, EndReason, finished, out_of_memory, timed_out, Growth, Checked, ends, goes_on,
  check_round, after_step, after_poll, monitor, run_monitored,
}

-- One of the rounds is later than the hard limit allows.
abbrev pub HasLate : Limits → ℕ → List WatchRound → Type 0
HasLate l t_start [] = ⊥
HasLate l t_start (r ∷ rs) = (t_start + l.hard_timeout_s < r.now) ⊎ HasLate l t_start rs

-- The child lived through rounds within the limits and then exited with 0.
abbrev pub IsHealthy : Limits → ℕ → List WatchRound → Type 0
IsHealthy l t_start [] = ⊥
IsHealthy l t_start (r ∷ rs) =
    ((rc : ℤ) × (r.polled ≡ some rc) × (is_zero rc ≡ true))
    ⊎ ((r.polled ≡ none)
        × (r.mem_pct < l.memory_kill_pct)
        × ((l.hard_timeout_s ≡ 0) ⊎ (r.now ≤ t_start + l.hard_timeout_s))
        × IsHealthy l t_start rs)

module _ (l : Limits) (t_start : ℕ) where
  late_ends :
      (r : WatchRound) (g : Growth)
      → 0 < l.hard_timeout_s
      → t_start + l.hard_timeout_s < r.now
      → (reason : EndReason) × (check_round l t_start r g ≡ ends reason)
  unfolding check_round
  late_ends r g p h = elim (Bool-cases (leb l.memory_kill_pct r.mem_pct)) [
    | inl e ↦ (out_of_memory, ground (arith, e))
    | inr e ↦ (timed_out, ground (arith, e))
  ]

  after_step-ends :
      (c : Checked) (rest : Growth → Option EndReason)
      → ((g : Growth) → rest g ≢ none)
      → after_step c rest ≢ none
  after_step-ends (ends reason) rest h e = ground arith
  after_step-ends (goes_on g) rest h e = h g e

  after_poll-ends :
      (o : Option ℤ) (rest : Option EndReason) → rest ≢ none → after_poll o rest ≢ none
  after_poll-ends none rest h e = h e
  after_poll-ends (some rc) rest h e = ground arith

  monitor-ends :
      (rs : List WatchRound) (g : Growth)
      → 0 < l.hard_timeout_s
      → HasLate l t_start rs
      → monitor l t_start rs g ≢ none
  unfolding monitor
  monitor-ends [] g p h = λ e. h
  monitor-ends (r ∷ rs) g p (inl h) =
      let (reason, k) = late_ends r g p h in
      after_poll-ends r.polled (after_step (check_round l t_start r g) (monitor l t_start rs))
        (rw k (λ e. ground arith))
  monitor-ends (r ∷ rs) g p (inr h) =
      after_poll-ends r.polled (after_step (check_round l t_start r g) (monitor l t_start rs)) (
        after_step-ends (check_round l t_start r g) (monitor l t_start rs)
          (λ g'. monitor-ends rs g' p h))

  check_round-within :
      (r : WatchRound) (g g' : Growth)
      → check_round l t_start r g ≡ goes_on g'
      → (r.mem_pct < l.memory_kill_pct)
        × ((l.hard_timeout_s ≡ 0) ⊎ (r.now ≤ t_start + l.hard_timeout_s))
  unfolding check_round
  check_round-within r g g' h = ground arith

  check_round-reason : (r : WatchRound) (g : Growth) → check_round l t_start r g ≢ ends finished
  unfolding check_round
  check_round-reason r g h = ground arith

  after_step-IsHealthy :
      (r : WatchRound) (rs : List WatchRound) (g : Growth) (c : Checked)
      → check_round l t_start r g ≡ c
      → r.polled ≡ none
      → ((g' : Growth) → monitor l t_start rs g' ≡ some finished → IsHealthy l t_start rs)
      → after_step c (monitor l t_start rs) ≡ some finished
      → IsHealthy l t_start (r ∷ rs)
  after_step-IsHealthy r rs g (ends reason) c p ih h =
      absurd (check_round-reason r g (c ∙ ap ends (some-injective _ _ h)))
  after_step-IsHealthy r rs g (goes_on g') c p ih h =
      let (m, t) = check_round-within r g g' c in inr (p, m, t, ih g' h)

  after_poll-IsHealthy :
      (r : WatchRound) (rs : List WatchRound) (g : Growth) (o : Option ℤ)
      → r.polled ≡ o
      → ((g' : Growth) → monitor l t_start rs g' ≡ some finished → IsHealthy l t_start rs)
      → after_poll o (after_step (check_round l t_start r g) (monitor l t_start rs)) ≡ some finished
      → IsHealthy l t_start (r ∷ rs)
  after_poll-IsHealthy r rs g none p ih h =
      after_step-IsHealthy r rs g (check_round l t_start r g) refl p ih h
  after_poll-IsHealthy r rs g (some rc) p ih h = inl (rc, p, ground arith)

  monitor-IsHealthy :
      (rs : List WatchRound) (g : Growth)
      → monitor l t_start rs g ≡ some finished
      → IsHealthy l t_start rs
  unfolding monitor
  monitor-IsHealthy [] g h = ground arith
  monitor-IsHealthy (r ∷ rs) g h =
      after_poll-IsHealthy r rs g r.polled refl (monitor-IsHealthy rs) h

  -- A child is reported to have succeeded only if it exited with 0 after rounds in each of which the memory
  -- in use was below the limit and the hard limit on its time was not passed.
  pub run_monitored-IsHealthy :
      (rs : List WatchRound) → run_monitored l t_start rs ≡ some finished → IsHealthy l t_start rs
  unfolding run_monitored
  run_monitored-IsHealthy rs h =
      monitor-IsHealthy rs (record { last_size = none; last_growth = t_start }) h

  -- With a hard limit, a child comes to its end no later than the first round past the limit, whether or
  -- not it exits by itself.
  pub run_monitored-ends :
      (rs : List WatchRound)
      → 0 < l.hard_timeout_s
      → HasLate l t_start rs
      → run_monitored l t_start rs ≢ none
  unfolding run_monitored
  run_monitored-ends rs p h =
      monitor-ends rs (record { last_size = none; last_growth = t_start }) p h

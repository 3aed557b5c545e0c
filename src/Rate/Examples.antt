-- ===== src/Rate/Examples.antt =====
-- A run that floods the disk, and the theorem about rate_guard.py at concrete data.
use daq_control_vmm_beam.Base.{
  ℕ, ◌+◌, ◌*◌, ◌≤◌, ◌≡◌, refl, true, false, some, List, [], ◌∷◌, codes, text_eq,
}
use daq_control_vmm_beam.Rate.Rounds.{
  RateLimit, RateLook, idle_state, follow_run, add_reading, growth, rate_round, rate_rounds,
}
use daq_control_vmm_beam.Rate.Strikes.{rate_rounds-length}

abbrev limit : RateLimit
limit = record { max_mb_min = 400; interval = 15; window = 45; max_strikes = 3; dry_run = false }

abbrev look_at : ℕ → ℕ → RateLook
look_at t mb = record { running = true; run = some (codes "run_7"); now = t; total = mb * 1000000 }

-- 10 MB a second.
abbrev flood : List RateLook
flood =
    look_at 0 0
    ∷ look_at 15 150
    ∷ look_at 30 300
    ∷ look_at 45 450
    ∷ look_at 60 600
    ∷ look_at 75 750
    ∷ look_at 90 900
    ∷ []

one_trip : (rate_rounds limit flood idle_state).0 ≡ 1
unfolding rate_rounds rate_round follow_run add_reading growth text_eq
one_trip = refl

rate_rounds-length_example : let r = rate_rounds limit flood idle_state in r.0 * 3 + r.1.strikes ≤ 7
rate_rounds-length_example = rate_rounds-length limit flood idle_state

-- ===== src/Rate/Strikes.antt =====
-- How often rate_guard.py can trip.
use daq_control_vmm_beam.Base.{
  ◌+◌, ◌*◌, ◌≤◌, inl, inr, Bool, Option, none, some, List, [], ◌∷◌, Text, arith, Bool-cases, length,
  ℕ, suc, if-elim,
}
use daq_control_vmm_beam.Rate.Rounds.{
  RateLimit, RateLook, RateState, follow_run, add_reading, is_over, strike, rate_round, if_one,
  rate_rounds, ends_guard,
}

follow_run-strikes : (run : Option Text) (g : RateState) → (follow_run run g).strikes ≤ g.strikes
unfolding follow_run
follow_run-strikes run g = ground arith

-- A round that trips uses up the strikes, and any other adds at most one.
abbrev IsPaid : RateLimit → RateState → Bool × RateState → Type 0
IsPaid a g (tripped, g') = (if_one tripped * a.max_strikes + g'.strikes ≤ g.strikes + 1)

strike-IsPaid : (a : RateLimit) (o : Option Bool) (g : RateState) → IsPaid a g (strike a o g)
strike-IsPaid a none g = omega arith
strike-IsPaid a (some over) g = ground arith

rate_round-IsPaid : (a : RateLimit) (x : RateLook) (g : RateState) → IsPaid a g (rate_round a x g)
unfolding rate_round add_reading
rate_round-IsPaid a x g = elim (Bool-cases x.running) [
  | inr e ↦ rw e (omega arith)
  | inl e ↦
      let g1 = follow_run x.run g in
      let hist = add_reading a x g1.hist in
      let p = strike-IsPaid a (is_over a hist) (record g1 { hist = hist }) in
      let q = follow_run-strikes x.run g in rw e (omega arith)
]

-- However the rates vary, a series of rounds trips at most once for each full row of strikes: the trips
-- times the strikes needed, and the strikes still open, are no more than the strikes that were open
-- before and the rounds.
pub rate_rounds-length :
    (a : RateLimit) (xs : List RateLook) (g : RateState)
    → let r = rate_rounds a xs g in r.0 * a.max_strikes + r.1.strikes ≤ g.strikes + length xs
unfolding rate_rounds
rate_rounds-length a [] g = omega arith
rate_rounds-length a (x ∷ xs) g =
    let r = rate_round a x g in
    let rest = rate_rounds a xs r.1 in
    let p = rate_round-IsPaid a x g in
    let ih = rate_rounds-length a xs r.1 in
    if-elim (λ (e : ℕ × RateState). e.0 * a.max_strikes + e.1.strikes ≤ g.strikes + suc (length xs))
      (ends_guard x) (0, g) (if_one r.0 + rest.0, rest.1) (λ _. omega arith)
      (λ _. ground (arith, p, ih))

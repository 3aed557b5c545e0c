-- ===== src/Crate/Ramped.antt =====
-- The wait of `set_hvs` for the ramp, and the order of its commands.
use daq_control_vmm_beam.Base.{
  ℕ, zero, suc, ◌+◌, ◌≤◌, ◌<◌, true, Option, none, some, [], ◌∷◌, ◌≡◌, refl, if-elim, arith, All,
  &&-split,
}
use daq_control_vmm_beam.Base.Int.{ℤ, pos, negsuc}
use daq_control_vmm_beam.Crate.Voltages.{
  Channels, Hvs, Readings, is_far, is_ramped, channels_ramped, all_ramped, wait_ramped,
}

-- A reading within 1.5 V of a set point, or of one that is only monitored.
abbrev pub IsNear : ℤ → Option ℕ → Type 0
IsNear vmon none = Unit
IsNear (pos m) (some v) = (m ≤ v + 1500) × (v ≤ m + 1500)
IsNear (negsuc m) (some v) = m + v < 1500

-- Each channel of the settings is near its set point at a check.
abbrev pub IsSettled : Readings → ℕ → Hvs → Type 0
IsSettled vmon check hvs =
    All
      (λ (slot : ℕ × Channels).
        All (λ (c : ℕ × Option ℕ). IsNear (vmon check slot.0 c.0) c.1) slot.1)
      hvs

is_ramped-IsNear : (m : ℤ) (v : Option ℕ) → is_ramped m v ≡ true → IsNear m v
unfolding is_far
is_ramped-IsNear m none h = tt
is_ramped-IsNear (pos m) (some v) h = ground arith
is_ramped-IsNear (negsuc m) (some v) h = ground arith

IsNear-is_ramped : (m : ℤ) (v : Option ℕ) → IsNear m v → is_ramped m v ≡ true
unfolding is_far
IsNear-is_ramped m none h = refl
IsNear-is_ramped (pos m) (some v) (h1, h2) = ground arith
IsNear-is_ramped (negsuc m) (some v) h = ground arith

module _ (vmon : Readings) (check : ℕ) where
  channels_ramped-settled :
      (slot : ℕ) (cs : Channels)
      → channels_ramped vmon check slot cs ≡ true
      → All (λ (c : ℕ × Option ℕ). IsNear (vmon check slot c.0) c.1) cs
  unfolding channels_ramped
  channels_ramped-settled slot [] h = tt
  channels_ramped-settled slot ((channel, v) ∷ cs) h =
      let (near, rest) = &&-split _ _ h in
      (is_ramped-IsNear _ v near, channels_ramped-settled slot cs rest)

  settled-channels_ramped :
      (slot : ℕ) (cs : Channels)
      → All (λ (c : ℕ × Option ℕ). IsNear (vmon check slot c.0) c.1) cs
      → channels_ramped vmon check slot cs ≡ true
  unfolding channels_ramped
  settled-channels_ramped slot [] h = refl
  settled-channels_ramped slot ((channel, v) ∷ cs) (near, rest) = ground (
    arith,
    IsNear-is_ramped (vmon check slot channel) v near,
    settled-channels_ramped slot cs rest,
  )

  all_ramped-IsSettled : (hvs : Hvs) → all_ramped vmon check hvs ≡ true → IsSettled vmon check hvs
  unfolding all_ramped
  all_ramped-IsSettled [] h = tt
  all_ramped-IsSettled ((slot, cs) ∷ hvs) h =
      let (near, rest) = &&-split _ _ h in
      (channels_ramped-settled slot cs near, all_ramped-IsSettled hvs rest)

  IsSettled-all_ramped : (hvs : Hvs) → IsSettled vmon check hvs → all_ramped vmon check hvs ≡ true
  unfolding all_ramped
  IsSettled-all_ramped [] h = refl
  IsSettled-all_ramped ((slot, cs) ∷ hvs) (near, rest) =
      ground (arith, settled-channels_ramped slot cs near, IsSettled-all_ramped hvs rest)

-- The wait ends at a check up to the bound, with the voltages near.
pub data EndsBy (vmon : Readings) (hvs : Hvs) (bound : ℕ) : Option ℕ → Type 0 where
  ends_at : (k : ℕ) → k ≤ bound → IsSettled vmon k hvs → EndsBy vmon hvs bound (some k)

wait_ramped-from :
    (vmon : Readings) (hvs : Hvs) (bound checks check : ℕ)
    → IsSettled vmon bound hvs
    → check ≤ bound
    → bound < check + checks
    → EndsBy vmon hvs bound (wait_ramped vmon hvs checks check)
unfolding wait_ramped
wait_ramped-from vmon hvs bound zero check near le lt = absurd (omega arith)
wait_ramped-from vmon hvs bound (suc checks) check near le lt =
    if-elim (EndsBy vmon hvs bound) (all_ramped vmon check hvs) (some check)
      (wait_ramped vmon hvs checks (check + 1))
      (λ all. ends_at check le (all_ramped-IsSettled vmon check hvs all))
      (λ far.
        wait_ramped-from vmon hvs bound checks (check + 1) near
          (ground (arith, far, IsSettled-all_ramped vmon bound hvs near)) (omega arith))

-- If the voltages have come near at some check, whatever they do before and after it, the wait of
-- `set_hvs` ends, with more checks than this one, and it ends at the check up to then at which every
-- channel that was set, also one that was switched off, reads within 1.5 V of its set point.
pub wait_ramped-EndsBy :
    (vmon : Readings) (hvs : Hvs) (bound checks : ℕ)
    → IsSettled vmon bound hvs
    → bound < checks
    → EndsBy vmon hvs bound (wait_ramped vmon hvs checks 0)
wait_ramped-EndsBy vmon hvs bound checks near lt =
    wait_ramped-from vmon hvs bound checks 0 near (omega arith) (omega arith)

-- ===== src/Crate/Voltages.antt =====
-- hv_control.py: `set_hvs` and `power_off_hvs` on a CAEN crate. Voltages are in millivolts; the readings
-- may be below 0, the set points of a configuration are not.
use daq_control_vmm_beam.Base.{
  ℕ, zero, suc, ◌+◌, ◌-◌, ltb, ◌==◌, Bool, true, false, not, ◌&&◌, ◌||◌, Option, none, some, List,
  [], ◌∷◌, if◌then◌else◌,
}
use daq_control_vmm_beam.Base.Int.{ℤ, pos, negsuc}

-- What is sent to the crate, for a slot and a channel.
pub data Command : Type 0 where
  set_ch_v0 : ℕ → ℕ → ℕ → Command
  set_ch_pw : ℕ → ℕ → Bool → Command

-- Whether each channel is powered, and its set point; `sent` has the last command first.
pub record Crate : Type 0 where
  pub power : ℕ → ℕ → Bool
  pub v0 : ℕ → ℕ → ℕ
  pub sent : List Command

-- The channels of a slot, and the slots, with their voltages; without one a channel is only monitored.
abbrev pub Channels : Type 0
Channels = List (ℕ × Option ℕ)

abbrev pub Hvs : Type 0
Hvs = List (ℕ × Channels)

abbrev pub at_channel {ℓ} : {A : Type ℓ} → ℕ → ℕ → A → (ℕ → ℕ → A) → ℕ → ℕ → A
at_channel slot channel value f s c = if s == slot && c == channel then value else f s c

-- `caen_hv.set_ch_pw` and `caen_hv.set_ch_v0`
abbrev pub send_pw : ℕ → ℕ → Bool → Crate → Crate
send_pw slot channel on crate = record crate {
  power = at_channel slot channel on crate.power;
  sent = set_ch_pw slot channel on ∷ crate.sent;
}

abbrev pub send_v0 : ℕ → ℕ → ℕ → Crate → Crate
send_v0 slot channel v crate = record crate {
  v0 = at_channel slot channel v crate.v0;
  sent = set_ch_v0 slot channel v ∷ crate.sent;
}

-- One channel of `set_hvs`.
unfoldable pub set_channel : ℕ → ℕ × Option ℕ → Crate → Crate
set_channel slot (channel, none) crate = crate
set_channel slot (channel, some v) crate =
    let crate' = send_v0 slot channel v crate in
    if v == 0
    then if crate.power slot channel then send_pw slot channel false crate else crate
    else if crate.power slot channel
    then crate'
    else send_pw slot channel true crate'

unfoldable pub set_channels : ℕ → Channels → Crate → Crate
set_channels slot [] crate = crate
set_channels slot (c ∷ cs) crate = set_channels slot cs (set_channel slot c crate)

-- The first loop of `set_hvs`, under the lock.
unfoldable pub set_slots : Hvs → Crate → Crate
set_slots [] crate = crate
set_slots ((slot, channels) ∷ hvs) crate = set_slots hvs (set_channels slot channels crate)

-- `abs(vmon - v0) > 1.5`
unfoldable pub is_far : ℤ → ℕ → Bool
is_far (pos m) v = ltb 1500 (m - v) || ltb 1500 (v - m)
is_far (negsuc m) v = ltb 1500 (suc m + v)

abbrev pub is_ramped : ℤ → Option ℕ → Bool
is_ramped vmon none = true
is_ramped vmon (some v) = not (is_far vmon v)

-- What `get_ch_vmon` reads, by the number of the check, for a slot and a channel.
abbrev pub Readings : Type 0
Readings = ℕ → ℕ → ℕ → ℤ

unfoldable pub channels_ramped : Readings → ℕ → ℕ → Channels → Bool
channels_ramped vmon check slot [] = true
channels_ramped vmon check slot ((channel, v) ∷ cs) =
    is_ramped (vmon check slot channel) v && channels_ramped vmon check slot cs

-- One round of the second loop.
unfoldable pub all_ramped : Readings → ℕ → Hvs → Bool
all_ramped vmon check [] = true
all_ramped vmon check ((slot, channels) ∷ hvs) =
    channels_ramped vmon check slot channels && all_ramped vmon check hvs

-- The second loop from a check on, with the checks that are left: the check at which it ends.
unfoldable pub wait_ramped : Readings → Hvs → ℕ → ℕ → Option ℕ
wait_ramped vmon hvs zero check = none
wait_ramped vmon hvs (suc checks) check =
    let rest = wait_ramped vmon hvs checks (check + 1) in
    if all_ramped vmon check hvs then some check else rest

-- `power_off_hvs`: the channels below a bound of one slot, and the slots below a bound, the last first
-- taken apart, so that they are switched off in their order.
unfoldable pub off_channels : ℕ → ℕ → Crate → Crate
off_channels slot zero crate = crate
off_channels slot (suc channel) crate =
    let crate' = off_channels slot channel crate in
    if crate'.power slot channel then send_pw slot channel false crate' else crate'

unfoldable pub power_off_hvs : ℕ → ℕ → Crate → Crate
power_off_hvs zero n_channels crate = crate
power_off_hvs (suc slot) n_channels crate =
    off_channels slot n_channels (power_off_hvs slot n_channels crate)

-- ===== src/Crate/Applied.antt =====
-- What `set_hvs` and `power_off_hvs` make of each channel.
use daq_control_vmm_beam.Base.{
  ℕ, zero, suc, ltb, ◌==◌, Bool, true, false, ◌&&◌, Option, none, some, List, [], ◌∷◌,
  if◌then◌else◌, ◌≡◌, refl, arith, ==_iff, ◌++◌,
}
use daq_control_vmm_beam.Crate.Voltages.{
  Crate, Channels, Hvs, set_channel, set_channels, set_slots, off_channels, power_off_hvs,
}

-- A channel: whether it is powered, and its set point.
abbrev pub channel_of : Crate → ℕ → ℕ → Bool × ℕ
channel_of crate s c = (crate.power s c, crate.v0 s c)

-- What one setting makes of its channel: 0 V switches it off and leaves the set point.
abbrev pub after_setting : Option ℕ → Bool × ℕ → Bool × ℕ
after_setting none st = st
after_setting (some zero) (p, v) = (false, v)
after_setting (some (suc v)) (p, _) = (true, suc v)

-- The settings of a channel among those of the slots, in their order.
abbrev pub settings_in : ℕ → Channels → List (Option ℕ)
settings_in c [] = []
settings_in c ((channel, v) ∷ cs) =
    let rest = settings_in c cs in if c == channel then v ∷ rest else rest

abbrev pub settings_of : ℕ → ℕ → Hvs → List (Option ℕ)
settings_of s c [] = []
settings_of s c ((slot, channels) ∷ hvs) =
    let rest = settings_of s c hvs in if s == slot then settings_in c channels ++ rest else rest

abbrev pub after_settings : List (Option ℕ) → Bool × ℕ → Bool × ℕ
after_settings [] st = st
after_settings (v ∷ vs) st = after_settings vs (after_setting v st)

set_channel_lem :
    (slot channel : ℕ) (v : Option ℕ) (crate : Crate) (s c : ℕ)
    → channel_of (set_channel slot (channel, v) crate) s c ≡ (
        if s == slot && c == channel
        then after_setting v (channel_of crate s c)
        else channel_of crate s c)
unfolding set_channel
set_channel_lem slot channel none crate s c = ground arith
set_channel_lem slot channel (some zero) crate s c = ground (arith, ==_iff s slot, ==_iff c channel)
set_channel_lem slot channel (some (suc v)) crate s c =
    ground (arith, ==_iff s slot, ==_iff c channel)

set_channels_lem :
    (slot : ℕ) (cs : Channels) (crate : Crate) (s c : ℕ)
    → channel_of (set_channels slot cs crate) s c ≡ (
        if s == slot
        then after_settings (settings_in c cs) (channel_of crate s c)
        else channel_of crate s c)
unfolding set_channels
set_channels_lem slot [] crate s c = ground arith
set_channels_lem slot ((channel, v) ∷ cs) crate s c = ground (
  arith,
  set_channel_lem slot channel v crate s c,
  set_channels_lem slot cs (set_channel slot (channel, v) crate) s c,
)

after_settings-append :
    (vs ws : List (Option ℕ)) (st : Bool × ℕ)
    → after_settings (vs ++ ws) st ≡ after_settings ws (after_settings vs st)
after_settings-append [] ws st = refl
after_settings-append (v ∷ vs) ws st = after_settings-append vs ws (after_setting v st)

-- `set_hvs` makes of every channel of the crate what the settings of this channel say, one after
-- another: a voltage switches it on at this set point, 0 V switches it off at the set point that it
-- has, a setting without a voltage leaves it as it is, and so it is with a channel without a setting.
pub set_slots-after_settings :
    (hvs : Hvs) (crate : Crate) (s c : ℕ)
    → channel_of (set_slots hvs crate) s c
      ≡ after_settings (settings_of s c hvs) (channel_of crate s c)
unfolding set_slots
set_slots-after_settings [] crate s c = refl
set_slots-after_settings ((slot, cs) ∷ hvs) crate s c = ground (
  arith,
  set_channels_lem slot cs crate s c,
  set_slots-after_settings hvs (set_channels slot cs crate) s c,
  after_settings-append (settings_in c cs) (settings_of s c hvs) (channel_of crate s c),
)

off_channels_lem :
    (slot n : ℕ) (crate : Crate) (s c : ℕ)
    → channel_of (off_channels slot n crate) s c
      ≡ (if s == slot && ltb c n then (false, crate.v0 s c) else channel_of crate s c)
unfolding off_channels
off_channels_lem slot zero crate s c = ground arith
off_channels_lem slot (suc n) crate s c = ground (
  arith,
  ==_iff s slot,
  ==_iff c n,
  off_channels_lem slot n crate s c,
  off_channels_lem slot n crate slot n,
)

-- `power_off_hvs` switches off the channels of the cards that the configuration counts and no others,
-- and leaves every set point.
pub power_off_hvs-off :
    (n_cards n_channels : ℕ) (crate : Crate) (s c : ℕ)
    → channel_of (power_off_hvs n_cards n_channels crate) s c
      ≡ (if ltb s n_cards && ltb c n_channels then (false, crate.v0 s c) else channel_of crate s c)
unfolding power_off_hvs
power_off_hvs-off zero n_channels crate s c = ground arith
power_off_hvs-off (suc slot) n_channels crate s c = ground (
  arith,
  ==_iff s slot,
  off_channels_lem slot n_channels (power_off_hvs slot n_channels crate) s c,
  power_off_hvs-off slot n_channels crate s c,
)

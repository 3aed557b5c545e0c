-- ===== src/Rate/Rounds.antt =====
-- The loop of rate_guard.py: the growth of a run over a window, and the strikes in a row.
use daq_control_vmm_beam.Base.{
  ℕ, ◌+◌, ◌-◌, ◌*◌, ltb, leb, Bool, true, false, not, ◌&&◌, Option, none, some, List, [], ◌∷◌, ◌++◌,
  if◌then◌else◌, Text, text_eq, keep, last?,
}

-- The arguments: MB per minute, and seconds.
pub record RateLimit : Type 0 where
  pub max_mb_min : ℕ
  pub interval : ℕ
  pub window : ℕ
  pub max_strikes : ℕ
  pub dry_run : Bool

-- A time and the bytes of the run at it.
pub record Reading : Type 0 where
  pub at : ℕ
  pub bytes : ℕ

pub record RateState : Type 0 where
  pub hist : List Reading
  pub strikes : ℕ
  pub last_run : Option Text

-- What a round finds: whether daq_control.py is alive, the run of its state file, the time and the
-- bytes on disk.
pub record RateLook : Type 0 where
  pub running : Bool
  pub run : Option Text
  pub now : ℕ
  pub total : ℕ

abbrev pub idle_state : RateState
idle_state = record { hist = []; strikes = 0; last_run = none }

abbrev pub is_same_run : Option Text → Option Text → Bool
is_same_run none none = true
is_same_run none (some _) = false
is_same_run (some _) none = false
is_same_run (some r) (some s) = text_eq r s

-- Another run starts from nothing.
unfoldable pub follow_run : Option Text → RateState → RateState
follow_run run g =
    if is_same_run run g.last_run then g else record { hist = []; strikes = 0; last_run = run }

-- The readings that are kept, with the new one.
unfoldable pub add_reading : RateLimit → RateLook → List Reading → List Reading
add_reading a x hist =
    keep (λ h. leb (x.now - h.at) (a.window + a.interval))
      (hist ++ (record { at = x.now; bytes = x.total } ∷ []))

-- Whether the growth between the first and the last reading is over the limit, and `none` where they
-- are too few or too close.
unfoldable pub growth : RateLimit → Reading → Reading → Option Bool
growth a first last =
    if ltb ((last.at - first.at) * 10) (a.window * 8)
    then none
    else some
        (ltb (a.max_mb_min * 1000000 * (last.at - first.at)) ((last.bytes - first.bytes) * 60))

abbrev pub growth_to : RateLimit → Reading → Option Reading → Option Bool
growth_to a first none = none
growth_to a first (some last) = growth a first last

abbrev pub is_over : RateLimit → List Reading → Option Bool
is_over a [] = none
is_over a (_ ∷ []) = none
is_over a (first ∷ second ∷ rest) = growth_to a first (last? (second ∷ rest))

-- The strikes after a judgement, and whether they are enough; with 0 strikes to give every judgement is.
abbrev pub strikes_after : Bool → ℕ → ℕ
strikes_after true n = n + 1
strikes_after false n = 0

abbrev pub strike : RateLimit → Option Bool → RateState → Bool × RateState
strike a none g = (false, g)
strike a (some over) g =
    let n = strikes_after over g.strikes in
    if leb a.max_strikes n
    then (true, record g { hist = []; strikes = 0 })
    else (false, record g { strikes = n })

abbrev pub measure : RateLimit → RateLook → RateState → Bool × RateState
measure a x g =
    let hist = add_reading a x g.hist in strike a (is_over a hist) (record g { hist = hist })

-- A round: whether it trips, and the state after it.
unfoldable pub rate_round : RateLimit → RateLook → RateState → Bool × RateState
rate_round a x g = if not x.running then (false, idle_state) else measure a x (follow_run x.run g)

abbrev pub if_one : Bool → ℕ
if_one true = 1
if_one false = 0

-- Without a run of the state file the path of its files raises, which ends the guard.
abbrev pub ends_guard : RateLook → Bool
ends_guard x = x.running && is_same_run x.run none

-- The trips of a series of rounds, and the state after them.
unfoldable pub rate_rounds : RateLimit → List RateLook → RateState → ℕ × RateState
rate_rounds a [] g = (0, g)
rate_rounds a (x ∷ xs) g =
    let (tripped, g') = rate_round a x g in
    let (n, g'') = rate_rounds a xs g' in if ends_guard x then (0, g) else (if_one tripped + n, g'')

-- The requests to stop that the trips send.
abbrev pub stops : RateLimit → ℕ → ℕ
stops a n = if a.dry_run then 0 else n

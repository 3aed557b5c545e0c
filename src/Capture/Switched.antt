-- ===== src/Capture/Switched.antt =====
-- Which interfaces acquire after the slow control of vmm_daq_control.py has switched some.
use daq_control_vmm_beam.Base.{
  ℕ, zero, suc, Bool, true, false, not, List, [], ◌∷◌, if◌then◌else◌, Text, text_eq, text_eq_refl,
  any, ◌≡◌, refl, arith, All, subst, map,
}
use daq_control_vmm_beam.Capture.Arming.{
  Interface, Hardware, Daq, ask, acq_on_tries, then_next, alinx_acq_on, alinx_acq_off,
  stop_captures, without,
}

-- A name that is removed with some names.
abbrev pub IsRemoved : List Text → Text → Type 0
IsRemoved names n = any (λ m. text_eq m n) names ≡ true

without_step :
    (b : Bool) (n : Text) (rest names : List Text)
    → (b ≡ false → IsRemoved names n)
    → All (IsRemoved names) rest
    → All (IsRemoved names) (elim (not b) [ true ↦ n ∷ rest | false ↦ rest ])
without_step true n rest names h hs = hs
without_step false n rest names h hs = (h refl, hs)

without-All :
    (name : Text) (names on : List Text)
    → All (IsRemoved (name ∷ names)) on
    → All (IsRemoved names) (without name on)
without-All name names [] h = tt
without-All name names (n ∷ on) (h, hs) =
    without_step (text_eq name n) n (without name on) names (λ other. ground (arith, h, other))
      (without-All name names on hs)

IsRemoved-weaken :
    (name : Text) (names on : List Text)
    → All (IsRemoved names) on
    → All (IsRemoved (name ∷ names)) on
IsRemoved-weaken name names [] h = tt
IsRemoved-weaken name names (n ∷ on) (h, hs) =
    (ground (arith, h), IsRemoved-weaken name names on hs)

pub IsRemoved-self : (names : List Text) → All (IsRemoved names) names
IsRemoved-self [] = tt
IsRemoved-self (n ∷ names) =
    (ground (arith, text_eq_refl n), IsRemoved-weaken n names names (IsRemoved-self names))

removed_nothing : (on : List Text) → All (IsRemoved []) on → on ≡ []
removed_nothing [] h = refl
removed_nothing (n ∷ on) (h, hs) = absurd (cc h)

module _ (hw : Hardware) (off_ok : (k : ℕ) → hw.acq_off_ok k ≡ true)
    (well : (k : ℕ) → hw.stops_well k ≡ true) where
  pub stop_captures-All :
      (names : List Text) (d : Daq)
      → All (IsRemoved names) d.capturing
      → (stop_captures hw names d).capturing ≡ []
        × (stop_captures hw names d).acquiring ≡ d.acquiring
  unfolding stop_captures
  stop_captures-All [] d h = (removed_nothing d.capturing h, refl)
  stop_captures-All (name ∷ names) d h =
      subst
        (λ (on : List Text).
          (stop_captures hw names (record (ask d) { capturing = on })).capturing ≡ []
          × (stop_captures hw names (record (ask d) { capturing = on })).acquiring ≡ d.acquiring)
        (rw (well d.asked) refl)
        (stop_captures-All names (record (ask d) { capturing = without name d.capturing })
          (without-All name names d.capturing h))

  pub alinx_acq_off-All :
      (is : List Interface) (d : Daq)
      → All (IsRemoved (map Interface.iface is)) d.acquiring
      → (alinx_acq_off hw is d).acquiring ≡ [] × (alinx_acq_off hw is d).capturing ≡ d.capturing
  unfolding alinx_acq_off
  alinx_acq_off-All [] d h = (removed_nothing d.acquiring h, refl)
  alinx_acq_off-All (i ∷ is) d h =
      subst
        (λ (on : List Text).
          (alinx_acq_off hw is (ask (record (ask d) { acquiring = on }))).acquiring ≡ []
          × (alinx_acq_off hw is (ask (record (ask d) { acquiring = on }))).capturing ≡ d.capturing)
        (rw (off_ok d.asked) refl)
        (alinx_acq_off-All is (ask (record (ask d) { acquiring = without i.iface d.acquiring }))
          (without-All i.iface (map Interface.iface is) d.acquiring h))

-- Nothing captures, and nothing acquires but what these names switch off.
abbrev pub IsHeld : List Text → Daq → Type 0
IsHeld names d = (d.capturing ≡ []) × All (IsRemoved names) d.acquiring

module _ (hw : Hardware) (names : List Text) where
  if_IsHeld :
      (b : Bool) (r r' : Bool × Daq)
      → IsHeld names r.1
      → IsHeld names r'.1
      → IsHeld names (if b then r else r').1
  if_IsHeld true r r' h h' = h
  if_IsHeld false r r' h h' = h'

  acq_on_tries-IsHeld :
      (tries : ℕ) (name : Text) (ok : Bool) (d : Daq)
      → IsRemoved names name
      → IsHeld names d
      → IsHeld names (acq_on_tries hw tries name ok d).1
  unfolding acq_on_tries
  acq_on_tries-IsHeld zero name ok d r h = h
  acq_on_tries-IsHeld (suc tries) name ok d r (c, a) =
      if_IsHeld (hw.acq_on_ok d.asked) _ _ (c, (r, a))
        (acq_on_tries-IsHeld tries name false (ask d) r (c, a))

  then_next-IsHeld :
      (r : Bool × Daq) (next : Daq → Bool × Daq)
      → IsHeld names r.1
      → ((e : Daq) → IsHeld names e → IsHeld names (next e).1)
      → IsHeld names (then_next r next).1
  then_next-IsHeld (true, e) next h more = more e h
  then_next-IsHeld (false, e) next h more = h

  pub alinx_acq_on-IsHeld :
      (retries : ℕ) (is : List Interface) (d : Daq)
      → All (λ (i : Interface). IsRemoved names i.iface) is
      → IsHeld names d
      → IsHeld names (alinx_acq_on hw retries is d).1
  unfolding alinx_acq_on
  alinx_acq_on-IsHeld retries [] d r h = h
  alinx_acq_on-IsHeld retries (i ∷ is) d (r, rs) h =
      then_next-IsHeld (acq_on_tries hw retries i.iface (hw.link_ok d.asked) (ask d))
        (alinx_acq_on hw retries is)
        (acq_on_tries-IsHeld retries i.iface (hw.link_ok d.asked) (ask d) r h)
        (λ e. alinx_acq_on-IsHeld retries is e rs)

-- ===== src/Capture/Kept.antt =====
-- What the slow control and the captures of vmm_daq_control.py leave as it is.
use daq_control_vmm_beam.Base.{
  ℕ, zero, suc, Bool, true, false, List, [], ◌∷◌, if◌then◌else◌, Text, ◌≡◌, refl, ◌∙◌, Bool-cases,
  inl, inr,
}
use daq_control_vmm_beam.Capture.Arming.{
  Interface, Hardware, Daq, ask, Flow, goes, raised, after_flow, acq_on_tries, then_next,
  alinx_acq_on, alinx_acq_off, start_captures, stop_captures, without,
}
use daq_control_vmm_beam.Capture.Server.{look_at_stop, capture_loop}

-- What the slow control and the captures leave alone: the replies, the lock and the marker.
abbrev pub Kept : Type 0
Kept = List Text × Bool × Bool

abbrev pub kept : Daq → Kept
kept d = (d.unread, d.locked, d.marked)

if-kept :
    (b : Bool) (d e : Daq) (c : Kept) → kept d ≡ c → kept e ≡ c → kept (if b then d else e) ≡ c
if-kept true d e c p q = p
if-kept false d e c p q = q

-- A flow that is left only with the replies, the lock and the marker as they were.
abbrev pub KeepsFlow : Kept → Flow → Type 0
KeepsFlow c (goes d) = kept d ≡ c
KeepsFlow c (raised d) = kept d ≡ c

module _ (hw : Hardware) where
  acq_on_tries-kept :
      (tries : ℕ) (name : Text) (ok : Bool) (d : Daq)
      → kept (acq_on_tries hw tries name ok d).1 ≡ kept d
  unfolding acq_on_tries
  acq_on_tries-kept zero name ok d = refl
  acq_on_tries-kept (suc tries) name ok d = elim (Bool-cases (hw.acq_on_ok d.asked)) [
    | inl good ↦ rw good refl
    | inr bad ↦ rw bad (acq_on_tries-kept tries name false (ask d))
  ]

  then_next-kept :
      (r : Bool × Daq) (next : Daq → Bool × Daq) (c : Kept)
      → kept r.1 ≡ c
      → ((e : Daq) → kept (next e).1 ≡ kept e)
      → kept (then_next r next).1 ≡ c
  then_next-kept (true, e) next c s h = h e ∙ s
  then_next-kept (false, e) next c s h = s

  pub alinx_acq_on-kept :
      (retries : ℕ) (is : List Interface) (d : Daq) → kept (alinx_acq_on hw retries is d).1 ≡ kept d
  unfolding alinx_acq_on
  alinx_acq_on-kept retries [] d = refl
  alinx_acq_on-kept retries (i ∷ is) d =
      then_next-kept _ _ _ (acq_on_tries-kept retries i.iface (hw.link_ok d.asked) (ask d))
        (alinx_acq_on-kept retries is)

  pub alinx_acq_off-kept : (is : List Interface) (d : Daq) → kept (alinx_acq_off hw is d) ≡ kept d
  unfolding alinx_acq_off
  alinx_acq_off-kept [] d = refl
  alinx_acq_off-kept (i ∷ is) d = alinx_acq_off-kept is (
      ask (record (ask d) {
        acquiring = if hw.acq_off_ok d.asked then without i.iface d.acquiring else d.acquiring;
      }))

  pub stop_captures-kept : (names : List Text) (d : Daq) → kept (stop_captures hw names d) ≡ kept d
  unfolding stop_captures
  stop_captures-kept [] d = refl
  stop_captures-kept (n ∷ ns) d = stop_captures-kept ns (record (ask d) {
    capturing = if hw.stops_well d.asked then without n d.capturing else d.capturing;
  })

  pub capture_loop-kept : (seconds : ℕ) (d : Daq) → kept (capture_loop hw seconds d) ≡ kept d
  unfolding capture_loop
  capture_loop-kept zero d = refl
  capture_loop-kept (suc seconds) d =
      let d' = look_at_stop hw d in
      let rest = capture_loop hw seconds (ask d') in
      let more = hw.some_alive d'.asked in
      if-kept d'.stop d' (if more then rest else ask d') (kept d) refl
        (if-kept more rest (ask d') (kept d) (capture_loop-kept seconds (ask d')) refl)

  pub start_captures-kept :
      (is : List Interface) (d : Daq) → KeepsFlow (kept d) (start_captures hw is d)
  unfolding start_captures
  start_captures-kept [] d = refl
  start_captures-kept (i ∷ is) d = elim (Bool-cases (hw.can_make d.asked)) [
    | inl good ↦ rw good (start_captures-kept is _)
    | inr bad ↦ rw bad refl
  ]

-- A step that may raise, and what follows it.
pub if-flow :
    (P : Flow → Type 0) (b : Bool) (d e : Daq) (next : Daq → Flow)
    → P (next d)
    → P (raised e)
    → P (after_flow (if b then goes d else raised e) next)
if-flow P true d e next p q = p
if-flow P false d e next p q = q

pub if-goes :
    (P : Flow → Type 0) (b : Bool) (d e : Daq)
    → P (goes d)
    → P (raised e)
    → P (if b then goes d else raised e)
if-goes P true d e p q = p
if-goes P false d e p q = q

pub if-either : (P : Flow → Type 0) (b : Bool) (f g : Flow) → P f → P g → P (if b then f else g)
if-either P true f g p q = p
if-either P false f g p q = q

pub after_kept :
    (P : Flow → Type 0) (f : Flow) (c : Kept) (next : Daq → Flow)
    → KeepsFlow c f
    → ((e : Daq) → kept e ≡ c → P (next e))
    → ((e : Daq) → kept e ≡ c → P (raised e))
    → P (after_flow f next)
after_kept P (goes d) c next k h1 h2 = h1 d k
after_kept P (raised d) c next k h1 h2 = h2 d k

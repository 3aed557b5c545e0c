-- ===== src/Capture/Quiet.antt =====
-- That a sub-run leaves nothing on.
use daq_control_vmm_beam.Base.{
  ℕ, zero, suc, Bool, true, false, List, [], ◌∷◌, ◌++◌, Text, ◌≡◌, refl, ap, sym, ◌∙◌, arith, All,
  subst, map,
}
use daq_control_vmm_beam.Capture.Arming.{
  DaqInfo, Interface, Hardware, Daq, ask, Flow, goes, raised, after_flow, sc_interfaces, needs_lock,
  alinx_acq_on, alinx_acq_off, start_captures, stop_captures,
}
use daq_control_vmm_beam.Capture.Server.{
  starting_text, stopped_text, say, make, set_marker, release_session_lock, remove_stop_vmm,
  look_at_stop, capture_loop, close_capture, take_capture, arm_and_take, lock_and_take,
  handle_start,
}
use daq_control_vmm_beam.Capture.Kept.{if-flow, if-goes, if-either, kept, alinx_acq_on-kept}
use daq_control_vmm_beam.Capture.Switched.{
  IsRemoved, IsRemoved-self, stop_captures-All, alinx_acq_off-All, IsHeld, alinx_acq_on-IsHeld,
}

-- What a sub-run leaves on, where it is left without an exception.
pub data IsOff : Flow → Type 0 where
  all_off : (d : Daq) → d.capturing ≡ [] → d.acquiring ≡ [] → IsOff (goes d)
  not_taken : (d : Daq) → d.capturing ≡ [] → d.marked ≡ false → IsOff (goes d)
  broken : (d : Daq) → IsOff (raised d)

-- What a capture may acquire on its way.
abbrev KeepsAcquiring : List Text → Flow → Type 0
KeepsAcquiring on (goes d) = d.acquiring ≡ on
KeepsAcquiring on (raised d) = Unit

after_acquiring :
    (f : Flow) (on : List Text) (next : Daq → Flow)
    → KeepsAcquiring on f
    → ((e : Daq) → e.acquiring ≡ on → IsOff (next e))
    → IsOff (after_flow f next)
after_acquiring (goes d) on next k h = h d k
after_acquiring (raised d) on next k h = broken d

start_captures-acquiring :
    (hw : Hardware) (is : List Interface) (d : Daq)
    → KeepsAcquiring d.acquiring (start_captures hw is d)
unfolding start_captures
start_captures-acquiring hw [] d = refl
start_captures-acquiring hw (i ∷ is) d =
    if-either (KeepsAcquiring d.acquiring) (hw.can_make d.asked) _ _
      (start_captures-acquiring hw is (record (ask d) { capturing = i.iface ∷ d.capturing })) tt

capture_loop-acquiring :
    (hw : Hardware) (seconds : ℕ) (d : Daq) → (capture_loop hw seconds d).acquiring ≡ d.acquiring
unfolding capture_loop
capture_loop-acquiring hw zero d = refl
capture_loop-acquiring hw (suc seconds) d =
    ground (arith, capture_loop-acquiring hw seconds (ask (look_at_stop hw d)))

switched_among :
    (is : List Interface) (names : List Text)
    → All (IsRemoved names) (map Interface.iface is)
    → All (λ (i : Interface). IsRemoved names i.iface) is
switched_among [] names h = tt
switched_among (i ∷ is) names (h, hs) = (h, switched_among is names hs)

switched_by :
    (is : List Interface) → All (λ (i : Interface). IsRemoved (map Interface.iface is) i.iface) is
switched_by is =
    switched_among is (map Interface.iface is) (IsRemoved-self (map Interface.iface is))

module _ (hw : Hardware) (info : DaqInfo) (off_ok : (k : ℕ) → hw.acq_off_ok k ≡ true)
    (well : (k : ℕ) → hw.stops_well k ≡ true) where
  abbrev names : List Text
  names = map Interface.iface (sc_interfaces info)

  close_capture-IsOff :
      (d : Daq) → All (IsRemoved names) d.acquiring → IsOff (close_capture hw info d)
  unfolding close_capture make say
  close_capture-IsOff d on =
      let stopped = stop_captures hw d.capturing d in
      let (none, same) =
        stop_captures-All hw off_ok well d.capturing d (IsRemoved-self d.capturing) in
      let (off, kept) =
        alinx_acq_off-All hw off_ok well (sc_interfaces info) stopped
          (subst (All (IsRemoved names)) (sym same) on) in
      let quiet = release_session_lock (alinx_acq_off hw (sc_interfaces info) stopped) in
      let done = remove_stop_vmm (set_marker true (ask quiet)) in
      if-flow IsOff (hw.can_make quiet.asked) (ask quiet) (ask quiet)
        (λ d'. say hw stopped_text (remove_stop_vmm (set_marker true d')))
        (if-goes IsOff (hw.can_send done.asked)
          (record (ask done) { unread = done.unread ++ (stopped_text ∷ []) }) (ask done)
          (all_off _ (kept ∙ none) off) (broken _))
        (broken _)

  take_capture-IsOff :
      (seconds : ℕ) (d : Daq)
      → All (IsRemoved names) d.acquiring
      → IsOff (take_capture hw info seconds d)
  unfolding take_capture say
  take_capture-IsOff seconds d on =
      let next = λ (d' : Daq). close_capture hw info (capture_loop hw seconds d') in
      after_acquiring (start_captures hw info.interfaces d) d.acquiring
        (λ d'. after_flow (say hw starting_text d') next)
        (start_captures-acquiring hw info.interfaces d)
        (λ e same.
          let told = record (ask e) { unread = e.unread ++ (starting_text ∷ []) } in
          if-flow IsOff (hw.can_send e.asked) told (ask e) next
            (close_capture-IsOff (capture_loop hw seconds told) (
              subst (All (IsRemoved names)) (sym (capture_loop-acquiring hw seconds told ∙ same))
                on))
            (broken (ask e)))

  arm_and_take-IsOff :
      (seconds : ℕ) (r : Bool × Daq)
      → IsHeld names r.1
      → r.1.marked ≡ false
      → IsOff (arm_and_take hw info seconds r)
  unfolding say
  arm_and_take-IsOff seconds (true, d) (c, on) m = take_capture-IsOff seconds d on
  arm_and_take-IsOff seconds (false, d) (c, on) m =
      if-goes IsOff (hw.can_send d.asked) _ _ (not_taken _ c m) (broken _)

  lock_and_take-IsOff :
      (seconds : ℕ) (msg : Text) (d : Daq)
      → IsHeld names d
      → d.marked ≡ false
      → IsOff (lock_and_take hw info seconds msg d)
  unfolding lock_and_take say
  lock_and_take-IsOff seconds msg d h m =
      let tried = λ (e : Daq). alinx_acq_on hw info.acq_on_retries (sc_interfaces info) e in
      let taken = λ (e : Daq) (h' : IsHeld names e) (m' : e.marked ≡ false).
        arm_and_take-IsOff seconds (tried e)
          (alinx_acq_on-IsHeld hw names info.acq_on_retries (sc_interfaces info) e
            (switched_by (sc_interfaces info)) h')
          (ap (λ (k : List Text × Bool × Bool). k.2)
              (alinx_acq_on-kept hw info.acq_on_retries (sc_interfaces info) e)
            ∙ m') in
      if-either IsOff (needs_lock info) _ _
        (if-either IsOff (hw.lock_ok d.asked) _ _ (taken (record (ask d) { locked = true }) h m)
          (if-goes IsOff (hw.can_send (ask d).asked) _ _ (not_taken _ (h.0) m) (broken _)))
        (taken d h m)

-- Where switching off succeeds and every capture stops without an exception, a sub-run that the server
-- handles to its end, from a state with nothing on, leaves nothing capturing, and it leaves nothing
-- acquiring either, unless it was given up before the capture.
pub handle_start-IsOff :
    (hw : Hardware) (info : DaqInfo) (seconds : ℕ) (msg : Text) (d : Daq)
    → ((k : ℕ) → hw.acq_off_ok k ≡ true)
    → ((k : ℕ) → hw.stops_well k ≡ true)
    → d.capturing ≡ []
    → d.acquiring ≡ []
    → IsOff (handle_start hw info seconds msg d)
unfolding handle_start make
handle_start-IsOff hw info seconds msg d off_ok well c a =
    let names = map Interface.iface (sc_interfaces info) in
    if-flow IsOff (hw.can_make d.asked) (ask d) (ask d)
      (λ d'. lock_and_take hw info seconds msg (set_marker false (remove_stop_vmm d')))
      (lock_and_take-IsOff hw info off_ok well seconds msg
        (set_marker false (remove_stop_vmm (ask d))) (c, subst (All (IsRemoved names)) (sym a) tt)
        refl)
      (broken _)

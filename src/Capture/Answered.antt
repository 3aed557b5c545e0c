-- ===== src/Capture/Answered.antt =====
-- The replies of a sub-run, and the client that reads them.
use daq_control_vmm_beam.Base.{ℕ, Bool, true, false, List, [], ◌∷◌, ◌++◌, Text, ◌≡◌, refl, ap, ◌∙◌}
use daq_control_vmm_beam.Capture.Arming.{
  DaqInfo, Hardware, Daq, ask, Flow, goes, raised, after_flow, sc_interfaces, needs_lock,
  alinx_acq_on, alinx_acq_off, start_captures, stop_captures,
}
use daq_control_vmm_beam.Capture.Server.{
  starting_text, stopped_text, lock_error, acq_error, say, make, set_marker, release_session_lock,
  remove_stop_vmm, capture_loop, close_capture, take_capture, arm_and_take, lock_and_take,
  handle_start,
}
use daq_control_vmm_beam.Capture.Kept.{
  Kept, kept, alinx_acq_on-kept, alinx_acq_off-kept, stop_captures-kept, capture_loop-kept,
  start_captures-kept, if-flow, if-goes, if-either, after_kept,
}

-- What a sub-run may come to, by the replies that the client finds unread.
pub data IsAnswered (msg : Text) : Flow → Type 0 where
  lock_refused :
      (d : Daq)
      → d.unread ≡ lock_error msg ∷ []
      → d.locked ≡ false
      → d.marked ≡ false
      → IsAnswered msg (goes d)
  acq_refused :
      (d : Daq)
      → d.unread ≡ acq_error ∷ []
      → d.locked ≡ false
      → d.marked ≡ false
      → IsAnswered msg (goes d)
  captured :
      (d : Daq)
      → d.unread ≡ starting_text ∷ stopped_text ∷ []
      → d.locked ≡ false
      → d.marked ≡ true
      → IsAnswered msg (goes d)
  lost_early : (d : Daq) → d.unread ≡ [] → IsAnswered msg (raised d)
  lost_late : (d : Daq) → d.unread ≡ starting_text ∷ [] → IsAnswered msg (raised d)

module _ (hw : Hardware) (info : DaqInfo) (msg : Text) where
  -- The end of a capture, once the client has been told of its start.
  close_capture-IsAnswered :
      (d : Daq) → d.unread ≡ starting_text ∷ [] → IsAnswered msg (close_capture hw info d)
  unfolding close_capture say make
  close_capture-IsAnswered d u =
      let off = alinx_acq_off hw (sc_interfaces info) (stop_captures hw d.capturing d) in
      let quiet = release_session_lock off in
      let told =
        ap (λ (k : Kept). k.0)
          (alinx_acq_off-kept hw (sc_interfaces info) (stop_captures hw d.capturing d)
            ∙ stop_captures-kept hw d.capturing d)
        ∙ u in
      let done = remove_stop_vmm (set_marker true (ask quiet)) in
      if-flow (IsAnswered msg) (hw.can_make quiet.asked) (ask quiet) (ask quiet)
        (λ d'. say hw stopped_text (remove_stop_vmm (set_marker true d')))
        (if-goes (IsAnswered msg) (hw.can_send done.asked)
          (record (ask done) { unread = done.unread ++ (stopped_text ∷ []) }) (ask done)
          (captured _ (ap (λ (l : List Text). l ++ (stopped_text ∷ [])) told) refl refl)
          (lost_late _ told))
        (lost_late _ told)

  take_capture-IsAnswered :
      (seconds : ℕ) (d : Daq) → d.unread ≡ [] → IsAnswered msg (take_capture hw info seconds d)
  unfolding take_capture say
  take_capture-IsAnswered seconds d u =
      let next = λ (d' : Daq). close_capture hw info (capture_loop hw seconds d') in
      after_kept (IsAnswered msg) (start_captures hw info.interfaces d) (kept d)
        (λ d'. after_flow (say hw starting_text d') next) (start_captures-kept hw info.interfaces d)
        (λ e same.
          let told = record (ask e) { unread = e.unread ++ (starting_text ∷ []) } in
          let clear = ap (λ (k : Kept). k.0) same ∙ u in
          if-flow (IsAnswered msg) (hw.can_send e.asked) told (ask e) next
            (close_capture-IsAnswered (capture_loop hw seconds told) (
              ap (λ (k : Kept). k.0) (capture_loop-kept hw seconds told)
              ∙ ap (λ (l : List Text). l ++ (starting_text ∷ [])) clear))
            (lost_early (ask e) clear))
        (λ e same. lost_early e (ap (λ (k : Kept). k.0) same ∙ u))

  arm_and_take-IsAnswered :
      (seconds : ℕ) (r : Bool × Daq)
      → r.1.unread ≡ []
      → r.1.marked ≡ false
      → IsAnswered msg (arm_and_take hw info seconds r)
  unfolding say
  arm_and_take-IsAnswered seconds (true, d) u m = take_capture-IsAnswered seconds d u
  arm_and_take-IsAnswered seconds (false, d) u m =
      let free = release_session_lock d in
      if-goes (IsAnswered msg) (hw.can_send free.asked)
        (record (ask free) { unread = free.unread ++ (acq_error ∷ []) }) (ask free)
        (acq_refused _ (ap (λ (l : List Text). l ++ (acq_error ∷ [])) u) refl m) (lost_early _ u)

  lock_and_take-IsAnswered :
      (seconds : ℕ) (d : Daq)
      → kept d ≡ ([], false, false)
      → IsAnswered msg (lock_and_take hw info seconds msg d)
  unfolding lock_and_take say
  lock_and_take-IsAnswered seconds d k =
      let u = ap (λ (k : Kept). k.0) k in
      let m = ap (λ (k : Kept). k.2) k in
      let armed = λ (e : Daq). alinx_acq_on hw info.acq_on_retries (sc_interfaces info) e in
      let same = λ (e : Daq). alinx_acq_on-kept hw info.acq_on_retries (sc_interfaces info) e in
      let held = record (ask d) { locked = true } in
      if-either (IsAnswered msg) (needs_lock info) _ _
        (if-either (IsAnswered msg) (hw.lock_ok d.asked) _ _
          (arm_and_take-IsAnswered seconds (armed held) (ap (λ (k : Kept). k.0) (same held) ∙ u)
            (ap (λ (k : Kept). k.2) (same held) ∙ m))
          (if-goes (IsAnswered msg) (hw.can_send (ask d).asked)
            (record (ask (ask d)) { unread = d.unread ++ (lock_error msg ∷ []) }) (ask (ask d))
            (lock_refused _ (ap (λ (l : List Text). l ++ (lock_error msg ∷ [])) u)
              (ap (λ (k : Kept). k.1) k) m)
            (lost_early _ u)))
        (arm_and_take-IsAnswered seconds (armed d) (ap (λ (k : Kept). k.0) (same d) ∙ u)
          (ap (λ (k : Kept). k.2) (same d) ∙ m))

  pub handle_start-IsAnswered :
      (seconds : ℕ) (d : Daq)
      → d.unread ≡ []
      → d.locked ≡ false
      → IsAnswered msg (handle_start hw info seconds msg d)
  unfolding handle_start make
  handle_start-IsAnswered seconds d u l =
      if-flow (IsAnswered msg) (hw.can_make d.asked) (ask d) (ask d)
        (λ d'. lock_and_take hw info seconds msg (set_marker false (remove_stop_vmm d')))
        (lock_and_take-IsAnswered seconds (set_marker false (remove_stop_vmm (ask d))) (cc (u, l)))
        (lost_early _ u)

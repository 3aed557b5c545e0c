-- ===== src/Capture/Left.antt =====
-- What an exception in the middle of a sub-run leaves on.
use daq_control_vmm_beam.Base.{
  ℕ, suc, Bool, true, false, List, [], ◌∷◌, ◌++◌, if◌then◌else◌, Text, text_eq, text_eq_refl,
  contains_text, starts_with, any, ◌≡◌, refl, sym, arith, All, subst,
}
use daq_control_vmm_beam.Capture.Arming.{
  DaqInfo, Interface, Hardware, Daq, ask, Flow, goes, raised, after_flow, sc_interfaces, needs_lock,
  acq_on_tries, then_next, alinx_acq_on, start_captures,
}
use daq_control_vmm_beam.Capture.Server.{
  starting_text, lock_error, next_message, release_session_lock, say, make, set_marker,
  remove_stop_vmm, capture_loop, close_capture, take_capture, arm_and_take, lock_and_take,
  handle_start, Served, failed, serve, answer_message, recover_server,
}
use daq_control_vmm_beam.Capture.Kept.{if-either}
use daq_control_vmm_beam.Capture.Talked.{start_message}

-- The interfaces' names in front of others, the last one first.
abbrev added : List Interface → List Text → List Text
added [] names = names
added (i ∷ is) names = added is (i.iface ∷ names)

abbrev IsIn : List Text → Text → Type 0
IsIn names n = any (text_eq n) names ≡ true

-- Each of the interfaces is among the names.
abbrev AllIn : List Text → List Interface → Type 0
AllIn names is = All (λ (i : Interface). IsIn names i.iface) is

added-IsIn :
    (is : List Interface) (names : List Text) (n : Text) → IsIn names n → IsIn (added is names) n
added-IsIn [] names n h = h
added-IsIn (i ∷ is) names n h = added-IsIn is (i.iface ∷ names) n (ground (arith, h))

added-all : (is : List Interface) (names : List Text) → AllIn (added is names) is
added-all [] names = tt
added-all (i ∷ is) names =
    (added-IsIn is (i.iface ∷ names) i.iface (ground (arith, text_eq_refl i.iface)), added-all is _)

-- What a server that failed has on: it captures on each interface of the run and acquires on each one
-- with slow control.
pub data LeavesOn (info : DaqInfo) : Served → Type 0 where
  left_on :
      (d : Daq)
      → All (λ (i : Interface). any (text_eq i.iface) d.capturing ≡ true) info.interfaces
      → All (λ (i : Interface). any (text_eq i.iface) d.acquiring ≡ true) (sc_interfaces info)
      → d.locked ≡ false
      → LeavesOn info (failed d)

-- Hardware that does all it is asked to, and a client that has gone.
pub record IsDeserted (hw : Hardware) : Type 0 where
  pub all_on : (k : ℕ) → hw.acq_on_ok k ≡ true
  pub all_made : (k : ℕ) → hw.can_make k ≡ true
  pub lock_free : (k : ℕ) → hw.lock_ok k ≡ true
  pub none_sent : (k : ℕ) → hw.can_send k ≡ false

module _ (hw : Hardware) (alone : IsDeserted hw) where
  acq_on_tries_on :
      (tries : ℕ) (name : Text) (ok : Bool) (d : Daq)
      → acq_on_tries hw (suc tries) name ok d
        ≡ (true, record (ask d) { acquiring = name ∷ d.acquiring })
  unfolding acq_on_tries
  acq_on_tries_on tries name ok d = rw (alone.all_on d.asked) refl

  -- Acquisition is on everywhere, and the captures are as before.
  abbrev IsOn : List Interface → Daq → Bool × Daq → Type 0
  IsOn is d (ok, e) = (ok ≡ true) × (e.acquiring ≡ added is d.acquiring)

  alinx_acq_on-IsOn :
      (tries : ℕ) (is : List Interface) (d : Daq) → IsOn is d (alinx_acq_on hw (suc tries) is d)
  unfolding alinx_acq_on
  alinx_acq_on-IsOn tries [] d = (refl, refl)
  alinx_acq_on-IsOn tries (i ∷ is) d =
      subst (λ (r : Bool × Daq). IsOn (i ∷ is) d (then_next r (alinx_acq_on hw (suc tries) is)))
        (sym (acq_on_tries_on tries i.iface (hw.link_ok d.asked) (ask d)))
        (alinx_acq_on-IsOn tries is (record (ask (ask d)) { acquiring = i.iface ∷ d.acquiring }))

  -- A flow that goes on, with these captures and this acquisition.
  data GoesWith (names on : List Text) : Flow → Type 0 where
    goes_with : (e : Daq) → e.capturing ≡ names → e.acquiring ≡ on → GoesWith names on (goes e)

  start_captures-GoesWith :
      (is : List Interface) (d : Daq)
      → GoesWith (added is d.capturing) d.acquiring (start_captures hw is d)
  unfolding start_captures
  start_captures-GoesWith [] d = goes_with d refl refl
  start_captures-GoesWith (i ∷ is) d =
      subst
        (λ (b : Bool). GoesWith (added (i ∷ is) d.capturing) d.acquiring (
          if b
          then start_captures hw is (record (ask d) { capturing = i.iface ∷ d.capturing })
          else raised (ask d)))
        (sym (alone.all_made d.asked))
        (start_captures-GoesWith is (record (ask d) { capturing = i.iface ∷ d.capturing }))

  module _ (info : DaqInfo) where
    -- A sub-run that an exception leaves, with everything on.
    data IsStuck : Flow → Type 0 where
      stuck :
          (d : Daq)
          → AllIn d.capturing info.interfaces
          → AllIn d.acquiring (sc_interfaces info)
          → IsStuck (raised d)

    say-IsStuck :
        (f : Flow) (names on : List Text) (text : Text) (next : Daq → Flow)
        → GoesWith names on f
        → AllIn names info.interfaces
        → AllIn on (sc_interfaces info)
        → IsStuck (after_flow f (λ d. after_flow (say hw text d) next))
    unfolding say
    say-IsStuck (raised d) names on text next none all_in all_on = elim none [ ]
    say-IsStuck (goes d) names on text next (goes_with e c a) all_in all_on =
        subst
          (λ (b : Bool). IsStuck (
            after_flow
              (if b
                then goes (record (ask d) { unread = d.unread ++ (text ∷ []) })
                else raised (ask d))
              next))
          (sym (alone.none_sent d.asked))
          (stuck (ask d) (subst (λ (ns : List Text). AllIn ns info.interfaces) (sym c) all_in)
            (subst (λ (ns : List Text). AllIn ns (sc_interfaces info)) (sym a) all_on))

    take_capture-IsStuck :
        (seconds : ℕ) (d : Daq)
        → AllIn d.acquiring (sc_interfaces info)
        → IsStuck (take_capture hw info seconds d)
    unfolding take_capture
    take_capture-IsStuck seconds d on =
        say-IsStuck (start_captures hw info.interfaces d) (added info.interfaces d.capturing)
          d.acquiring starting_text (λ d''. close_capture hw info (capture_loop hw seconds d''))
          (start_captures-GoesWith info.interfaces d) (added-all info.interfaces d.capturing) on

    arm_and_take-IsStuck :
        (seconds : ℕ) (d : Daq) (r : Bool × Daq)
        → IsOn (sc_interfaces info) d r
        → IsStuck (arm_and_take hw info seconds r)
    arm_and_take-IsStuck seconds d (true, e) (ok, on) = take_capture-IsStuck seconds e (
        subst (λ (ns : List Text). AllIn ns (sc_interfaces info)) (sym on)
          (added-all (sc_interfaces info) d.acquiring))
    arm_and_take-IsStuck seconds d (false, e) (ok, on) = absurd (cc ok)

    lock_and_take-IsStuck :
        (tries seconds : ℕ) (msg : Text) (d : Daq)
        → info.acq_on_retries ≡ suc tries
        → IsStuck (lock_and_take hw info seconds msg d)
    unfolding lock_and_take
    lock_and_take-IsStuck tries seconds msg d r =
        let tried = λ (n : ℕ) (e : Daq).
          arm_and_take hw info seconds (alinx_acq_on hw n (sc_interfaces info) e) in
        let on = λ (e : Daq).
          subst (λ (n : ℕ). IsStuck (tried n e)) (sym r)
            (arm_and_take-IsStuck seconds e _ (alinx_acq_on-IsOn tries (sc_interfaces info) e)) in
        let held = record (ask d) { locked = true } in
        if-either IsStuck (needs_lock info) _ _
          (subst
            (λ (b : Bool).
              IsStuck
                (if b then tried info.acq_on_retries held else say hw (lock_error msg) (ask d)))
            (sym (alone.lock_free d.asked)) (on held))
          (on d)

    handle_start-IsStuck :
        (tries seconds : ℕ) (msg : Text) (d : Daq)
        → info.acq_on_retries ≡ suc tries
        → IsStuck (handle_start hw info seconds msg d)
    unfolding handle_start make
    handle_start-IsStuck tries seconds msg d r =
        let next =
          λ (d' : Daq). lock_and_take hw info seconds msg (set_marker false (remove_stop_vmm d')) in
        subst (λ (b : Bool). IsStuck (after_flow (if b then goes (ask d) else raised (ask d)) next))
          (sym (alone.all_made d.asked))
          (lock_and_take-IsStuck tries seconds msg (set_marker false (remove_stop_vmm (ask d))) r)

    IsStuck-LeavesOn :
        (f : Flow) (next : Daq → Served)
        → IsStuck f
        → LeavesOn info (recover_server (next_message f next))
    unfolding recover_server
    IsStuck-LeavesOn (raised d) next (stuck d' all_in all_on) =
        left_on (release_session_lock d) all_in all_on refl
    IsStuck-LeavesOn (goes d) next none = elim none [ ]

-- Where the hardware does all that it is asked to, acq-on is tried at least once, and the client has gone
-- before it is told that the capture starts, the server drops the connection with the session lock released, but every interface
-- goes on capturing and every one with slow control goes on acquiring.
pub serve-LeavesOn :
    (hw : Hardware) (info : DaqInfo) (tries seconds : ℕ) (msg : Text) (d : Daq)
    → IsDeserted hw
    → info.acq_on_retries ≡ suc tries
    → LeavesOn info (recover_server (serve hw msg (start_message (info, seconds) ∷ []) d))
unfolding serve answer_message contains_text starts_with
serve-LeavesOn hw info tries seconds msg d alone r =
    IsStuck-LeavesOn hw alone info (handle_start hw info seconds msg d) (serve hw msg [])
      (handle_start-IsStuck hw alone info tries seconds msg d r)

-- ===== src/Capture/Arming.antt =====
-- vmm_daq_control.py: the interfaces, their slow control, and the captures. `Hardware` is what the
-- programs and files outside answer, by the number of questions asked before.
use daq_control_vmm_beam.Base.{
  ℕ, zero, suc, ◌+◌, Bool, true, false, not, ◌&&◌, List, [], ◌∷◌, if◌then◌else◌, Text, text_eq,
  keep, any,
}

-- `slow_control` of an interface; another value is `no_backend`.
pub data Backend : Type 0 where
  alinx p2basket no_backend : Backend

pub record Interface : Type 0 where
  pub iface : Text
  pub slow_control : Backend
  pub has_alinx_config : Bool

-- `vmm_info`, with what a sub-run may set over it.
pub record DaqInfo : Type 0 where
  pub simulate : Bool
  pub session_lock : Bool
  pub interfaces : List Interface
  pub acq_on_retries : ℕ

-- Whether the slow control exits with 0 for the link status, to switch on and to switch off, whether
-- the session lock is got, Stop is pressed before a look, a capture is alive, a capture stops without
-- an exception, a file or a process can be made, and a reply can be sent.
pub record Hardware : Type 0 where
  pub link_ok : ℕ → Bool
  pub acq_on_ok : ℕ → Bool
  pub acq_off_ok : ℕ → Bool
  pub lock_ok : ℕ → Bool
  pub stop_pressed : ℕ → Bool
  pub some_alive : ℕ → Bool
  pub stops_well : ℕ → Bool
  pub can_make : ℕ → Bool
  pub can_send : ℕ → Bool

-- `acquiring` and `capturing` name interfaces, `locked` is a keeper that holds the session lock, `stop`
-- is the file `.stop_vmm`, `marked` is `.capture_done`, and `unread` are the replies that the client
-- has not read yet, the first one first. `asked` counts the questions to the hardware.
pub record Daq : Type 0 where
  pub asked : ℕ
  pub acquiring : List Text
  pub capturing : List Text
  pub locked : Bool
  pub stop : Bool
  pub marked : Bool
  pub unread : List Text

abbrev pub ask : Daq → Daq
ask d = record d { asked = d.asked + 1 }

-- The end of a part of the server: it goes on, or an exception leaves it.
pub data Flow : Type 0 where
  goes : Daq → Flow
  raised : Daq → Flow

abbrev pub after_flow : Flow → (Daq → Flow) → Flow
after_flow (goes d) next = next d
after_flow (raised d) next = raised d

-- `_sc_interfaces`
abbrev pub is_usable : Interface → Bool
is_usable i = elim i.slow_control [
  | alinx ↦ i.has_alinx_config
  | p2basket ↦ true
  | no_backend ↦ false
]

unfoldable pub sc_interfaces : DaqInfo → List Interface
sc_interfaces info = if info.simulate then [] else keep is_usable info.interfaces

abbrev pub is_p2basket : Interface → Bool
is_p2basket i = elim i.slow_control [ p2basket ↦ true | _ ↦ false ]

-- Whether `acquire_session_lock` has a lock to take.
unfoldable pub needs_lock : DaqInfo → Bool
needs_lock info = info.session_lock && any is_p2basket (sc_interfaces info)

-- The tries of `acq-on`; `ok` is the answer of the command before.
unfoldable pub acq_on_tries : Hardware → ℕ → Text → Bool → Daq → Bool × Daq
acq_on_tries hw zero name ok d = (ok, d)
acq_on_tries hw (suc tries) name ok d =
    let rest = acq_on_tries hw tries name false (ask d) in
    if hw.acq_on_ok d.asked then (true, record (ask d) { acquiring = name ∷ d.acquiring }) else rest

abbrev pub then_next : Bool × Daq → (Daq → Bool × Daq) → Bool × Daq
then_next (true, d) next = next d
then_next (false, d) next = (false, d)

-- `alinx_acq_on`, over the interfaces with slow control.
unfoldable pub alinx_acq_on : Hardware → ℕ → List Interface → Daq → Bool × Daq
alinx_acq_on hw retries [] d = (true, d)
alinx_acq_on hw retries (i ∷ is) d =
    then_next (acq_on_tries hw retries i.iface (hw.link_ok d.asked) (ask d))
      (alinx_acq_on hw retries is)

abbrev pub without : Text → List Text → List Text
without name names = keep (λ n. not (text_eq name n)) names

-- `alinx_acq_off`: the link status is read back after each command.
unfoldable pub alinx_acq_off : Hardware → List Interface → Daq → Daq
alinx_acq_off hw [] d = d
alinx_acq_off hw (i ∷ is) d = alinx_acq_off hw is (
    ask (record (ask d) {
      acquiring = if hw.acq_off_ok d.asked then without i.iface d.acquiring else d.acquiring;
    }))

-- `start_captures`: one for each interface; a capture that cannot be made raises.
unfoldable pub start_captures : Hardware → List Interface → Daq → Flow
start_captures hw [] d = goes d
start_captures hw (i ∷ is) d =
    let rest = start_captures hw is (record (ask d) { capturing = i.iface ∷ d.capturing }) in
    if hw.can_make d.asked then rest else raised (ask d)

-- `stop_captures`: a capture whose stop raises is left as it is.
unfoldable pub stop_captures : Hardware → List Text → Daq → Daq
stop_captures hw [] d = d
stop_captures hw (name ∷ names) d = stop_captures hw names (record (ask d) {
  capturing = if hw.stops_well d.asked then without name d.capturing else d.capturing;
})

-- ===== src/Capture/Talked.antt =====
-- A client and the server over one connection: each sub-run is started once the one before it is over.
use daq_control_vmm_beam.Base.{
  ℕ, true, false, some, List, [], ◌∷◌, Text, codes, text_eq, contains_text, starts_with, ◌≡◌, refl,
  sym, subst, All,
}
use daq_control_vmm_beam.Run.SubRun.{connection_lost, returned}
use daq_control_vmm_beam.Capture.Arming.{DaqInfo, Hardware, Daq, Flow, goes, raised}
use daq_control_vmm_beam.Capture.Server.{handle_start, Message, answer_message}
use daq_control_vmm_beam.Capture.Client.{Talk, ended, read_end, read_replies, left_over}
use daq_control_vmm_beam.Capture.Answered.{
  IsAnswered, lock_refused, acq_refused, captured, lost_early, lost_late, handle_start-IsAnswered,
}

-- The message that starts a sub-run.
abbrev pub start_message : DaqInfo × ℕ → Message
start_message s = record { text = codes "Start"; sub_run = some s }

-- What the client makes of the replies, beside where the server stands.
abbrev pub read_from_flow : Flow → Talk
read_from_flow (goes d) = read_replies false d.unread
read_from_flow (raised d) = read_replies true d.unread

-- After an exception the connection is gone.
abbrev pub then_talk : Flow → (Daq → List (Talk × Flow)) → List (Talk × Flow)
then_talk (goes d) next =
    (read_replies false d.unread, goes d)
    ∷ next (record d { unread = left_over (read_replies false d.unread) })
then_talk (raised d) next = (read_replies true d.unread, raised d) ∷ []

abbrev pub talk : Hardware → Text → List (DaqInfo × ℕ) → Daq → List (Talk × Flow)
talk hw msg [] d = []
talk hw msg (s ∷ ss) d = then_talk (answer_message hw msg (start_message s) d) (talk hw msg ss)

-- A sub-run that the client and the server agree on, with no reply left unread.
pub data IsFair : Talk × Flow → Type 0 where
  won : (d : Daq) → d.marked ≡ true → d.locked ≡ false → IsFair (ended (returned true) [], goes d)
  refused :
      (d : Daq) → d.marked ≡ false → d.locked ≡ false → IsFair (ended (returned false) [], goes d)
  lost_start : (d : Daq) → IsFair (ended connection_lost [], raised d)
  lost_end : (d : Daq) → IsFair (ended (returned false) [], raised d)

IsAnswered-IsFair : (msg : Text) (f : Flow) → IsAnswered msg f → IsFair (read_from_flow f, f)
unfolding read_replies read_end text_eq
IsAnswered-IsFair msg (goes d) (lock_refused d' u l m) =
    subst (λ (us : List Text). IsFair (read_replies false us, goes d)) (sym u) (refused d m l)
IsAnswered-IsFair msg (goes d) (acq_refused d' u l m) =
    subst (λ (us : List Text). IsFair (read_replies false us, goes d)) (sym u) (refused d m l)
IsAnswered-IsFair msg (goes d) (captured d' u l m) =
    subst (λ (us : List Text). IsFair (read_replies false us, goes d)) (sym u) (won d m l)
IsAnswered-IsFair msg (raised d) (lost_early d' u) =
    subst (λ (us : List Text). IsFair (read_replies true us, raised d)) (sym u) (lost_start d)
IsAnswered-IsFair msg (raised d) (lost_late d' u) =
    subst (λ (us : List Text). IsFair (read_replies true us, raised d)) (sym u) (lost_end d)

IsFair-left_over : (t : Talk) (f : Flow) → IsFair (t, f) → left_over t ≡ []
IsFair-left_over t f (won d m l) = refl
IsFair-left_over t f (refused d m l) = refl
IsFair-left_over t f (lost_start d) = refl
IsFair-left_over t f (lost_end d) = refl

IsFair-locked : (t : Talk) (d : Daq) → IsFair (t, goes d) → d.locked ≡ false
IsFair-locked t d (won d' m l) = l
IsFair-locked t d (refused d' m l) = l

then_talk-IsFair :
    (f : Flow) (next : Daq → List (Talk × Flow))
    → IsFair (read_from_flow f, f)
    → ((d : Daq) → d.unread ≡ [] → d.locked ≡ false → All IsFair (next d))
    → All IsFair (then_talk f next)
then_talk-IsFair (goes d) next fair rest =
    (fair, rest _ (IsFair-left_over _ (goes d) fair) (IsFair-locked _ d fair))
then_talk-IsFair (raised d) next fair rest = (fair, tt)

-- Over one connection on which no reply is unread, and with the session lock free, a client that runs
-- any sub-runs, one after another, is never left waiting for a reply, and leaves none unread for the
-- next one. It takes a sub-run for a success exactly if the server has come to its end and marked the
-- capture as done, and after each sub-run that does not break the connection the lock is free again.
pub talk-IsFair :
    (hw : Hardware) (msg : Text) (sub_runs : List (DaqInfo × ℕ)) (d : Daq)
    → d.unread ≡ []
    → d.locked ≡ false
    → All IsFair (talk hw msg sub_runs d)
unfolding answer_message contains_text starts_with
talk-IsFair hw msg [] d u l = tt
talk-IsFair hw msg ((info, seconds) ∷ ss) d u l =
    then_talk-IsFair (handle_start hw info seconds msg d) (talk hw msg ss)
      (IsAnswered-IsFair msg _ (handle_start-IsAnswered hw info msg seconds d u l))
      (talk-IsFair hw msg ss)

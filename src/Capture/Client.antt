-- ===== src/Capture/Client.antt =====
-- DAQController.py: the client's side of a sub-run, reading the replies of the server.
use daq_control_vmm_beam.Base.{Bool, false, List, [], ◌∷◌, if◌then◌else◌, Text, text_eq}
use daq_control_vmm_beam.Run.SubRun.{Attempt, connection_lost, returned}
use daq_control_vmm_beam.Capture.Server.{starting_text, stopped_text}

-- What the client comes to, with the replies left unread; it blocks where it waits for a reply of a
-- server that waits too.
pub data Talk : Type 0 where
  ended : Attempt → List Text → Talk
  blocked : Talk

-- The second `receive`; a closed connection reads as an empty text.
unfoldable pub read_end : Bool → List Text → Talk
read_end closed [] = if closed then ended (returned false) [] else blocked
read_end closed (reply ∷ unread) = ended (returned (text_eq reply stopped_text)) unread

-- `DAQController.run` from the first `receive` on.
unfoldable pub read_replies : Bool → List Text → Talk
read_replies closed [] = if closed then ended connection_lost [] else blocked
read_replies closed (reply ∷ unread) =
    let rest = read_end closed unread in
    if text_eq reply []
    then ended connection_lost unread
    else if text_eq reply starting_text
    then rest
    else ended (returned false) unread

-- The replies that are left for the next sub-run.
abbrev pub left_over : Talk → List Text
left_over (ended attempt unread) = unread
left_over blocked = []

-- ===== src/Wire/Frame.antt =====
-- The framing that Client.py and Server.py share: `send`, `_recv_exactly` and `receive`. A text is
-- kept as its UTF-8 bytes, so `encode` and `decode` leave it as it is.
use daq_control_vmm_beam.Base.{
  ℕ, zero, suc, ◌+◌, ◌-◌, ◌*◌, ◌/◌, ◌%◌, min, ltb, Option, none, some, List, [], ◌∷◌, ◌++◌,
  if◌then◌else◌, length, take, drop,
}

abbrev pub Bytes : Type 0
Bytes = List ℕ

-- The receiving end of a connection: the bytes that the peer will still have sent when it closes, and
-- the number of calls of `recv` so far.
pub record Stream : Type 0 where
  pub incoming : Bytes
  pub calls : ℕ

-- How many bytes beside the first one the network has ready at each call.
abbrev pub Ready : Type 0
Ready = ℕ → ℕ

-- `socket.recv(n)` for n > 0: at least one byte and at most n, nothing only once the peer has closed.
unfoldable pub recv : Ready → ℕ → Stream → Bytes × Stream
recv ready n s =
    let got = min n (suc (ready s.calls)) in
    (take got s.incoming, record s { incoming = drop got s.incoming; calls = s.calls + 1 })

-- A round of `_recv_exactly` after its `recv`: an empty chunk ends it with no so_far at all.
abbrev pub after_chunk : Bytes → Bytes × Stream → (Bytes → Stream → Bytes × Stream) → Bytes × Stream
after_chunk so_far ([], s) next = ([], s)
after_chunk so_far (b ∷ bs, s) next = next (so_far ++ (b ∷ bs)) s

-- `_recv_exactly` from the so_far so far; the first number bounds the rounds.
unfoldable pub recv_from : Ready → ℕ → ℕ → Bytes → Stream → Bytes × Stream
recv_from ready zero n so_far s = (so_far, s)
recv_from ready (suc rounds) n so_far s =
    let rest = after_chunk so_far (recv ready (n - length so_far) s) (recv_from ready rounds n) in
    if ltb (length so_far) n then rest else (so_far, s)

unfoldable pub recv_exactly : Ready → ℕ → Stream → Bytes × Stream
recv_exactly ready n s = recv_from ready n n [] s

-- `struct.pack('!I', n)`, which raises from 2^32 on.
unfoldable pub pack : ℕ → Option Bytes
pack n =
    if ltb n 4294967296
    then some (n / 16777216 ∷ n / 65536 % 256 ∷ n / 256 % 256 ∷ n % 256 ∷ [])
    else none

-- `struct.unpack('!I', header)[0]`
unfoldable pub unpack : Bytes → Option ℕ
unpack (a ∷ b ∷ c ∷ d ∷ []) = some (((a * 256 + b) * 256 + c) * 256 + d)
unpack _ = none

abbrev pub framed : Bytes → Option Bytes → Option Bytes
framed text none = none
framed text (some header) = some (header ++ text)

-- `send`: the bytes handed to `sendall`; `none` where packing the length raises.
unfoldable pub send_bytes : Bytes → Option Bytes
send_bytes text = framed text (pack (length text))

abbrev pub receive_text : Ready → Option ℕ → Stream → Option Bytes × Stream
receive_text ready none s = (none, s)
receive_text ready (some n) s = (some (recv_exactly ready n s).0, (recv_exactly ready n s).1)

abbrev pub after_header : Ready → Bytes × Stream → Option Bytes × Stream
after_header ready ([], s) = (some [], s)
after_header ready (b ∷ bs, s) = receive_text ready (unpack (b ∷ bs)) s

-- `receive`: the text, empty where no header comes; `none` stands for an exception.
unfoldable pub receive : Ready → Stream → Option Bytes × Stream
receive ready s = after_header ready (recv_exactly ready 4 s)

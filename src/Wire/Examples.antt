-- ===== src/Wire/Examples.antt =====
-- Short conversations, cut in small pieces.
use daq_control_vmm_beam.Base.{◌%◌, some, [], ◌∷◌, ◌++◌, ◌≡◌, refl, codes, arith}
use daq_control_vmm_beam.Wire.Frame.{Bytes, Ready, pack, unpack, send_bytes, receive}
use daq_control_vmm_beam.Wire.Chunks.{seen_text, receive-read_frame}
use daq_control_vmm_beam.Wire.Framed.{receive_all, receive_all-send_all}

-- One, two or three bytes are ready at a call.
abbrev in_pieces : Ready
in_pieces k = k % 3

abbrev start : Bytes
start = codes "Start"

pack_long : pack 70000 ≡ some (0 ∷ 1 ∷ 17 ∷ 112 ∷ [])
unfolding pack
pack_long = refl

receive-read_frame_example :
    seen_text
      (receive in_pieces (record { incoming = 0 ∷ 0 ∷ 0 ∷ 5 ∷ start ++ (9 ∷ []); calls = 0 }))
    ≡ (some start, 9 ∷ [])
unfolding unpack
receive-read_frame_example =
    receive-read_frame in_pieces
      (record { incoming = 0 ∷ 0 ∷ 0 ∷ 5 ∷ start ++ (9 ∷ []); calls = 0 })

receive_all-send_all_example :
    receive_all in_pieces 3 (record {
      incoming = 0 ∷ 0 ∷ 0 ∷ 5 ∷ start ++ (0 ∷ 0 ∷ 0 ∷ 0 ∷ 0 ∷ 0 ∷ 0 ∷ 5 ∷ codes "Sta");
      calls = 0;
    })
    ≡ some start ∷ some [] ∷ some [] ∷ []
unfolding send_bytes pack
receive_all-send_all_example =
    receive_all-send_all in_pieces (start ∷ [] ∷ []) start _ _ 7 0 refl refl (omega arith)

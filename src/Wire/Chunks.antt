-- ===== src/Wire/Chunks.antt =====
-- `_recv_exactly` of Client.py and Server.py against a direct reading of the bytes, however the
-- network cuts them.
use daq_control_vmm_beam.Base.{
  ℕ, zero, suc, ◌+◌, ◌-◌, ◌*◌, ◌≤◌, ◌<◌, min, leb, [], ◌∷◌, ◌++◌, if◌then◌else◌, length, take, drop,
  ◌≡◌, refl, ap, sym, ◌∙◌, arith, length-take, length-drop, length-append, Option, none, some,
}
use daq_control_vmm_beam.Wire.Frame.{
  Bytes, Stream, Ready, recv, after_chunk, recv_from, recv_exactly, unpack, receive_text,
  after_header, receive,
}
use mathlib.Core.List.{append_assoc, append-nil}

-- `n` bytes taken at once: nothing where the peer closes before they are all there.
abbrev pub exactly : Bytes → ℕ → Bytes → Bytes × Bytes
exactly so_far n xs = if leb n (length xs) then (so_far ++ take n xs, drop n xs) else ([], [])

-- What a receiver sees of a result: the number of calls is forgotten.
abbrev pub seen : Bytes × Stream → Bytes × Bytes
seen (so_far, s) = (so_far, s.incoming)

exactly_zero : (so_far : Bytes) (n : ℕ) (xs : Bytes) → n ≡ 0 → exactly so_far n xs ≡ (so_far, xs)
exactly_zero so_far zero xs e = ground (arith, append-nil so_far)
exactly_zero so_far (suc n) xs e = absurd (omega arith)

take_split :
    (got k m : ℕ) (xs : Bytes) → m ≡ got + k → take got xs ++ take k (drop got xs) ≡ take m xs
take_split zero k m xs e = ap (λ (i : ℕ). take i xs) (omega arith)
take_split (suc got) k zero xs e = absurd (omega arith)
take_split (suc got) zero (suc m) [] e = refl
take_split (suc got) (suc k) (suc m) [] e = refl
take_split (suc got) k (suc m) (x ∷ xs) e =
    ap (λ (l : Bytes). x ∷ l) (take_split got k m xs (omega arith))

drop_split : (got k m : ℕ) (xs : Bytes) → m ≡ got + k → drop k (drop got xs) ≡ drop m xs
drop_split zero k m xs e = ap (λ (i : ℕ). drop i xs) (omega arith)
drop_split (suc got) k zero xs e = absurd (omega arith)
drop_split (suc got) zero (suc m) [] e = refl
drop_split (suc got) (suc k) (suc m) [] e = refl
drop_split (suc got) k (suc m) (x ∷ xs) e = drop_split got k m xs (omega arith)

-- Taking some of the bytes first.
exactly_split :
    (so_far : Bytes) (got m : ℕ) (xs : Bytes)
    → got ≤ m
    → exactly (so_far ++ take got xs) (m - min got (length xs)) (drop got xs) ≡ exactly so_far m xs
exactly_split so_far got m xs le = ground (
  arith,
  length-drop got xs,
  take_split got (m - got) m xs (omega arith),
  drop_split got (m - got) m xs (omega arith),
  append_assoc so_far (take got xs) (take (m - got) (drop got xs)),
)

-- A chunk, and what follows it given by `exactly`.
chunk_lem :
    (so_far : Bytes) (got m : ℕ) (xs : Bytes) (calls : ℕ) (next : Bytes → Stream → Bytes × Stream)
    → 0 < got
    → got ≤ m
    → (0 < length xs
        → seen (next (so_far ++ take got xs) (record { incoming = drop got xs; calls = calls }))
          ≡ exactly (so_far ++ take got xs) (m - min got (length xs)) (drop got xs))
    → seen (after_chunk so_far (take got xs, record { incoming = drop got xs; calls = calls }) next)
      ≡ exactly so_far m xs
chunk_lem so_far zero m xs calls next pos le ih = absurd (omega arith)
chunk_lem so_far (suc got) m [] calls next pos le ih = ground arith
chunk_lem so_far (suc got) m (b ∷ bs) calls next pos le ih =
    ih (omega arith) ∙ exactly_split so_far (suc got) m (b ∷ bs) le

module _ (ready : Ready) (n : ℕ) where
  -- A round is taken with bytes missing, and with what the rounds after it do.
  round_lem :
      (rounds : ℕ) (so_far : Bytes) (s : Stream)
      → length so_far < n
      → n ≤ length so_far + suc rounds
      → ((so_far' : Bytes) (s' : Stream)
          → n ≤ length so_far' + rounds
          → length so_far' ≤ n
          → seen (recv_from ready rounds n so_far' s')
            ≡ exactly so_far' (n - length so_far') s'.incoming)
      → seen (after_chunk so_far (recv ready (n - length so_far) s) (recv_from ready rounds n))
        ≡ exactly so_far (n - length so_far) s.incoming
  unfolding recv
  round_lem rounds so_far s lt fuel ih =
      let got = min (n - length so_far) (suc (ready s.calls)) in
      let longer = length-append so_far (take got s.incoming) in
      let taken = length-take got s.incoming in
      chunk_lem so_far got (n - length so_far) s.incoming (s.calls + 1) (recv_from ready rounds n)
        (omega arith) (omega arith)
        (λ more.
          ih (so_far ++ take got s.incoming)
            (record { incoming = drop got s.incoming; calls = s.calls + 1 })
            (omega (arith, longer, taken)) (omega (arith, longer, taken))
          ∙ ap (λ (m : ℕ). exactly (so_far ++ take got s.incoming) m (drop got s.incoming))
              (omega (arith, longer, taken)))

  -- `_recv_exactly` from the middle, with a round for each byte that is missing.
  recv_from-exactly :
      (rounds : ℕ) (so_far : Bytes) (s : Stream)
      → n ≤ length so_far + rounds
      → length so_far ≤ n
      → seen (recv_from ready rounds n so_far s) ≡ exactly so_far (n - length so_far) s.incoming
  unfolding recv_from
  recv_from-exactly zero so_far s fuel le =
      sym (exactly_zero so_far (n - length so_far) s.incoming (omega arith))
  recv_from-exactly (suc rounds) so_far s fuel le = ground (
    arith,
    round_lem rounds so_far s,
    recv_from-exactly rounds,
    exactly_zero so_far (n - length so_far) s.incoming,
  )

-- `_recv_exactly`, however the bytes are cut.
recv_exactly-exactly :
    (ready : Ready) (n : ℕ) (s : Stream) → seen (recv_exactly ready n s) ≡ exactly [] n s.incoming
unfolding recv_exactly
recv_exactly-exactly ready n s =
    recv_from-exactly ready n n [] s (omega arith) (omega arith)
    ∙ ap (λ (m : ℕ). exactly [] m s.incoming) (omega arith)

abbrev read_text : Option ℕ → Bytes → Option Bytes × Bytes
read_text none xs = (none, xs)
read_text (some n) xs = (some (exactly [] n xs).0, (exactly [] n xs).1)

abbrev read_after : Bytes × Bytes → Option Bytes × Bytes
read_after ([], xs) = (some [], xs)
read_after (b ∷ bs, xs) = read_text (unpack (b ∷ bs)) xs

-- A message read from bytes that are all there: nothing where the header or the text is cut short.
abbrev pub read_frame : Bytes → Option Bytes × Bytes
read_frame xs = read_after (exactly [] 4 xs)

four_lem : (a b c d : ℕ) (xs : Bytes) → exactly [] 4 (a ∷ b ∷ c ∷ d ∷ xs) ≡ (a ∷ b ∷ c ∷ d ∷ [], xs)
four_lem a b c d xs = ground arith

pub read_frame-four :
    (a b c d : ℕ) (xs : Bytes)
    → let n = ((a * 256 + b) * 256 + c) * 256 + d in
      read_frame (a ∷ b ∷ c ∷ d ∷ xs) ≡ (some (exactly [] n xs).0, (exactly [] n xs).1)
unfolding unpack
read_frame-four a b c d xs = ap read_after (four_lem a b c d xs)

abbrev pub seen_text : Option Bytes × Stream → Option Bytes × Bytes
seen_text (text, s) = (text, s.incoming)

receive_text_lem :
    (ready : Ready) (n : Option ℕ) (s : Stream)
    → seen_text (receive_text ready n s) ≡ read_text n s.incoming
receive_text_lem ready none s = refl
receive_text_lem ready (some n) s =
    ap (λ (r : Bytes × Bytes). (some r.0, r.1)) (recv_exactly-exactly ready n s)

after_header_lem :
    (ready : Ready) (r : Bytes × Stream) → seen_text (after_header ready r) ≡ read_after (seen r)
after_header_lem ready ([], s) = refl
after_header_lem ready (b ∷ bs, s) = receive_text_lem ready (unpack (b ∷ bs)) s

-- However the network cuts the bytes into chunks, `receive` returns the message that stands at the head
-- of them and leaves the bytes after it, and where the peer closes before the message is whole it
-- returns an empty text and has used up what was there.
pub receive-read_frame :
    (ready : Ready) (s : Stream) → seen_text (receive ready s) ≡ read_frame s.incoming
unfolding receive
receive-read_frame ready s =
    after_header_lem ready (recv_exactly ready 4 s) ∙ ap read_after (recv_exactly-exactly ready 4 s)

-- ===== src/Wire/Framed.antt =====
-- What one end of a connection sends, read at the other end.
use daq_control_vmm_beam.Base.{
  ℕ, zero, suc, ◌+◌, ◌*◌, ◌/◌, ◌%◌, ◌<◌, ltb, Option, none, some, List, [], ◌∷◌, ◌++◌, length, take,
  ◌≡◌, refl, ap, sym, ◌∙◌, arith, take-length, drop-length, length-append, map, subst, Bool-cases,
  Option-cases, ltb→lt, inl, inr, length-take,
}
use daq_control_vmm_beam.Wire.Frame.{Bytes, Stream, Ready, pack, framed, send_bytes, receive}
use daq_control_vmm_beam.Wire.Chunks.{exactly, read_frame, read_frame-four, receive-read_frame}
use mathlib.Core.Option.{some-injective}
use mathlib.Core.List.{append_assoc}

-- The header of a length, as its four bytes.
data IsHeader (n : ℕ) : Bytes → Type 0 where
  header : (a b c d : ℕ) → ((a * 256 + b) * 256 + c) * 256 + d ≡ n → IsHeader n (a ∷ b ∷ c ∷ d ∷ [])

pack-IsHeader : (n : ℕ) (h : Bytes) → pack n ≡ some h → IsHeader n h
unfolding pack
pack-IsHeader n h e = elim (Bool-cases (ltb n 4294967296)) [
  | inl small ↦ subst (IsHeader n) (some-injective _ _ (ground (arith, e, small))) (
      header (n / 16777216) (n / 65536 % 256) (n / 256 % 256) (n % 256)
        (omega (arith, ltb→lt n 4294967296 small)))
  | inr large ↦ absurd (ground (arith, e, large))
]

-- A text behind its header.
data IsFrame (text : Bytes) : Bytes → Type 0 where
  frame : (h : Bytes) → IsHeader (length text) h → IsFrame text (h ++ text)

send_bytes-IsFrame : (text wire : Bytes) → send_bytes text ≡ some wire → IsFrame text wire
unfolding send_bytes
send_bytes-IsFrame text wire e = elim (Option-cases (pack (length text))) [
  | inl raises ↦ absurd (cc (e, ap (framed text) raises))
  | inr (h, packed) ↦
      subst (IsFrame text) (some-injective _ _ (sym (ap (framed text) packed) ∙ e))
        (frame h (pack-IsHeader (length text) h packed))
]

exactly_all :
    (n : ℕ) (text rest : Bytes) → length text ≡ n → exactly [] n (text ++ rest) ≡ (text, rest)
exactly_all n text rest e =
    subst (λ k. exactly [] k (text ++ rest) ≡ (text, rest)) e
      (ground (arith, length-append text rest, take-length text rest, drop-length text rest))

exactly_cut :
    (n k : ℕ) (text : Bytes) → length text ≡ n → k < n → exactly [] n (take k text) ≡ ([], [])
exactly_cut n k text e lt = ground (arith, length-take k text)

read_frame-whole :
    (text wire rest : Bytes) → IsFrame text wire → read_frame (wire ++ rest) ≡ (some text, rest)
read_frame-whole text wire rest (frame h (header a b c d e)) =
    read_frame-four a b c d (text ++ rest)
    ∙ ap (λ (r : Bytes × Bytes). (some r.0, r.1))
        (exactly_all (((a * 256 + b) * 256 + c) * 256 + d) text rest (sym e))

read_frame-cut :
    (text wire : Bytes) (k : ℕ)
    → IsFrame text wire
    → k < length wire
    → read_frame (take k wire) ≡ (some [], [])
read_frame-cut text wire zero (frame h (header a b c d e)) lt = refl
read_frame-cut text wire (suc zero) (frame h (header a b c d e)) lt = refl
read_frame-cut text wire (suc (suc zero)) (frame h (header a b c d e)) lt = refl
read_frame-cut text wire (suc (suc (suc zero))) (frame h (header a b c d e)) lt = refl
read_frame-cut text wire (suc (suc (suc (suc k)))) (frame h (header a b c d e)) lt =
    read_frame-four a b c d (take k text)
    ∙ ap (λ (r : Bytes × Bytes). (some r.0, r.1))
        (exactly_cut (((a * 256 + b) * 256 + c) * 256 + d) k text (sym e) (omega (arith, e)))

-- The bytes of several messages, one after another.
abbrev pub joined : Option Bytes → Option Bytes → Option Bytes
joined (some wire) (some more) = some (wire ++ more)
joined _ _ = none

abbrev pub send_all : List Bytes → Option Bytes
send_all [] = some []
send_all (text ∷ texts) = joined (send_bytes text) (send_all texts)

-- What a number of calls of `receive` returns.
abbrev pub receive_all : Ready → ℕ → Stream → List (Option Bytes)
receive_all ready zero s = []
receive_all ready (suc n) s = (receive ready s).0 ∷ receive_all ready n (receive ready s).1

abbrev read_all : ℕ → Bytes → List (Option Bytes)
read_all zero xs = []
read_all (suc n) xs = (read_frame xs).0 ∷ read_all n (read_frame xs).1

receive_all-read_all :
    (ready : Ready) (n : ℕ) (s : Stream) → receive_all ready n s ≡ read_all n s.incoming
receive_all-read_all ready zero s = refl
receive_all-read_all ready (suc n) s =
    ap (λ (l : List (Option Bytes)). (receive ready s).0 ∷ l)
      (receive_all-read_all ready n (receive ready s).1)
    ∙ ap (λ (r : Option Bytes × Bytes). r.0 ∷ read_all n r.1) (receive-read_frame ready s)

joined-parts :
    (first more : Option Bytes) (wire : Bytes)
    → joined first more ≡ some wire
    → (x : Bytes) × ((y : Bytes) × (first ≡ some x) × (more ≡ some y) × (x ++ y ≡ wire))
joined-parts (some x) (some y) wire e = (x, (y, refl, refl, some-injective _ _ e))
joined-parts (some x) none wire e = absurd (cc e)
joined-parts none more wire e = absurd (cc e)

read_all-send_all :
    (texts : List Bytes) (wire tail : Bytes)
    → send_all texts ≡ some wire
    → read_frame tail ≡ (some [], [])
    → read_all (suc (length texts)) (wire ++ tail) ≡ map some texts ++ (some [] ∷ [])
read_all-send_all [] wire tail e cut =
    subst (λ (w : Bytes). read_all 1 (w ++ tail) ≡ (some [] ∷ [])) (some-injective _ _ e)
      (ap (λ (r : Option Bytes × Bytes). r.0 ∷ []) cut)
read_all-send_all (text ∷ texts) wire tail e cut =
    let (x, (y, goes, more, split)) = joined-parts (send_bytes text) (send_all texts) wire e in
    ap (λ (w : Bytes). read_all (suc (suc (length texts))) (w ++ tail)) (sym split)
    ∙ ap (read_all (suc (suc (length texts)))) (append_assoc x y tail)
    ∙ ap (λ (r : Option Bytes × Bytes). r.0 ∷ read_all (suc (length texts)) r.1)
        (read_frame-whole text x (y ++ tail) (send_bytes-IsFrame text x goes))
    ∙ ap (λ (l : List (Option Bytes)). some text ∷ l) (read_all-send_all texts y tail more cut)

-- One end sends any texts, each shorter than 2^32 bytes, and closes before the end of one more. The
-- other end receives exactly these texts in their order, however the network cuts the bytes, and then
-- an empty text.
pub receive_all-send_all :
    (ready : Ready) (texts : List Bytes) (last wire cut : Bytes) (k calls : ℕ)
    → send_all texts ≡ some wire
    → send_bytes last ≡ some cut
    → k < length cut
    → receive_all ready
        (suc (length texts))
        (record { incoming = wire ++ take k cut; calls = calls })
      ≡ map some texts ++ (some [] ∷ [])
receive_all-send_all ready texts last wire cut k calls sends goes lt =
    receive_all-read_all ready (suc (length texts)) _
    ∙ read_all-send_all texts wire (take k cut) sends
        (read_frame-cut last cut k (send_bytes-IsFrame last cut goes) lt)

-- ===== src/Beam/Covered.antt =====
-- What the splitting of beam_state.py keeps: every place with ink, and every glyph.
use mathlib.Core.List.{append_assoc}
use mathlib.Core.Option.{some-injective}
use daq_control_vmm_beam.Base.{
  ℕ, ◌+◌, ◌≤◌, ◌<◌, subst, ltb, leb, ◌==◌, ◌≡◌, ◌∙◌, refl, sym, ap, inl, inr, Bool, true, false,
  ◌&&◌, ◌||◌, none, some, List, [], ◌∷◌, ◌++◌, any, arith, Bool-cases, All,
}
use daq_control_vmm_beam.Beam.Columns.{Span, runs_from, runs, token_gap, tokens_from, tokens}

-- Whether the place `j` has ink, where the mask begins at the place `i`.
abbrev pub has_ink : ℕ → List Bool → ℕ → Bool
has_ink i [] j = false
has_ink i (b ∷ m) j = (i == j && b) || has_ink (i + 1) m j

abbrev pub is_in : ℕ → Span → Bool
is_in j r = leb r.first j && ltb j r.past

abbrev pub is_covered : List Span → ℕ → Bool
is_covered rs j = any (is_in j) rs

abbrev span : ℕ → ℕ → ℕ → Span
span offset s i = record { first = s + offset; past = i + offset }

span-is_in : (offset s i j : ℕ) → is_in (j + offset) (span offset s i) ≡ (leb s j && ltb j i)
span-is_in offset s i j = ground arith

between_lem :
    (s i j : ℕ) (b : Bool)
    → s ≤ i
    → (leb s j && ltb j (i + 1)) || b ≡ (leb s j && ltb j i) || ((i == j && true) || b)
between_lem s i j b l = ground arith

none_between : (i j : ℕ) (b : Bool) → (leb i j && ltb j (i + 1)) || b ≡ (i == j && true) || b
none_between i j b = ground arith

false_between : (i j : ℕ) (b : Bool) → (i == j && false) || b ≡ b
false_between i j b = ground arith

runs_from-is_covered :
    (offset i j : ℕ) (m : List Bool)
    → (is_covered (runs_from offset i none m) (j + offset) ≡ has_ink i m j)
      × ((s : ℕ)
          → s ≤ i
          → is_covered (runs_from offset i (some s) m) (j + offset)
            ≡ (leb s j && ltb j i) || has_ink i m j)
unfolding runs_from
runs_from-is_covered offset i j [] = (refl, λ s l. ap (λ b. b || false) (span-is_in offset s i j))
runs_from-is_covered offset i j (true ∷ m) =
    let (p, q) = runs_from-is_covered offset (i + 1) j m in
    let rest = has_ink (i + 1) m j in
    (q i (omega arith) ∙ none_between i j rest, λ s l. q s (omega arith) ∙ between_lem s i j rest l)
runs_from-is_covered offset i j (false ∷ m) =
    let (p, q) = runs_from-is_covered offset (i + 1) j m in
    let rest = has_ink (i + 1) m j in
    (
      p ∙ sym (false_between i j rest),
      λ s l.
          ap (λ b. b || is_covered (runs_from offset (i + 1) none m) (j + offset))
            (span-is_in offset s i j)
          ∙ ap (λ b. (leb s j && ltb j i) || b) (p ∙ sym (false_between i j rest)),
    )

-- The runs of a mask, moved back by the offset, are the places with ink and no others.
pub runs-is_covered :
    (mask : List Bool) (offset j : ℕ)
    → is_covered (runs mask offset) (j + offset) ≡ has_ink 0 mask j
unfolding runs
runs-is_covered mask offset j = (runs_from-is_covered offset 0 j mask).0

abbrev pub glyphs_of : List (List Span) → List Span
glyphs_of [] = []
glyphs_of (t ∷ ts) = t ++ glyphs_of ts

glyphs_of-tokens_from :
    (cur : List Span) (last : Span) (rs : List Span)
    → glyphs_of (tokens_from cur last rs) ≡ cur ++ rs
unfolding tokens_from
glyphs_of-tokens_from cur last [] = refl
glyphs_of-tokens_from cur last (r ∷ rs) = elim (Bool-cases (leb (last.past + token_gap) r.first)) [
  | inl e ↦ rw e (ap (λ x. cur ++ x) (glyphs_of-tokens_from (r ∷ []) r rs))
  | inr e ↦ rw e (glyphs_of-tokens_from (cur ++ (r ∷ [])) r rs ∙ append_assoc cur (r ∷ []) rs)
]

-- Inside a token no gap reaches the token gap.
abbrev pub IsTight : List Span → Type 0
IsTight [] = Unit
IsTight (g ∷ []) = Unit
IsTight (g ∷ h ∷ rest) = (h.first < g.past + token_gap) × IsTight (h ∷ rest)

snoc-IsTight :
    (pre : List Span) (l r : Span)
    → r.first < l.past + token_gap
    → IsTight (pre ++ (l ∷ []))
    → IsTight ((pre ++ (l ∷ [])) ++ (r ∷ []))
snoc-IsTight [] l r h t = (h, tt)
snoc-IsTight (g ∷ []) l r h (k, t) = (k, (h, tt))
snoc-IsTight (g ∷ g' ∷ pre) l r h (k, t) = (k, snoc-IsTight (g' ∷ pre) l r h t)

not_apart : (l r : Span) → leb (l.past + token_gap) r.first ≡ false → r.first < l.past + token_gap
not_apart l r h = ground arith

tokens_from-IsTight :
    (pre : List Span) (l : Span) (rs : List Span)
    → IsTight (pre ++ (l ∷ []))
    → All IsTight (tokens_from (pre ++ (l ∷ [])) l rs)
unfolding tokens_from
tokens_from-IsTight pre l [] t = (t, tt)
tokens_from-IsTight pre l (r ∷ rs) t = elim (Bool-cases (leb (l.past + token_gap) r.first)) [
  | inl e ↦ rw e (t, tokens_from-IsTight [] r rs tt)
  | inr e ↦
      rw e (tokens_from-IsTight (pre ++ (l ∷ [])) r rs (snoc-IsTight pre l r (not_apart l r e) t))
]

-- The tokens of a line that has glyphs are its glyphs in their order, none lost, and inside a token no
-- gap reaches the token gap.
pub tokens-IsTight :
    (gs : List Span) (ts : List (List Span))
    → tokens gs ≡ some ts
    → (glyphs_of ts ≡ gs) × All IsTight ts
unfolding tokens
tokens-IsTight [] ts h = cc
tokens-IsTight (g ∷ gs) ts h =
    let e = some-injective _ _ h in
    (
      subst (λ ts. glyphs_of ts ≡ g ∷ gs) e (glyphs_of-tokens_from (g ∷ []) g gs),
      subst (λ ts. All IsTight ts) e (tokens_from-IsTight [] g gs tt),
    )

-- ===== src/Beam/Columns.antt =====
-- How beam_state.py finds lines, glyphs and tokens in the columns and rows of the image.
use daq_control_vmm_beam.Base.{
  ℕ, ◌+◌, leb, Bool, true, false, Option, none, some, List, [], ◌∷◌, ◌++◌, if◌then◌else◌, Text,
}

-- A maximal run of ink: its first place, and the place after its last.
pub record Span : Type 0 where
  pub first : ℕ
  pub past : ℕ

-- The loop of `_runs` at the place `i`, with the start of the run that is open.
unfoldable pub runs_from : ℕ → ℕ → Option ℕ → List Bool → List Span
runs_from offset i none [] = []
runs_from offset i (some s) [] = record { first = s + offset; past = i + offset } ∷ []
runs_from offset i none (true ∷ m) = runs_from offset (i + 1) (some i) m
runs_from offset i none (false ∷ m) = runs_from offset (i + 1) none m
runs_from offset i (some s) (true ∷ m) = runs_from offset (i + 1) (some s) m
runs_from offset i (some s) (false ∷ m) =
    record { first = s + offset; past = i + offset } ∷ runs_from offset (i + 1) none m

-- `_runs`
unfoldable pub runs : List Bool → ℕ → List Span
runs mask offset = runs_from offset 0 none mask

abbrev pub token_gap : ℕ
token_gap = 8

-- The loop over the glyphs of a line: `cur` is the token that is open, never empty, and `last` its last
-- glyph.
unfoldable pub tokens_from : List Span → Span → List Span → List (List Span)
tokens_from cur last [] = cur ∷ []
tokens_from cur last (r ∷ rs) =
    let split = tokens_from (r ∷ []) r rs in
    let joined = tokens_from (cur ++ (r ∷ [])) r rs in
    if leb (last.past + token_gap) r.first then cur ∷ split else joined

-- `none` for a line without a glyph, which is passed over.
unfoldable pub tokens : List Span → Option (List (List Span))
tokens [] = none
tokens (g ∷ gs) = some (tokens_from (g ∷ []) g gs)

-- The text of a value, glyph by glyph; one that is in no template gives no value.
unfoldable pub read_value : (Span → Option ℕ) → List Span → Option Text
read_value char_of [] = some []
read_value char_of (g ∷ gs) =
    let rest = read_value char_of gs in
    elim (char_of g) [ none ↦ none | some c ↦ elim rest [ none ↦ none | some t ↦ some (c ∷ t) ] ]

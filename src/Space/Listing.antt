-- ===== src/Space/Listing.antt =====
-- `_remote_size_map` of flask_app/space_manager.py: the sizes that `xrdfs ls -l -R` reports.
use daq_control_vmm_beam.Base.{
  Bool, ℕ, zero, suc, ◌+◌, ◌&&◌, ◌||◌, Option, none, some, List, [], ◌∷◌, ◌++◌, map, if◌then◌else◌,
  ltb, leb, Text, codes, strip_prefix?, starts_with, contains_text, to_nat?, split_words, length,
  ◌==◌,
}
use mathlib.Core.List.{reverse}
use daq_control_vmm_beam.Base.Dict.{put}
use daq_control_vmm_beam.Space.Disk.{SizeMap}

-- What running `xrdfs` gives: it cannot be started, it exits with a code other than 0 and a
-- message, or it exits with 0 and prints lines.
pub data Listing : Type 0 where
  not_started : Listing
  failed : Text → Listing
  printed : List Text → Listing

abbrev lower : ℕ → ℕ
lower c = if leb b'A' c && leb c b'Z' then c + 32 else c

abbrev drop_slashes : Text → Text
drop_slashes [] = []
drop_slashes (c ∷ s) = let rest = drop_slashes s in if c == b'/' then rest else c ∷ s

-- `s.rstrip('/')`
unfoldable pub rstrip_slash : Text → Text
rstrip_slash s = reverse (drop_slashes (reverse s))

-- The word at an index of the line, empty past its end.
abbrev word_at : ℕ → List Text → Text
word_at i [] = []
word_at zero (w ∷ ws) = w
word_at (suc i) (w ∷ ws) = word_at i ws

abbrev last_word : List Text → Text
last_word [] = []
last_word (w ∷ []) = w
last_word (_ ∷ v ∷ ws) = last_word (v ∷ ws)

-- The path below `base` and the size in one line; `none` where the loop continues.
unfoldable pub listed_file : Text → Text → Option (Text × ℕ)
unfolding split_words starts_with to_nat? strip_prefix?
listed_file base line =
    let parts = split_words line in
    if ltb (length parts) 7 || starts_with (word_at 0 parts) (codes "d")
    then none
    else elim (to_nat? (word_at 3 parts)) [
      | none ↦ none
      | some size ↦ elim (strip_prefix? base (last_word parts)) [
        | none ↦ none
        | some rel ↦ some (rel, size)
      ]
    ]

unfoldable pub listed_sizes : Text → SizeMap → List Text → SizeMap
listed_sizes base sizes [] = sizes
listed_sizes base sizes (line ∷ lines) =
    listed_sizes base
      (elim (listed_file base line) [ none ↦ sizes | some (rel, size) ↦ put rel size sizes ]) lines

-- The messages of `xrdfs` that mean an absent directory.
unfoldable pub is_absent : Text → Bool
unfolding contains_text
is_absent message =
    let err = map lower message in
    contains_text (codes "not found") err
    || (contains_text (codes "no such file") err || contains_text (codes "3011") err)

-- The sizes below `eos_dir`, `none` where the listing failed. A directory that is not there is empty.
unfoldable pub remote_size_map : Text → Listing → Option SizeMap
unfolding listed_sizes listed_file rstrip_slash is_absent
remote_size_map eos_dir not_started = none
remote_size_map eos_dir (failed message) = if is_absent message then some [] else none
remote_size_map eos_dir (printed lines) =
    some (listed_sizes (rstrip_slash eos_dir ++ codes "/") [] lines)

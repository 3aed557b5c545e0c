-- ===== src/Base/Strings.antt =====
-- Text as the list of its code points, with the operations of Python's `str` that the program uses.
use Prim.Native.Char.{code}
use Prim.Native.String.{String}
use Prim.Native.Nat.{ℕ, ◌+◌, ◌-◌, ◌*◌}
use mathlib.Core.Path.{◌≡◌, refl}
use mathlib.Core.Logic.{◌↔◌}
use mathlib.Core.Bool.{Bool, true, false, ◌&&◌, ◌||◌}
use mathlib.Core.List.{List, [], ◌∷◌, ◌++◌}
use mathlib.Core.Option.{Option, none, some}
use native.Mathlib.Omega.{arith}
use daq_control_vmm_beam.Base.Tests.{leb, ◌==◌}

abbrev pub Text : Type 0
Text = List ℕ

abbrev pub codes : String → Text
codes String.[] = []
codes (String.◌∷◌ c s) = code c ∷ codes s

-- `s == t`
unfoldable pub text_eq : Text → Text → Bool
text_eq [] [] = true
text_eq [] (_ ∷ _) = false
text_eq (_ ∷ _) [] = false
text_eq (a ∷ s) (b ∷ t) = a == b && text_eq s t

pub text_eq_refl : (s : Text) → text_eq s s ≡ true
unfolding text_eq
text_eq_refl [] = refl
text_eq_refl (a ∷ s) = ground (arith, text_eq_refl s)

pub text_eq→eq : (s t : Text) → text_eq s t ≡ true → s ≡ t
unfolding text_eq
text_eq→eq [] [] h = refl
text_eq→eq [] (_ ∷ _) h = cc
text_eq→eq (_ ∷ _) [] h = cc
text_eq→eq (a ∷ s) (b ∷ t) h = ground (arith, text_eq→eq s t)

pub text_eq_iff : (s t : Text) → (text_eq s t ≡ true) ↔ (s ≡ t)
text_eq_iff s t = (text_eq→eq s t, λ e. cc (text_eq_refl s, e))

-- `s[len(p):]` where `s.startswith(p)`, and `none` where it does not.
unfoldable pub strip_prefix? : Text → Text → Option Text
strip_prefix? [] s = some s
strip_prefix? (_ ∷ _) [] = none
strip_prefix? (a ∷ p) (b ∷ s) =
    let rest = strip_prefix? p s in elim (a == b) [ true ↦ rest | false ↦ none ]

unfoldable pub starts_with : Text → Text → Bool
starts_with s [] = true
starts_with [] (_ ∷ _) = false
starts_with (b ∷ s) (a ∷ p) = a == b && starts_with s p

-- `p in s`
unfoldable pub contains_text : Text → Text → Bool
unfolding starts_with
contains_text p [] = starts_with [] p
contains_text p (b ∷ s) = starts_with (b ∷ s) p || contains_text p s

-- An ASCII decimal digit.
abbrev pub is_digit : ℕ → Bool
is_digit c = leb b'0' c && leb c b'9'

-- `int(s)` of a text of digits, the leading part already read; `none` stands for ValueError.
unfoldable pub digits_from : ℕ → Text → Option ℕ
digits_from n [] = some n
digits_from n (c ∷ s) =
    let rest = digits_from (n * 10 + (c - b'0')) s in
    elim (is_digit c) [ true ↦ rest | false ↦ none ]

unfoldable pub to_nat? : Text → Option ℕ
unfolding digits_from
to_nat? [] = none
to_nat? (c ∷ s) = digits_from 0 (c ∷ s)

abbrev is_space : ℕ → Bool
is_space c = c == 32 || (leb 9 c && leb c 13)

-- `line.split()`: the word being read is kept in reverse order of its letters.
unfoldable pub split_words_from : Text → Text → List Text
split_words_from [] [] = []
split_words_from (c ∷ w) [] = (c ∷ w) ∷ []
split_words_from w (c ∷ s) =
    let more = split_words_from (w ++ (c ∷ [])) s in
    let next = split_words_from [] s in
    elim (is_space c) [ true ↦ elim w [ [] ↦ next | a ∷ v ↦ (a ∷ v) ∷ next ] | false ↦ more ]

unfoldable pub split_words : Text → List Text
unfolding split_words_from
split_words s = split_words_from [] s

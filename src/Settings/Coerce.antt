-- ===== src/Settings/Coerce.antt =====
-- gui_settings.py: `coerce`, the check of one value against its entry in SCHEMA. Texts are ASCII.
use daq_control_vmm_beam.Base.{
  ℕ, zero, suc, ◌+◌, ◌-◌, ◌*◌, leb, ◌==◌, Bool, true, false, not, ◌&&◌, ◌||◌, Option, none, some,
  List, [], ◌∷◌, ◌++◌, if◌then◌else◌, Text, text_eq, codes, is_digit, any, all, map, length,
}
use daq_control_vmm_beam.Base.Int.{ℤ, pos, negsuc, is_zero}
use daq_control_vmm_beam.Base.Dict.{Dict, lookup}
use daq_control_vmm_beam.Numbering.Names.{digits}

-- The values that JSON gives: `real` is a float by its text, and whether it is not 0.
pub data Value : Type 0 where
  number : ℤ → Value
  flag : Bool → Value
  real : Bool → Text → Value
  text : Text → Value
  texts : List Text → Value
  numbers : List ℤ → Value

-- The kinds of settings with their bounds or choices. `checked` stands for the kinds of a path and of a
-- network address, whose check of the text is a parameter.
pub data Kind : Type 0 where
  int : ℤ → ℤ → Kind
  bool : Kind
  choice : List Text → Kind
  intlist : ℤ → ℤ → Kind
  list : Kind
  name : Kind
  checked : (Text → Option Text) → Kind

abbrev pub is_blank_code : ℕ → Bool
is_blank_code c = c == 32 || ((leb 9 c && leb c 13) || (leb 28 c && leb c 31))

-- `s.strip()`
unfoldable pub lstrip : Text → Text
lstrip [] = []
lstrip (c ∷ s) = let rest = lstrip s in if is_blank_code c then rest else c ∷ s

abbrev pub put_unless_blank : ℕ → Text → Text
put_unless_blank c [] = if is_blank_code c then [] else c ∷ []
put_unless_blank c (d ∷ s) = c ∷ d ∷ s

unfoldable pub rstrip : Text → Text
rstrip [] = []
rstrip (c ∷ s) = put_unless_blank c (rstrip s)

unfoldable pub strip : Text → Text
strip s = rstrip (lstrip s)

-- `int(s)`: a sign, and digits with single underscores between them.
unfoldable pub int_digits : ℕ → Bool → Text → Option ℕ
int_digits n ready [] = if ready then some n else none
int_digits n ready (c ∷ s) =
    let more = int_digits (n * 10 + (c - b'0')) true s in
    let skip = int_digits n false s in
    if is_digit c then more else if ready && c == b'_' then skip else none

abbrev pub negated : ℕ → ℤ
negated zero = pos zero
negated (suc n) = negsuc n

abbrev pub as_pos : Option ℕ → Option ℤ
as_pos none = none
as_pos (some n) = some (pos n)

abbrev pub as_negated : Option ℕ → Option ℤ
as_negated none = none
as_negated (some n) = some (negated n)

unfoldable pub signed : Text → Option ℤ
signed [] = none
signed (c ∷ s) =
    if c == b'-'
    then as_negated (int_digits 0 false s)
    else if c == b'+'
    then as_pos (int_digits 0 false s)
    else as_pos (int_digits 0 false (c ∷ s))

unfoldable pub to_int? : Text → Option ℤ
to_int? s = signed (strip s)

-- `a <= b`
abbrev pub int_leb : ℤ → ℤ → Bool
int_leb (pos m) (pos n) = leb m n
int_leb (pos m) (negsuc n) = false
int_leb (negsuc m) (pos n) = true
int_leb (negsuc m) (negsuc n) = leb n m

abbrev pub int_eq : ℤ → ℤ → Bool
int_eq (pos m) (pos n) = m == n
int_eq (negsuc m) (negsuc n) = m == n
int_eq _ _ = false

abbrev pub in_bounds : ℤ → ℤ → ℤ → Bool
in_bounds lo hi z = int_leb lo z && int_leb z hi

-- `str(v)`; the text of a list has a bracket, which no choice and no name has, and is `none` here.
abbrev pub int_text : ℤ → Text
int_text (pos n) = digits (suc n) n []
int_text (negsuc n) = b'-' ∷ digits (suc (suc n)) (suc n) []

unfoldable pub to_text? : Value → Option Text
to_text? (number z) = some (int_text z)
to_text? (flag b) = some (if b then codes "True" else codes "False")
to_text? (real b s) = some s
to_text? (text s) = some s
to_text? _ = none

-- `v.split(',')`, each part stripped, and the empty ones left out; `w` is the part being read.
abbrev pub put_part : Text → List Text → List Text
put_part [] parts = parts
put_part (c ∷ s) parts = (c ∷ s) ∷ parts

unfoldable pub parts_from : Text → Text → List Text
parts_from w [] = put_part (strip w) []
parts_from w (c ∷ s) =
    let more = parts_from (w ++ (c ∷ [])) s in
    let next = parts_from [] s in if c == b',' then put_part (strip w) next else more

abbrev pub cons_int : Option ℤ → Option (List ℤ) → Option (List ℤ)
cons_int (some z) (some zs) = some (z ∷ zs)
cons_int _ _ = none

-- `[int(x) for x in v]`
unfoldable pub to_ints? : List Text → Option (List ℤ)
to_ints? [] = some []
to_ints? (s ∷ ss) = cons_int (to_int? s) (to_ints? ss)

unfoldable pub no_repeats : {A : Type 0} → (A → A → Bool) → List A → Bool
no_repeats eq [] = true
no_repeats eq (x ∷ xs) = not (any (eq x) xs) && no_repeats eq xs

abbrev pub is_nonempty : {A : Type 0} → List A → Bool
is_nonempty [] = false
is_nonempty (_ ∷ _) = true

abbrev pub when_some : {A B : Type 0} → Option A → (A → Option B) → Option B
when_some none next = none
when_some (some a) next = next a

abbrev pub guarded : {A : Type 0} → Bool → A → Option A
guarded true a = some a
guarded false a = none

-- Each kind on its own, of a value already read.
abbrev pub check_int : ℤ → ℤ → ℤ → Option Value
check_int lo hi z = guarded (in_bounds lo hi z) (number z)

abbrev pub check_choice : List Text → Text → Option Value
check_choice choices s = guarded (any (text_eq s) choices) (text s)

abbrev pub check_ints : ℤ → ℤ → List ℤ → Option Value
check_ints lo hi zs =
    guarded (is_nonempty zs && (all (in_bounds lo hi) zs && no_repeats int_eq zs)) (numbers zs)

abbrev pub check_texts : List Text → Option Value
check_texts ss =
    guarded (is_nonempty ss && (all is_nonempty ss && no_repeats text_eq ss)) (texts ss)

abbrev pub is_name_code : ℕ → Bool
is_name_code c =
    is_digit c
    || ((leb b'A' c && leb c b'Z')
        || ((leb b'a' c && leb c b'z') || (c == b'_' || (c == b'.' || (c == b'+' || c == b'-')))))

abbrev pub check_name : Text → Option Value
check_name s = guarded (is_nonempty s && (all is_name_code s && leb (length s) 80)) (text s)

abbrev pub lower : ℕ → ℕ
lower c = if leb b'A' c && leb c b'Z' then c + 32 else c

abbrev pub check_flag : Text → Option Value
check_flag s =
    guarded (any (text_eq s) (codes "true" ∷ codes "false" ∷ codes "1" ∷ codes "0" ∷ []))
      (flag (any (text_eq s) (codes "true" ∷ codes "1" ∷ [])))

-- `int(str(v).strip())`: no flag, and no float, since the text of a whole one has a point too.
unfoldable pub read_int : Value → Option ℤ
read_int (number z) = some z
read_int (text s) = to_int? s
read_int _ = none

unfoldable pub read_ints : Value → Option (List ℤ)
read_ints (text s) = to_ints? (parts_from [] s)
read_ints (texts ss) = to_ints? ss
read_ints (numbers zs) = some zs
read_ints _ = none

unfoldable pub read_texts : Value → Option (List Text)
read_texts (text s) = some (parts_from [] s)
read_texts (texts ss) = some ss
read_texts (numbers []) = some []
read_texts _ = none

unfoldable pub read_flag : Value → Option Value
read_flag (text s) = check_flag (map lower s)
read_flag (number z) = some (flag (not (is_zero z)))
read_flag (flag b) = some (flag b)
read_flag (real nonzero s) = some (flag nonzero)
read_flag (texts ss) = some (flag (is_nonempty ss))
read_flag (numbers zs) = some (flag (is_nonempty zs))

-- `coerce` of a kind.
unfoldable pub coerce_kind : Kind → Value → Option Value
coerce_kind (int lo hi) v = when_some (read_int v) (check_int lo hi)
coerce_kind bool v = read_flag v
coerce_kind (choice choices) v = when_some (to_text? v) (check_choice choices)
coerce_kind (intlist lo hi) v = when_some (read_ints v) (check_ints lo hi)
coerce_kind list v = when_some (read_texts v) check_texts
coerce_kind name v = when_some (to_text? v) (λ s. check_name (strip s))
coerce_kind (checked check) v =
    when_some (to_text? v) (λ s. when_some (check (strip s)) (λ t. some (text t)))

-- SCHEMA, and `coerce`.
abbrev pub Schema : Type 0
Schema = Dict Kind

unfoldable pub coerce : Schema → Text → Value → Option Value
coerce schema k v = when_some (lookup k schema) (λ kind. coerce_kind kind v)

-- ===== src/Settings/Schema.antt =====
-- gui_settings.py: the rules of the settings as its SCHEMA and `coerce` give them.
use daq_control_vmm_beam.Base.{
  Bool, true, false, ◌&&◌, Option, none, some, List, [], ◌∷◌, Text, text_eq, text_eq→eq, any, ◌≡◌,
  refl, ap, sym, ◌∙◌, arith, subst, &&-split,
}
use daq_control_vmm_beam.Base.Int.{ℤ, pos, negsuc}
use daq_control_vmm_beam.Base.Dict.{Dict, lookup}
use daq_control_vmm_beam.Settings.Store.{Rules, file_value, in_file}
use daq_control_vmm_beam.Settings.Overrides.{IsLawful}
use daq_control_vmm_beam.Settings.Coerce.{
  Value, number, flag, real, text, texts, numbers, Kind, int, int_eq, int_text, to_int?, check_int,
  when_some, guarded, in_bounds, coerce_kind, read_int, Schema, coerce, strip, lstrip, rstrip,
  signed, to_text?,
}
use daq_control_vmm_beam.Settings.Again.{to_int?-int_text}
use daq_control_vmm_beam.Settings.Typed.{IsStable, IsOf, an_int, coerce-IsOf, when_some-cases}

abbrev pub texts_eq : List Text → List Text → Bool
texts_eq [] [] = true
texts_eq (s ∷ ss) (t ∷ ts) = text_eq s t && texts_eq ss ts
texts_eq _ _ = false

abbrev pub ints_eq : List ℤ → List ℤ → Bool
ints_eq [] [] = true
ints_eq (z ∷ zs) (i ∷ is) = int_eq z i && ints_eq zs is
ints_eq _ _ = false

abbrev pub flag_eq : Bool → Bool → Bool
flag_eq true true = true
flag_eq false false = true
flag_eq _ _ = false

-- `old == v`, for values of one type; values of different types count as different.
unfoldable pub value_eq : Value → Value → Bool
value_eq (number z) (number i) = int_eq z i
value_eq (flag b) (flag c) = flag_eq b c
value_eq (real b s) (real c t) = flag_eq b c && text_eq s t
value_eq (text s) (text t) = text_eq s t
value_eq (texts ss) (texts ts) = texts_eq ss ts
value_eq (numbers zs) (numbers is) = ints_eq zs is
value_eq _ _ = false

abbrev pub is_some : {A : Type 0} → Option A → Bool
is_some none = false
is_some (some _) = true

abbrev pub is_empty_text : Value → Bool
is_empty_text (text []) = true
is_empty_text _ = false

-- What a file holds of a value once it is stripped; a list is never written to a file of its own.
abbrev pub text_or_empty : Option Text → Text
text_or_empty none = []
text_or_empty (some s) = strip s

abbrev pub file_text : Value → Text
file_text (number z) = int_text z
file_text v = text_or_empty (to_text? v)

-- `check` is `check_together` of the values that would be in force.
abbrev pub rules_of : Schema → List Text → (Dict (Option Value) → Bool) → Rules Value
rules_of schema file_keys check = record {
  known = λ k. is_some (lookup k schema);
  file_keys = file_keys;
  coerce = coerce schema;
  is_blank = is_empty_text;
  same = value_eq;
  shown = file_text;
  of_text = text;
  check = check;
}

int_eq_lem : (z i : ℤ) → int_eq z i ≡ true → z ≡ i
int_eq_lem (pos m) (pos n) h = ap pos (ground arith)
int_eq_lem (negsuc m) (negsuc n) h = ap negsuc (ground arith)
int_eq_lem (pos m) (negsuc n) h = absurd (cc h)
int_eq_lem (negsuc m) (pos n) h = absurd (cc h)

ints_eq_lem : (zs is : List ℤ) → ints_eq zs is ≡ true → zs ≡ is
ints_eq_lem [] [] h = refl
ints_eq_lem (z ∷ zs) (i ∷ is) h =
    let (here, rest) = &&-split (int_eq z i) (ints_eq zs is) h in
    cc (int_eq_lem z i here, ints_eq_lem zs is rest)
ints_eq_lem [] (i ∷ is) h = absurd (cc h)
ints_eq_lem (z ∷ zs) [] h = absurd (cc h)

texts_eq_lem : (ss ts : List Text) → texts_eq ss ts ≡ true → ss ≡ ts
texts_eq_lem [] [] h = refl
texts_eq_lem (s ∷ ss) (t ∷ ts) h =
    let (here, rest) = &&-split (text_eq s t) (texts_eq ss ts) h in
    cc (text_eq→eq s t here, texts_eq_lem ss ts rest)
texts_eq_lem [] (t ∷ ts) h = absurd (cc h)
texts_eq_lem (s ∷ ss) [] h = absurd (cc h)

flag_eq_lem : (b c : Bool) → flag_eq b c ≡ true → b ≡ c
flag_eq_lem b c h = ground arith

value_eq_lem : (v w : Value) → value_eq v w ≡ true → v ≡ w
unfolding value_eq
value_eq_lem (number z) (number i) h = ap number (int_eq_lem z i h)
value_eq_lem (flag b) (flag c) h = ap flag (flag_eq_lem b c h)
value_eq_lem (real b s) (real c t) h =
    let (here, rest) = &&-split (flag_eq b c) (text_eq s t) h in
    cc (flag_eq_lem b c here, text_eq→eq s t rest)
value_eq_lem (text s) (text t) h = ap text (text_eq→eq s t h)
value_eq_lem (texts ss) (texts ts) h = ap texts (texts_eq_lem ss ts h)
value_eq_lem (numbers zs) (numbers is) h = ap numbers (ints_eq_lem zs is h)
value_eq_lem v w h = ground (arith, h)

-- A schema whose checks of texts return what they have returned, with whole numbers in the files of
-- single settings.
pub record IsSound (schema : Schema) (file_keys : List Text) : Type 0 where
  pub stable : (k : Text) (kind : Kind) → lookup k schema ≡ some kind → IsStable kind
  pub int_files :
      (k : Text)
      → any (text_eq k) file_keys ≡ true
      → (lo : ℤ) × ((hi : ℤ) × (lookup k schema ≡ some (int lo hi)))

module _ (schema : Schema) (file_keys : List Text) (check : Dict (Option Value) → Bool)
    (sound : IsSound schema file_keys) where
  abbrev rules : Rules Value
  rules = rules_of schema file_keys check

  again_lem : (k : Text) (v w : Value) → coerce schema k v ≡ some w → coerce schema k w ≡ some w
  unfolding coerce
  again_lem k v w e =
      let (kind, (found, h)) = when_some-cases (lookup k schema) (λ kind. coerce_kind kind v) w e in
      (coerce-IsOf schema k kind v w found (sound.stable k kind found) e).1

  -- The file of a whole number.
  int_file_lem :
      (k : Text) (lo hi z : ℤ) (t : Text)
      → lookup k schema ≡ some (int lo hi)
      → in_bounds lo hi z ≡ true
      → to_int? t ≡ some z
      → file_value rules k (some t) ≡ some (number z)
  unfolding coerce coerce_kind read_int to_int? signed strip lstrip rstrip
  int_file_lem k lo hi z [] found good e = absurd (cc e)
  int_file_lem k lo hi z (c ∷ t) found good e =
      ap (λ (o : Option Kind). when_some o (λ kind. coerce_kind kind (text (c ∷ t)))) found
      ∙ ap (λ (o : Option ℤ). when_some o (check_int lo hi)) e
      ∙ ap (λ (b : Bool). guarded b (number z)) good

  int_of_lem :
      (k : Text) (lo hi : ℤ) (w : Value)
      → lookup k schema ≡ some (int lo hi)
      → IsOf (int lo hi) w
      → file_value rules k (some (file_text w)) ≡ some w
  int_of_lem k lo hi w found (an_int lo' hi' z good) =
      int_file_lem k lo hi z (int_text z) found good (to_int?-int_text z)

  read_back_lem :
      (k : Text) (w : Value)
      → in_file rules k ≡ true
      → coerce schema k w ≡ some w
      → file_value rules k (some (file_text w)) ≡ some w
  read_back_lem k w f e =
      let (lo, (hi, found)) = sound.int_files k f in
      int_of_lem k lo hi w found
        (coerce-IsOf schema k (int lo hi) w w found (sound.stable k (int lo hi) found) e).0

  pub rules_of-IsLawful : IsLawful rules
  unfolding value_eq
  rules_of-IsLawful = record {
    again = again_lem;
    equal = λ k v w same e.
        subst (λ (x : Value). coerce schema k x ≡ some w) (sym (value_eq_lem v w same)) e;
    read_back = read_back_lem;
    files_known = λ k f. let (lo, (hi, found)) = sound.int_files k f in ap is_some found;
  }

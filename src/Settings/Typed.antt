-- ===== src/Settings/Typed.antt =====
-- `coerce` of gui_settings.py on what it has returned, and the types of its values.
use daq_control_vmm_beam.Base.{
  leb, Bool, true, false, Option, none, some, List, Text, text_eq, any, all, length, ◌≡◌, refl, ap,
  sym, ◌∙◌, subst, &&-split,
}
use daq_control_vmm_beam.Base.Int.{ℤ}
use daq_control_vmm_beam.Base.Dict.{lookup}
use daq_control_vmm_beam.Settings.Coerce.{
  Value, number, flag, real, text, texts, numbers, Kind, int, bool, choice, intlist, list, name,
  checked, strip, in_bounds, to_text?, when_some, guarded, int_eq, is_nonempty, no_repeats,
  check_choice, check_ints, check_texts, check_int, is_name_code, check_name, read_int, read_ints,
  read_texts, read_flag, coerce_kind, Schema, coerce,
}
use mathlib.Core.Option.{some-injective}
use daq_control_vmm_beam.Settings.Again.{strip_clean, name_clean}

pub when_some-cases :
    {A B : Type 0} (o : Option A) (next : A → Option B) (b : B)
    → when_some o next ≡ some b
    → (a : A) × ((o ≡ some a) × (next a ≡ some b))
when_some-cases none next b e = absurd (cc e)
when_some-cases (some a) next b e = (a, (refl, e))

guarded-some : {A : Type 0} (b : Bool) (a w : A) → guarded b a ≡ some w → (b ≡ true) × (a ≡ w)
guarded-some true a w e = (refl, some-injective _ _ e)
guarded-some false a w e = absurd (cc e)

-- A value that its kind returns as it is.
abbrev Returns : Kind → Value → Type 0
Returns kind v = coerce_kind kind v ≡ some v

-- What is checked is returned again, if the check of the value read is the same.
guarded-Returns :
    (kind : Kind) (b : Bool) (a w : Value)
    → (coerce_kind kind a ≡ guarded b a)
    → guarded b a ≡ some w
    → Returns kind w
guarded-Returns kind b a w e h =
    let (yes', same) = guarded-some b a w h in
    subst (Returns kind) same (e ∙ ap (λ (t : Bool). guarded t a) yes')

check_name-Returns : (s : Text) (w : Value) → check_name s ≡ some w → Returns name w
unfolding coerce_kind to_text?
check_name-Returns s w e =
    let (good, same) = guarded-some _ _ _ e in
    let codes_good = (&&-split _ _ (&&-split _ _ good).1).0 in
    subst (Returns name) same (
      ap check_name (strip_clean s (name_clean s codes_good))
      ∙ ap (λ (t : Bool). guarded t (text s)) good)

-- A path or an address that its check returns passes once more.
abbrev pub IsStable : Kind → Type 0
IsStable (checked check) = (s t : Text) → check s ≡ some t → check (strip t) ≡ some t
IsStable _ = Unit

read_flag-Returns : (v w : Value) → read_flag v ≡ some w → Returns bool w
unfolding coerce_kind read_flag
read_flag-Returns (text s) w e =
    let (good, same) = guarded-some _ _ _ e in subst (Returns bool) same refl
read_flag-Returns (number z) w e = subst (Returns bool) (some-injective _ _ e) refl
read_flag-Returns (flag b) w e = subst (Returns bool) (some-injective _ _ e) refl
read_flag-Returns (real b s) w e = subst (Returns bool) (some-injective _ _ e) refl
read_flag-Returns (texts ss) w e = subst (Returns bool) (some-injective _ _ e) refl
read_flag-Returns (numbers zs) w e = subst (Returns bool) (some-injective _ _ e) refl

pub coerce_kind-Returns :
    (kind : Kind) (v w : Value) → IsStable kind → coerce_kind kind v ≡ some w → Returns kind w
unfolding coerce_kind read_int read_ints read_texts to_text?
coerce_kind-Returns (int lo hi) v w st e =
    let (z, (r, h)) = when_some-cases (read_int v) (check_int lo hi) w e in
    guarded-Returns (int lo hi) _ _ w refl h
coerce_kind-Returns bool v w st e = read_flag-Returns v w e
coerce_kind-Returns (choice choices) v w st e =
    let (s, (r, h)) = when_some-cases (to_text? v) (check_choice choices) w e in
    guarded-Returns (choice choices) _ _ w refl h
coerce_kind-Returns (intlist lo hi) v w st e =
    let (zs, (r, h)) = when_some-cases (read_ints v) (check_ints lo hi) w e in
    guarded-Returns (intlist lo hi) _ _ w refl h
coerce_kind-Returns list v w st e =
    let (ss, (r, h)) = when_some-cases (read_texts v) check_texts w e in
    guarded-Returns list _ _ w refl h
coerce_kind-Returns name v w st e =
    let (s, (r, h)) = when_some-cases (to_text? v) (λ s. check_name (strip s)) w e in
    check_name-Returns (strip s) w h
coerce_kind-Returns (checked check) v w st e =
    let (s, (r, h)) =
      when_some-cases (to_text? v) (λ s. when_some (check (strip s)) (λ t. some (text t))) w e in
    let (t, (c, h')) = when_some-cases (check (strip s)) (λ t. some (text t)) w h in
    subst (Returns (checked check)) (some-injective _ _ h')
      (ap (λ (o : Option Text). when_some o (λ t. some (text t))) (st (strip s) t c))

-- The type and the bounds of a value of a kind.
pub data IsOf : Kind → Value → Type 0 where
  an_int : (lo hi z : ℤ) → in_bounds lo hi z ≡ true → IsOf (int lo hi) (number z)
  a_flag : (b : Bool) → IsOf bool (flag b)
  a_choice :
      (choices : List Text) (s : Text)
      → any (text_eq s) choices ≡ true
      → IsOf (choice choices) (text s)
  some_ints :
      (lo hi : ℤ) (zs : List ℤ)
      → is_nonempty zs ≡ true
      → all (in_bounds lo hi) zs ≡ true
      → no_repeats int_eq zs ≡ true
      → IsOf (intlist lo hi) (numbers zs)
  some_texts :
      (ss : List Text)
      → is_nonempty ss ≡ true
      → all is_nonempty ss ≡ true
      → no_repeats text_eq ss ≡ true
      → IsOf list (texts ss)
  a_name :
      (s : Text)
      → is_nonempty s ≡ true
      → all is_name_code s ≡ true
      → leb (length s) 80 ≡ true
      → IsOf name (text s)
  a_checked :
      (check : Text → Option Text) (s t : Text) → check s ≡ some t → IsOf (checked check) (text t)

read_flag-IsOf : (v w : Value) → read_flag v ≡ some w → IsOf bool w
unfolding read_flag
read_flag-IsOf (text s) w e =
    let (good, same) = guarded-some _ _ _ e in subst (IsOf bool) same (a_flag _)
read_flag-IsOf (number z) w e = subst (IsOf bool) (some-injective _ _ e) (a_flag _)
read_flag-IsOf (flag b) w e = subst (IsOf bool) (some-injective _ _ e) (a_flag _)
read_flag-IsOf (real b s) w e = subst (IsOf bool) (some-injective _ _ e) (a_flag _)
read_flag-IsOf (texts ss) w e = subst (IsOf bool) (some-injective _ _ e) (a_flag _)
read_flag-IsOf (numbers zs) w e = subst (IsOf bool) (some-injective _ _ e) (a_flag _)

coerce_kind-IsOf : (kind : Kind) (v w : Value) → coerce_kind kind v ≡ some w → IsOf kind w
unfolding coerce_kind
coerce_kind-IsOf (int lo hi) v w e =
    let (z, (r, h)) = when_some-cases (read_int v) (check_int lo hi) w e in
    let (good, same) = guarded-some _ _ _ h in subst (IsOf (int lo hi)) same (an_int lo hi z good)
coerce_kind-IsOf bool v w e = read_flag-IsOf v w e
coerce_kind-IsOf (choice choices) v w e =
    let (s, (r, h)) = when_some-cases (to_text? v) (check_choice choices) w e in
    let (good, same) = guarded-some _ _ _ h in
    subst (IsOf (choice choices)) same (a_choice choices s good)
coerce_kind-IsOf (intlist lo hi) v w e =
    let (zs, (r, h)) = when_some-cases (read_ints v) (check_ints lo hi) w e in
    let (good, same) = guarded-some _ _ _ h in
    let (filled, more) = &&-split _ _ good in
    let (bounded, once) = &&-split _ _ more in
    subst (IsOf (intlist lo hi)) same (some_ints lo hi zs filled bounded once)
coerce_kind-IsOf list v w e =
    let (ss, (r, h)) = when_some-cases (read_texts v) check_texts w e in
    let (good, same) = guarded-some _ _ _ h in
    let (filled, more) = &&-split _ _ good in
    let (each, once) = &&-split _ _ more in subst (IsOf list) same (some_texts ss filled each once)
coerce_kind-IsOf name v w e =
    let (s, (r, h)) = when_some-cases (to_text? v) (λ s. check_name (strip s)) w e in
    let (good, same) = guarded-some _ _ _ h in
    let (filled, more) = &&-split _ _ good in
    let (each, short) = &&-split _ _ more in
    subst (IsOf name) same (a_name (strip s) filled each short)
coerce_kind-IsOf (checked check) v w e =
    let (s, (r, h)) =
      when_some-cases (to_text? v) (λ s. when_some (check (strip s)) (λ t. some (text t))) w e in
    let (t, (c, h')) = when_some-cases (check (strip s)) (λ t. some (text t)) w h in
    subst (IsOf (checked check)) (some-injective _ _ h') (a_checked check (strip s) t c)

-- Whatever value `coerce` is given for a setting, what it returns is of the type of this setting, within
-- its bounds or among its choices, without repeats, and `coerce` returns it once more as it is, if the
-- checks of paths and addresses return what they have returned.
pub coerce-IsOf :
    (schema : Schema) (k : Text) (kind : Kind) (v w : Value)
    → lookup k schema ≡ some kind
    → IsStable kind
    → coerce schema k v ≡ some w
    → IsOf kind w × (coerce schema k w ≡ some w)
unfolding coerce
coerce-IsOf schema k kind v w found stable e =
    let (kind', (found', h)) = when_some-cases (lookup k schema) (λ kind. coerce_kind kind v) w e in
    let same : kind' ≡ kind = some-injective _ _ (sym found' ∙ found) in
    let h' = subst (λ (x : Kind). coerce_kind x v ≡ some w) same h in
    (
      coerce_kind-IsOf kind v w h',
      ap (λ (o : Option Kind). when_some o (λ x. coerce_kind x w)) found
          ∙ coerce_kind-Returns kind v w stable h',
    )

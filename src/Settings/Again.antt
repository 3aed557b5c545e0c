-- ===== src/Settings/Again.antt =====
-- Numbers written and read again, and texts without blanks, for `coerce` of gui_settings.py.
use daq_control_vmm_beam.Base.{
  ℕ, zero, suc, ◌+◌, ◌-◌, ◌*◌, ◌/◌, ◌%◌, ◌<◌, ltb, Bool, true, false, not, some, [], ◌∷◌, Text,
  is_digit, all, ◌≡◌, refl, ap, ◌∙◌, arith, &&-split, if-elim,
}
use daq_control_vmm_beam.Base.Int.{ℤ, pos, negsuc}
use daq_control_vmm_beam.Numbering.Names.{digits}
use daq_control_vmm_beam.Settings.Coerce.{
  is_blank_code, lstrip, put_unless_blank, rstrip, strip, int_digits, signed, to_int?, int_text,
  as_pos, as_negated, is_name_code,
}

-- A text without blanks stays as it is.
abbrev is_clean : Text → Bool
is_clean s = all (λ c. not (is_blank_code c)) s

last_clean : (c : ℕ) (s : Text) → not (is_blank_code c) ≡ true → put_unless_blank c s ≡ c ∷ s
last_clean c [] h = ground (arith, h)
last_clean c (d ∷ s) h = refl

rstrip_clean : (s : Text) → is_clean s ≡ true → rstrip s ≡ s
unfolding rstrip
rstrip_clean [] h = refl
rstrip_clean (c ∷ s) h =
    let (black, rest) = &&-split _ _ h in
    ap (put_unless_blank c) (rstrip_clean s rest) ∙ last_clean c s black

lstrip_clean : (s : Text) → is_clean s ≡ true → lstrip s ≡ s
unfolding lstrip
lstrip_clean [] h = refl
lstrip_clean (c ∷ s) h = ground (arith, h)

pub strip_clean : (s : Text) → is_clean s ≡ true → strip s ≡ s
unfolding strip
strip_clean s h = ap rstrip (lstrip_clean s h) ∙ rstrip_clean s h

pub name_clean : (s : Text) → all is_name_code s ≡ true → is_clean s ≡ true
name_clean [] h = refl
name_clean (c ∷ s) h = ground (arith, name_clean s, h)

digits_clean : (s : Text) → all is_digit s ≡ true → is_clean s ≡ true
digits_clean [] h = refl
digits_clean (c ∷ s) h = ground (arith, digits_clean s, h)

-- One digit more is read.
int_digits_digit :
    (m d k : ℕ) (ready : Bool) (s : Text)
    → d < 10
    → m * 10 + d ≡ k
    → int_digits m ready ((b'0' + d) ∷ s) ≡ int_digits k true s
unfolding int_digits
int_digits_digit m d k ready s lt e =
    let good : is_digit (b'0' + d) ≡ true = ground arith in
    let there : m * 10 + (b'0' + d - b'0') ≡ k = omega (arith, e) in
    ground (arith, good, ap (λ (i : ℕ). int_digits i true s) there)

-- The digits of a number, read again.
int_digits-digits :
    (fuel n : ℕ) (ready : Bool) (acc : Text)
    → n < fuel
    → int_digits 0 ready (digits fuel n acc) ≡ int_digits n true acc
unfolding digits
int_digits-digits zero n ready acc lt = absurd (omega arith)
int_digits-digits (suc fuel) n ready acc lt =
    if-elim (λ (t : Text). int_digits 0 ready t ≡ int_digits n true acc) (ltb n 10)
      ((b'0' + n) ∷ acc) (digits fuel (n / 10) ((b'0' + n % 10) ∷ acc))
      (λ small. int_digits_digit 0 n n ready acc (ground arith) (omega arith))
      (λ large.
        int_digits-digits fuel (n / 10) ready ((b'0' + n % 10) ∷ acc) (ground arith)
        ∙ int_digits_digit (n / 10) (n % 10) n true acc (omega arith) (omega arith))

digits_are_digits :
    (fuel n : ℕ) (acc : Text) → all is_digit acc ≡ true → all is_digit (digits fuel n acc) ≡ true
unfolding digits
digits_are_digits zero n acc h = h
digits_are_digits (suc fuel) n acc h =
    ground (arith, h, digits_are_digits fuel (n / 10) ((b'0' + n % 10) ∷ acc))

signed_digits :
    (t : Text) (n : ℕ)
    → all is_digit t ≡ true
    → int_digits 0 false t ≡ some n
    → signed t ≡ some (pos n)
unfolding signed int_digits
signed_digits [] n h e = absurd (cc e)
signed_digits (c ∷ t) n h e = ground (arith, h, e, ap as_pos e)

-- `int(str(z))`
pub to_int?-int_text : (z : ℤ) → to_int? (int_text z) ≡ some z
unfolding to_int? signed int_digits
to_int?-int_text (pos n) =
    let t = digits (suc n) n [] in
    let all_digits = digits_are_digits (suc n) n [] refl in
    ap signed (strip_clean t (digits_clean t all_digits))
    ∙ signed_digits t n all_digits (int_digits-digits (suc n) n false [] (omega arith))
to_int?-int_text (negsuc n) =
    let t = digits (suc (suc n)) (suc n) [] in
    let all_digits = digits_are_digits (suc (suc n)) (suc n) [] refl in
    ap signed (strip_clean (b'-' ∷ t) (digits_clean t all_digits))
    ∙ ap as_negated (int_digits-digits (suc (suc n)) (suc n) false [] (omega arith))

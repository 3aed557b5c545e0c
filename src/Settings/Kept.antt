-- ===== src/Settings/Kept.antt =====
-- What one change of `save` makes of every setting.
use daq_control_vmm_beam.Base.{
  true, false, not, ◌&&◌, Option, none, some, if◌then◌else◌, Text, text_eq, text_eq_iff,
  text_eq_refl, ◌≡◌, refl, ap, ◌∙◌, arith, Bool-cases, inl, inr,
}
use daq_control_vmm_beam.Base.Dict.{Dict, lookup, lookup-put, lookup-pop}
use daq_control_vmm_beam.Settings.Store.{
  Rules, same_option, Store, in_file, coerced, put_value, put_file, apply_change,
}
use daq_control_vmm_beam.Settings.Overrides.{IsLawful, override}

-- The text of a value in its file.
abbrev written : {V : Type 0} → Rules V → Option V → Option Text
written rules none = none
written rules (some w) = some (rules.shown w)

module _ {V : Type 0} (rules : Rules V) (lawful : IsLawful rules) (k : Text)
    (known : rules.known k ≡ true) where
  -- A value that passes `coerce` as it is, or a reset.
  abbrev pub IsTyped : Option V → Type 0
  IsTyped none = Unit
  IsTyped (some w) = rules.coerce k w ≡ some w

  -- A change that is passed over finds the value in force already.
  same-coerced : (o v : Option V) → same_option rules o v ≡ true → IsTyped v → coerced rules k o ≡ v
  same-coerced none none h t = refl
  same-coerced none (some w) h t = absurd (cc h)
  same-coerced (some o) none h t = absurd (cc h)
  same-coerced (some o) (some w) h t = lawful.equal k o w h t

  -- A change to a file of its own.
  file-coerced :
      (v : Option V)
      → in_file rules k ≡ true
      → IsTyped v
      → coerced rules k (override rules k (written rules v) none) ≡ v
  file-coerced none f t = ground (arith, known, f)
  file-coerced (some w) f t =
      let e : override rules k (some (rules.shown w)) none ≡ some w =
        ground (arith, known, f, lawful.read_back k w f t) in
      ap (coerced rules k) e ∙ t

  -- A change to the common file.
  common-coerced :
      (v : Option V) (file : Option Text)
      → in_file rules k ≡ false
      → IsTyped v
      → coerced rules k (override rules k file v) ≡ v
  common-coerced none file f t = ground (arith, known, f)
  common-coerced (some w) file f t =
      let e : override rules k file (some w) ≡ some w = ground (arith, known, f) in
      ap (coerced rules k) e ∙ t

module _ {V : Type 0} (rules : Rules V) where
  put_value_lem :
      (k j : Text) (v : Option V) (d : Dict V)
      → lookup j (put_value rules k v d) ≡ (if text_eq k j then v else lookup j d)
  put_value_lem k j none d = lookup-pop k j d
  put_value_lem k j (some w) d = lookup-put k j w d

  put_file_lem :
      (k j : Text) (v : Option V) (d : Dict Text)
      → lookup j (put_file rules k v d) ≡ (if text_eq k j then written rules v else lookup j d)
  put_file_lem k j none d = lookup-pop k j d
  put_file_lem k j (some w) d = lookup-put k j (rules.shown w) d

  apply_change-values :
      (current : Dict V) (k j : Text) (v : Option V) (st : Store V)
      → lookup j (apply_change rules current k v st).values ≡ (
          if text_eq k j && (not (same_option rules (lookup k current) v) && not (in_file rules k))
          then v
          else lookup j st.values)
  unfolding apply_change
  apply_change-values current k j v st = ground (arith, put_value_lem k j v st.values)

  apply_change-files :
      (current : Dict V) (k j : Text) (v : Option V) (st : Store V)
      → lookup j (apply_change rules current k v st).files ≡ (
          if text_eq k j && (not (same_option rules (lookup k current) v) && in_file rules k)
          then written rules v
          else lookup j st.files)
  unfolding apply_change
  apply_change-files current k j v st = ground (arith, put_file_lem k j v st.files)

  -- Settings with a file of their own do not stand in the common file.
  abbrev pub IsTidy : Store V → Type 0
  IsTidy st = (k : Text) → in_file rules k ≡ true → lookup k st.values ≡ none

  pub apply_change-IsTidy :
      (current : Dict V) (k : Text) (v : Option V) (st : Store V)
      → IsTidy st
      → IsTidy (apply_change rules current k v st)
  apply_change-IsTidy current k v st tidy j f =
      ground (arith, apply_change-values current k j v st, text_eq_iff k j, tidy j f, f)

  -- What is in force for a key, from what is looked up for it.
  abbrev pub in_force_for : Text → Store V → Option V
  in_force_for k st = override rules k (lookup k st.files) (lookup k st.values)

  -- A change leaves what is in force for the other keys.
  pub apply_change-others :
      (current : Dict V) (k j : Text) (v : Option V) (st : Store V)
      → text_eq k j ≡ false
      → in_force_for j (apply_change rules current k v st) ≡ in_force_for j st
  apply_change-others current k j v st other =
      ground
        (arith, other, apply_change-values current k j v st, apply_change-files current k j v st)

  -- At its own key it is in force afterwards, if the overrides say what was in force.
  pub apply_change-coerced :
      (lawful : IsLawful rules) (current : Dict V) (k : Text) (v : Option V) (st : Store V)
      → (known : rules.known k ≡ true) → IsTidy st
      → IsTyped rules lawful k known v
      → lookup k current ≡ in_force_for k st
      → coerced rules k (in_force_for k (apply_change rules current k v st)) ≡ v
  apply_change-coerced lawful current k v st known tidy typed e =
      let values = apply_change-values current k k v st in
      let files = apply_change-files current k k v st in
      let same = same_option rules (lookup k current) v in
      let st' = apply_change rules current k v st in
      elim (Bool-cases same) [
        | inl found ↦
            let kept : in_force_for k st' ≡ lookup k current =
              ground (arith, found, values, files, e) in
            ap (coerced rules k) kept
            ∙ same-coerced rules lawful k known (lookup k current) v found typed
        | inr new ↦ elim (Bool-cases (in_file rules k)) [
          | inl f ↦
              let put : in_force_for k st' ≡ override rules k (written rules v) none =
                ground (arith, new, f, values, files, text_eq_refl k, tidy k f) in
              ap (coerced rules k) put ∙ file-coerced rules lawful k known v f typed
          | inr f ↦
              let put : in_force_for k st' ≡ override rules k (lookup k st.files) v =
                ground (arith, new, f, values, files, text_eq_refl k) in
              ap (coerced rules k) put
              ∙ common-coerced rules lawful k known v (lookup k st.files) f typed
        ]
      ]

-- ===== src/Settings/Overrides.antt =====
-- The overrides of the settings, key by key.
use daq_control_vmm_beam.Base.{
  true, ◌||◌, Option, none, some, List, [], ◌∷◌, if◌then◌else◌, Text, text_eq, text_eq_iff,
  text_eq→eq, text_eq_refl, any, ◌≡◌, refl, sym, arith, Bool-cases, inl, inr, subst,
}
use daq_control_vmm_beam.Base.Dict.{Dict, lookup, lookup-put}
use daq_control_vmm_beam.Settings.Store.{
  Rules, Store, in_file, file_value, put_some, with_files, known_only, overrides,
}

-- What `coerce` and the files owe to `save`: a typed value passes once more unchanged, a value that
-- Python finds equal to a typed one passes as this one, and so does a value read back from its file.
pub record IsLawful {V : Type 0} (rules : Rules V) : Type 0 where
  pub again : (k : Text) (v w : V) → rules.coerce k v ≡ some w → rules.coerce k w ≡ some w
  pub equal :
      (k : Text) (v w : V)
      → rules.same v w ≡ true
      → rules.coerce k w ≡ some w
      → rules.coerce k v ≡ some w
  pub read_back :
      (k : Text) (w : V)
      → in_file rules k ≡ true
      → rules.coerce k w ≡ some w
      → file_value rules k (some (rules.shown w)) ≡ some w
  pub files_known : (k : Text) → in_file rules k ≡ true → rules.known k ≡ true

module _ {V : Type 0} (rules : Rules V) where
  -- The override of a key.
  abbrev pub or_else : Option V → Option V → Option V
  or_else (some v) _ = some v
  or_else none w = w

  abbrev pub override : Text → Option Text → Option V → Option V
  override k file v =
      if rules.known k
      then if in_file rules k then or_else (file_value rules k file) v else v
      else none

  put_some_lem :
      (j k : Text) (o : Option V) (d : Dict V)
      → lookup j (put_some rules k o d)
        ≡ (if text_eq k j then or_else o (lookup j d) else lookup j d)
  put_some_lem j k none d = ground arith
  put_some_lem j k (some v) d = ground (arith, lookup-put k j v d)

  or_else_twice : (o v : Option V) → or_else o (or_else o v) ≡ or_else o v
  or_else_twice none v = refl
  or_else_twice (some w) v = refl

  with_files_lem :
      (files : Dict Text) (ks : List Text) (d : Dict V) (j : Text)
      → lookup j (with_files rules files ks d) ≡ (
          if any (text_eq j) ks
          then or_else (file_value rules j (lookup j files)) (lookup j d)
          else lookup j d)
  unfolding with_files
  with_files_lem files [] d j = refl
  with_files_lem files (k ∷ ks) d j =
      let o = file_value rules k (lookup k files) in
      elim (Bool-cases (text_eq j k)) [
        | inl same ↦
            subst
              (λ (i : Text). lookup i (with_files rules files ks (put_some rules k o d)) ≡ (
                if text_eq i k || any (text_eq i) ks
                then or_else (file_value rules i (lookup i files)) (lookup i d)
                else lookup i d))
              (sym (text_eq→eq j k same))
              (ground (
                arith,
                text_eq_refl k,
                put_some_lem k k o d,
                or_else_twice o (lookup k d),
                with_files_lem files ks (put_some rules k o d) k,
              ))
        | inr other ↦ ground (
          arith,
          text_eq_iff j k,
          text_eq_iff k j,
          other,
          put_some_lem j k o d,
          with_files_lem files ks (put_some rules k o d) j,
        )
      ]

  known_only_lem :
      (d : Dict V) (j : Text)
      → lookup j (known_only rules d) ≡ (if rules.known j then lookup j d else none)
  unfolding known_only lookup
  known_only_lem [] j = ground arith
  known_only_lem ((k, v) ∷ d) j = ground (arith, text_eq_iff k j, known_only_lem d j)

  pub overrides_lem :
      (st : Store V) (j : Text)
      → ((k : Text) → in_file rules k ≡ true → rules.known k ≡ true)
      → lookup j (overrides rules st) ≡ override j (lookup j st.files) (lookup j st.values)
  unfolding overrides
  overrides_lem st j files_known = ground (
    arith,
    files_known j,
    known_only_lem st.values j,
    with_files_lem st.files rules.file_keys (known_only rules st.values) j,
  )

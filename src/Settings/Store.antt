-- ===== src/Settings/Store.antt =====
-- gui_settings.py: `overrides`, `value` and `save`, over values of any kind.
use daq_control_vmm_beam.Base.{
  Bool, true, false, not, Option, none, some, List, [], ◌∷◌, ◌++◌, if◌then◌else◌, Text, text_eq,
  any, keep,
}
use daq_control_vmm_beam.Base.Dict.{Dict, lookup, put, pop}

-- What SCHEMA and `coerce` say of the settings, and how a value is written to a file of its own and read
-- back: `known` and `file_keys` are the keys of SCHEMA, `is_blank` is `v == ''`, and `check` is
-- whether `check_together` finds nothing wrong.
pub record Rules (V : Type 0) : Type 0 where
  pub known : Text → Bool
  pub file_keys : List Text
  pub coerce : Text → V → Option V
  pub is_blank : V → Bool
  pub same : V → V → Bool
  pub shown : V → Text
  pub of_text : Text → V
  pub check : Dict (Option V) → Bool

-- `old == v`, with None for a value that is not there.
abbrev pub same_option : {V : Type 0} → Rules V → Option V → Option V → Bool
same_option rules none none = true
same_option rules (some v) (some w) = rules.same v w
same_option rules _ _ = false

-- gui_settings.json, the files of single settings with their text stripped, and the history with the
-- last entry last: a key, its old and its new value.
pub record Store (V : Type 0) : Type 0 where
  pub values : Dict V
  pub files : Dict Text
  pub history : List (Text × Option V × Option V)

module _ {V : Type 0} (rules : Rules V) where
  abbrev pub in_file : Text → Bool
  in_file k = any (text_eq k) rules.file_keys

  -- The value in a file of its own: none without a text, or where it does not pass `coerce`.
  abbrev pub file_value : Text → Option Text → Option V
  file_value k none = none
  file_value k (some []) = none
  file_value k (some (c ∷ s)) = rules.coerce k (rules.of_text (c ∷ s))

  abbrev pub put_some : Text → Option V → Dict V → Dict V
  put_some k none d = d
  put_some k (some v) d = put k v d

  unfoldable pub with_files : Dict Text → List Text → Dict V → Dict V
  with_files files [] d = d
  with_files files (k ∷ ks) d = with_files files ks (put_some k (file_value k (lookup k files)) d)

  unfoldable pub known_only : Dict V → Dict V
  known_only d = keep (λ e. rules.known e.0) d

  -- `overrides`
  unfoldable pub overrides : Store V → Dict V
  overrides st = with_files st.files rules.file_keys (known_only st.values)

  abbrev pub or_default : Option V → V → V
  or_default none default = default
  or_default (some v) default = v

  abbrev pub coerced : Text → Option V → Option V
  coerced k none = none
  coerced k (some v) = rules.coerce k v

  -- `value`
  unfoldable pub value : Text → V → Store V → V
  value k default st = or_default (coerced k (lookup k (overrides st))) default

  -- A change once it is checked: an error, or the typed value, none for a reset.
  abbrev pub as_change : Option V → Option (Option V)
  as_change none = none
  as_change (some w) = some (some w)

  abbrev pub typed_change : Text → Option V → Option (Option V)
  typed_change k none = if rules.known k then some none else none
  typed_change k (some v) =
      if not (rules.known k)
      then none
      else if rules.is_blank v
      then some none
      else as_change (rules.coerce k v)

  abbrev pub add_typed :
      Text → Option (Option V) → Option (Dict (Option V)) → Option (Dict (Option V))
  add_typed k (some v) (some typed) = some ((k, v) ∷ typed)
  add_typed k _ _ = none

  -- The first loop of `save`: none where any change has an error.
  unfoldable pub type_changes : Dict (Option V) → Option (Dict (Option V))
  type_changes [] = some []
  type_changes ((k, v) ∷ changes) = add_typed k (typed_change k v) (type_changes changes)

  -- The values that would be in force.
  abbrev pub in_force : Text → Option V → Dict V → Dict (Option V) → Option V
  in_force k (some v) defaults after = some v
  in_force k none defaults after = elim (lookup k defaults) [
    | some v ↦ some v
    | none ↦ elim (lookup k after) [ some v ↦ v | none ↦ none ]
  ]

  unfoldable pub overlay : Dict V → Dict (Option V) → Dict (Option V) → Dict (Option V)
  overlay defaults [] after = after
  overlay defaults ((k, v) ∷ typed) after =
      overlay defaults typed (put k (in_force k v defaults after) after)

  abbrev pub put_value : Text → Option V → Dict V → Dict V
  put_value k none d = pop k d
  put_value k (some v) d = put k v d

  abbrev pub put_file : Text → Option V → Dict Text → Dict Text
  put_file k none d = pop k d
  put_file k (some v) d = put k (rules.shown v) d

  -- One change in the second loop; `current` are the overrides before it.
  unfoldable pub apply_change : Dict V → Text → Option V → Store V → Store V
  apply_change current k v st = if same_option rules (lookup k current) v then st else record {
    values = if in_file k then st.values else put_value k v st.values;
    files = if in_file k then put_file k v st.files else st.files;
    history = st.history ++ ((k, lookup k current, v) ∷ []);
  }

  unfoldable pub apply_changes : Dict V → Dict (Option V) → Store V → Store V
  apply_changes current [] st = st
  apply_changes current ((k, v) ∷ typed) st =
      apply_changes current typed (apply_change current k v st)

  -- How `save` ends: with an error, or with the store as it is then.
  pub data Saved : Type 0 where
    refused : Saved
    saved : Store V → Saved

  abbrev pub save_typed : Dict V → Dict (Option V) → Option (Dict (Option V)) → Store V → Saved
  save_typed defaults effective none st = refused
  save_typed defaults effective (some typed) st =
      if rules.check (overlay defaults typed effective)
      then saved (apply_changes (overrides st) typed st)
      else refused

  -- `save`
  unfoldable pub save : Dict V → Dict (Option V) → Dict (Option V) → Store V → Saved
  save defaults effective changes st = save_typed defaults effective (type_changes changes) st

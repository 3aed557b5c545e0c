-- ===== src/Settings/Saved.antt =====
-- `save` as a whole.
use daq_control_vmm_beam.Base.{
  true, false, Option, none, some, Text, ◌≡◌, refl, ap, sym, ◌∙◌, if-elim,
}
use daq_control_vmm_beam.Base.Dict.{Dict, lookup, NodupKeys}
use daq_control_vmm_beam.Settings.Store.{
  Rules, Store, overrides, or_default, coerced, value, typed_change, type_changes, overlay,
  apply_changes, Saved, refused, saved, save_typed, save,
}
use daq_control_vmm_beam.Settings.Overrides.{IsLawful, overrides_lem}
use daq_control_vmm_beam.Settings.Kept.{IsTidy, in_force_for}
use daq_control_vmm_beam.Settings.Changed.{
  apply_changes-IsTidy, apply_changes-others, apply_changes-coerced, typed_change-known,
  typed_change-coerced, typed_of, type_changes-lookup, type_changes-NodupKeys, type_changes-typed,
}

module _ {V : Type 0} (rules : Rules V) where
  -- What `value` is to be: the typed change, or the default after a reset.
  abbrev pub chosen : Option (Option V) → V → V
  chosen none default = default
  chosen (some v) default = or_default rules v default

  abbrev pub changed_value : Text → V → Option (Option V) → Store V → V
  changed_value k default none st = value rules k default st
  changed_value k default (some c) st = chosen (typed_change rules k c) default

  -- How `save` may end: with an error in a change or in their combination, or with each setting as it
  -- is to be.
  pub data IsSaved (defaults : Dict V) (effective changes : Dict (Option V)) (st : Store V)
      : Saved rules → Type 0 where
    bad_change : type_changes rules changes ≡ none → IsSaved defaults effective changes st refused
    bad_together :
        (typed : Dict (Option V))
        → type_changes rules changes ≡ some typed
        → rules.check (overlay rules defaults typed effective) ≡ false
        → IsSaved defaults effective changes st refused
    all_changed :
        (typed : Dict (Option V)) (st' : Store V)
        → type_changes rules changes ≡ some typed
        → rules.check (overlay rules defaults typed effective) ≡ true
        → IsTidy rules st'
        → ((k : Text) (default : V)
            → value rules k default st' ≡ changed_value k default (lookup k changes) st)
        → IsSaved defaults effective changes st (saved st')

  module _ (lawful : IsLawful rules) where
    value-in_force :
        (k : Text) (default : V) (st : Store V)
        → value rules k default st
          ≡ or_default rules (coerced rules k (in_force_for rules k st)) default
    unfolding value
    value-in_force k default st =
        ap (λ (o : Option V). or_default rules (coerced rules k o) default)
          (overrides_lem rules st k lawful.files_known)

    saved_value :
        (changes typed : Dict (Option V)) (st : Store V) (k : Text) (default : V)
        (c : Option (Option V))
        → NodupKeys typed
        → IsTidy rules st
        → lookup k changes ≡ c
        → lookup k typed ≡ typed_of rules lawful k c
        → type_changes rules changes ≡ some typed
        → value rules k default (apply_changes rules (overrides rules st) typed st)
          ≡ changed_value k default c st
    saved_value changes typed st k default none u tidy at_k e t =
        value-in_force k default _
        ∙ ap (λ (o : Option V). or_default rules (coerced rules k o) default)
            (apply_changes-others rules (overrides rules st) typed k st e)
        ∙ sym (value-in_force k default st)
    saved_value changes typed st k default (some c) u tidy at_k e t =
        let (v, is_v) = type_changes-typed rules lawful changes typed k c t at_k in
        value-in_force k default _
        ∙ ap (λ (o : Option V). or_default rules o default)
            (apply_changes-coerced rules lawful (overrides rules st) typed k v st u tidy
              (typed_change-known rules lawful k c v is_v)
              (typed_change-coerced rules lawful k c v is_v)
              (overrides_lem rules st k lawful.files_known) (e ∙ is_v))
        ∙ sym (ap (λ (o : Option (Option V)). chosen o default) is_v)

    typed-IsSaved :
        (defaults : Dict V) (effective changes : Dict (Option V)) (st : Store V)
        (o : Option (Dict (Option V)))
        → NodupKeys changes
        → IsTidy rules st
        → type_changes rules changes ≡ o
        → IsSaved defaults effective changes st (save_typed rules defaults effective o st)
    typed-IsSaved defaults effective changes st none u tidy e = bad_change e
    typed-IsSaved defaults effective changes st (some typed) u tidy e =
        if-elim (IsSaved defaults effective changes st)
          (rules.check (overlay rules defaults typed effective))
          (saved (apply_changes rules (overrides rules st) typed st)) refused
          (λ good.
            all_changed typed _ e good
              (apply_changes-IsTidy rules (overrides rules st) typed st tidy)
              (λ k default.
                saved_value changes typed st k default (lookup k changes)
                  (type_changes-NodupKeys rules lawful changes typed u e) tidy refl
                  (type_changes-lookup rules lawful changes typed k e) e))
          (λ bad. bad_together typed e bad)

-- Where the typed values of the schema pass once more and come back from their files, `save` takes
-- changes of different keys on only if each of them and their combination is in order. Then every
-- setting that was changed has its typed value from now on, every one that was reset has the default of
-- the code, every other one is as it was, and no setting with a file of its own stands in the common
-- file, if none did before.
pub save-IsSaved :
    {V : Type 0} (rules : Rules V) (defaults : Dict V) (effective changes : Dict (Option V))
    (st : Store V)
    → IsLawful rules
    → NodupKeys changes
    → IsTidy rules st
    → IsSaved rules defaults effective changes st (save rules defaults effective changes st)
unfolding save
save-IsSaved rules defaults effective changes st lawful u tidy =
    typed-IsSaved rules lawful defaults effective changes st (type_changes rules changes) u tidy
      refl

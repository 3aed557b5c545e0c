-- ===== src/Settings/Changed.antt =====
-- What `save` makes of every setting.
use daq_control_vmm_beam.Base.{
  true, Option, none, some, [], ◌∷◌, if◌then◌else◌, Text, text_eq, text_eq→eq, ◌≡◌, refl, ap, sym,
  ◌∙◌, arith, Bool-cases, inl, inr, subst,
}
use daq_control_vmm_beam.Base.Dict.{Dict, lookup, NodupKeys}
use daq_control_vmm_beam.Settings.Store.{
  Rules, Store, coerced, as_change, typed_change, add_typed, type_changes, apply_change,
  apply_changes,
}
use daq_control_vmm_beam.Settings.Overrides.{IsLawful}
use daq_control_vmm_beam.Settings.Kept.{
  IsTyped, IsTidy, in_force_for, apply_change-IsTidy, apply_change-others, apply_change-coerced,
}
use mathlib.Core.Option.{some-injective}

module _ {V : Type 0} (rules : Rules V) where
  pub apply_changes-IsTidy :
      (current : Dict V) (typed : Dict (Option V)) (st : Store V)
      → IsTidy rules st
      → IsTidy rules (apply_changes rules current typed st)
  unfolding apply_changes
  apply_changes-IsTidy current [] st tidy = tidy
  apply_changes-IsTidy current ((k, v) ∷ typed) st tidy =
      apply_changes-IsTidy current typed (apply_change rules current k v st)
        (apply_change-IsTidy rules current k v st tidy)

  pub apply_changes-others :
      (current : Dict V) (typed : Dict (Option V)) (j : Text) (st : Store V)
      → lookup j typed ≡ none
      → in_force_for rules j (apply_changes rules current typed st) ≡ in_force_for rules j st
  unfolding apply_changes lookup
  apply_changes-others current [] j st h = refl
  apply_changes-others current ((k, v) ∷ typed) j st h = elim (Bool-cases (text_eq k j)) [
    | inl same ↦ absurd (ground (arith, same, h))
    | inr other ↦
        apply_changes-others current typed j (apply_change rules current k v st)
          (ground (arith, other, h))
        ∙ apply_change-others rules current k j v st other
  ]

  module _ (lawful : IsLawful rules) where
    pub typed_change-known :
        (k : Text) (c v : Option V) → typed_change rules k c ≡ some v → rules.known k ≡ true
    typed_change-known k none v e = ground (arith, e)
    typed_change-known k (some w) v e = ground (arith, e)

    as_change-coerced :
        (k : Text) (w : V) (o v : Option V)
        → rules.coerce k w ≡ o
        → as_change rules o ≡ some v
        → coerced rules k v ≡ v
    as_change-coerced k w none v c e = absurd (cc e)
    as_change-coerced k w (some x) v c e =
        subst (λ (u : Option V). coerced rules k u ≡ u) (some-injective _ _ e)
          (lawful.again k w x c)

    reset-coerced : (k : Text) (v : Option V) → some none ≡ some v → coerced rules k v ≡ v
    reset-coerced k v e =
        subst (λ (u : Option V). coerced rules k u ≡ u) (some-injective _ _ e) refl

    pub typed_change-coerced :
        (k : Text) (c v : Option V) → typed_change rules k c ≡ some v → coerced rules k v ≡ v
    typed_change-coerced k none v e =
        reset-coerced k v (ground (arith, e, typed_change-known k none v e))
    typed_change-coerced k (some w) v e = elim (Bool-cases (rules.is_blank w)) [
      | inl blank ↦ reset-coerced k v (ground (arith, e, blank, typed_change-known k (some w) v e))
      | inr filled ↦
          as_change-coerced k w (rules.coerce k w) v refl
            (ground (arith, e, filled, typed_change-known k (some w) v e))
    ]

    coerced-IsTyped :
        (k : Text) (known : rules.known k ≡ true) (v : Option V)
        → coerced rules k v ≡ v
        → IsTyped rules lawful k known v
    coerced-IsTyped k known none h = tt
    coerced-IsTyped k known (some w) h = h

    head-coerced :
        (current : Dict V) (typed : Dict (Option V)) (k : Text) (w : Option V) (st : Store V)
        → lookup k typed ≡ none
        → IsTidy rules st
        → rules.known k ≡ true
        → coerced rules k w ≡ w
        → lookup k current ≡ in_force_for rules k st
        → coerced rules k (
            in_force_for rules k
              (apply_changes rules current typed (apply_change rules current k w st)))
          ≡ w
    head-coerced current typed k w st fresh tidy known t e =
        ap (coerced rules k)
          (apply_changes-others current typed k (apply_change rules current k w st) fresh)
        ∙ apply_change-coerced rules lawful current k w st known tidy (coerced-IsTyped k known w t)
            e

    pub apply_changes-coerced :
        (current : Dict V) (typed : Dict (Option V)) (j : Text) (v : Option V) (st : Store V)
        → NodupKeys typed
        → IsTidy rules st
        → rules.known j ≡ true
        → coerced rules j v ≡ v
        → lookup j current ≡ in_force_for rules j st
        → lookup j typed ≡ some v
        → coerced rules j (in_force_for rules j (apply_changes rules current typed st)) ≡ v
    unfolding apply_changes lookup
    apply_changes-coerced current [] j v st u tidy known t e h = absurd (cc h)
    apply_changes-coerced current ((k, w) ∷ typed) j v st (fresh, u) tidy known t e h =
        let st' = apply_change rules current k w st in
        elim (Bool-cases (text_eq k j)) [
          | inl same ↦
              let kj = text_eq→eq k j same in
              let wv : w ≡ v = some-injective _ _ (ground (arith, same, h)) in
              subst
                (λ (i : Text).
                  coerced rules i (in_force_for rules i (apply_changes rules current typed st'))
                  ≡ v)
                kj
                (head-coerced current typed k w st fresh tidy
                    (subst (λ (i : Text). rules.known i ≡ true) (sym kj) known)
                    (subst (λ (x : Option V). coerced rules k x ≡ x) (sym wv)
                      (subst (λ (i : Text). coerced rules i v ≡ v) (sym kj) t))
                    (subst (λ (i : Text). lookup i current ≡ in_force_for rules i st) (sym kj) e)
                  ∙ wv)
          | inr other ↦
              apply_changes-coerced current typed j v st' u
                (apply_change-IsTidy rules current k w st tidy) known t
                (e ∙ sym (apply_change-others rules current k j w st other))
                (ground (arith, other, h))
        ]

    -- The typed changes, key by key.
    abbrev pub typed_of : Text → Option (Option V) → Option (Option V)
    typed_of k none = none
    typed_of k (some c) = typed_change rules k c

    add_typed-parts :
        (k : Text) (first : Option (Option V)) (more : Option (Dict (Option V)))
        (t : Dict (Option V))
        → add_typed rules k first more ≡ some t
        → (v : Option V) × ((rest : Dict (Option V)) × (first ≡ some v)
            × (more ≡ some rest)
            × ((k, v) ∷ rest ≡ t))
    add_typed-parts k (some v) (some rest) t e = (v, (rest, refl, refl, some-injective _ _ e))
    add_typed-parts k (some v) none t e = absurd (cc e)
    add_typed-parts k none more t e = absurd (cc e)

    pub type_changes-lookup :
        (changes typed : Dict (Option V)) (j : Text)
        → type_changes rules changes ≡ some typed
        → lookup j typed ≡ typed_of j (lookup j changes)
    unfolding type_changes lookup
    type_changes-lookup [] typed j e =
        subst (λ (t : Dict (Option V)). lookup j t ≡ none) (some-injective _ _ e) refl
    type_changes-lookup ((k, c) ∷ changes) typed j e =
        let (v, (rest, first, more, split)) =
          add_typed-parts k (typed_change rules k c) (type_changes rules changes) typed e in
        subst
          (λ (t : Dict (Option V)).
            lookup j t ≡ typed_of j (if text_eq k j then some c else lookup j changes))
          split
          (elim (Bool-cases (text_eq k j)) [
            | inl same ↦ ground (
              arith,
              same,
              subst (λ (i : Text). typed_change rules i c ≡ some v) (text_eq→eq k j same) first,
            )
            | inr other ↦ ground (arith, other, type_changes-lookup changes rest j more)
          ])

    pub type_changes-NodupKeys :
        (changes typed : Dict (Option V))
        → NodupKeys changes
        → type_changes rules changes ≡ some typed
        → NodupKeys typed
    unfolding type_changes lookup
    type_changes-NodupKeys [] typed u e =
        subst (λ (t : Dict (Option V)). NodupKeys t) (some-injective _ _ e) tt
    type_changes-NodupKeys ((k, c) ∷ changes) typed (fresh, u) e =
        let (v, (rest, first, more, split)) =
          add_typed-parts k (typed_change rules k c) (type_changes rules changes) typed e in
        subst (λ (t : Dict (Option V)). NodupKeys t) split
          (
            type_changes-lookup changes rest k more ∙ ap (typed_of k) fresh,
            type_changes-NodupKeys changes rest u more,
          )

    pub type_changes-typed :
        (changes typed : Dict (Option V)) (j : Text) (c : Option V)
        → type_changes rules changes ≡ some typed
        → lookup j changes ≡ some c
        → (v : Option V) × (typed_change rules j c ≡ some v)
    unfolding type_changes lookup
    type_changes-typed [] typed j c e h = absurd (cc h)
    type_changes-typed ((k, c') ∷ changes) typed j c e h =
        let (v, (rest, first, more, split)) =
          add_typed-parts k (typed_change rules k c') (type_changes rules changes) typed e in
        elim (Bool-cases (text_eq k j)) [
          | inl same ↦
              let here : c' ≡ c = some-injective _ _ (ground (arith, same, h)) in
              (
                v,
                subst (λ (i : Text). typed_change rules i c ≡ some v) (text_eq→eq k j same)
                    (subst (λ (x : Option V). typed_change rules k x ≡ some v) here first),
              )
          | inr other ↦ type_changes-typed changes rest j c more (ground (arith, other, h))
        ]

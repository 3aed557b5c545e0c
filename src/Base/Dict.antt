-- ===== src/Base/Dict.antt =====
-- Python's dicts with text keys, in insertion order.
use daq_control_vmm_beam.Base.Tests.{if◌then◌else◌}
use daq_control_vmm_beam.Base.Strings.{Text, text_eq, text_eq_iff}
use mathlib.Core.Path.{◌≡◌, refl}
use mathlib.Core.Option.{Option, none, some}
use mathlib.Core.List.{List, [], ◌∷◌}
use native.Mathlib.Omega.{arith}

abbrev pub Dict {ℓ} : Type ℓ → Type ℓ
Dict V = List (Text × V)

module _ {ℓ} {V : Type ℓ} where
  -- `d.get(k)`
  unfoldable pub lookup : Text → Dict V → Option V
  lookup k [] = none
  lookup k ((j, v) ∷ d) = if text_eq j k then some v else lookup k d

  -- `d[k] = v`
  unfoldable pub put : Text → V → Dict V → Dict V
  put k v [] = (k, v) ∷ []
  put k v ((j, w) ∷ d) = if text_eq j k then (j, v) ∷ d else (j, w) ∷ put k v d

  pub lookup-put :
      (k j : Text) (v : V) (d : Dict V)
      → lookup j (put k v d) ≡ (if text_eq k j then some v else lookup j d)
  unfolding lookup put
  lookup-put k j v [] = refl
  lookup-put k j v ((i, w) ∷ d) =
      ground (arith, text_eq_iff k j, text_eq_iff i k, text_eq_iff i j, lookup-put k j v d)

  -- `d.pop(k, None)`
  unfoldable pub pop : Text → Dict V → Dict V
  pop k [] = []
  pop k ((j, v) ∷ d) = let rest = pop k d in if text_eq j k then rest else (j, v) ∷ rest

  pub lookup-pop :
      (k j : Text) (d : Dict V) → lookup j (pop k d) ≡ (if text_eq k j then none else lookup j d)
  unfolding lookup pop
  lookup-pop k j [] = ground arith
  lookup-pop k j ((i, w) ∷ d) =
      ground (arith, text_eq_iff k j, text_eq_iff i k, text_eq_iff i j, lookup-pop k j d)

  -- No key stands twice.
  abbrev pub NodupKeys : Dict V → Type ℓ
  NodupKeys [] = Unit
  NodupKeys ((k, _) ∷ d) = (lookup k d ≡ none) × NodupKeys d

  pub put-NodupKeys : (k : Text) (v : V) (d : Dict V) → NodupKeys d → NodupKeys (put k v d)
  unfolding put lookup
  put-NodupKeys k v [] _ = (refl, tt)
  put-NodupKeys k v ((j, w) ∷ d) (fresh, u) =
      ground (arith, text_eq_iff j k, text_eq_iff k j, put-NodupKeys k v d u, lookup-put k j v d)

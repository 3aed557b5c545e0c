-- ===== src/Settings/Examples.antt =====
-- A small schema with a file of its own, and the theorems about it.
use daq_control_vmm_beam.Base.{
  Bool, true, false, Option, none, some, List, [], ◌∷◌, ◌≡◌, refl, Text, codes, text_eq, any,
  text_eq→eq, arith, subst, sym,
}
use daq_control_vmm_beam.Base.Int.{ℤ, pos}
use daq_control_vmm_beam.Base.Dict.{Dict, lookup}
use daq_control_vmm_beam.Settings.Store.{Rules, Store, save}
use daq_control_vmm_beam.Settings.Saved.{IsSaved, save-IsSaved}
use daq_control_vmm_beam.Settings.Coerce.{
  Value, number, text, Kind, int, bool, choice, intlist, list, name, checked, Schema,
}
use daq_control_vmm_beam.Settings.Typed.{IsStable}
use daq_control_vmm_beam.Settings.Schema.{rules_of, IsSound, rules_of-IsLawful}
use daq_control_vmm_beam.Settings.Together.{SiteSetup, InForce, check_together}

abbrev scan_min : Text
scan_min = codes "config_scan_subrun_min"

abbrev warn_mb : Text
warn_mb = codes "guardian_warn_avail_mb"

abbrev two_settings : Schema
two_settings = (scan_min, int (pos 1) (pos 600)) ∷ (warn_mb, int (pos 400) (pos 8000)) ∷ []

abbrev in_lab : SiteSetup
in_lab = record {
  hv_targets = false;
  stations = none;
  mesh_ceiling = some (pos 500);
  drift_ceiling = some (pos 900);
  beam = false;
}

abbrev cosmics_plan : InForce
cosmics_plan =
    (codes "run_plan", some (text (codes "lab_source")))
    ∷ (codes "hv_P2_IN_mesh", some (number (pos 450)))
    ∷ (codes "guardian_kill_avail_mb", some (number (pos 600)))
    ∷ (warn_mb, some (number (pos 900)))
    ∷ []

abbrev is_nothing : {A : Type 0} → List A → Bool
is_nothing [] = true
is_nothing (_ ∷ _) = false

abbrev lab_rules : Rules Value
lab_rules = rules_of two_settings (scan_min ∷ []) (λ vals. is_nothing (check_together in_lab vals))

stable_lem : (k : Text) (kind : Kind) → lookup k two_settings ≡ some kind → IsStable kind
unfolding lookup
stable_lem k (checked check) e = absurd (ground (arith, e))
stable_lem k (int lo hi) e = tt
stable_lem k bool e = tt
stable_lem k (choice choices) e = tt
stable_lem k (intlist lo hi) e = tt
stable_lem k list e = tt
stable_lem k name e = tt

is_scan_min : (k : Text) → any (text_eq k) (scan_min ∷ []) ≡ true → k ≡ scan_min
is_scan_min k f = text_eq→eq k scan_min (ground (arith, f))

file_lem :
    (k : Text)
    → any (text_eq k) (scan_min ∷ []) ≡ true
    → (lo : ℤ) × ((hi : ℤ) × (lookup k two_settings ≡ some (int lo hi)))
unfolding lookup text_eq
file_lem k f = (
  pos 1,
  (
    pos 600,
    subst (λ (i : Text). lookup i two_settings ≡ some (int (pos 1) (pos 600)))
        (sym (is_scan_min k f)) refl,
  ),
)

tidy_lem :
    (k : Text)
    → any (text_eq k) (scan_min ∷ []) ≡ true
    → lookup k ((warn_mb, number (pos 700)) ∷ []) ≡ none
unfolding lookup text_eq
tidy_lem k f =
    subst (λ (i : Text). lookup i ((warn_mb, number (pos 700)) ∷ []) ≡ none) (sym (is_scan_min k f))
      refl

-- The keys of the schema, one by one.
two_settings-IsSound : IsSound two_settings (scan_min ∷ [])
unfolding lookup
two_settings-IsSound = record {
  stable = λ k kind e. stable_lem k kind e;
  int_files = λ k f. file_lem k f;
}

abbrev stored : Store Value
stored = record {
  values = (warn_mb, number (pos 700)) ∷ [];
  files = (scan_min, codes "20") ∷ [];
  history = [];
}

abbrev changes : Dict (Option Value)
changes = (scan_min, some (text (codes "30"))) ∷ (warn_mb, none) ∷ []

save-IsSaved_example : IsSaved lab_rules [] [] changes stored (save lab_rules [] [] changes stored)
unfolding lookup text_eq
save-IsSaved_example =
    save-IsSaved lab_rules [] [] changes stored
      (rules_of-IsLawful two_settings (scan_min ∷ []) _ two_settings-IsSound) (refl, (refl, tt))
      (λ k f. tidy_lem k f)

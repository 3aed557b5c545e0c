-- ===== src/Settings/Together.antt =====
-- gui_settings.py: `check_together`, the checks across the settings.
use daq_control_vmm_beam.Base.{
  ℕ, zero, suc, ◌+◌, ◌-◌, leb, Bool, true, false, not, ◌&&◌, Option, none, some, List, [], ◌∷◌,
  ◌++◌, if◌then◌else◌, Text, text_eq, codes, any, all, strip_prefix?,
}
use daq_control_vmm_beam.Base.Int.{ℤ, pos, negsuc, is_zero}
use daq_control_vmm_beam.Base.Dict.{Dict, lookup}
use daq_control_vmm_beam.Settings.Coerce.{Value, number, text, texts, numbers, int_leb}

-- What is found wrong.
pub data Trouble : Type 0 where
  bad_detector zero_step negative_point above_ceiling warn_not_above_kill run_hv_above
        drift_below_mesh beam_plan hv_plan :
      Trouble

-- The site and its setup: whether the HV is set here, the detectors, the ceilings of the mesh and of the
-- drift, and whether there is a beam.
pub record SiteSetup : Type 0 where
  pub hv_targets : Bool
  pub stations : Option (List Text)
  pub mesh_ceiling : Option ℤ
  pub drift_ceiling : Option ℤ
  pub beam : Bool

-- The values in force, none where a setting has none.
abbrev pub InForce : Type 0
InForce = Dict (Option Value)

-- `vals.get(k)`
abbrev pub flat : Option (Option Value) → Option Value
flat none = none
flat (some v) = v

abbrev pub as_number : Option Value → Option ℤ
as_number (some (number z)) = some z
as_number _ = none

abbrev pub as_text : Option Value → Option Text
as_text (some (text s)) = some s
as_text _ = none

abbrev pub get_number : Text → InForce → Option ℤ
get_number k vals = as_number (flat (lookup k vals))

abbrev pub get_text : Text → InForce → Option Text
get_text k vals = as_text (flat (lookup k vals))

abbrev pub is_text : Text → Option Text → Bool
is_text s none = false
is_text s (some t) = text_eq t s

-- `a < b`
abbrev pub int_ltb : ℤ → ℤ → Bool
int_ltb a b = not (int_leb b a)

abbrev pub minus : ℕ → ℕ → ℤ
minus m n = if leb n m then pos (m - n) else negsuc (n - m - 1)

abbrev pub int_add : ℤ → ℤ → ℤ
int_add (pos m) (pos n) = pos (m + n)
int_add (pos m) (negsuc n) = minus m (suc n)
int_add (negsuc m) (pos n) = minus n (suc m)
int_add (negsuc m) (negsuc n) = negsuc (m + n + 1)

-- `[v0 + i * step for i in range(n)]`
unfoldable pub steps_from : ℕ → ℤ → ℤ → List ℤ
steps_from zero v step = []
steps_from (suc n) v step = v ∷ steps_from n (int_add v step) step

abbrev pub steps_of : Option ℤ → Option ℤ → Option ℤ → List ℤ
steps_of (some step) (some (pos n)) (some v) = steps_from n v step
steps_of _ _ _ = []

abbrev pub explicit_points : Option Value → List ℤ
explicit_points (some (numbers zs)) = zs
explicit_points _ = []

-- The points of a voltage scan: the explicit ones, or those of the steps.
unfoldable pub scan_points : InForce → List ℤ
scan_points vals = elim (explicit_points (flat (lookup (codes "hv_scan_voltages") vals))) [
  | [] ↦
      steps_of (get_number (codes "hv_scan_step_v") vals) (get_number (codes "hv_scan_points") vals)
        (get_number (codes "hv_scan_start_v") vals)
  | z ∷ zs ↦ z ∷ zs
]

abbrev pub when : Bool → Trouble → List Trouble
when true t = t ∷ []
when false t = []

abbrev pub outside : Option (List Text) → Option Value → Bool
outside (some stations) (some (texts dets)) = not (all (λ d. any (text_eq d) stations) dets)
outside _ _ = false

-- Whether each step is 0 where there are several points, and no point is explicit.
abbrev pub stands_still : List ℤ → Option ℤ → Option ℤ → Option ℤ → Bool
stands_still [] (some step) (some n) (some v) = is_zero step && int_ltb (pos 1) n
stands_still _ _ _ _ = false

abbrev pub is_above : Option ℤ → ℤ → Bool
is_above none z = false
is_above (some top) z = int_ltb top z

abbrev pub scan_ceiling : SiteSetup → InForce → Option ℤ
scan_ceiling setup vals =
    if is_text (codes "drift") (get_text (codes "hv_scan_mode") vals)
    then setup.drift_ceiling
    else setup.mesh_ceiling

-- The checks of a voltage scan.
unfoldable pub check_scan : SiteSetup → InForce → List Trouble
check_scan setup vals =
    let points = scan_points vals in
    when (outside setup.stations (flat (lookup (codes "hv_scan_detectors") vals))) bad_detector
    ++ (when
          (stands_still (explicit_points (flat (lookup (codes "hv_scan_voltages") vals)))
            (get_number (codes "hv_scan_step_v") vals) (get_number (codes "hv_scan_points") vals)
            (get_number (codes "hv_scan_start_v") vals))
          zero_step
        ++ (when (any (λ z. int_ltb z (pos 0)) points) negative_point
            ++ when (any (is_above (scan_ceiling setup vals)) points) above_ceiling))

abbrev pub not_above : Option ℤ → Option ℤ → Bool
not_above (some low) (some high) = int_leb high low
not_above _ _ = false

-- The mesh or the drift in a key `hv_<detector>_<role>`, after the `hv_`; `more` is whether the detector
-- has a letter already.
unfoldable pub role_ceiling : SiteSetup → Bool → Text → Option ℤ
role_ceiling setup more [] = none
role_ceiling setup more (c ∷ s) =
    let rest = role_ceiling setup true s in
    if more && text_eq (c ∷ s) (codes "_mesh")
    then setup.mesh_ceiling
    else if more && text_eq (c ∷ s) (codes "_drift")
    then setup.drift_ceiling
    else rest

abbrev pub ceiling_after : SiteSetup → Option Text → Option ℤ
ceiling_after setup none = none
ceiling_after setup (some rest) = role_ceiling setup false rest

abbrev pub number_above : Option ℤ → Option ℤ → Bool
number_above top none = false
number_above top (some z) = is_above top z

unfoldable pub check_run_hv : SiteSetup → InForce → List Trouble
check_run_hv setup [] = []
check_run_hv setup ((k, v) ∷ vals) =
    when (number_above (ceiling_after setup (strip_prefix? (codes "hv_") k)) (as_number v))
      run_hv_above
    ++ check_run_hv setup vals

-- `dr < me`
abbrev pub is_less : Option ℤ → Option ℤ → Bool
is_less (some a) (some b) = int_ltb a b
is_less _ _ = false

abbrev pub drift_below : InForce → Text → List Trouble
drift_below vals d =
    when
      (is_less (get_number (codes "hv_" ++ (d ++ codes "_drift")) vals)
        (get_number (codes "hv_" ++ (d ++ codes "_mesh")) vals))
      drift_below_mesh

abbrev pub is_plan_of : List Text → Option Text → Bool
is_plan_of plans none = false
is_plan_of plans (some plan) = any (text_eq plan) plans

abbrev pub beam_plans : List Text
beam_plans = codes "mesh_then_drift" ∷ codes "mesh_then_drift_common" ∷ codes "retake_run25" ∷ []

abbrev pub hv_plans : List Text
hv_plans =
    codes "mesh_then_drift"
    ∷ codes "mesh_then_drift_common"
    ∷ codes "retake_run25"
    ∷ codes "hv_scan"
    ∷ []

-- The checks where there is no beam.
unfoldable pub check_lab : SiteSetup → InForce → List Trouble
check_lab setup vals =
    check_run_hv setup vals
    ++ (drift_below vals (codes "P2_IN")
        ++ (drift_below vals (codes "P2_MID")
            ++ (drift_below vals (codes "P2_OUT")
                ++ when (is_plan_of beam_plans (get_text (codes "run_plan") vals)) beam_plan)))

-- `check_together`
unfoldable pub check_together : SiteSetup → InForce → List Trouble
check_together setup vals =
    let plan = get_text (codes "run_plan") vals in
    (if is_text (codes "hv_scan") plan then check_scan setup vals else [])
    ++ (when
          (not_above (get_number (codes "guardian_kill_avail_mb") vals)
            (get_number (codes "guardian_warn_avail_mb") vals))
          warn_not_above_kill
        ++ ((if setup.beam then [] else check_lab setup vals)
            ++ when (not setup.hv_targets && is_plan_of hv_plans plan) hv_plan))

-- ===== src/Settings/Ordered.antt =====
-- What the settings are like where `check_together` finds nothing wrong.
use daq_control_vmm_beam.Base.{
  true, false, Option, some, List, [], ◌∷◌, ◌++◌, Text, codes, ◌≤◌, ◌<◌, ◌≢◌, ◌≡◌, All,
  strip_prefix?,
}
use daq_control_vmm_beam.Base.Int.{ℤ, pos, negsuc}
use daq_control_vmm_beam.Settings.Coerce.{Value}
use daq_control_vmm_beam.Settings.Together.{
  SiteSetup, InForce, as_number, get_number, get_text, is_text, scan_points, scan_ceiling,
  ceiling_after,
}

-- The order of the integers.
abbrev pub IsAtMost : ℤ → ℤ → Type 0
IsAtMost (pos m) (pos n) = m ≤ n
IsAtMost (pos m) (negsuc n) = ⊥
IsAtMost (negsuc m) (pos n) = Unit
IsAtMost (negsuc m) (negsuc n) = n ≤ m

abbrev pub IsBelow : ℤ → ℤ → Type 0
IsBelow (pos m) (pos n) = m < n
IsBelow (pos m) (negsuc n) = ⊥
IsBelow (negsuc m) (pos n) = Unit
IsBelow (negsuc m) (negsuc n) = n < m

-- An order of two values, where there are both.
abbrev pub WhereBoth : (ℤ → ℤ → Type 0) → Option ℤ → Option ℤ → Type 0
WhereBoth P (some a) (some b) = P a b
WhereBoth P _ _ = Unit

-- A voltage of a scan: not below 0, and not above the ceiling of what is stepped.
abbrev pub IsScanPoint : SiteSetup → InForce → ℤ → Type 0
IsScanPoint setup vals z =
    IsAtMost (pos 0) z × WhereBoth IsAtMost (some z) (scan_ceiling setup vals)

-- A voltage of the runs: not above the ceiling of its role.
abbrev pub IsRunVoltage : SiteSetup → Text × Option Value → Type 0
IsRunVoltage setup e =
    WhereBoth IsAtMost (as_number e.1) (ceiling_after setup (strip_prefix? (codes "hv_") e.0))

-- The drift of a detector is not below its mesh, where there are both.
abbrev pub IsAboveMesh : InForce → Text → Type 0
IsAboveMesh vals d =
    WhereBoth IsAtMost (get_number (codes "hv_" ++ (d ++ codes "_mesh")) vals)
      (get_number (codes "hv_" ++ (d ++ codes "_drift")) vals)

-- The plan of the runs is none of these.
abbrev pub IsNoneOf : List Text → InForce → Type 0
IsNoneOf plans vals = All (λ p. get_text (codes "run_plan") vals ≢ some p) plans

abbrev pub detectors : List Text
detectors = codes "P2_IN" ∷ codes "P2_MID" ∷ codes "P2_OUT" ∷ []

-- Settings that go together.
pub record InOrder (setup : SiteSetup) (vals : InForce) : Type 0 where
  pub scan_in_range :
      is_text (codes "hv_scan") (get_text (codes "run_plan") vals) ≡ true
      → All (IsScanPoint setup vals) (scan_points vals)
  pub warns_first :
      WhereBoth IsBelow
        (get_number (codes "guardian_kill_avail_mb") vals)
        (get_number (codes "guardian_warn_avail_mb") vals)
  pub run_in_range : setup.beam ≡ false → All (IsRunVoltage setup) vals
  pub drift_in_order : setup.beam ≡ false → All (IsAboveMesh vals) detectors
  pub lab_plan :
      setup.beam ≡ false
      → IsNoneOf
          (codes "mesh_then_drift" ∷ codes "mesh_then_drift_common" ∷ codes "retake_run25" ∷ [])
          vals
  pub no_hv_plan :
      setup.hv_targets ≡ false
      → IsNoneOf
          (codes "mesh_then_drift"
            ∷ codes "mesh_then_drift_common"
            ∷ codes "retake_run25"
            ∷ codes "hv_scan"
            ∷ [])
          vals

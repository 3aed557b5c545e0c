-- ===== src/Guard/Caused.antt =====
-- Why the loop of capture_guard.py stops a run.
use daq_control_vmm_beam.Base.{
  ◌+◌, ◌≡◌, refl, subst, ◌⊎◌, inl, inr, true, Option, none, some, List, [], ◌∷◌, Text, arith,
  Bool-cases,
}
use daq_control_vmm_beam.Guard.Captures.{
  CaptureFile, current_run, current_subrun, capture_active, closed_capture_sizes, is_silent,
}
use daq_control_vmm_beam.Guard.Recover.{Work, blame_the_vmm, stop_the_run}
use daq_control_vmm_beam.Guard.Loop.{
  Round, Deed, stops_run, tries_recovery, Guard, tree_in, raw_in, is_run, try_recovery, trip, judge,
  watch_subrun, watch_run, guard_round, guard_rounds,
}

abbrev pub IsStopped : Text → List Deed → Type 0
IsStopped run [] = ⊥
IsStopped run (stops_run r ∷ ds) = (r ≡ run) ⊎ IsStopped run ds
IsStopped run (tries_recovery _ ∷ ds) = IsStopped run ds

-- A round sees the run being written, its newest sub-run active and silent, and the fault with the VMM.
pub record IsFaulty (x : Round) (run : Text) : Type 0 where
  pub subrun : Text
  pub writes : current_run x.flask_run x.now x.runs ≡ some run
  pub newest : current_subrun (tree_in run x.runs) ≡ some subrun
  pub active : capture_active x.now (raw_in subrun (tree_in run x.runs)) ≡ true
  pub silent : is_silent (closed_capture_sizes (raw_in subrun (tree_in run x.runs))) ≡ true
  pub blamed : blame_the_vmm x.bench x.looked ≡ true

abbrev pub IsCaused : List Round → Text → Type 0
IsCaused [] run = ⊥
IsCaused (x ∷ xs) run = IsFaulty x run ⊎ IsCaused xs run

try_recovery-deeds :
    (x : Round) (run : Text) (w : Work) (g : Guard)
    → ((try_recovery x run w g).deeds ≡ g.deeds)
      ⊎ ((try_recovery x run w g).deeds ≡ tries_recovery run ∷ g.deeds)
unfolding try_recovery
try_recovery-deeds x run w g = ground arith

trip-IsStopped :
    (x : Round) (run r : Text) (g : Guard)
    → IsStopped r (trip x run g).deeds
    → (run ≡ r) ⊎ IsStopped r g.deeds
unfolding trip
trip-IsStopped x run r g h =
    let w = stop_the_run x.bench (record { at = x.looked + 3; steps = [] }) in
    let g' = record g { stopped_run = some run; deeds = stops_run run ∷ g.deeds } in
    elim (try_recovery-deeds x run (record w { steps = [] }) g') [
      | inl e ↦ subst (IsStopped r) e h
      | inr e ↦ subst (IsStopped r) e h
    ]

-- A round leaves the deeds as they are, or it trips on a fault.
abbrev IsTrip : Round → Guard → Guard → Type 0
IsTrip x g g' =
    (g'.deeds ≡ g.deeds) ⊎ ((run : Text) × IsFaulty x run × (g'.deeds ≡ (trip x run g).deeds))

judge-cases :
    (x : Round) (run : Text) (raw : Option (List CaptureFile)) (g : Guard)
    → ((judge x run raw g).deeds ≡ g.deeds)
      ⊎ ((is_silent (closed_capture_sizes raw) ≡ true)
          × (blame_the_vmm x.bench x.looked ≡ true)
          × ((judge x run raw g).deeds ≡ (trip x run g).deeds))
unfolding judge
judge-cases x run raw g = ground arith

watch_subrun-IsTrip :
    (x : Round) (run : Text) (s : Option Text) (g : Guard)
    → current_run x.flask_run x.now x.runs ≡ some run
    → current_subrun (tree_in run x.runs) ≡ s
    → IsTrip x g (watch_subrun x run s g)
watch_subrun-IsTrip x run none g c e = inl refl
watch_subrun-IsTrip x run (some s) g c e =
    let raw = raw_in s (tree_in run x.runs) in
    elim (Bool-cases (capture_active x.now raw)) [
      | inr a ↦ inl (ground arith)
      | inl a ↦ elim (judge-cases x run raw g) [
        | inl d ↦ inl (ground (arith, d))
        | inr (i, b, d) ↦ inr (
          run,
          record { subrun = s; writes = c; newest = e; active = a; silent = i; blamed = b },
          ground (arith, d),
        )
      ]
    ]

watch_run-IsTrip :
    (x : Round) (o : Option Text) (g : Guard)
    → current_run x.flask_run x.now x.runs ≡ o
    → IsTrip x g (watch_run x o g)
watch_run-IsTrip x none g c = inl refl
watch_run-IsTrip x (some run) g c = elim (Bool-cases (is_run run g.stopped_run)) [
  | inl e ↦ inl (ground arith)
  | inr e ↦ elim (watch_subrun-IsTrip x run (current_subrun (tree_in run x.runs)) g c refl) [
    | inl d ↦ inl (ground (arith, d))
    | inr (r, f, d) ↦ inr (r, f, ground (arith, d))
  ]
]

guard_round-IsTrip : (x : Round) (g : Guard) → IsTrip x g (guard_round x g)
unfolding guard_round
guard_round-IsTrip x g = elim (Bool-cases x.raises_early) [
  | inl e ↦ inl (ground arith)
  | inr e ↦ elim (watch_run-IsTrip x (current_run x.flask_run x.now x.runs) g refl) [
    | inl d ↦ inl (ground (arith, d))
    | inr (r, f, d) ↦ inr (r, f, ground (arith, d))
  ]
]

guard_round-IsStopped :
    (x : Round) (run : Text) (g : Guard)
    → IsStopped run (guard_round x g).deeds
    → IsStopped run g.deeds ⊎ IsFaulty x run
guard_round-IsStopped x run g h = elim (guard_round-IsTrip x g) [
  | inl e ↦ inl (subst (IsStopped run) e h)
  | inr (r, f, e) ↦ elim (trip-IsStopped x r run g (subst (IsStopped run) e h)) [
    | inl k ↦ inr (subst (IsFaulty x) k f)
    | inr k ↦ inl k
  ]
]

-- A run that the guard has stopped was, in one of its rounds, the one being written, with captures
-- going on in its newest sub-run, the last two closed ones of it empty, and the fault put on the VMM.
pub guard_rounds-IsCaused :
    (xs : List Round) (run : Text) (g : Guard)
    → IsStopped run (guard_rounds xs g).deeds
    → IsStopped run g.deeds ⊎ IsCaused xs run
unfolding guard_rounds
guard_rounds-IsCaused [] run g h = inl h
guard_rounds-IsCaused (x ∷ xs) run g h = elim (guard_rounds-IsCaused xs run (guard_round x g) h) [
  | inr c ↦ inr (inr c)
  | inl k ↦ elim (guard_round-IsStopped x run g k) [ inl d ↦ inl d | inr f ↦ inr (inl f) ]
]

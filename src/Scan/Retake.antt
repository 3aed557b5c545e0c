-- ===== src/Scan/Retake.antt =====
-- The end of config_scan.py at the beam: the median of the triggers, the verdicts, and the runs to take
-- again.
use daq_control_vmm_beam.Base.{
  ℕ, zero, suc, ◌*◌, ◌/◌, ◌≤◌, ◌<◌, ltb, leb, leb→le, Option, none, some, List, [], ◌∷◌,
  if◌then◌else◌, Text, ◌≡◌, refl, ap, arith, length, map, All, keep, if-elim,
}
use mathlib.Core.Option.{some-injective}
use daq_control_vmm_beam.Scan.Loop.{Fate, taken, Fates}

-- `done` with its triggers, of the runs for which Dream counted some.
abbrev pub counted : Text → Option ℕ → List (Text × ℕ) → List (Text × ℕ)
counted c none rest = rest
counted c (some zero) rest = rest
counted c (some (suc n)) rest = (c, suc n) ∷ rest

unfoldable pub stats_of : Fates → List (Text × ℕ)
stats_of [] = []
stats_of ((c, f) ∷ fates) =
    let rest = stats_of fates in elim f [ taken events ↦ counted c events rest | _ ↦ rest ]

-- `sorted`
unfoldable pub insert : ℕ → List ℕ → List ℕ
insert n [] = n ∷ []
insert n (m ∷ ms) = let rest = insert n ms in if leb n m then n ∷ m ∷ ms else m ∷ rest

unfoldable pub sorted : List ℕ → List ℕ
sorted [] = []
sorted (n ∷ ns) = insert n (sorted ns)

abbrev pub get_elem? : ℕ → List ℕ → Option ℕ
get_elem? k [] = none
get_elem? zero (n ∷ ns) = some n
get_elem? (suc k) (n ∷ ns) = get_elem? k ns

-- `evs[len(evs) // 2]`
unfoldable pub median : List ℕ → Option ℕ
median evs = get_elem? (length evs / 2) (sorted evs)

-- The verdict on a run, by a tenth and by half of the median.
pub data BeamVerdict : Type 0 where
  no_beam low_beam good_beam : BeamVerdict

unfoldable pub beam_verdict : ℕ → ℕ → BeamVerdict
beam_verdict m e = if leb (10 * e) m then no_beam else if ltb (2 * e) m then low_beam else good_beam

abbrev pub events_of : List (Text × ℕ) → List ℕ
events_of stats = map (λ d. d.1) stats

abbrev pub retaken_below : Option ℕ → List (Text × ℕ) → List (Text × ℕ)
retaken_below none stats = []
retaken_below (some m) stats = keep (λ d. leb (10 * d.1) m) stats

-- `retake`
unfoldable pub retake : List (Text × ℕ) → List (Text × ℕ)
retake stats = retaken_below (median (events_of stats)) stats

-- How many numbers are smaller.
abbrev below : ℕ → List ℕ → ℕ
below m [] = 0
below m (n ∷ ns) = let rest = below m ns in if ltb n m then suc rest else rest

below-insert : (m n : ℕ) (ns : List ℕ) → below m (insert n ns) ≡ below m (n ∷ ns)
unfolding insert
below-insert m n [] = refl
below-insert m n (k ∷ ns) = ground (arith, below-insert m n ns)

below-sorted : (m : ℕ) (ns : List ℕ) → below m (sorted ns) ≡ below m ns
unfolding sorted
below-sorted m [] = refl
below-sorted m (n ∷ ns) = ground (arith, below-insert m n (sorted ns), below-sorted m ns)

-- Each number is no larger than those after it.
abbrev IsSorted : List ℕ → Type 0
IsSorted [] = Unit
IsSorted (n ∷ ns) = All (λ m. n ≤ m) ns × IsSorted ns

All-weaken : (k n : ℕ) (ns : List ℕ) → k ≤ n → All (λ m. n ≤ m) ns → All (λ m. k ≤ m) ns
All-weaken k n [] le h = tt
All-weaken k n (m ∷ ms) le (h, hs) = (omega arith, All-weaken k n ms le hs)

All-insert : (k n : ℕ) (ns : List ℕ) → k ≤ n → All (λ m. k ≤ m) ns → All (λ m. k ≤ m) (insert n ns)
unfolding insert
All-insert k n [] le h = (le, tt)
All-insert k n (m ∷ ms) le (h, hs) =
    if-elim (All (λ i. k ≤ i)) (leb n m) (n ∷ m ∷ ms) (m ∷ insert n ms) (λ _. (le, (h, hs)))
      (λ _. (h, All-insert k n ms le hs))

insert-IsSorted : (n : ℕ) (ns : List ℕ) → IsSorted ns → IsSorted (insert n ns)
unfolding insert
insert-IsSorted n [] h = (tt, tt)
insert-IsSorted n (m ∷ ms) (h, hs) =
    if-elim IsSorted (leb n m) (n ∷ m ∷ ms) (m ∷ insert n ms)
      (λ le. ((leb→le n m le, All-weaken n m ms (leb→le n m le) h), (h, hs)))
      (λ gt. (All-insert m n ms (ground arith) h, insert-IsSorted n ms hs))

sorted-IsSorted : (ns : List ℕ) → IsSorted (sorted ns)
unfolding sorted
sorted-IsSorted [] = tt
sorted-IsSorted (n ∷ ns) = insert-IsSorted n (sorted ns) (sorted-IsSorted ns)

below_none : (m : ℕ) (ns : List ℕ) → All (λ n. m ≤ n) ns → below m ns ≡ 0
below_none m [] h = refl
below_none m (n ∷ ns) (h, hs) = ground (arith, below_none m ns hs)

-- In a sorted list, no more numbers than its place are below the one at a place.
below-get_elem? : (k m : ℕ) (ns : List ℕ) → IsSorted ns → get_elem? k ns ≡ some m → below m ns ≤ k
below-get_elem? k m [] s e = omega arith
below-get_elem? zero m (n ∷ ns) (h, hs) e = ground (arith, some-injective _ _ e, below_none n ns h)
below-get_elem? (suc k) m (n ∷ ns) (h, hs) e = ground (arith, below-get_elem? k m ns hs e)

IsPositive : List (Text × ℕ) → Type 0
IsPositive stats = All (λ d. 0 < d.1) stats

counted-IsPositive :
    (c : Text) (events : Option ℕ) (rest : List (Text × ℕ))
    → IsPositive rest
    → IsPositive (counted c events rest)
unfolding IsPositive
counted-IsPositive c none rest h = h
counted-IsPositive c (some zero) rest h = h
counted-IsPositive c (some (suc n)) rest h = (omega arith, h)

stats_of-IsPositive : (fates : Fates) → IsPositive (stats_of fates)
unfolding stats_of IsPositive
stats_of-IsPositive [] = tt
stats_of-IsPositive ((c, taken events) ∷ fates) =
    counted-IsPositive c events (stats_of fates) (stats_of-IsPositive fates)
stats_of-IsPositive ((c, Fate.dry_run) ∷ fates) = stats_of-IsPositive fates
stats_of-IsPositive ((c, Fate.stopped) ∷ fates) = stats_of-IsPositive fates
stats_of-IsPositive ((c, Fate.no_time) ∷ fates) = stats_of-IsPositive fates
stats_of-IsPositive ((c, Fate.refused) ∷ fates) = stats_of-IsPositive fates
stats_of-IsPositive ((c, Fate.killed) ∷ fates) = stats_of-IsPositive fates

retaken_below-length :
    (m : ℕ) (stats : List (Text × ℕ))
    → IsPositive stats
    → length (retaken_below (some m) stats) ≤ below m (events_of stats)
unfolding IsPositive
retaken_below-length m [] h = omega arith
retaken_below-length m ((c, e) ∷ stats) (h, hs) = ground (arith, retaken_below-length m stats hs)

length-events_of : (stats : List (Text × ℕ)) → length (events_of stats) ≡ length stats
length-events_of [] = refl
length-events_of (d ∷ stats) = ap suc (length-events_of stats)

retaken-half :
    (o : Option ℕ) (stats : List (Text × ℕ))
    → median (events_of stats) ≡ o
    → IsPositive stats
    → 2 * length (retaken_below o stats) ≤ length stats
unfolding median
retaken-half none stats e h = omega arith
retaken-half (some m) stats e h =
    let evs = events_of stats in
    omega (
      arith,
      retaken_below-length m stats h,
      below-sorted m evs,
      length-events_of stats,
      below-get_elem? (length evs / 2) m (sorted evs) (sorted-IsSorted evs) e,
    )

-- However the triggers of the runs of a scan differ, the list of runs to take again for want of beam
-- holds at most half of those with triggers.
pub retake-length : (fates : Fates) → 2 * length (retake (stats_of fates)) ≤ length (stats_of fates)
unfolding retake
retake-length fates = retaken-half _ (stats_of fates) refl (stats_of-IsPositive fates)

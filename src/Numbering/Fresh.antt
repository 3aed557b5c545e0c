-- ===== src/Numbering/Fresh.antt =====
-- That the run that iterate_run_num.py names is a fresh one.
use daq_control_vmm_beam.Base.{
  ℕ, zero, suc, ◌+◌, ◌≤◌, ◌<◌, ◌≡◌, ◌≢◌, refl, ◌⊎◌, inl, inr, true, false, ◌&&◌, Option, none, some,
  Text, arith, Bool-cases, max,
}
use daq_control_vmm_beam.Numbering.Names.{
  numbered, split_number, RunSite, is_dir, set_highwater, is_used_up, mark_current, next_number,
  free_number, Numbered, keeps_name, resumes_run, searches, renames, rename, is_incomplete,
  is_unused, resume_or_search, iterate_run,
}

free_number_lem :
    (s : RunSite) (base : Text) (tries n k : ℕ)
    → free_number s base tries n ≡ some k
    → (is_dir (numbered base k) s ≡ false) × (s.highwater < k) × (n ≤ k)
unfolding free_number
free_number_lem s base zero n k h = ground arith
free_number_lem s base (suc tries) n k h = ground (arith, free_number_lem s base tries (n + 1) k)

-- From the number `m` on no directory has the name.
abbrev pub IsFreeFrom : ℕ → RunSite → Text → Type 0
IsFreeFrom m s base = (n : ℕ) → m ≤ n → is_dir (numbered base n) s ≡ false

free_number-finds :
    (s : RunSite) (base : Text) (m tries n : ℕ)
    → IsFreeFrom m s base
    → m ≤ n + tries
    → s.highwater < n + tries
    → free_number s base (suc tries) n ≢ none
unfolding free_number
free_number-finds s base m zero n f l h = ground (arith, f n)
free_number-finds s base m (suc tries) n f l h =
    ground (arith, free_number-finds s base m tries (n + 1) f (omega arith) (omega arith))

-- What a run of the program may end in, with the old and the new state.
abbrev pub IsFresh : RunSite → Numbered × RunSite → Type 0
IsFresh s (keeps_name, s') =
    (is_unused s ≡ true)
    × (s'.run_name ≡ s.run_name)
    × (is_used_up (split_number s.run_name) s' ≡ true ⊎ (split_number s.run_name ≡ none))
IsFresh s (resumes_run, s') = (s.resume ≡ true) × (is_incomplete s ≡ true) × (s' ≡ s)
IsFresh s (searches, s') = ⊥
IsFresh s (renames base n, s') =
    (is_dir (numbered base n) s ≡ false)
    × (s.highwater < n)
    × (s'.run_name ≡ numbered base n)
    × (s'.highwater ≡ n)

set_highwater_lem :
    (n : ℕ) (s : RunSite)
    → ((set_highwater n s).highwater ≡ max s.highwater n)
      × ((set_highwater n s).run_name ≡ s.run_name)
unfolding set_highwater
set_highwater_lem n s = ground arith

kept_fresh :
    (s : RunSite) (cur : Option (Text × ℕ))
    → let s' = mark_current cur s in
      (s'.run_name ≡ s.run_name) × (is_used_up cur s' ≡ true ⊎ (cur ≡ none))
kept_fresh s none = (refl, inr refl)
kept_fresh s (some (base, n)) = ground (arith, set_highwater_lem n s)

rename-IsFresh :
    (s : RunSite) (base : Text) (tries n : ℕ) (o : Option ℕ)
    → free_number s base tries n ≡ o
    → o ≢ none
    → IsFresh s (rename base o s)
rename-IsFresh s base tries n none e h = h refl
rename-IsFresh s base tries n (some k) e h =
    let (d, w, _) = free_number_lem s base tries n k e in
    let (m, r) = set_highwater_lem k (record s { run_name = numbered base k }) in
    (d, w, r, ground arith)

resume_or_search-IsFresh :
    (s : RunSite) (m tries : ℕ)
    → ((base : Text) → IsFreeFrom m s base)
    → m ≤ tries
    → s.highwater < tries
    → IsFresh s (resume_or_search (suc tries) s)
unfolding resume_or_search
resume_or_search-IsFresh s m tries f l h =
    let (base, n) = next_number s.run_name (split_number s.run_name) in
    let found = free_number s base (suc tries) n in
    elim (Bool-cases (s.resume && is_incomplete s)) [
      | inl e ↦ rw e (ground arith, ground arith, refl)
      | inr e ↦ rw e (
          rename-IsFresh s base (suc tries) n found refl
            (free_number-finds s base m tries n (f base) (omega arith) (omega arith)))
    ]

-- With more tries than the first number from which on no directory has the name and than the mark, the
-- program finds its answer: it keeps the name only if it has no directory and its number was never handed
-- out, and marks it; it resumes only an unfinished run; and a new name has no directory, a number above
-- every one handed out before, and becomes the mark.
pub iterate_run-IsFresh :
    (s : RunSite) (m tries : ℕ)
    → ((base : Text) → IsFreeFrom m s base)
    → m ≤ tries
    → s.highwater < tries
    → IsFresh s (iterate_run (suc tries) s)
unfolding iterate_run
iterate_run-IsFresh s m tries f l h = elim (Bool-cases (is_unused s)) [
  | inl u ↦ let (n, k) = kept_fresh s (split_number s.run_name) in rw u (u, n, k)
  | inr u ↦ rw u (resume_or_search-IsFresh s m tries f l h)
]

-- With resume on and a sub-run missing, the program hands out the same numbered name twice if the
-- directory of the run is there neither the first nor the second time: the mark that it sets the first
-- time does not keep it from the name.
pub iterate_run-reuses :
    (s : RunSite) (tries : ℕ) (base : Text) (n : ℕ)
    → s.resume ≡ true
    → is_incomplete s ≡ true
    → split_number s.run_name ≡ some (base, n)
    → is_unused s ≡ true
    → let first = iterate_run tries s in
      (first.0 ≡ keeps_name)
      × (n ≤ first.1.highwater)
      × (iterate_run tries first.1 ≡ (resumes_run, first.1))
unfolding iterate_run is_unused resume_or_search is_incomplete set_highwater
iterate_run-reuses s tries base n r i e u = ground (arith, r, i, e, u)

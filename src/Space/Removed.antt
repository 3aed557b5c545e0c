-- ===== src/Space/Removed.antt =====
-- The entries of the run store that flask_app/space_manager.py finds after some are taken out.
use daq_control_vmm_beam.Base.{
  ℕ, ◌≡◌, ◌≢◌, ◌≤◌, ◌⊎◌, none, List, [], ◌∷◌, arith, if◌then◌else◌, Text, text_eq, text_eq_iff,
  text_eq→eq, inl, inr, Bool-cases,
}
use daq_control_vmm_beam.Space.Disk.{RunDir, find_run, newest_step, newest_from}
use daq_control_vmm_beam.Space.Delete.{remove_run}

pub find_run-remove_run :
    (name run : Text) (rs : List RunDir)
    → find_run name (remove_run run rs) ≡ (if text_eq run name then none else find_run name rs)
unfolding find_run remove_run
find_run-remove_run name run [] = ground arith
find_run-remove_run name run (r ∷ rs) = ground (
  arith,
  find_run-remove_run name run rs,
  text_eq_iff run name,
  text_eq_iff r.name run,
  text_eq_iff r.name name,
)

-- How the search for the newest run goes on when the entries called `run` are taken out: it holds
-- the same entry, or the full search holds one that was taken out.
abbrev pub Shadowed : Text → Text × ℕ → Text × ℕ → Type 0
Shadowed run b b' = (b ≡ b') ⊎ ((b.0 ≡ run) × (b'.1 ≤ b.1))

newest_step-Shadowed :
    (run : Text) (b b' : Text × ℕ) (r : RunDir)
    → Shadowed run b b'
    → Shadowed run (newest_step b r) (newest_step b' r)
unfolding newest_step
newest_step-Shadowed run b b' r h = ground arith

newest_step-Shadowed_removed :
    (run : Text) (b b' : Text × ℕ) (r : RunDir)
    → r.name ≡ run
    → Shadowed run b b'
    → Shadowed run (newest_step b r) b'
unfolding newest_step
newest_step-Shadowed_removed run b b' r e h = ground arith

pub newest_from-remove_run :
    (run : Text) (b b' : Text × ℕ) (rs : List RunDir)
    → Shadowed run b b'
    → (newest_from b rs).0 ≢ run
    → (newest_from b' (remove_run run rs)).0 ≡ (newest_from b rs).0
unfolding newest_from remove_run
newest_from-remove_run run b b' [] h k = ground arith
newest_from-remove_run run b b' (r ∷ rs) h k = elim (Bool-cases (text_eq r.name run)) [
  | inl e ↦ rw e (
      newest_from-remove_run run (newest_step b r) b' rs
        (newest_step-Shadowed_removed run b b' r (text_eq→eq r.name run e) h) k)
  | inr e ↦ rw e (
      newest_from-remove_run run (newest_step b r) (newest_step b' r) rs
        (newest_step-Shadowed run b b' r h) k)
]

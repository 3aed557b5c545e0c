-- ===== src/Memory/Examples.antt =====
-- A box that runs out of memory, and the theorems about mem_guardian.py at concrete data.
use daq_control_vmm_beam.Base.{
  ℕ, ◌≡◌, refl, ◌⊎◌, inl, false, some, List, [], ◌∷◌, codes, contains_text, starts_with,
}
use daq_control_vmm_beam.Memory.Guardian.{
  Process, MemoryConfig, is_eligible, biggest_from, biggest_killable, sigterm, outlives, kill, Look,
  kills, warns, Guardian, guardian_round, guardian_rounds,
}
use daq_control_vmm_beam.Memory.Killed.{IsKilled, IsDoomed, guardian_rounds-IsDoomed}

abbrev small_box : MemoryConfig
small_box = record {
  kill_avail_mb = 900;
  warn_avail_mb = 1800;
  killable = codes "p2-monitor-qa" ∷ [];
  protect = codes "daq_control.py" ∷ [];
}

abbrev process : ℕ → ℕ → Process
process n kb = record { pid = n; cmdline = codes "p2-monitor-qa run_7"; rss_kb = kb }

abbrev box : List Process
box =
    record { pid = 5; cmdline = codes "python daq_control.py"; rss_kb = 9000 }
    ∷ process 7 2000
    ∷ process 8 4000
    ∷ process 9 3000
    ∷ []

abbrev look_at : ℕ → Look
look_at mb = record { avail_mb = some mb; processes = box; term_fails = false; alive = λ _. false }

abbrev quiet : Guardian
quiet = record { warned = false; acts = [] }

largest_job_is_killed :
    (guardian_rounds 9 small_box
      (look_at 2000 ∷ look_at 1500 ∷ look_at 1400 ∷ look_at 800 ∷ [])
      quiet).acts
    ≡ kills 8 (sigterm 8 ∷ []) ∷ warns 1500 ∷ []
unfolding guardian_rounds guardian_round biggest_killable biggest_from is_eligible kill outlives
    contains_text starts_with
largest_job_is_killed = refl

guardian_rounds-IsKilled :
    IsKilled 8
      (guardian_rounds 9 small_box
        (look_at 2000 ∷ look_at 1500 ∷ look_at 1400 ∷ look_at 800 ∷ [])
        quiet).acts
guardian_rounds-IsKilled = rw largest_job_is_killed (inl refl)

guardian_rounds-IsDoomed_example :
    IsKilled 8 []
    ⊎ IsDoomed 9 small_box (look_at 2000 ∷ look_at 1500 ∷ look_at 1400 ∷ look_at 800 ∷ []) 8
guardian_rounds-IsDoomed_example =
    guardian_rounds-IsDoomed 9 small_box
      (look_at 2000 ∷ look_at 1500 ∷ look_at 1400 ∷ look_at 800 ∷ []) 8 quiet
      guardian_rounds-IsKilled

-- ===== src/Memory/Killed.antt =====
-- When the loop of mem_guardian.py kills.
use daq_control_vmm_beam.Base.{
  ℕ, ◌<◌, ◌≡◌, refl, subst, ◌⊎◌, inl, inr, true, Option, none, some, List, [], ◌∷◌, arith,
}
use daq_control_vmm_beam.Memory.Guardian.{
  Process, MemoryConfig, is_eligible, biggest_killable, Look, Act, warns, kills, finds_no_victim,
  Guardian, attack, weigh, guardian_round, guardian_rounds,
}
use daq_control_vmm_beam.Memory.Victims.{IsIn, IsTop, IsBiggest, biggest_killable-IsBiggest}

abbrev pub IsKilled : ℕ → List Act → Type 0
IsKilled pid [] = ⊥
IsKilled pid (kills q _ ∷ acts) = (q ≡ pid) ⊎ IsKilled pid acts
IsKilled pid (warns _ ∷ acts) = IsKilled pid acts
IsKilled pid (finds_no_victim ∷ acts) = IsKilled pid acts

-- A look at which the memory is below the limit, with the victim the largest eligible process.
pub record IsVictim (self_pid : ℕ) (cfg : MemoryConfig) (x : Look) (pid : ℕ) : Type 0 where
  pub victim : Process
  pub available : ℕ
  pub measured : x.avail_mb ≡ some available
  pub low : available < cfg.kill_avail_mb
  pub listed : IsIn victim x.processes
  pub eligible : is_eligible self_pid cfg victim ≡ true
  pub biggest : IsTop self_pid cfg victim.rss_kb x.processes
  pub killed : victim.pid ≡ pid

abbrev pub IsDoomed : ℕ → MemoryConfig → List Look → ℕ → Type 0
IsDoomed self_pid cfg [] pid = ⊥
IsDoomed self_pid cfg (x ∷ xs) pid = IsVictim self_pid cfg x pid ⊎ IsDoomed self_pid cfg xs pid

module _ (self_pid : ℕ) (cfg : MemoryConfig) where
  attack-IsKilled :
      (x : Look) (mb pid : ℕ) (o : Option Process) (g : Guardian)
      → x.avail_mb ≡ some mb
      → mb < cfg.kill_avail_mb
      → IsBiggest self_pid cfg x.processes o
      → IsKilled pid (attack x o g).acts
      → IsKilled pid g.acts ⊎ IsVictim self_pid cfg x pid
  attack-IsKilled x mb pid none g a l b h = inl h
  attack-IsKilled x mb pid (some v) g a l (e, t, i) (inr h) = inl h
  attack-IsKilled x mb pid (some v) g a l (e, t, i) (inl h) = inr (record {
    victim = v;
    available = mb;
    measured = a;
    low = l;
    listed = i;
    eligible = e;
    biggest = t;
    killed = h;
  })

  weigh_cases :
      (x : Look) (mb : ℕ) (g : Guardian)
      → ((mb < cfg.kill_avail_mb)
          × (weigh self_pid cfg x (some mb) g
              ≡ attack x (biggest_killable self_pid cfg x.processes) g))
        ⊎ (((weigh self_pid cfg x (some mb) g).acts ≡ g.acts)
            ⊎ ((weigh self_pid cfg x (some mb) g).acts ≡ warns mb ∷ g.acts))
  weigh_cases x mb g = ground arith

  weigh-IsKilled :
      (x : Look) (pid : ℕ) (o : Option ℕ) (g : Guardian)
      → x.avail_mb ≡ o
      → IsKilled pid (weigh self_pid cfg x o g).acts
      → IsKilled pid g.acts ⊎ IsVictim self_pid cfg x pid
  weigh-IsKilled x pid none g a h = inl h
  weigh-IsKilled x pid (some mb) g a h = elim (weigh_cases x mb g) [
    | inl (l, e) ↦
        attack-IsKilled x mb pid (biggest_killable self_pid cfg x.processes) g a l
          (biggest_killable-IsBiggest self_pid cfg x.processes)
          (subst (λ g'. IsKilled pid g'.acts) e h)
    | inr (inl e) ↦ inl (subst (IsKilled pid) e h)
    | inr (inr e) ↦ inl (subst (IsKilled pid) e h)
  ]

  -- A process that was killed was, in one of the rounds with the memory below the limit, the largest of
  -- the eligible ones: never the guardian itself, never a protected one, never one off the list.
  pub guardian_rounds-IsDoomed :
      (xs : List Look) (pid : ℕ) (g : Guardian)
      → IsKilled pid (guardian_rounds self_pid cfg xs g).acts
      → IsKilled pid g.acts ⊎ IsDoomed self_pid cfg xs pid
  unfolding guardian_rounds guardian_round
  guardian_rounds-IsDoomed [] pid g h = inl h
  guardian_rounds-IsDoomed (x ∷ xs) pid g h =
      elim (guardian_rounds-IsDoomed xs pid (guardian_round self_pid cfg x g) h) [
        | inr d ↦ inr (inr d)
        | inl k ↦ elim (weigh-IsKilled x pid x.avail_mb g refl k) [
          | inl m ↦ inl m
          | inr v ↦ inr (inl v)
        ]
      ]

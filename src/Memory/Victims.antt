-- ===== src/Memory/Victims.antt =====
-- Which processes mem_guardian.py kills.
use daq_control_vmm_beam.Base.{
  ℕ, ◌≤◌, ◌≡◌, refl, sym, ◌⊎◌, inl, inr, true, false, Option, none, some, List, [], ◌∷◌, arith,
  Bool-cases, All,
}
use daq_control_vmm_beam.Memory.Guardian.{
  Process, MemoryConfig, is_eligible, larger, biggest_from, biggest_killable,
}

abbrev pub IsIn : Process → List Process → Type 0
IsIn p [] = ⊥
IsIn p (q ∷ qs) = (q ≡ p) ⊎ IsIn p qs

-- The processes that are eligible are no larger than `n`.
abbrev pub IsTop : ℕ → MemoryConfig → ℕ → List Process → Type 0
IsTop self_pid cfg n ps = All (λ p. is_eligible self_pid cfg p ≡ true → p.rss_kb ≤ n) ps

-- What is found so far: its size is the top, and it is the start value or an eligible process.
abbrev pub IsBiggest : ℕ → MemoryConfig → List Process → Option Process → Type 0
IsBiggest self_pid cfg ps none = All (λ p. is_eligible self_pid cfg p ≡ false) ps
IsBiggest self_pid cfg ps (some v) =
    (is_eligible self_pid cfg v ≡ true) × IsTop self_pid cfg v.rss_kb ps × IsIn v ps

module _ (self_pid : ℕ) (cfg : MemoryConfig) where
  IsTop-mono :
      (n m : ℕ) (ps : List Process) → n ≤ m → IsTop self_pid cfg n ps → IsTop self_pid cfg m ps
  IsTop-mono n m [] l h = tt
  IsTop-mono n m (p ∷ ps) l (h, t) = (λ e. let k = h e in omega arith, IsTop-mono n m ps l t)

  larger_cases :
      (p q : Process)
      → ((larger p (some q) ≡ some p) × (q.rss_kb ≤ p.rss_kb))
        ⊎ ((larger p (some q) ≡ some q) × (p.rss_kb ≤ q.rss_kb))
  larger_cases p q = ground arith

  -- The search from a process that was found before.
  biggest_from-some :
      (ps : List Process) (q : Process)
      → is_eligible self_pid cfg q ≡ true
      → (v : Process) × (biggest_from self_pid cfg ps (some q) ≡ some v)
        × (is_eligible self_pid cfg v ≡ true)
        × (q.rss_kb ≤ v.rss_kb)
        × IsTop self_pid cfg v.rss_kb ps
        × ((v ≡ q) ⊎ IsIn v ps)
  unfolding biggest_from
  biggest_from-some [] q h = (q, refl, h, omega arith, tt, inl refl)
  biggest_from-some (p ∷ ps) q h = elim (Bool-cases (is_eligible self_pid cfg p)) [
    | inr e ↦
        let (v, f, g, l, t, m) = biggest_from-some ps q h in
        rw e (v, f, g, l, (λ k. ground arith, t), elim m [ inl a ↦ inl a | inr a ↦ inr (inr a) ])
    | inl e ↦ elim (larger_cases p q) [
      | inl (k, le) ↦
          let (v, f, g, l, t, m) = biggest_from-some ps p e in
          rw (e, k)
            (
              v,
              f,
              g,
              omega arith,
              (λ _. l, t),
              elim m [ inl a ↦ inr (inl (sym a)) | inr a ↦ inr (inr a) ],
            )
      | inr (k, le) ↦
          let (v, f, g, l, t, m) = biggest_from-some ps q h in
          rw (e, k)
            (v, f, g, l, (λ _. omega arith, t), elim m [ inl a ↦ inl a | inr a ↦ inr (inr a) ])
    ]
  ]

  skip-IsBiggest :
      (p : Process) (ps : List Process) (o : Option Process)
      → is_eligible self_pid cfg p ≡ false
      → IsBiggest self_pid cfg ps o
      → IsBiggest self_pid cfg (p ∷ ps) o
  skip-IsBiggest p ps none e h = (e, h)
  skip-IsBiggest p ps (some v) e (g, t, m) = (g, (λ k. ground arith, t), inr m)

  -- A process is found exactly if one is eligible: not the guardian itself, on the list of processes that
  -- may be killed, not protected. The one found is eligible, and no eligible one is larger.
  pub biggest_killable-IsBiggest :
      (ps : List Process) → IsBiggest self_pid cfg ps (biggest_killable self_pid cfg ps)
  unfolding biggest_killable biggest_from
  biggest_killable-IsBiggest [] = tt
  biggest_killable-IsBiggest (p ∷ ps) = elim (Bool-cases (is_eligible self_pid cfg p)) [
    | inl e ↦
        let (v, f, g, l, t, m) = biggest_from-some ps p e in
        rw (e, f) (g, (λ _. l, t), elim m [ inl a ↦ inl (sym a) | inr a ↦ inr a ])
    | inr e ↦
        rw e
          (skip-IsBiggest p ps (biggest_killable self_pid cfg ps) e (biggest_killable-IsBiggest ps))
  ]

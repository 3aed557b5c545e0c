-- ===== src/Scan/Ready.antt =====
-- What config_scan.py has seen before it starts a run.
use daq_control_vmm_beam.Base.{
  ℕ, zero, suc, ◌+◌, ◌≤◌, ◌<◌, Bool, true, false, ◌&&◌, List, [], ◌∷◌, Text, ◌≡◌, refl, ◌∙◌, arith,
  if-elim, &&-split,
}
use daq_control_vmm_beam.Scan.Hall.{
  Sent, post_reset, post_apply, post_start, post_select, Hall, Scan, ask_hall, post, wait_for,
  reset_polls, warm_reset_tries, is_said_off, is_said_zero, is_file, reset_once, reset_until_ready,
  Applied, no_end, took, not_taken, read_apply, apply_once, after_apply, apply_tries,
  select_and_apply,
}

-- How many runs were started.
abbrev pub count_starts : List Sent → ℕ
count_starts [] = 0
count_starts (r ∷ rs) = let rest = count_starts rs in elim r [ post_start ↦ rest + 1 | _ ↦ rest ]

-- Time has gone on, and no run was started.
pub record Grows (s e : Scan) : Type 0 where
  pub later : s.asked ≤ e.asked
  pub same : count_starts e.sent ≡ count_starts s.sent

abbrev pub grown :
    {s e : Scan} → s.asked ≤ e.asked → count_starts e.sent ≡ count_starts s.sent → Grows s e
grown a b = record { later = a; same = b }

pub Grows-trans : {c s e : Scan} → Grows c s → Grows s e → Grows c e
Grows-trans g h = record { later = omega (arith, g.later, h.later); same = h.same ∙ g.same }

module _ (hall : Hall) where
  pub wait_for-Grows : (pred : ℕ → Bool) (polls : ℕ) (s : Scan) → Grows s (wait_for pred polls s).1
  unfolding wait_for
  wait_for-Grows pred zero s = (grown (omega arith) refl)
  wait_for-Grows pred (suc polls) s =
      if-elim (λ (r : Bool × Scan). Grows s r.1) (pred s.asked) (true, ask_hall s)
        (wait_for pred polls (ask_hall s)) (λ _. (grown (omega arith) refl))
        (λ _. Grows-trans (grown (omega arith) refl) (wait_for-Grows pred polls (ask_hall s)))

  -- A warm reset that left no hybrid failed was seen in between.
  pub data SeesReset (from to : ℕ) : Type 0 where
    saw_reset :
        (k : ℕ) → from ≤ k → k < to → is_said_zero (hall.reset_failed k) ≡ true → SeesReset from to

  pub earlier : (from mid to : ℕ) → from ≤ mid → SeesReset mid to → SeesReset from to
  earlier from mid to le (saw_reset k lo hi clean) = saw_reset k (omega arith) hi clean

  abbrev pub EndsReset : Scan → Bool × Scan → Type 0
  EndsReset s r = Grows s r.1 × (r.0 ≡ true → SeesReset s.asked r.1.asked)

  reset_once-EndsReset : (s : Scan) → EndsReset s (reset_once hall s)
  unfolding reset_once
  reset_once-EndsReset s =
      let pred = λ (k : ℕ). is_said_off (hall.reset_running k) in
      let g = wait_for-Grows pred reset_polls (post post_reset s) in
      let lo = g.later in
      (
        grown (omega arith) g.same,
        λ clean.
            saw_reset (wait_for pred reset_polls (post post_reset s)).1.asked (omega arith)
              (omega arith) clean,
      )

  pub reset_until_ready-EndsReset :
      (tries : ℕ) (s : Scan) → EndsReset s (reset_until_ready hall tries s)
  unfolding reset_until_ready
  reset_until_ready-EndsReset zero s = ((grown (omega arith) refl), λ e. absurd (cc e))
  reset_until_ready-EndsReset (suc tries) s =
      let first = reset_once hall s in
      let (g, saw) = reset_once-EndsReset s in
      if-elim (EndsReset s) first.0 first (reset_until_ready hall tries first.1) (λ yes. (g, saw))
        (λ no.
          let (g', saw') = reset_until_ready-EndsReset tries first.1 in
          (Grows-trans g g', λ e. earlier s.asked first.1.asked _ g.later (saw' e)))

module _ (hall : Hall) (cfg : Text) where
  -- An apply of this configuration that exited with 0 and left the run armed was seen in between.
  pub data SeesApply (from to : ℕ) : Type 0 where
    saw_apply :
        (k : ℕ)
        → from ≤ k
        → k < to
        → is_said_zero (hall.last_rc k) ≡ true
        → is_file cfg (hall.last_file k) ≡ true
        → hall.armed (k + 1) ≡ true
        → SeesApply from to

  pub later_apply : (from mid to : ℕ) → from ≤ mid → SeesApply mid to → SeesApply from to
  later_apply from mid to le (saw_apply k lo hi rc file armed) =
      saw_apply k (omega arith) hi rc file armed

  pub wider : (from to end : ℕ) → to ≤ end → SeesApply from to → SeesApply from end
  wider from to end le (saw_apply k lo hi rc file armed) =
      saw_apply k lo (omega arith) rc file armed

  abbrev pub EndsApply : Scan → Bool × Scan → Type 0
  EndsApply s r = Grows s r.1 × (r.0 ≡ true → SeesApply s.asked r.1.asked)

  abbrev EndsOnce : Scan → Applied → Type 0
  EndsOnce s (no_end e) = Grows s e
  EndsOnce s (took armed e) = Grows s e × (armed ≡ true → SeesApply s.asked e.asked)
  EndsOnce s (not_taken e) = Grows s e

  read_apply-EndsOnce :
      (s : Scan) (r : Bool × Scan) → Grows s r.1 → EndsOnce s (read_apply hall cfg r)
  read_apply-EndsOnce s (false, e) g = g
  read_apply-EndsOnce s (true, e) g =
      if-elim (EndsOnce s)
        (is_said_zero (hall.last_rc e.asked) && is_file cfg (hall.last_file e.asked))
        (took (hall.armed (e.asked + 1)) (ask_hall (ask_hall e))) (not_taken (ask_hall e))
        (λ ok.
          let (rc, file) = &&-split _ _ ok in
          (
            grown (omega (arith, g.later)) g.same,
            λ armed. saw_apply e.asked g.later (omega arith) rc file armed,
          ))
        (λ _. grown (omega (arith, g.later)) g.same)

  apply_once-EndsOnce : (s : Scan) → EndsOnce s (apply_once hall cfg s)
  unfolding apply_once
  apply_once-EndsOnce s =
      let pred = λ (k : ℕ). is_said_off (hall.applying k) in
      let sent = post post_apply s in
      read_apply-EndsOnce s (wait_for pred reset_polls sent)
        (Grows-trans (grown (omega arith) refl) (wait_for-Grows hall pred reset_polls sent))

  after_apply-EndsApply :
      (s : Scan) (a : Applied) (next : Scan → Bool × Scan)
      → EndsOnce s a
      → ((e : Scan) → EndsApply e (next e))
      → EndsApply s (after_apply a next)
  after_apply-EndsApply s (no_end e) next g more = (g, λ x. absurd (cc x))
  after_apply-EndsApply s (took armed e) next h more = h
  after_apply-EndsApply s (not_taken e) next g more =
      let (g', saw) = more e in
      (Grows-trans g g', λ x. later_apply s.asked e.asked _ g.later (saw x))

  apply_tries-EndsApply : (tries : ℕ) (s : Scan) → EndsApply s (apply_tries hall cfg tries s)
  unfolding apply_tries
  apply_tries-EndsApply zero s = ((grown (omega arith) refl), λ x. absurd (cc x))
  apply_tries-EndsApply (suc tries) s =
      after_apply-EndsApply s (apply_once hall cfg s) (apply_tries hall cfg tries)
        (apply_once-EndsOnce s) (apply_tries-EndsApply tries)

  pub select_and_apply-EndsApply : (s : Scan) → EndsApply s (select_and_apply hall cfg s)
  unfolding select_and_apply
  select_and_apply-EndsApply s =
      let sent = post (post_select cfg) s in
      let (g, saw) = apply_tries-EndsApply warm_reset_tries sent in
      if-elim (EndsApply s) (hall.selects s.asked) (apply_tries hall cfg warm_reset_tries sent)
        (false, sent)
        (λ _. (
          Grows-trans (grown (omega arith) refl) g,
          λ x. later_apply s.asked sent.asked _ (omega arith) (saw x),
        ))
        (λ _. ((grown (omega arith) refl), λ x. absurd (cc x)))

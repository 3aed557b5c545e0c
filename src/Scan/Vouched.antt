-- ===== src/Scan/Vouched.antt =====
-- `run_one` of config_scan.py starts a run only once it has seen what it needs.
use daq_control_vmm_beam.Base.{
  ℕ, zero, suc, ◌+◌, ◌≤◌, Bool, true, false, not, ◌&&◌, Option, none, some, if◌then◌else◌, Text,
  ◌≡◌, refl, ap, ◌∙◌, arith, if-elim,
}
use daq_control_vmm_beam.Scan.Hall.{
  post_update, post_start, post_stop, Hall, Scan, ask_hall, post, wait_for, idle_polls,
  appear_polls, warm_reset_tries, reset_until_ready, select_and_apply,
}
use daq_control_vmm_beam.Scan.Point.{
  PointEnd, fatal, failed, crashed, dry, finished, is_below_floor, would_overrun,
  verify_started_run, finish_lab, finish_beam, watch_point, watch_polls, either_way, follow_point,
  start_point, configure_point, idle_point, run_one,
}
use daq_control_vmm_beam.Scan.Ready.{
  count_starts, Grows, grown, Grows-trans, wait_for-Grows, SeesReset, earlier, EndsReset, EndsApply,
  wider, reset_until_ready-EndsReset, SeesApply, select_and_apply-EndsApply,
}

abbrev pub end_of : PointEnd → Scan
end_of (fatal s) = s
end_of (failed s) = s
end_of (crashed s) = s
end_of (dry s) = s
end_of (finished events s) = s

module _ (hall : Hall) where
  finish_lab-Grows : (bytes : Option ℕ) (s : Scan) → Grows s (end_of (finish_lab bytes s))
  finish_lab-Grows none s = grown (omega arith) refl
  finish_lab-Grows (some b) s = grown (omega arith) refl

  finish_beam-Grows :
      (bytes events : Option ℕ) (s : Scan) → Grows s (end_of (finish_beam bytes events s))
  finish_beam-Grows none events s = grown (omega arith) refl
  finish_beam-Grows (some b) events s = grown (omega arith) refl

  watch_point-Grows : (polls : ℕ) (s : Scan) → Grows s (end_of (watch_point hall polls s))
  unfolding watch_point
  watch_point-Grows zero s = grown (omega arith) refl
  watch_point-Grows (suc polls) s =
      let s1 = ask_hall s in
      let s2 = ask_hall s1 in
      let P = λ (e : PointEnd). Grows s (end_of e) in
      let rest = watch_point hall polls s2 in
      let beam =
        finish_beam (hall.run_bytes s2.asked) (hall.dream_events (s2.asked + 1))
          (ask_hall (ask_hall s2)) in
      if-elim P (not (hall.daq_running s.asked) && not hall.is_beam_site)
        (finish_lab (hall.run_bytes s1.asked) (ask_hall s1))
        (if hall.daq_running s1.asked then rest else beam)
        (λ _.
          Grows-trans (grown (omega arith) refl)
            (finish_lab-Grows (hall.run_bytes s1.asked) (ask_hall s1)))
        (λ _.
          if-elim P (hall.daq_running s1.asked) rest beam
            (λ _. Grows-trans (grown (omega arith) refl) (watch_point-Grows polls s2))
            (λ _. Grows-trans (grown (omega arith) refl) (
              finish_beam-Grows (hall.run_bytes s2.asked) (hall.dream_events (s2.asked + 1))
                (ask_hall (ask_hall s2)))))

  follow_point-Grows :
      (minutes : ℕ) (cfg : Text) (s : Scan) → Grows s (end_of (follow_point hall minutes cfg s))
  unfolding follow_point
  follow_point-Grows minutes cfg s =
      if-elim (λ (e : PointEnd). Grows s (end_of e))
        (verify_started_run cfg minutes (hall.run_file s.asked))
        (watch_point hall (watch_polls minutes) (ask_hall s)) (fatal (post post_stop (ask_hall s)))
        (λ _.
          Grows-trans (grown (omega arith) refl)
            (watch_point-Grows (watch_polls minutes) (ask_hall s)))
        (λ _. grown (omega arith) refl)

  either_way-Grows :
      (s : Scan) (r : Bool × Scan) (next : Scan → PointEnd)
      → Grows s r.1
      → ((e : Scan) → Grows e (end_of (next e)))
      → Grows s (end_of (either_way r next failed))
  either_way-Grows s (true, e) next g more = Grows-trans g (more e)
  either_way-Grows s (false, e) next g more = g

  -- Exactly one request to start a run.
  record StartsOne (s e : Scan) : Type 0 where
    later : s.asked ≤ e.asked
    one : count_starts e.sent ≡ suc (count_starts s.sent)

  Grows-StartsOne : (s c e : Scan) → StartsOne s c → Grows c e → StartsOne s e
  Grows-StartsOne s c e h g = record {
    later = omega (arith, h.later, g.later);
    one = g.same ∙ h.one;
  }

  start_point-StartsOne :
      (minutes : ℕ) (cfg : Text) (s : Scan) → StartsOne s (end_of (start_point hall minutes cfg s))
  unfolding start_point
  start_point-StartsOne minutes cfg s =
      let started = post post_start (post post_update s) in
      if-elim (λ (e : PointEnd). StartsOne s (end_of e)) (hall.starts (post post_update s).asked)
        (either_way (wait_for hall.daq_running appear_polls started) (follow_point hall minutes cfg)
          failed)
        (failed started)
        (λ _.
          Grows-StartsOne s started _ (record { later = omega arith; one = omega arith })
            (either_way-Grows started (wait_for hall.daq_running appear_polls started)
              (follow_point hall minutes cfg)
              (wait_for-Grows hall hall.daq_running appear_polls started)
              (follow_point-Grows minutes cfg)))
        (λ _. record { later = omega arith; one = omega arith })

  -- Before the end of a point no run was started, or one was, for which all was seen in this order: no
  -- run going on, the disk not below the floor, at a lab site nor by the estimate, no hybrid failed
  -- after a warm reset, and this configuration applied with the run armed.
  pub data IsVouched (cfg : Text) (s e : Scan) : Type 0 where
    none_started : count_starts e.sent ≡ count_starts s.sent → IsVouched cfg s e
    one_started :
        (mid : ℕ)
        → count_starts e.sent ≡ suc (count_starts s.sent)
        → hall.daq_running s.asked ≡ false
        → is_below_floor (hall.free_bytes (s.asked + 1)) ≡ false
        → (not hall.is_beam_site && would_overrun s.last_bytes (hall.free_bytes (s.asked + 1)))
          ≡ false
        → SeesReset hall s.asked mid
        → SeesApply hall cfg mid e.asked
        → IsVouched cfg s e

  -- The same, from the warm reset on.
  data IsConfigured (cfg : Text) (s e : Scan) : Type 0 where
    not_begun : count_starts e.sent ≡ count_starts s.sent → IsConfigured cfg s e
    begun :
        (mid : ℕ)
        → count_starts e.sent ≡ suc (count_starts s.sent)
        → SeesReset hall s.asked mid
        → SeesApply hall cfg mid e.asked
        → IsConfigured cfg s e

  applied-IsConfigured :
      (minutes : ℕ) (cfg : Text) (s mid : Scan) (r : Bool × Scan)
      → Grows s mid
      → SeesReset hall s.asked mid.asked
      → EndsApply hall cfg mid r
      → IsConfigured cfg s (end_of (either_way r (start_point hall minutes cfg) failed))
  applied-IsConfigured minutes cfg s mid (true, e) g saw (g', sees) =
      let one = start_point-StartsOne minutes cfg e in
      begun mid.asked (one.one ∙ ap suc (g'.same ∙ g.same)) saw
        (wider hall cfg mid.asked e.asked _ one.later (sees refl))
  applied-IsConfigured minutes cfg s mid (false, e) g saw (g', sees) = not_begun (g'.same ∙ g.same)

  reset-IsConfigured :
      (minutes : ℕ) (cfg : Text) (s : Scan) (r : Bool × Scan)
      → EndsReset hall s r
      → IsConfigured cfg s (
          end_of (
            either_way r
              (λ s'.
                either_way (select_and_apply hall cfg s') (start_point hall minutes cfg) failed)
              fatal))
  reset-IsConfigured minutes cfg s (true, e) (g, sees) =
      applied-IsConfigured minutes cfg s e (select_and_apply hall cfg e) g (sees refl)
        (select_and_apply-EndsApply hall cfg e)
  reset-IsConfigured minutes cfg s (false, e) (g, sees) = not_begun g.same

  configure_point-IsConfigured :
      (minutes : ℕ) (cfg : Text) (s : Scan)
      → IsConfigured cfg s (end_of (configure_point hall minutes cfg s))
  unfolding configure_point
  configure_point-IsConfigured minutes cfg s =
      reset-IsConfigured minutes cfg s (reset_until_ready hall warm_reset_tries s)
        (reset_until_ready-EndsReset hall warm_reset_tries s)

  later-IsConfigured :
      (cfg : Text) (s c e : Scan) → Grows s c → IsConfigured cfg c e → IsConfigured cfg s e
  later-IsConfigured cfg s c e g (not_begun n) = not_begun (n ∙ g.same)
  later-IsConfigured cfg s c e g (begun mid n saw sees) =
      begun mid (n ∙ ap suc g.same) (earlier hall s.asked c.asked mid g.later saw) sees

  waited-IsConfigured :
      (minutes : ℕ) (cfg : Text) (s : Scan) (r : Bool × Scan)
      → Grows s r.1
      → IsConfigured cfg s (end_of (either_way r (configure_point hall minutes cfg) failed))
  waited-IsConfigured minutes cfg s (true, e) g =
      later-IsConfigured cfg s e _ g (configure_point-IsConfigured minutes cfg e)
  waited-IsConfigured minutes cfg s (false, e) g = not_begun g.same

  idle_point-IsConfigured :
      (minutes : ℕ) (cfg : Text) (s : Scan)
      → IsConfigured cfg s (end_of (idle_point hall minutes cfg s))
  unfolding idle_point
  idle_point-IsConfigured minutes cfg s =
      if-elim (λ (e : PointEnd). IsConfigured cfg s (end_of e)) hall.is_beam_site
        (either_way (wait_for hall.dream_idle idle_polls s) (configure_point hall minutes cfg)
          failed)
        (configure_point hall minutes cfg s)
        (λ _.
          waited-IsConfigured minutes cfg s (wait_for hall.dream_idle idle_polls s)
            (wait_for-Grows hall hall.dream_idle idle_polls s))
        (λ _. configure_point-IsConfigured minutes cfg s)

  configured-IsVouched :
      (cfg : Text) (s c e : Scan)
      → Grows s c
      → hall.daq_running s.asked ≡ false
      → is_below_floor (hall.free_bytes (s.asked + 1)) ≡ false
      → (not hall.is_beam_site && would_overrun s.last_bytes (hall.free_bytes (s.asked + 1)))
        ≡ false
      → IsConfigured cfg c e
      → IsVouched cfg s e
  configured-IsVouched cfg s c e g idle room fits (not_begun n) = none_started (n ∙ g.same)
  configured-IsVouched cfg s c e g idle room fits (begun mid n saw sees) =
      one_started mid (n ∙ ap suc g.same) idle room fits
        (earlier hall s.asked c.asked mid g.later saw) sees

-- A point of a scan sends at most one request to start a run, and if it sends one, then no run was
-- going on, the free disk was at the floor or above it or could not be read, at a lab site one and a
-- half times the volume of the point before did not lead below the floor, after that a warm reset was
-- seen to leave no hybrid failed, and after that an apply was seen to exit with 0 on the configuration
-- of this point and to leave the next run armed.
pub run_one-IsVouched :
    (hall : Hall) (is_dry : Bool) (minutes : ℕ) (cfg : Text) (s : Scan)
    → IsVouched hall cfg s (end_of (run_one hall is_dry minutes cfg s))
unfolding run_one
run_one-IsVouched hall true minutes cfg s = none_started refl
run_one-IsVouched hall false minutes cfg s =
    let P = λ (e : PointEnd). IsVouched hall cfg s (end_of e) in
    let free = hall.free_bytes (s.asked + 1) in
    let s' = ask_hall (ask_hall s) in
    let full = not hall.is_beam_site && would_overrun s.last_bytes free in
    let go = idle_point hall minutes cfg s' in
    if-elim P (hall.daq_running s.asked) (failed (ask_hall s))
      (if is_below_floor free then fatal s' else if full then fatal s' else go)
      (λ _. none_started refl)
      (λ idle.
        if-elim P (is_below_floor free) (fatal s') (if full then fatal s' else go)
          (λ _. none_started refl)
          (λ room.
            if-elim P full (fatal s') go (λ _. none_started refl)
              (λ fits.
                configured-IsVouched hall cfg s s' _ (grown (omega arith) refl) idle room fits
                  (idle_point-IsConfigured hall minutes cfg s'))))

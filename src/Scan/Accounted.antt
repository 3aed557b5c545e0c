-- ===== src/Scan/Accounted.antt =====
-- The loop of config_scan.py: what becomes of each configuration.
use daq_control_vmm_beam.Base.{
  ℕ, ◌+◌, ◌≤◌, ltb, Bool, true, false, not, ◌&&◌, List, [], ◌∷◌, ◌++◌, map, if◌then◌else◌, Text,
  ◌≡◌, refl, ap, arith, if-elim,
}
use daq_control_vmm_beam.Scan.Hall.{Hall, Scan, ask_hall}
use daq_control_vmm_beam.Scan.Point.{PointEnd, fatal, failed, crashed, dry, finished, run_one}
use daq_control_vmm_beam.Scan.Loop.{
  Fate, taken, dry_run, stopped, no_time, refused, killed, Fates, ScanEnd, over, thrown,
  overhead_min, set_hold, note, after_point, scan_loop, clean_up, finally, run_scan,
}
use daq_control_vmm_beam.Scan.Ready.{count_starts}
use daq_control_vmm_beam.Scan.Vouched.{
  end_of, IsVouched, none_started, one_started, run_one-IsVouched,
}

-- The configurations of the entries.
abbrev pub named : Fates → List Text
named [] = []
named ((c, f) ∷ fates) = c ∷ named fates

-- The starts that a point may send, and those that stand behind an entry: none in a dry run, none for a
-- configuration that was not taken in hand, one for any other.
abbrev pub cost : Bool → ℕ
cost true = 0
cost false = 1

abbrev pub attempts : Bool → Fate → ℕ
attempts is_dry stopped = 0
attempts is_dry no_time = 0
attempts is_dry _ = cost is_dry

abbrev pub tried : Bool → Fates → ℕ
tried is_dry [] = 0
tried is_dry ((c, f) ∷ fates) = attempts is_dry f + tried is_dry fates

-- The end of a scan over configurations, from a number of starts on, with what may stand behind the
-- entries, and behind the configuration at which it was cut off or an exception came.
pub data IsAccount (is_dry : Bool) (starts : ℕ) (configs : List Text) : ScanEnd → Type 0 where
  accounted :
      (fates : Fates) (s : Scan)
      → named fates ≡ configs
      → count_starts s.sent ≤ starts + tried is_dry fates
      → IsAccount is_dry starts configs (over fates s)
  cut_at :
      (fates : Fates) (c : Text) (rest : List Text) (s : Scan)
      → named fates ++ (c ∷ rest) ≡ configs
      → count_starts s.sent ≤ starts + tried is_dry fates + cost is_dry
      → IsAccount is_dry starts configs (over (fates ++ ((c, killed) ∷ [])) s)
  thrown_at :
      (fates : Fates) (c : Text) (rest : List Text) (s : Scan)
      → named fates ++ (c ∷ rest) ≡ configs
      → count_starts s.sent ≤ starts + tried is_dry fates + cost is_dry
      → IsAccount is_dry starts configs (thrown fates s)

note-IsAccount :
    (is_dry : Bool) (n m : ℕ) (c : Text) (f : Fate) (configs : List Text) (e : ScanEnd)
    → n ≤ m + attempts is_dry f
    → IsAccount is_dry n configs e
    → IsAccount is_dry m (c ∷ configs) (note (c, f) e)
note-IsAccount is_dry n m c f configs (over fates s) le (accounted fates' s' names few) =
    accounted ((c, f) ∷ fates) s (ap (λ (l : List Text). c ∷ l) names) (omega arith)
note-IsAccount is_dry n m c f configs e le (cut_at fates c' rest s names few) =
    cut_at ((c, f) ∷ fates) c' rest s (ap (λ (l : List Text). c ∷ l) names) (omega arith)
note-IsAccount is_dry n m c f configs e le (thrown_at fates c' rest s names few) =
    thrown_at ((c, f) ∷ fates) c' rest s (ap (λ (l : List Text). c ∷ l) names) (omega arith)

named_stopped : (cs : List Text) → named (map (λ c. (c, stopped)) cs) ≡ cs
named_stopped [] = refl
named_stopped (c ∷ cs) = ap (λ (l : List Text). c ∷ l) (named_stopped cs)

starts_vouched :
    (hall : Hall) (cfg : Text) (s e : Scan)
    → IsVouched hall cfg s e
    → count_starts e.sent ≤ count_starts s.sent + 1
starts_vouched hall cfg s e (none_started n) = omega (arith, n)
starts_vouched hall cfg s e (one_started mid n idle room fits saw sees) = omega (arith, n)

-- A point adds one start at most, and none in a dry run.
starts_of_point :
    (hall : Hall) (is_dry : Bool) (minutes : ℕ) (cfg : Text) (s : Scan)
    → count_starts (end_of (run_one hall is_dry minutes cfg s)).sent
      ≤ count_starts s.sent + cost is_dry
unfolding run_one
starts_of_point hall true minutes cfg s = omega arith
starts_of_point hall false minutes cfg s =
    starts_vouched hall cfg s _ (run_one-IsVouched hall false minutes cfg s)

after_point-IsAccount :
    (is_dry : Bool) (n : ℕ) (cfg : Text) (rest : List Text) (e : PointEnd) (next : Scan → ScanEnd)
    → count_starts (end_of e).sent ≤ n + cost is_dry
    → ((s : Scan) → IsAccount is_dry (count_starts s.sent) rest (next s))
    → IsAccount is_dry n (cfg ∷ rest) (after_point cfg e next)
after_point-IsAccount is_dry n cfg rest (fatal s) next le more =
    cut_at [] cfg rest s refl (omega (arith, le))
after_point-IsAccount is_dry n cfg rest (failed s) next le more =
    note-IsAccount is_dry _ n cfg refused rest _ le (more s)
after_point-IsAccount is_dry n cfg rest (crashed s) next le more =
    thrown_at [] cfg rest s refl (omega (arith, le))
after_point-IsAccount is_dry n cfg rest (dry s) next le more =
    note-IsAccount is_dry _ n cfg dry_run rest _ le (more s)
after_point-IsAccount is_dry n cfg rest (finished events s) next le more =
    note-IsAccount is_dry _ n cfg (taken events) rest _ le (more s)

set_hold-sent :
    (hall : Hall) (is_dry : Bool) (configs : List Text) (cfg : Text) (s : Scan)
    → (set_hold hall is_dry configs cfg s).sent ≡ s.sent
unfolding set_hold
set_hold-sent hall is_dry configs cfg s = ground arith

scan_loop-IsAccount :
    (hall : Hall) (is_dry : Bool) (minutes : ℕ) (configs rest : List Text) (s : Scan)
    → IsAccount is_dry (count_starts s.sent) rest (scan_loop hall is_dry minutes configs rest s)
unfolding scan_loop
scan_loop-IsAccount hall is_dry minutes configs [] s = accounted [] s refl (omega arith)
scan_loop-IsAccount hall is_dry minutes configs (cfg ∷ rest) s =
    let n = count_starts s.sent in
    let next = scan_loop hall is_dry minutes configs rest in
    let more = λ (s' : Scan). scan_loop-IsAccount hall is_dry minutes configs rest s' in
    let s1 = ask_hall s in
    let s2 = ask_hall (set_hold hall is_dry configs cfg s1) in
    let same = ap count_starts (set_hold-sent hall is_dry configs cfg s1) in
    let all : Fates = map (λ c. (c, stopped)) (cfg ∷ rest) in
    let late = ltb (hall.minutes_left s1.asked) (minutes + overhead_min) in
    if-elim (IsAccount is_dry n (cfg ∷ rest)) (not is_dry && hall.stop_requested s.asked)
      (over all s1)
      (if late
        then note (cfg, no_time) (next s2)
        else after_point cfg (run_one hall is_dry minutes cfg s2) next)
      (λ _. accounted all s1 (named_stopped (cfg ∷ rest)) (omega arith))
      (λ _.
        if-elim (IsAccount is_dry n (cfg ∷ rest)) late (note (cfg, no_time) (next s2))
          (after_point cfg (run_one hall is_dry minutes cfg s2) next)
          (λ _.
            note-IsAccount is_dry _ n cfg no_time rest (next s2) (omega (arith, same)) (more s2))
          (λ _.
            after_point-IsAccount is_dry n cfg rest (run_one hall is_dry minutes cfg s2) next
              (omega (arith, same, starts_of_point hall is_dry minutes cfg s2)) more))

clean_up-sent :
    (hall : Hall) (is_dry : Bool) (s : Scan)
    → count_starts (clean_up hall is_dry s).sent ≡ count_starts s.sent
clean_up-sent hall true s = refl
clean_up-sent hall false s = refl

finally-IsAccount :
    (hall : Hall) (is_dry : Bool) (n : ℕ) (configs : List Text) (e : ScanEnd)
    → IsAccount is_dry n configs e
    → IsAccount is_dry n configs (finally hall is_dry e)
finally-IsAccount hall is_dry n configs e (accounted fates s names few) =
    accounted fates _ names (omega (arith, clean_up-sent hall is_dry s))
finally-IsAccount hall is_dry n configs e (cut_at fates c rest s names few) =
    cut_at fates c rest _ names (omega (arith, clean_up-sent hall is_dry s))
finally-IsAccount hall is_dry n configs e (thrown_at fates c rest s names few) =
    thrown_at fates c rest _ names (omega (arith, clean_up-sent hall is_dry s))

-- A scan enters its configurations in their order, each once: all of them where it comes to its end, is
-- stopped or has no time left, those up to a fatal one where it is cut off, and those before the one at
-- which an exception comes. The requests to start a run are no more than the configurations that it has
-- taken in hand, without those entered as stopped or without time, and a dry run sends none.
pub run_scan-IsAccount :
    (hall : Hall) (is_dry : Bool) (minutes : ℕ) (configs : List Text) (s : Scan)
    → IsAccount is_dry (count_starts s.sent) configs (run_scan hall is_dry minutes configs s)
unfolding run_scan
run_scan-IsAccount hall true minutes configs s =
    finally-IsAccount hall true _ configs (scan_loop hall true minutes configs configs s)
      (scan_loop-IsAccount hall true minutes configs configs s)
run_scan-IsAccount hall false minutes configs s =
    let s' = record s { no_recovery = true } in
    finally-IsAccount hall false _ configs (scan_loop hall false minutes configs configs s')
      (scan_loop-IsAccount hall false minutes configs configs s')

-- ===== src/Keeper/Released.antt =====
-- No child of a `SessionLockKeeper` is left running by `stop`.
use daq_control_vmm_beam.Base.{
  ℕ, ◌==◌, Bool, true, false, not, ◌&&◌, ◌||◌, Option, none, some, ◌≡◌, refl, ap, sym, arith,
  ==_iff, &&-split,
}
use daq_control_vmm_beam.Keeper.Steps.{
  Place, top, spawning, refused, pausing, ended, spawned, acquiring, locked, holding, Caller, calm,
  unwanting, joining, stopped, leaving, detached, signalling, Keeper, interrupt, Step, loops,
  leaves, spawns, fails, publishes, gets_lock, gets_none, holds, drops, retries, gives_up, renews,
  lets_go, resumes, expires, stops, reads, signals, joins, detaches, forgets, Reach, begins,
  then_step,
}

abbrev is_calm : Caller → Bool
is_calm calm = true
is_calm _ = false

abbrev is_detaching : Caller → Bool
is_detaching leaving = true
is_detaching detached = true
is_detaching _ = false

abbrev is_child : ℕ → Option ℕ → Bool
is_child p none = false
is_child p (some q) = p == q

-- The caller has still to end this child, or leaves it to expire.
abbrev is_due : Caller → Option ℕ → ℕ → Bool
is_due calm proc p = is_child p proc
is_due unwanting proc p = is_child p proc
is_due (signalling read) proc p = is_child p read
is_due joining proc p = false
is_due stopped proc p = false
is_due leaving proc p = true
is_due detached proc p = true

-- A child may run where the thread stands.
abbrev may_run : Place → Caller → Option ℕ → ℕ → Bool
may_run top caller proc p = not (is_calm caller) && is_due caller proc p
may_run ended caller proc p = not (is_calm caller) && is_due caller proc p
may_run spawning caller proc p = false
may_run refused caller proc p = false
may_run pausing caller proc p = false
may_run (spawned q) caller proc p = p == q
may_run (acquiring q) caller proc p = p == q && (is_child p proc || is_detaching caller)
may_run (locked q) caller proc p = p == q && (is_child p proc || is_detaching caller)
may_run (holding q) caller proc p = p == q && is_due caller proc p

record IsKept (k : Keeper) : Type 0 where
  wants : k.want ≡ is_calm k.caller
  runs : (p : ℕ) → k.running p ≡ true → may_run k.place k.caller k.proc p ≡ true

-- A child that runs after an interrupt ran before it, and is another one.
interrupt-runs :
    (o : Option ℕ) (running : ℕ → Bool) (p : ℕ)
    → interrupt o running p ≡ true
    → (running p ≡ true) × (is_child p o ≡ false)
interrupt-runs none running p r = (r, refl)
interrupt-runs (some q) running p r = ground arith

-- A caller that goes on, wherever the thread stands.
caller_moves :
    (place : Place) (c c' : Caller) (proc proc' : Option ℕ) (p : ℕ)
    → is_calm c' ≡ false
    → (is_due c proc p ≡ true → is_due c' proc' p ≡ true)
    → ((is_child p proc || is_detaching c) ≡ true → (is_child p proc' || is_detaching c') ≡ true)
    → may_run place c proc p ≡ true
    → may_run place c' proc' p ≡ true
caller_moves top c c' proc proc' p e due child r = ground arith
caller_moves ended c c' proc proc' p e due child r = ground arith
caller_moves spawning c c' proc proc' p e due child r = r
caller_moves refused c c' proc proc' p e due child r = r
caller_moves pausing c c' proc proc' p e due child r = r
caller_moves (spawned q) c c' proc proc' p e due child r = r
caller_moves (acquiring q) c c' proc proc' p e due child r = ground arith
caller_moves (locked q) c c' proc proc' p e due child r = ground arith
caller_moves (holding q) c c' proc proc' p e due child r = ground arith

-- The answer of a child that is wanted, or that is not.
locked-holding :
    (c : Caller) (proc : Option ℕ) (p q : ℕ)
    → is_calm c ≡ true
    → may_run (locked q) c proc p ≡ true
    → may_run (holding q) c proc p ≡ true
locked-holding c proc p q e r = ground arith

locked-ended :
    (c : Caller) (proc : Option ℕ) (p q : ℕ)
    → is_calm c ≡ false
    → is_child p proc ≡ false
    → may_run (locked q) c proc p ≡ true
    → may_run ended c proc p ≡ true
locked-ended c proc p q e n r = ground arith

holding-top :
    (c : Caller) (proc : Option ℕ) (p q : ℕ) (running : ℕ → Bool)
    → running q ≡ false
    → running p ≡ true
    → may_run (holding q) c proc p ≡ true
    → may_run top c proc p ≡ true
holding-top c proc p q running e r m =
    absurd (cc (e, r, ap running (sym ((==_iff p q).0 ((&&-split _ _ m).0)))))

step-IsKept : (k k' : Keeper) → Step k k' → IsKept k → IsKept k'
step-IsKept k k' (loops j) i = record {
  wants = i.wants;
  runs = λ p r. ground (arith, i.wants, i.runs p r);
}
step-IsKept k k' (leaves j) i = record { wants = i.wants; runs = i.runs }
step-IsKept k k' (spawns j) i = record {
  wants = i.wants;
  runs = λ p r. ground (arith, i.runs p, ==_iff p j.started);
}
step-IsKept k k' (fails j) i = record { wants = i.wants; runs = i.runs }
step-IsKept k k' (publishes j q) i = record {
  wants = i.wants;
  runs = λ p r. ground (arith, i.runs p r);
}
step-IsKept k k' (gets_lock j q) i = record { wants = i.wants; runs = i.runs }
step-IsKept k k' (gets_none j q) i = record {
  wants = i.wants;
  runs = λ p r. ground (arith, i.runs p);
}
step-IsKept k k' (holds j q) i = record {
  wants = i.wants;
  runs = λ p r. locked-holding j.caller j.proc p q (sym i.wants) (i.runs p r);
}
step-IsKept k k' (drops j q) i = record {
  wants = i.wants;
  runs = λ p r.
      let (r', n) = interrupt-runs j.proc j.running p r in
      locked-ended j.caller j.proc p q (sym i.wants) n (i.runs p r');
}
step-IsKept k k' (retries j) i = record { wants = i.wants; runs = i.runs }
step-IsKept k k' (gives_up j) i = record {
  wants = i.wants;
  runs = λ p r. absurd (cc (i.runs p ((interrupt-runs j.proc j.running p r).0)));
}
step-IsKept k k' (renews j q e) i = record {
  wants = i.wants;
  runs = λ p r. holding-top j.caller j.proc p q j.running e r (i.runs p r);
}
step-IsKept k k' (lets_go j q) i = record {
  wants = i.wants;
  runs = λ p r. ground (arith, i.wants, i.runs p r);
}
step-IsKept k k' (resumes j) i = record {
  wants = i.wants;
  runs = λ p r. ground (arith, i.runs p r);
}
step-IsKept k k' (expires j q) i = record {
  wants = i.wants;
  runs = λ p r. i.runs p (ground (arith, r));
}
step-IsKept k k' (stops j) i = record {
  wants = refl;
  runs = λ p r.
      caller_moves j.place calm unwanting j.proc j.proc p refl (λ d. d) (λ c. c) (i.runs p r);
}
step-IsKept k k' (reads j) i = record {
  wants = i.wants;
  runs = λ p r.
      caller_moves j.place unwanting (signalling j.proc) j.proc j.proc p refl (λ d. d) (λ c. c)
        (i.runs p r);
}
step-IsKept k k' (signals j q) i = record {
  wants = i.wants;
  runs = λ p r.
      let (r', n) = interrupt-runs q j.running p r in
      caller_moves j.place (signalling q) joining j.proc j.proc p refl (λ d. absurd (cc (d, n)))
        (λ c. c) (i.runs p r');
}
step-IsKept k k' (joins j) i = record {
  wants = i.wants;
  runs = λ p r.
      caller_moves j.place joining stopped j.proc j.proc p refl (λ d. d) (λ c. c) (i.runs p r);
}
step-IsKept k k' (detaches j) i = record {
  wants = refl;
  runs = λ p r.
      caller_moves j.place calm leaving j.proc j.proc p refl (λ d. refl) (λ c. ground arith)
        (i.runs p r);
}
step-IsKept k k' (forgets j) i = record {
  wants = i.wants;
  runs = λ p r.
      caller_moves j.place leaving detached j.proc none p refl (λ d. refl) (λ c. refl) (i.runs p r);
}

Reach-IsKept : (k : Keeper) → Reach k → IsKept k
Reach-IsKept _ begins = record { wants = refl; runs = λ p r. absurd (cc r) }
Reach-IsKept _ (then_step k k' reach step) = step-IsKept k k' step (Reach-IsKept k reach)

at_the_end :
    (place : Place) (caller : Caller) (proc : Option ℕ) (p : ℕ)
    → place ≡ ended
    → caller ≡ stopped
    → may_run place caller proc p ≡ false
at_the_end place caller proc p e s = rw (e, s) refl

-- However the steps of the thread, of the caller and of the children interleave: once `stop` is through
-- and the thread of the keeper has ended, no child of it runs, so that the lock is released. It is so too
-- where `stop` comes before a child is known, in the middle of its answer, or between two chunks.
pub Reach-released :
    (k : Keeper) → Reach k → k.place ≡ ended → k.caller ≡ stopped → (p : ℕ) → k.running p ≡ false
Reach-released k reach e s p =
    let kept = Reach-IsKept k reach in
    ground (arith, kept.runs p, at_the_end k.place k.caller k.proc p e s)

-- ===== src/Keeper/Steps.antt =====
-- session_lock.py: the thread of a `SessionLockKeeper` and the caller of `stop` or `detach`, step by step.
use daq_control_vmm_beam.Base.{
  ℕ, ◌+◌, ◌==◌, Bool, true, false, Option, none, some, if◌then◌else◌, ◌≡◌,
}

-- Where the thread stands in `_loop` and in `_acquire_once`: before the test of `_want`, before `Popen`,
-- with a child that `_proc` does not know yet, with one whose answer is read, with the answer that the
-- lock is held or another one, in the wait for the end of a child, in a wait without a child, at its end.
pub data Place : Type 0 where
  top spawning refused pausing ended : Place
  spawned acquiring locked holding : ℕ → Place

-- Where the caller stands: before a call; in `stop` after `_want`, with the child that it read, before
-- and after the end of `stop`; in `detach` after `_want`, and after `_proc`.
pub data Caller : Type 0 where
  calm unwanting joining stopped leaving detached : Caller
  signalling : Option ℕ → Caller

-- `_want`, `_proc`, which children run, and how many were started.
pub record Keeper : Type 0 where
  pub want : Bool
  pub proc : Option ℕ
  pub running : ℕ → Bool
  pub started : ℕ
  pub place : Place
  pub caller : Caller

abbrev pub set_running : ℕ → Bool → (ℕ → Bool) → ℕ → Bool
set_running p b running q = if q == p then b else running q

-- SIGINT to a child, and its end.
abbrev pub interrupt : Option ℕ → (ℕ → Bool) → ℕ → Bool
interrupt none running = running
interrupt (some p) running = set_running p false running

-- A step of the thread, of the caller, or the end of a child by itself.
pub data Step : Keeper → Keeper → Type 0 where
  loops :
      (k : Keeper)
      → Step (record k { want = true; place = top }) (record k { want = true; place = spawning })
  leaves :
      (k : Keeper)
      → Step (record k { want = false; place = top }) (record k { want = false; place = ended })
  spawns :
      (k : Keeper)
      → Step
          (record k { place = spawning })
          (record k {
            place = spawned k.started;
            running = set_running k.started true k.running;
            started = k.started + 1;
          })
  fails : (k : Keeper) → Step (record k { place = spawning }) (record k { place = refused })
  publishes :
      (k : Keeper) (p : ℕ)
      → Step (record k { place = spawned p }) (record k { place = acquiring p; proc = some p })
  gets_lock :
      (k : Keeper) (p : ℕ) → Step (record k { place = acquiring p }) (record k { place = locked p })
  gets_none :
      (k : Keeper) (p : ℕ)
      → Step
          (record k { place = acquiring p })
          (record k { place = refused; running = set_running p false k.running })
  holds :
      (k : Keeper) (p : ℕ)
      → Step
          (record k { want = true; place = locked p })
          (record k { want = true; place = holding p })
  drops :
      (k : Keeper) (p : ℕ)
      → Step
          (record k { want = false; place = locked p })
          (record k { want = false; place = ended; running = interrupt k.proc k.running })
  retries :
      (k : Keeper)
      → Step (record k { want = true; place = refused }) (record k { want = true; place = pausing })
  gives_up :
      (k : Keeper)
      → Step
          (record k { want = false; place = refused })
          (record k { want = false; place = ended; running = interrupt k.proc k.running })
  renews :
      (k : Keeper) (p : ℕ)
      → k.running p ≡ false
      → Step (record k { place = holding p }) (record k { place = top })
  lets_go :
      (k : Keeper) (p : ℕ)
      → Step (record k { want = false; place = holding p }) (record k { want = false; place = top })
  resumes : (k : Keeper) → Step (record k { place = pausing }) (record k { place = top })
  expires : (k : Keeper) (p : ℕ) → Step k (record k { running = set_running p false k.running })
  stops :
      (k : Keeper)
      → Step (record k { caller = calm }) (record k { want = false; caller = unwanting })
  reads :
      (k : Keeper)
      → Step (record k { caller = unwanting }) (record k { caller = signalling k.proc })
  signals :
      (k : Keeper) (p : Option ℕ)
      → Step
          (record k { caller = signalling p })
          (record k { caller = joining; running = interrupt p k.running })
  joins : (k : Keeper) → Step (record k { caller = joining }) (record k { caller = stopped })
  detaches :
      (k : Keeper) → Step (record k { caller = calm }) (record k { want = false; caller = leaving })
  forgets :
      (k : Keeper)
      → Step (record k { caller = leaving }) (record k { proc = none; caller = detached })

-- `start`, with the thread running.
abbrev pub begun_keeper : Keeper
begun_keeper = record {
  want = true;
  proc = none;
  running = λ _. false;
  started = 0;
  place = top;
  caller = calm;
}

-- What is reached from the start by any interleaving of the steps.
pub data Reach : Keeper → Type 0 where
  begins : Reach begun_keeper
  then_step : (k k' : Keeper) → Reach k → Step k k' → Reach k'

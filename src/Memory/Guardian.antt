-- ===== src/Memory/Guardian.antt =====
-- The choice of a process by mem_guardian.py, its signals, and a round of its loop.
use daq_control_vmm_beam.Base.{
  ℕ, zero, suc, ltb, ◌==◌, Bool, true, false, not, ◌&&◌, Option, none, some, List, [], ◌∷◌,
  if◌then◌else◌, Text, any, contains_text,
}

-- A process of /proc; a command line that cannot be read is empty, a size that cannot be read is 0.
pub record Process : Type 0 where
  pub pid : ℕ
  pub cmdline : Text
  pub rss_kb : ℕ

pub record MemoryConfig : Type 0 where
  pub kill_avail_mb : ℕ
  pub warn_avail_mb : ℕ
  pub killable : List Text
  pub protect : List Text

abbrev pub has_any : List Text → Text → Bool
has_any patterns cmd = any (λ k. contains_text k cmd) patterns

abbrev pub is_empty : Text → Bool
is_empty [] = true
is_empty (_ ∷ _) = false

-- The tests that let a process through to the comparison of sizes.
unfoldable pub is_eligible : ℕ → MemoryConfig → Process → Bool
is_eligible self_pid cfg p =
    not (p.pid == self_pid)
    && (not (is_empty p.cmdline)
        && (has_any cfg.killable p.cmdline && not (has_any cfg.protect p.cmdline)))

abbrev pub larger : Process → Option Process → Option Process
larger p none = some p
larger p (some q) = if ltb q.rss_kb p.rss_kb then some p else some q

unfoldable pub biggest_from : ℕ → MemoryConfig → List Process → Option Process → Option Process
biggest_from self_pid cfg [] best = best
biggest_from self_pid cfg (p ∷ ps) best =
    biggest_from self_pid cfg ps (if is_eligible self_pid cfg p then larger p best else best)

-- `biggest_killable`
unfoldable pub biggest_killable : ℕ → MemoryConfig → List Process → Option Process
biggest_killable self_pid cfg ps = biggest_from self_pid cfg ps none

pub data Signal : Type 0 where
  sigterm sigkill : ℕ → Signal

-- The looks for an exit, at most 30: whether the process is alive at each of them.
unfoldable pub outlives : (ℕ → Bool) → ℕ → Bool
outlives alive zero = true
outlives alive (suc n) = let rest = outlives alive n in if alive n then rest else false

-- `_kill`: SIGKILL only if SIGTERM could be sent and the process outlives every look.
unfoldable pub kill : Bool → (ℕ → Bool) → ℕ → List Signal
kill term_fails alive pid =
    if term_fails
    then sigterm pid ∷ []
    else if outlives alive 30
    then sigterm pid ∷ sigkill pid ∷ []
    else sigterm pid ∷ []

-- `_apply_gui_settings`: the values of the settings tab are taken only if the warning comes first.
unfoldable pub apply_gui_settings : ℕ → ℕ → MemoryConfig → MemoryConfig
apply_gui_settings new_kill new_warn cfg =
    if ltb new_kill new_warn
    then record cfg { kill_avail_mb = new_kill; warn_avail_mb = new_warn }
    else cfg

-- What a round of the loop finds: the memory (`none` where the kernel does not say), and the processes.
pub record Look : Type 0 where
  pub avail_mb : Option ℕ
  pub processes : List Process
  pub term_fails : Bool
  pub alive : ℕ → Bool

pub data Act : Type 0 where
  warns : ℕ → Act
  kills : ℕ → List Signal → Act
  finds_no_victim : Act

-- `warned`, and what was done, the last act first.
pub record Guardian : Type 0 where
  pub warned : Bool
  pub acts : List Act

abbrev pub attack : Look → Option Process → Guardian → Guardian
attack x none g = record { warned = false; acts = finds_no_victim ∷ g.acts }
attack x (some p) g = record {
  warned = false;
  acts = kills p.pid (kill x.term_fails x.alive p.pid) ∷ g.acts;
}

abbrev pub weigh : ℕ → MemoryConfig → Look → Option ℕ → Guardian → Guardian
weigh self_pid cfg x none g = g
weigh self_pid cfg x (some mb) g =
    if ltb mb cfg.kill_avail_mb
    then attack x (biggest_killable self_pid cfg x.processes) g
    else if ltb mb cfg.warn_avail_mb
    then if g.warned then g else record { warned = true; acts = warns mb ∷ g.acts }
    else record g { warned = false }

unfoldable pub guardian_round : ℕ → MemoryConfig → Look → Guardian → Guardian
guardian_round self_pid cfg x g = weigh self_pid cfg x x.avail_mb g

unfoldable pub guardian_rounds : ℕ → MemoryConfig → List Look → Guardian → Guardian
guardian_rounds self_pid cfg [] g = g
guardian_rounds self_pid cfg (x ∷ xs) g =
    guardian_rounds self_pid cfg xs (guardian_round self_pid cfg x g)
